-- ===== src/Golf/DocDbGameStore/Proto/RoundTrip.antt =====
-- What doc_db_game_store.cc makes of a game that it writes and reads back.
use moon_base.Base.{String, ◌≡◌, refl, some, List, [], ◌∷◌, map}
use moon_base.Absl.{ok}
use moon_base.Cards.{
  Suit, Rank, Card, clubs, diamonds, hearts, spades, two, three, four, five, six, seven, eight,
  nine, ten, jack, queen, king, ace,
}
use moon_base.Golf.Player.{Player}
use moon_base.Golf.GameState.{GameState}
use moon_base.Golf.GameStore.Safe.{restarted}
use moon_base.Golf.DocDbGameStore.Proto.{
  card_to_proto, proto_to_card, player_to_proto, proto_to_player, game_to_proto, proto_to_cards,
  proto_to_players, proto_to_game_state, rank_by_proto_rank, proto_rank_by_rank, suit_by_proto_suit,
  proto_suit_by_suit,
}

rank_round_trip : (r : Rank) → rank_by_proto_rank (proto_rank_by_rank r) ≡ some r
rank_round_trip two = refl
rank_round_trip three = refl
rank_round_trip four = refl
rank_round_trip five = refl
rank_round_trip six = refl
rank_round_trip seven = refl
rank_round_trip eight = refl
rank_round_trip nine = refl
rank_round_trip ten = refl
rank_round_trip jack = refl
rank_round_trip queen = refl
rank_round_trip king = refl
rank_round_trip ace = refl

suit_round_trip : (s : Suit) → suit_by_proto_suit (proto_suit_by_suit s) ≡ some s
suit_round_trip clubs = refl
suit_round_trip diamonds = refl
suit_round_trip hearts = refl
suit_round_trip spades = refl

card_round_trip : (c : Card) → proto_to_card (card_to_proto c) ≡ ok c
card_round_trip c = rw (suit_round_trip c.suit, rank_round_trip c.rank) refl

player_round_trip : (p : Player) → proto_to_player (player_to_proto p) ≡ ok p
player_round_trip p =
    rw
      (
        card_round_trip p.top_left_card,
        card_round_trip p.top_right_card,
        card_round_trip p.bottom_left_card,
        card_round_trip p.bottom_right_card,
      )
      refl

cards_round_trip : (cs : List Card) → proto_to_cards (map card_to_proto cs) ≡ ok cs
cards_round_trip [] = refl
cards_round_trip (c ∷ cs) = rw (card_round_trip c, cards_round_trip cs) refl

players_round_trip : (ps : List Player) → proto_to_players (map player_to_proto ps) ≡ ok ps
players_round_trip [] = refl
players_round_trip (p ∷ ps) = rw (player_round_trip p, players_round_trip ps) refl

-- A game turned into the stored message and back has the same piles and players, but it is the turn
-- of player 0, nobody has peeked and nobody has knocked, whatever it was before.
pub proto_to_game_state-game_to_proto :
    (g : GameState) (game_id version_id : String)
    → proto_to_game_state (game_to_proto g) game_id version_id ≡ ok (restarted g game_id version_id)
unfolding proto_to_game_state game_to_proto
proto_to_game_state-game_to_proto g game_id version_id =
    rw (cards_round_trip g.draw_pile, cards_round_trip g.discard_pile, players_round_trip g.players)
      refl
