-- ===== src/Golf/DocDbGameStore/Proto.antt =====
-- The messages of protos/golf/golf_model.proto, and the conversions of doc_db_game_store.cc between
-- them and games. An enumerator travels as its number, and a number without one makes `at` throw.
pub mod RoundTrip
use moon_base.Base.{ℕ, String, Bool, false, Option, none, some, List, [], ◌∷◌, get_elem?, map}
use moon_base.Base.Int.{ℤ, pos, negsuc}
use moon_base.Absl.{StatusOr, ok, err, fault, ◌>>=◌, or_fault, throws_out_of_range}
use moon_base.Cards.{
  Suit, Rank, Card, suit_index, rank_index, clubs, diamonds, hearts, spades, two, three, four, five,
  six, seven, eight, nine, ten, jack, queen, king, ace,
}
use moon_base.Golf.Player.{Player}
use moon_base.Golf.GameState.{GameState}

pub record CardProto : Type 0 where
  pub suit : ℤ
  pub rank : ℤ

pub record PlayerProto : Type 0 where
  pub name : Option String
  pub top_left : CardProto
  pub top_right : CardProto
  pub bottom_left : CardProto
  pub bottom_right : CardProto

pub record BackendGameState : Type 0 where
  pub draw_pile : List CardProto
  pub discard_pile : List CardProto
  pub players : List PlayerProto
  pub peeked_at_draw_pile : Bool
  pub whose_turn : ℤ
  pub who_knocked : ℤ

-- `PROTO_RANK_BY_RANK` and `PROTO_SUIT_BY_SUIT`: the enumerators stand in the same order.
abbrev pub proto_rank_by_rank : Rank → ℤ
proto_rank_by_rank r = pos (rank_index r)

abbrev pub proto_suit_by_suit : Suit → ℤ
proto_suit_by_suit s = pos (suit_index s)

-- `RANK_BY_PROTO_RANK` and `SUIT_BY_PROTO_SUIT`
abbrev pub rank_by_proto_rank : ℤ → Option Rank
rank_by_proto_rank (pos i) =
    get_elem?
      (two ∷ three ∷ four ∷ five ∷ six ∷ seven ∷ eight ∷ nine ∷ ten ∷ jack ∷ queen ∷ king ∷ ace
        ∷ [])
      i
rank_by_proto_rank (negsuc i) = none

abbrev pub suit_by_proto_suit : ℤ → Option Suit
suit_by_proto_suit (pos i) = get_elem? (clubs ∷ diamonds ∷ hearts ∷ spades ∷ []) i
suit_by_proto_suit (negsuc i) = none

abbrev pub card_to_proto : Card → CardProto
card_to_proto c = record { suit = proto_suit_by_suit c.suit; rank = proto_rank_by_rank c.rank }

abbrev pub proto_to_card : CardProto → StatusOr Card
proto_to_card c = do
  s ← or_fault (suit_by_proto_suit c.suit) throws_out_of_range
  r ← or_fault (rank_by_proto_rank c.rank) throws_out_of_range
  ok (record { suit = s; rank = r })

abbrev pub proto_to_player : PlayerProto → StatusOr Player
proto_to_player p = do
  tl ← proto_to_card p.top_left
  tr ← proto_to_card p.top_right
  bl ← proto_to_card p.bottom_left
  br ← proto_to_card p.bottom_right
  ok (record {
    name = p.name;
    top_left_card = tl;
    top_right_card = tr;
    bottom_left_card = bl;
    bottom_right_card = br;
  })

-- The part of `game_to_proto` for a player.
abbrev pub player_to_proto : Player → PlayerProto
player_to_proto p = record {
  name = p.name;
  top_left = card_to_proto p.top_left_card;
  top_right = card_to_proto p.top_right_card;
  bottom_left = card_to_proto p.bottom_left_card;
  bottom_right = card_to_proto p.bottom_right_card;
}

unfoldable pub game_to_proto : GameState → BackendGameState
game_to_proto g = record {
  draw_pile = map card_to_proto g.draw_pile;
  discard_pile = map card_to_proto g.discard_pile;
  players = map player_to_proto g.players;
  peeked_at_draw_pile = false;
  whose_turn = pos 0;
  who_knocked = negsuc 0;
}

-- The loops of `proto_to_game_state`.
abbrev pub proto_to_cards : List CardProto → StatusOr (List Card)
proto_to_cards [] = ok []
proto_to_cards (c ∷ cs) = do d ← proto_to_card c; ds ← proto_to_cards cs; ok (d ∷ ds)

abbrev pub proto_to_players : List PlayerProto → StatusOr (List Player)
proto_to_players [] = ok []
proto_to_players (p ∷ ps) = do q ← proto_to_player p; qs ← proto_to_players ps; ok (q ∷ qs)

unfoldable pub proto_to_game_state : BackendGameState → String → String → StatusOr GameState
proto_to_game_state proto game_id version_id = do
  draw_pile ← proto_to_cards proto.draw_pile
  discard_pile ← proto_to_cards proto.discard_pile
  players ← proto_to_players proto.players
  ok (record {
    draw_pile = draw_pile;
    discard_pile = discard_pile;
    players = players;
    peeked_at_draw_pile = proto.peeked_at_draw_pile;
    whose_turn = proto.whose_turn;
    who_knocked = proto.who_knocked;
    game_id = game_id;
    version_id = version_id;
  })
