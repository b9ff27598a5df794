-- ===== src/Golf/StateMapper/Tests.antt =====
-- What a user is shown of a small game, and of another that looks the same.
use moon_base.Base.{ℕ, String, ◌≡◌, refl, false, some, [], ◌∷◌, map, arith, if◌then◌else◌}
use moon_base.Base.Int.{pos, negsuc}
use moon_base.Absl.{ok}
use moon_base.Cards.{card_of_index}
use moon_base.Cards.Mapper.{card_to_string}
use moon_base.Golf.Player.{Player, score}
use moon_base.Golf.GameState.{GameState, is_over, player_at, player_index, player_index_from}
use moon_base.Golf.GameState.Valid.{IsValid}
use moon_base.Golf.StateMapper.{GameStateResponse, game_state_to_proto}
use moon_base.Golf.StateMapper.Views.{Alike, game_state_to_proto_lem, game_state_to_proto_hides}

abbrev hand : String → ℕ → ℕ → Player
hand n a b = record {
  name = some n;
  top_left_card = card_of_index a;
  top_right_card = card_of_index b;
  bottom_left_card = card_of_index 2;
  bottom_right_card = card_of_index 3;
}

abbrev game_of : ℕ → ℕ → ℕ → GameState
game_of a b c = record {
  draw_pile = card_of_index a ∷ [];
  discard_pile = card_of_index 10 ∷ [];
  players = hand "alice" b 1 ∷ hand "bob_" c 5 ∷ [];
  peeked_at_draw_pile = false;
  whose_turn = pos 0;
  who_knocked = negsuc 0;
  game_id = "0";
  version_id = "foo";
}

abbrev game : GameState
game = game_of 8 0 4

abbrev other_game : GameState
other_game = game_of 9 11 12

game-IsValid : IsValid game
game-IsValid = record {
  crowd = omega arith;
  turn = omega arith;
  knocker = refl;
  discards = refl;
  peeks = λ h. cc;
}

alice_seat : player_at game.players (player_index game "alice") ≡ some (hand "alice" 0 1)
unfolding player_index player_index_from
alice_seat = refl

games-Alike : Alike game other_game "alice" (hand "alice" 0 1) (hand "alice" 11 1)
unfolding player_index player_index_from is_over
games-Alike = record {
  seat = refl;
  other_seat = refl;
  left = refl;
  right = refl;
  names = refl;
  draw = refl;
  discard = refl;
  turn = refl;
  knocker = refl;
  id = refl;
  going_on = refl;
  other_going_on = refl;
  unpeeked = refl;
  other_unpeeked = refl;
}

game_state_to_proto_lem_example :
    (r : GameStateResponse) × (game_state_to_proto game "alice" ≡ ok r)
    × (r.hand.bottom_left ≡ card_to_string (card_of_index 2))
    × (r.hand.bottom_right ≡ card_to_string (card_of_index 3))
    × (r.scores ≡ (if is_over game then map score game.players else []))
game_state_to_proto_lem_example =
    game_state_to_proto_lem game "alice" (hand "alice" 0 1) game-IsValid alice_seat

game_state_to_proto_hides_example :
    game_state_to_proto game "alice" ≡ game_state_to_proto other_game "alice"
game_state_to_proto_hides_example =
    game_state_to_proto_hides game other_game "alice" (hand "alice" 0 1) (hand "alice" 11 1)
      games-Alike
