-- ===== src/Golf/Tables.antt =====
-- A small table of two of cpp/cards/golf, for the tests.
use moon_base.Base.{ℕ, String, refl, false, some, [], ◌∷◌, arith}
use moon_base.Base.Int.{pos, negsuc}
use moon_base.Cards.{card_of_index}
use moon_base.Golf.Player.{Player}
use moon_base.Golf.GameState.{GameState}
use moon_base.Golf.GameState.Valid.{IsValid}
use moon_base.Golf.InMemoryGameStore.{InMemoryGameStore, empty_store}

abbrev pub hand : String → ℕ → ℕ → ℕ → ℕ → Player
hand n a b c d = record {
  name = some n;
  top_left_card = card_of_index a;
  top_right_card = card_of_index b;
  bottom_left_card = card_of_index c;
  bottom_right_card = card_of_index d;
}

abbrev pub alice : Player
alice = hand "alice" 0 1 2 3

abbrev pub bob : Player
bob = hand "bob_" 4 5 6 7

abbrev pub table : GameState
table = record {
  draw_pile = card_of_index 8 ∷ card_of_index 9 ∷ [];
  discard_pile = card_of_index 10 ∷ [];
  players = alice ∷ bob ∷ [];
  peeked_at_draw_pile = false;
  whose_turn = pos 0;
  who_knocked = negsuc 0;
  game_id = "0";
  version_id = "foo";
}

-- Alice knocks.
abbrev pub knocked_table : GameState
knocked_table = record table { whose_turn = pos 1; who_knocked = pos 0 }

-- Bob then puts the card that he draws on the discard pile.
abbrev pub last_table : GameState
last_table = record knocked_table {
  draw_pile = card_of_index 8 ∷ [];
  discard_pile = card_of_index 10 ∷ card_of_index 9 ∷ [];
  whose_turn = pos 0;
}

pub table-IsValid : IsValid table
table-IsValid = record {
  crowd = omega arith;
  turn = omega arith;
  knocker = refl;
  discards = refl;
  peeks = λ h. cc;
}

abbrev pub one_game : InMemoryGameStore
one_game = record empty_store { games_by_id = ("0", table) ∷ []; counter = 1 }
