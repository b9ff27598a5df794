-- ===== src/Golf/StateMapper.antt =====
-- cpp/golf_service/game_state_mapper.h and game_state_mapper.cc: what a user is shown of a game.
-- Its two tables of texts are not used: the texts of cards are those of cpp/cards/card_mapper.cc.
pub mod Views
mod Tests
use moon_base.Base.{
  ℕ, String, Bool, true, false, ◌&&◌, Option, none, some, List, [], ◌∷◌, map, length, back,
  if◌then◌else◌,
}
use moon_base.Base.Int.{ℤ, pos, negsuc, eq_ℤ, to_int}
use moon_base.Absl.{StatusOr, ok, err, fault, ◌>>=◌, or_fault, throws_out_of_range, undefined}
use moon_base.Cards.{Card}
use moon_base.Cards.Mapper.{card_to_string}
use moon_base.Golf.Player.{Player, score}
use moon_base.Golf.GameState.{GameState, is_over, all_players_present, player_at, player_index}

pub record VisibleHand : Type 0 where
  pub bottom_left : String
  pub bottom_right : String

-- The fields of the message but `game_started` and `players`, which are never set.
pub record GameStateResponse : Type 0 where
  pub all_here : Bool
  pub discard_size : ℤ
  pub draw_size : ℤ
  pub game_id : String
  pub game_over : Bool
  pub knocker : Option String
  pub hand : VisibleHand
  pub number_of_players : ℤ
  pub scores : List ℤ
  pub top_discard : String
  pub top_draw : Option String
  pub your_turn : Bool

-- The name of the player who knocked, if any.
unfoldable pub knocker_name : GameState → StatusOr (Option String)
knocker_name g =
    if eq_ℤ g.who_knocked (negsuc 0)
    then ok none
    else (or_fault (player_at g.players g.who_knocked) throws_out_of_range >>= λ p. ok p.name)

-- The top of the draw pile, for the player who has peeked at it.
unfoldable pub peeked_card : GameState → ℤ → StatusOr (Option String)
peeked_card g index =
    if g.peeked_at_draw_pile && eq_ℤ g.whose_turn index
    then (or_fault (back g.draw_pile) undefined >>= λ c. ok (some (card_to_string c)))
    else ok none

-- The message, of the player's index and hand, the top of the discard pile, and the rest.
abbrev pub response :
    GameState → ℤ → Player → Card → Option String → Option String → GameStateResponse
response g index player top knocker drawn = record {
  all_here = all_players_present g;
  discard_size = to_int (length g.discard_pile);
  draw_size = to_int (length g.draw_pile);
  game_id = g.game_id;
  game_over = is_over g;
  knocker = knocker;
  hand = record {
    bottom_left = card_to_string player.bottom_left_card;
    bottom_right = card_to_string player.bottom_right_card;
  };
  number_of_players = to_int (length g.players);
  scores = if is_over g then map score g.players else [];
  top_discard = card_to_string top;
  top_draw = drawn;
  your_turn = eq_ℤ g.whose_turn index;
}

-- `GameStateMapper::gameStateToProto`
unfoldable pub game_state_to_proto : GameState → String → StatusOr GameStateResponse
unfolding knocker_name peeked_card
game_state_to_proto g username = do
  knocker ← knocker_name g
  player ← or_fault (player_at g.players (player_index g username)) throws_out_of_range
  top ← or_fault (back g.discard_pile) undefined
  drawn ← peeked_card g (player_index g username)
  ok (response g (player_index g username) player top knocker drawn)
