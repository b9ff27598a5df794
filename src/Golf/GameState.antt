-- ===== src/Golf/GameState.antt =====
-- cpp/cards/golf/game_state.h and game_state.cc: the state of one game, and the moves, each of
-- which returns a new state, a refusal, or does not return.
pub mod Valid
pub mod Names
pub mod Seats
pub mod Frozen
pub mod Rules
pub mod Invariant
pub mod Conservation
pub mod Turns
pub mod Ending
pub mod Winners
use moon_base.Base.{
  ℕ, suc, ◌+◌, ◌%◌, String, Bool, true, false, not, ◌||◌, Option, none, List, [], ◌∷◌, ◌==◌,
  if◌then◌else◌, length, get_elem?, all_of, back, pop_back, push_back, is_empty,
}
use moon_base.Base.Int.{ℤ, pos, negsuc, ◌+ℤ◌, eq_ℤ, ltb_ℤ, int_max, to_size, to_int}
use moon_base.Absl.{
  StatusOr, ok, fault, ◌>>=◌, ◌>>◌, refuse_if, or_fault, failed_precondition_error,
  throws_out_of_range, undefined,
}
use moon_base.Cards.{Card}
use moon_base.Golf.Player.{Player, Position, is_present, score, card_at, swap_card, name_matches}

pub record GameState : Type 0 where
  pub draw_pile : List Card
  pub discard_pile : List Card
  pub players : List Player
  pub peeked_at_draw_pile : Bool
  pub whose_turn : ℤ
  pub who_knocked : ℤ
  pub game_id : String
  pub version_id : String

-- `GameState::isOver`
unfoldable pub is_over : GameState → Bool
is_over g = is_empty g.draw_pile || eq_ℤ g.whose_turn g.who_knocked

-- `GameState::allPlayersPresent`
abbrev pub all_players_present : GameState → Bool
all_players_present g = all_of is_present g.players

-- `find` in, and `insert` into, a set of ints.
abbrev pub has_int : ℤ → List ℤ → Bool
has_int z [] = false
has_int z (y ∷ ys) = if eq_ℤ y z then true else has_int z ys

abbrev pub insert_int : ℤ → List ℤ → List ℤ
insert_int z ys = if has_int z ys then ys else push_back ys z

-- The loop of `GameState::winners`, from the player of index `i` on.
pub winners_loop : List Player → ℕ → ℤ → List ℤ → List ℤ
winners_loop [] i min_score winning = winning
winners_loop (p ∷ ps) i min_score winning =
    let lower = ltb_ℤ (score p) min_score in
    let min_score' = if lower then score p else min_score in
    let winning' = if lower then [] else winning in
    winners_loop ps (i + 1) min_score'
      (if eq_ℤ (score p) min_score' then insert_int (pos i) winning' else winning')

-- `GameState::winners`
unfoldable pub winners : GameState → List ℤ
unfolding winners_loop
winners g =
    let winning = winners_loop g.players 0 (pos 40) [] in
    if has_int g.who_knocked winning then g.who_knocked ∷ [] else winning

-- `players.at(index)`: a negative index is a huge `size_t`, so `at` throws.
abbrev pub player_at : List Player → ℤ → Option Player
player_at ps (pos i) = get_elem? ps i
player_at ps (negsuc i) = none

-- `GameState::playerIndex`
unfoldable pub player_index_from : ℕ → List Player → String → ℤ
player_index_from i [] username = negsuc 0
player_index_from i (p ∷ ps) username =
    if name_matches p username then pos i else player_index_from (i + 1) ps username

unfoldable pub player_index : GameState → String → ℤ
unfolding player_index_from
player_index g username = player_index_from 0 g.players username

-- `(whoseTurn + 1) % players.size()`: the sum of two ints, which may overflow, turned into a
-- `size_t`; the remainder turned into an int.
unfoldable pub next_turn : GameState → StatusOr ℤ
next_turn g =
    if eq_ℤ g.whose_turn (pos int_max) || length g.players == 0
    then fault undefined
    else ok (to_int (to_size (g.whose_turn +ℤ pos 1) % length g.players))

-- The loop that copies the players, with the current player updated.
pub updated_players : ℕ → ℤ → Player → List Player → List Player
updated_players i turn p [] = []
updated_players i turn p (q ∷ qs) =
    (if eq_ℤ (to_int i) turn then p else q) ∷ updated_players (suc i) turn p qs

-- `GameState::peekAtDrawPile`
unfoldable pub peek_at_draw_pile : GameState → ℤ → StatusOr GameState
peek_at_draw_pile g player = do
  refuse_if (is_over g) (failed_precondition_error "game is over")
  refuse_if (not (all_players_present g)) (failed_precondition_error "not all players have joined")
  refuse_if (not (eq_ℤ g.whose_turn player)) (failed_precondition_error "not your turn")
  refuse_if g.peeked_at_draw_pile (failed_precondition_error "you can only peek once per turn")
  ok (record g { peeked_at_draw_pile = true })

-- `GameState::swapDrawForDiscardPile`
unfoldable pub swap_draw_for_discard_pile : GameState → ℤ → StatusOr GameState
swap_draw_for_discard_pile g player = do
  refuse_if (is_over g) (failed_precondition_error "game is over")
  refuse_if (not (all_players_present g)) (failed_precondition_error "not all players have joined")
  refuse_if (not (eq_ℤ g.whose_turn player)) (failed_precondition_error "not your turn")
  drawn ← or_fault (back g.draw_pile) undefined
  turn ← next_turn g
  ok (record g {
    draw_pile = pop_back g.draw_pile;
    discard_pile = push_back g.discard_pile drawn;
    peeked_at_draw_pile = false;
    whose_turn = turn;
  })

-- `GameState::swapForDrawPile`
unfoldable pub swap_for_draw_pile : GameState → ℤ → Position → StatusOr GameState
swap_for_draw_pile g player position = do
  refuse_if (is_over g) (failed_precondition_error "game is over")
  refuse_if (not (all_players_present g)) (failed_precondition_error "not all players have joined")
  refuse_if (not (eq_ℤ g.whose_turn player)) (failed_precondition_error "not your turn")
  into_hand ← or_fault (back g.draw_pile) undefined
  current ← or_fault (player_at g.players player) throws_out_of_range
  turn ← next_turn g
  ok (record g {
    draw_pile = pop_back g.draw_pile;
    discard_pile = push_back g.discard_pile (card_at current position);
    players = updated_players 0 g.whose_turn (swap_card current into_hand position) g.players;
    peeked_at_draw_pile = false;
    whose_turn = turn;
  })

-- `GameState::swapForDiscardPile`
unfoldable pub swap_for_discard_pile : GameState → ℤ → Position → StatusOr GameState
swap_for_discard_pile g player position = do
  refuse_if (is_over g) (failed_precondition_error "game is over")
  refuse_if (not (all_players_present g)) (failed_precondition_error "not all players have joined")
  refuse_if (not (eq_ℤ g.whose_turn player)) (failed_precondition_error "not your turn")
  refuse_if g.peeked_at_draw_pile
      (failed_precondition_error "cannot swap for discard after peeking")
  into_hand ← or_fault (back g.discard_pile) undefined
  current ← or_fault (player_at g.players player) throws_out_of_range
  turn ← next_turn g
  ok (record g {
    discard_pile = push_back (pop_back g.discard_pile) (card_at current position);
    players = updated_players 0 g.whose_turn (swap_card current into_hand position) g.players;
    peeked_at_draw_pile = false;
    whose_turn = turn;
  })

-- `GameState::knock`
unfoldable pub knock : GameState → ℤ → StatusOr GameState
knock g player = do
  refuse_if (is_over g) (failed_precondition_error "game is over")
  refuse_if (not (all_players_present g)) (failed_precondition_error "not all players have joined")
  refuse_if (not (eq_ℤ g.whose_turn player)) (failed_precondition_error "not your turn")
  refuse_if g.peeked_at_draw_pile (failed_precondition_error "cannot knock after peeking")
  refuse_if (not (eq_ℤ g.who_knocked (negsuc 0)))
      (failed_precondition_error "someone already knocked")
  turn ← next_turn g
  ok (record g { peeked_at_draw_pile = false; whose_turn = turn; who_knocked = player })

-- `GameState::withPlayers`
abbrev pub with_players : GameState → List Player → GameState
with_players g ps = record g { players = ps; peeked_at_draw_pile = false }

-- `GameState::withIdAndVersion`
abbrev pub with_id_and_version : GameState → String → String → GameState
with_id_and_version g id version = record g { game_id = id; version_id = version }

-- One of the five moves.
pub data Move : Type 0 where
  peek discard_draw knocks : Move
  swap_draw swap_discard : Position → Move

unfoldable pub play : Move → GameState → ℤ → StatusOr GameState
play peek g player = peek_at_draw_pile g player
play discard_draw g player = swap_draw_for_discard_pile g player
play knocks g player = knock g player
play (swap_draw position) g player = swap_for_draw_pile g player position
play (swap_discard position) g player = swap_for_discard_pile g player position

-- A sequence of moves, each by the player whose turn it is.
unfoldable pub play_all : List Move → GameState → StatusOr GameState
unfolding play
play_all [] g = ok g
play_all (m ∷ ms) g = do h ← play m g g.whose_turn; play_all ms h
