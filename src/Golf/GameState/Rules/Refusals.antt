-- ===== src/Golf/GameState/Rules/Refusals.antt =====
-- Which moves game_state.cc refuses, and with what message.
use moon_base.Base.{
  String, ◌≡◌, refl, true, false, not, Option, none, some, arith, if◌then◌else◌, back,
  back_nonempty,
}
use moon_base.Base.Int.{ℤ, negsuc, eq_ℤ, eq_ℤ_iff}
use moon_base.Absl.{err, failed_precondition_error}
use moon_base.Cards.{Card}
use moon_base.Golf.GameState.{
  GameState, Move, peek, discard_draw, knocks, swap_draw, swap_discard, is_over,
  all_players_present, play, peek_at_draw_pile, swap_draw_for_discard_pile, swap_for_draw_pile,
  swap_for_discard_pile, knock,
}
use moon_base.Golf.GameState.Rules.Steps.{IsUnderWay}

-- The first rule that stands against a move, as the message that the code gives.
unfoldable pub move_refusal : Move → GameState → Option String
move_refusal peek g = if g.peeked_at_draw_pile then some "you can only peek once per turn" else none
move_refusal discard_draw g = none
move_refusal (swap_draw q) g = none
move_refusal (swap_discard q) g =
    if g.peeked_at_draw_pile then some "cannot swap for discard after peeking" else none
move_refusal knocks g =
    if g.peeked_at_draw_pile
    then some "cannot knock after peeking"
    else if eq_ℤ g.who_knocked (negsuc 0)
    then none
    else some "someone already knocked"

pub refusal : Move → GameState → ℤ → Option String
unfolding move_refusal
refusal m g z =
    if is_over g
    then some "game is over"
    else if not (all_players_present g)
    then some "not all players have joined"
    else if not (eq_ℤ g.whose_turn z)
    then some "not your turn"
    else move_refusal m g

pub refused :
    (m : Move) (g : GameState) (z : ℤ) (msg : String)
    → refusal m g z ≡ some msg
    → play m g z ≡ err (failed_precondition_error msg)
unfolding refusal play peek_at_draw_pile swap_for_draw_pile swap_draw_for_discard_pile
    swap_for_discard_pile knock
refused peek g z msg e = ground arith
refused discard_draw g z msg e = ground arith
refused (swap_draw q) g z msg e = ground arith
refused (swap_discard q) g z msg e = ground arith
refused knocks g z msg e = ground arith

pub unrefused :
    (m : Move) (g : GameState) (z : ℤ)
    → refusal m g z ≡ none
    → IsUnderWay g × (z ≡ g.whose_turn) × (move_refusal m g ≡ none)
unfolding refusal
unrefused m g z e = ground (arith, eq_ℤ_iff g.whose_turn z)

-- Something is left to draw while the game is not over.
pub draw_pile_top : (g : GameState) → is_over g ≡ false → (c : Card) × (back g.draw_pile ≡ some c)
unfolding is_over
draw_pile_top g e = back_nonempty g.draw_pile (ground arith)

-- Every move is refused once the game is over.
pub over_refusal :
    (m : Move) (g : GameState) (z : ℤ)
    → is_over g ≡ true
    → (msg : String) × (refusal m g z ≡ some msg)
unfolding refusal
over_refusal m g z e = ("game is over", rw (refusal, e) refl)
