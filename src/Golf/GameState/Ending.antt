-- ===== src/Golf/GameState/Ending.antt =====
-- A game of game_state.cc ends after a knock: there are only so many moves left.
use moon_base.Base.{
  ℕ, ◌+◌, ◌*◌, ◌≤◌, ◌≡◌, inl, inr, true, false, List, [], ◌∷◌, arith, length, if◌then◌else◌,
}
use moon_base.Base.Int.{ℤ}
use moon_base.Absl.{ok}
use moon_base.Golf.GameState.{GameState, Move, knocks, is_over, play, play_all}
use moon_base.Golf.GameState.Valid.{IsValid}
use moon_base.Golf.GameState.Rules.{
  Step, peeks, discards, swaps_draw, swaps_discard, knocked, play-Step,
}
use moon_base.Golf.GameState.Invariant.{Step-IsValid}
use moon_base.Golf.GameState.Turns.{turns, after_knock}
use moon_base.Golf.GameState.Turns.Counts.{play_all-nil, play_all-cons, turns-cons}

-- The peek of the present turn.
abbrev peeked : GameState → ℕ
peeked g = if g.peeked_at_draw_pile then 1 else 0

-- A turn has at most one peek, and who peeks has not ended the game.
Step-peeked :
    {g h : GameState} (m : Move)
    → Step g h m
    → (1 + peeked g ≤ 2 * turns (m ∷ []) + peeked h)
      × (h.peeked_at_draw_pile ≡ true → is_over h ≡ false)
unfolding is_over
Step-peeked m (peeks r u e) = rw (e, u) (omega arith, λ _. r.0)
Step-peeked m (discards c r top e) = rw e (ground arith, λ f. cc)
Step-peeked m (swaps_draw c p q r top seat e) = rw e (ground arith, λ f. cc)
Step-peeked m (swaps_discard c p q r u top seat e) = rw e (ground arith, λ f. cc)
Step-peeked m (knocked r u f e) = rw (e, u) (omega arith, λ f. cc)

play_all-peeked :
    (ms : List Move) (g : GameState) {h : GameState}
    → IsValid g
    → (g.peeked_at_draw_pile ≡ true → is_over g ≡ false)
    → play_all ms g ≡ ok h
    → (length ms + peeked g ≤ 2 * turns ms + peeked h)
      × (h.peeked_at_draw_pile ≡ true → is_over h ≡ false)
play_all-peeked [] g v tidy e = rw (play_all-nil g e) (omega arith, tidy)
play_all-peeked (m ∷ ms) g v tidy e =
    let (f, step, w, rest) = play_all-cons m ms g v e in
    let (l, tidy') = Step-peeked m step in
    let (l', tidy'') = play_all-peeked ms f w tidy' rest in
    (omega (arith, l, l', turns-cons m ms), tidy'')

-- After a knock in a well-formed game of n players no more than 2 (n - 1) moves can be carried out: a
-- turn, with at most one peek, for each of the others.
pub knock_ends :
    (g f h : GameState) (z : ℤ) (ms : List Move)
    → IsValid g
    → play knocks g z ≡ ok f
    → play_all ms f ≡ ok h
    → length ms + 2 ≤ 2 * length g.players
knock_ends g f h z ms v e r =
    let step = (play-Step g v knocks z e).1 in
    let (l, tidy) =
      play_all-peeked ms f (Step-IsValid knocks v step) (Step-peeked knocks step).1 r in
    elim (after_knock g f h z ms v e r) [
      | inl few ↦ omega (arith, few, l, at_most_one h)
      | inr (all, over) ↦ omega (arith, all, l, none h over tidy)
    ]
  where
    at_most_one : (h : GameState) → peeked h ≤ 1
    at_most_one h = ground arith

    none :
        (h : GameState)
        → is_over h ≡ true
        → (h.peeked_at_draw_pile ≡ true → is_over h ≡ false)
        → peeked h ≡ 0
    none h over tidy = ground (arith, over, tidy)
