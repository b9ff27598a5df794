-- ===== src/Golf/GameState/Turns.antt =====
-- The order of turns, and the end of the game after a knock.
pub mod Counts
use native.Mathlib.Nat.{mod-eq_of_lt, mod_self, mod-add-mod, add-zero, add_assoc}
use moon_base.Base.{
  ℕ, suc, ◌+◌, ◌-◌, ◌%◌, ◌≤◌, ◌<◌, ◌≡◌, refl, sym, ap, ◌∙◌, ◌≢◌, true, false, List, [], ◌∷◌, arith,
  leb, ◌==◌, if◌then◌else◌, length, length-set, length-pop_back, ◌⊎◌, inl, inr, Bool-cases, ==_iff,
}
use moon_base.Base.Int.{ℤ, pos, pos_part, eq_ℤ_iff}
use moon_base.Absl.{ok, ok_inj, >>=-ok}
use moon_base.Golf.GameState.{
  GameState, Move, peek, discard_draw, knocks, swap_draw, swap_discard, is_over, play, play_all,
}
use moon_base.Golf.GameState.Valid.{IsValid, turn_index, whose_turn-turn_index}
use moon_base.Golf.GameState.Rules.{
  Step, peeks, discards, swaps_draw, swaps_discard, knocked, play-Step,
}
use moon_base.Golf.GameState.Invariant.{Step-IsValid}
pub use moon_base.Golf.GameState.Turns.Counts.{turns, draws, Passes}
use moon_base.Golf.GameState.Turns.Counts.{
  play_all-nil, play_all-cons, next_index_cases, lag, lag-next, turns-cons, draws-cons, same_index,
  turn_index-lt,
}

Step-Passes :
    {g h : GameState} (m : Move)
    → IsValid g
    → Step g h m
    → Passes g (turns (m ∷ [])) (draws (m ∷ [])) h
Step-Passes {g} m v (peeks r u e) = rw e (
  whose_turn-turn_index g v
      ∙ ap pos (sym (same_index (turn_index g) (length g.players) (turn_index-lt g v))),
  refl,
  omega arith,
)
Step-Passes {g} m v (discards c r top e) =
    rw e (refl, refl, omega (arith, length-pop_back g.draw_pile top))
Step-Passes {g} m v (swaps_draw c p q r top seat e) =
    rw e (refl, length-set g.players _ _, omega (arith, length-pop_back g.draw_pile top))
Step-Passes {g} m v (swaps_discard c p q r u top seat e) =
    rw e (refl, length-set g.players _ _, omega arith)
Step-Passes {g} m v (knocked r u f e) = rw e (refl, refl, omega arith)

Passes-trans :
    (g f h : GameState) (a b c d : ℕ) → Passes g a c f → Passes f b d h → Passes g (a + b) (c + d) h
Passes-trans g f h a b c d (t, n, l) (t', n', l') = (
  t'
      ∙ ap pos (
          rw (n, ap pos_part t)
            (mod-add-mod (turn_index g + a) (length g.players) b
              ∙ rw (add_assoc (turn_index g) a b))),
  n' ∙ n,
  omega arith,
)

-- Turns go round the table: after a sequence of moves from a well-formed state it is the turn of the player as many seats on
-- as there were moves other than peeks, and the draw pile has lost one card for each draw.
pub play_all-Passes :
    (ms : List Move) (g : GameState) {h : GameState}
    → IsValid g
    → play_all ms g ≡ ok h
    → Passes g (turns ms) (draws ms) h
play_all-Passes [] g v e = rw (play_all-nil g e) (
  whose_turn-turn_index g v
      ∙ ap pos (sym (same_index (turn_index g) (length g.players) (turn_index-lt g v))),
  refl,
  omega arith,
)
play_all-Passes (m ∷ ms) g {h} v e =
    let (f, step, w, rest) = play_all-cons m ms g v e in
    rw (turns-cons m ms, draws-cons m ms)
      (Passes-trans g f h _ _ _ _ (Step-Passes m v step) (play_all-Passes ms f w rest))

-- Every state that moves lead to from a well-formed one is well formed.
pub play_all-IsValid :
    (ms : List Move) (g : GameState) {h : GameState} → IsValid g → play_all ms g ≡ ok h → IsValid h
play_all-IsValid [] g v e = rw (play_all-nil g e) v
play_all-IsValid (m ∷ ms) g v e =
    let (f, _, w, rest) = play_all-cons m ms g v e in play_all-IsValid ms f w rest

-- While somebody has knocked and the game is not over, a move brings the knocker's turn nearer by
-- the turns that it passes on.
turn_ne_knocker :
    (g : GameState) (k : ℕ)
    → IsValid g
    → g.who_knocked ≡ pos k
    → is_over g ≡ false
    → turn_index g ≢ k
unfolding is_over
turn_ne_knocker g k v e o same =
    ground (arith, whose_turn-turn_index g v, eq_ℤ_iff g.whose_turn g.who_knocked)

next_lag :
    (g : GameState) (k : ℕ)
    → IsValid g
    → g.who_knocked ≡ pos k
    → is_over g ≡ false
    → lag (length g.players) k (turn_index g)
      ≡ suc (lag (length g.players) k ((turn_index g + 1) % length g.players))
next_lag g k v e o =
    lag-next (length g.players) k (turn_index g) (turn_index-lt g v) (rw e at v.knocker)
      (turn_ne_knocker g k v e o)

Step-lag :
    {g h : GameState} (k : ℕ) (m : Move)
    → IsValid g
    → g.who_knocked ≡ pos k
    → Step g h m
    → (h.who_knocked ≡ pos k)
      × (lag (length g.players) k (turn_index g)
          ≡ turns (m ∷ []) + lag (length g.players) k (turn_index h))
Step-lag {g} k m v e (peeks r u h) = rw h (e, omega arith)
Step-lag {g} k m v e (discards c r top h) = rw h (e, omega (arith, next_lag g k v e r.0))
Step-lag {g} k m v e (swaps_draw c p q r top seat h) = rw h (e, omega (arith, next_lag g k v e r.0))
Step-lag {g} k m v e (swaps_discard c p q r u top seat h) =
    rw h (e, omega (arith, next_lag g k v e r.0))
Step-lag {g} k m v e (knocked r u f h) = cc

play_all-lag :
    (k : ℕ) (ms : List Move) (g : GameState) {h : GameState}
    → IsValid g
    → g.who_knocked ≡ pos k
    → play_all ms g ≡ ok h
    → (h.who_knocked ≡ pos k)
      × (lag (length g.players) k (turn_index g)
          ≡ turns ms + lag (length g.players) k (turn_index h))
play_all-lag k [] g v e r = rw (play_all-nil g r) (e, omega arith)
play_all-lag k (m ∷ ms) g {h} v e r =
    let (f, step, w, rest) = play_all-cons m ms g v r in
    let (e', l) = Step-lag k m v e step in
    let (e'', l') = play_all-lag k ms f w e' rest in
    let (_, n, _) = Step-Passes m v step in (e'', omega (arith, l, rw n at l', turns-cons m ms))

lag-start : (n t : ℕ) → t < n → lag n t ((t + 1) % n) + 1 ≡ n
lag-start n t h = rw (next_index_cases t n h) (ground arith)

lag_zero : (n k t : ℕ) → t < n → lag n k t ≡ 0 → t ≡ k
lag_zero n k t h e = ground arith

-- The state after a knock.
abbrev Awaits : GameState → GameState → Type 0
Awaits g f =
    (f.who_knocked ≡ pos (turn_index g))
    × (length f.players ≡ length g.players)
    × (lag (length g.players) (turn_index g) (turn_index f) + 1 ≡ length g.players)

Step-Awaits : {g f : GameState} → IsValid g → Step g f knocks → Awaits g f
Step-Awaits {g} v (knocked r u k e) = rw e (
  whose_turn-turn_index g v,
  refl,
  lag-start (length g.players) (turn_index g) (turn_index-lt g v),
)

over_at : (h : GameState) → h.whose_turn ≡ h.who_knocked → is_over h ≡ true
unfolding is_over
over_at h e = ground (arith, eq_ℤ_iff h.whose_turn h.who_knocked)

-- After a knock in a well-formed game, the moves in sequence are turns of fewer than the other players, or of all the others,
-- one turn each, and then the game is over.
pub after_knock :
    (g f h : GameState) (z : ℤ) (ms : List Move)
    → IsValid g
    → play knocks g z ≡ ok f
    → play_all ms f ≡ ok h
    → (turns ms + 1 < length g.players) ⊎ ((turns ms + 1 ≡ length g.players) × (is_over h ≡ true))
after_knock g f h z ms v e r =
    let step = (play-Step g v knocks z e).1 in
    let (k, n, start) = Step-Awaits v step in
    let w = Step-IsValid knocks v step in
    let (k', l) = play_all-lag (turn_index g) ms f w k r in
    let (t, n', _) = play_all-Passes ms f w r in
    let u = play_all-IsValid ms f w r in
    elim (Bool-cases (turns ms + 1 == length g.players)) [
      | inr less ↦
          inl (below (turns ms + 1) (length g.players) less (omega (arith, start, rw n at l)))
      | inl same ↦
          let all = (==_iff (turns ms + 1) (length g.players)).0 same in
          inr (
            all,
            over_at h (
                whose_turn-turn_index h u
                ∙ ap pos (
                    lag_zero (length g.players) (turn_index g) (turn_index h)
                      (rw (n' ∙ n) at (turn_index-lt h u)) (omega (arith, start, all, rw n at l)))
                ∙ sym k'),
          )
    ]
  where
    below : (a b : ℕ) → a == b ≡ false → a ≤ b → a < b
    below a b e h = ground (arith, ==_iff a b)
