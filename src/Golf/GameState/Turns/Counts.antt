-- ===== src/Golf/GameState/Turns/Counts.antt =====
-- The turns and the draws of a list of moves, and the way of the turn around the table.
use native.Mathlib.Nat.{mod-eq_of_lt, mod_self, add-zero}
use moon_base.Base.{
  ℕ, suc, ◌+◌, ◌-◌, ◌%◌, ◌<◌, ◌≡◌, sym, ◌≢◌, List, [], ◌∷◌, arith, leb, ◌==◌, if◌then◌else◌, length,
}
use moon_base.Base.Int.{pos}
use moon_base.Absl.{ok, ok_inj, >>=-ok}
use moon_base.Golf.GameState.{
  GameState, Move, peek, discard_draw, knocks, swap_draw, swap_discard, play, play_all,
}
use moon_base.Golf.GameState.Valid.{IsValid, turn_index}
use moon_base.Golf.GameState.Rules.{Step, play-Step}
use moon_base.Golf.GameState.Invariant.{Step-IsValid}

-- How many of the moves pass the turn on: all but the peeks.
abbrev pub turns : List Move → ℕ
turns [] = 0
turns (peek ∷ ms) = turns ms
turns (discard_draw ∷ ms) = suc (turns ms)
turns (knocks ∷ ms) = suc (turns ms)
turns (swap_draw q ∷ ms) = suc (turns ms)
turns (swap_discard q ∷ ms) = suc (turns ms)

-- How many of the moves take a card off the draw pile.
abbrev pub draws : List Move → ℕ
draws [] = 0
draws (peek ∷ ms) = draws ms
draws (discard_draw ∷ ms) = suc (draws ms)
draws (knocks ∷ ms) = draws ms
draws (swap_draw q ∷ ms) = suc (draws ms)
draws (swap_discard q ∷ ms) = draws ms

pub play_all-nil : (g : GameState) {h : GameState} → play_all [] g ≡ ok h → h ≡ g
unfolding play_all
play_all-nil g e = sym (ok_inj e)

-- What a sequence of moves is made of: a move, then the others.
pub play_all-cons :
    (m : Move) (ms : List Move) (g : GameState) {h : GameState}
    → IsValid g
    → play_all (m ∷ ms) g ≡ ok h
    → (f : GameState) × Step g f m × IsValid f × (play_all ms f ≡ ok h)
unfolding play_all
play_all-cons m ms g v e =
    let (f, e₁, e₂) = >>=-ok (play m g g.whose_turn) (play_all ms) e in
    let step = (play-Step g v m g.whose_turn e₁).1 in (f, step, Step-IsValid m v step, e₂)

-- The index after `t` of `n`, without a division.
pub next_index_cases : (t n : ℕ) → t < n → (t + 1) % n ≡ (if t + 1 == n then 0 else t + 1)
next_index_cases t n h = grind (arith, mod-eq_of_lt, mod_self)

-- How many turns lie ahead until that of `k`.
abbrev pub lag : ℕ → ℕ → ℕ → ℕ
lag n k t = if leb t k then k - t else k + n - t

pub lag-next : (n k t : ℕ) → t < n → k < n → t ≢ k → lag n k t ≡ suc (lag n k ((t + 1) % n))
lag-next n k t h j ne = rw (next_index_cases t n h) (ground arith)

pub turns-cons : (m : Move) (ms : List Move) → turns (m ∷ ms) ≡ turns (m ∷ []) + turns ms
turns-cons peek ms = omega arith
turns-cons _ ms = omega arith

pub draws-cons : (m : Move) (ms : List Move) → draws (m ∷ ms) ≡ draws (m ∷ []) + draws ms
draws-cons peek ms = omega arith
draws-cons _ ms = omega arith

-- The effect of moves on the turn, the number of players and the draw pile.
abbrev pub Passes : GameState → ℕ → ℕ → GameState → Type 0
Passes g t d h =
    (h.whose_turn ≡ pos ((turn_index g + t) % length g.players))
    × (length h.players ≡ length g.players)
    × (length h.draw_pile + d ≡ length g.draw_pile)

pub same_index : (t n : ℕ) → t < n → (t + 0) % n ≡ t
same_index t n h = rw (add-zero t) (mod-eq_of_lt h)

pub turn_index-lt : (g : GameState) → IsValid g → turn_index g < length g.players
turn_index-lt g v = ground arith
