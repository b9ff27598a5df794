-- ===== src/Golf/GameState/Winners.antt =====
-- Who wins: `GameState::winners` of game_state.cc against the least score.
pub mod Loop
use mathlib.Core.List.{append_assoc, append-nil}
use native.Mathlib.Nat.{add-zero}
use native.Mathlib.Numerals.{add-one}
use moon_base.Base.{
  ℕ, zero, suc, ◌+◌, ◌<◌, ◌≡◌, ◌≢◌, ◌==◌, ==_iff, refl, sym, ap, ◌∙◌, ◌↔◌, ◌⊎◌, inl, inr, true,
  false, some, List, [], ◌∷◌, ◌++◌, arith, if◌then◌else◌, get_elem?, push_back, All, Bool-cases,
}
use moon_base.Base.Int.{ℤ, pos, ◌≤ℤ◌, ltb_ℤ, eq_ℤ, eq_ℤ_iff, eq_of_parts}
use moon_base.Golf.Player.{Player, score}
use moon_base.Golf.Player.Score.{score_bounds}
use moon_base.Golf.GameState.{GameState, has_int, winners_loop, winners}
use moon_base.Golf.GameState.Winners.Loop.{
  minimum, indices_at, minimum-le_scores, minimum_attained, winners_loop_lem, has_int-indices_at,
  indices_at-has_int, All-get_elem?, All-rw,
}

-- The player of index `i` exists, and nobody has a lower score.
abbrev pub IsBest : List Player → ℕ → Type 0
IsBest ps i = (p : Player) × (get_elem? ps i ≡ some p) × All (λ q. score p ≤ℤ score q) ps

-- The players of the least score, 40 being above every score.
least : List Player → ℤ
least ps = minimum (pos 40) ps

IsBest-least : (ps : List Player) (j : ℕ) → (b : IsBest ps j) → score b.0 ≡ least ps
unfolding least
IsBest-least ps j (p, e, a) = elim (minimum_attained (pos 40) ps) [
  | inl top ↦ absurd (
      omega (
        arith,
        All-get_elem? (pos 40) ps j (All-rw _ _ ps top (minimum-le_scores (pos 40) ps)) e,
        score_bounds p,
      ))
  | inr (k, q, f, v) ↦ eq_of_parts (score p) (minimum (pos 40) ps) (
      omega (
        arith,
        All-get_elem? (minimum (pos 40) ps) ps j (minimum-le_scores (pos 40) ps) e,
        rw v at (All-get_elem? (score p) ps k a f),
      ))
]

winning : (ps : List Player) → winners_loop ps 0 (pos 40) [] ≡ indices_at (least ps) 0 ps
unfolding least
winning ps = winners_loop_lem ps 0 (pos 40) [] tt ∙ ground arith

winners_loop-IsBest :
    (ps : List Player) (z : ℤ)
    → has_int z (winners_loop ps 0 (pos 40) []) ≡ true
    → (j : ℕ) × (z ≡ pos j) × IsBest ps j
unfolding least
winners_loop-IsBest ps z h =
    let (j, p, e, f, v) = has_int-indices_at z (least ps) 0 ps (rw (winning ps) at h) in
    (
      j,
      e ∙ ap pos (omega arith),
      (p, f, All-rw _ _ ps (sym v) (unfold least in minimum-le_scores (pos 40) ps)),
    )

IsBest-winners_loop :
    (ps : List Player) (j : ℕ)
    → IsBest ps j
    → has_int (pos j) (winners_loop ps 0 (pos 40) []) ≡ true
IsBest-winners_loop ps j b =
    rw (winning ps)
      (rw (← zero_plus) (indices_at-has_int (least ps) 0 j b.0 ps b.1 (IsBest-least ps j b)))
  where
    zero_plus : 0 + j ≡ j
    zero_plus = omega arith

pos_inj : (a b : ℕ) → pos a ≡ pos b → a ≡ b
pos_inj a b e = cc

has_int_singleton : (z y : ℤ) → has_int z (y ∷ []) ≡ true → y ≡ z
has_int_singleton z y h = ground (arith, eq_ℤ_iff y z)

-- The knocker has a score as low as any.
knocker_wins :
    (g : GameState) (i k : ℕ)
    → g.who_knocked ≡ pos k
    → IsBest g.players k
    → (has_int (pos i) (g.who_knocked ∷ []) ≡ true)
      ↔ (IsBest g.players i × ((k : ℕ) → g.who_knocked ≡ pos k → IsBest g.players k → i ≡ k))
knocker_wins g i k e b = (
  λ h.
      let same : i ≡ k = pos_inj i k (sym (has_int_singleton (pos i) g.who_knocked h) ∙ e) in
      (rw same b, λ j f _. same ∙ pos_inj k j (sym e ∙ f)),
  λ (_, only). rw (e, only k e b) (ground (arith, eq_ℤ_iff (pos k) (pos k))),
)

-- The knocker has not.
others_win :
    (g : GameState) (i : ℕ)
    → has_int g.who_knocked (winners_loop g.players 0 (pos 40) []) ≡ false
    → (has_int (pos i) (winners_loop g.players 0 (pos 40) []) ≡ true)
      ↔ (IsBest g.players i × ((k : ℕ) → g.who_knocked ≡ pos k → IsBest g.players k → i ≡ k))
others_win g i out = (
  λ h.
      let (j, e, b) = winners_loop-IsBest g.players (pos i) h in
      (rw (pos_inj i j e) b, λ k f c. absurd (clash k f c)),
  λ (b, _). IsBest-winners_loop g.players i b,
)
  where
    clash : (k : ℕ) → g.who_knocked ≡ pos k → IsBest g.players k → ⊥
    clash k f c =
        let won : has_int g.who_knocked (winners_loop g.players 0 (pos 40) []) ≡ true =
          rw f (IsBest-winners_loop g.players k c) in
        cc

winners_rule :
    (g : GameState) (i : ℕ)
    → (has_int (pos i) (winners g) ≡ true)
      ↔ (IsBest g.players i × ((k : ℕ) → g.who_knocked ≡ pos k → IsBest g.players k → i ≡ k))
unfolding winners
winners_rule g i =
    elim (Bool-cases (has_int g.who_knocked (winners_loop g.players 0 (pos 40) []))) [
      | inl kn ↦
          let (k, e, b) = winners_loop-IsBest g.players g.who_knocked kn in
          rw kn (knocker_wins g i k e b)
      | inr out ↦ rw out (others_win g i out)
    ]

-- A player wins exactly if nobody has a lower score and it is not another player, with a score as
-- low, who knocked.
pub winners_lem :
    (g : GameState) (i : ℕ)
    → (has_int (pos i) (winners g) ≡ true)
      ↔ (IsBest g.players i × ¬ ((k : ℕ) × (g.who_knocked ≡ pos k) × IsBest g.players k × (i ≢ k)))
winners_lem g i =
    let r = winners_rule g i in
    (
      (λ h. let (best, rule) = r.0 h in (best, λ (k, e, b, other). other (rule k e b))),
      (λ (best, none_other). r.1 (
        best,
        λ k e b. elim (Bool-cases (i == k)) [
          | inl same ↦ (==_iff i k).0 same
          | inr other ↦ absurd (none_other (k, e, b, differ i k other))
        ],
      )),
    )
  where
    differ : (i k : ℕ) → i == k ≡ false → i ≢ k
    differ i k e h = ground (arith, ==_iff i k)
