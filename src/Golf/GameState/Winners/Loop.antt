-- ===== src/Golf/GameState/Winners/Loop.antt =====
-- The loop of `winners` in game_state.cc: the players at the lowest score that it has met.
use mathlib.Core.List.{append_assoc, append-nil}
use native.Mathlib.Nat.{add-zero}
use native.Mathlib.Numerals.{add-one}
use moon_base.Base.{
  ℕ, zero, suc, ◌+◌, ◌<◌, ◌≡◌, refl, sym, ap, ◌∙◌, ◌⊎◌, inl, inr, true, false, some, List, [], ◌∷◌,
  ◌++◌, arith, if◌then◌else◌, get_elem?, push_back, All, Bool-cases,
}
use moon_base.Base.Int.{ℤ, pos, ◌≤ℤ◌, ltb_ℤ, eq_ℤ, eq_ℤ_iff}
use moon_base.Golf.Player.{Player, score}
use moon_base.Golf.GameState.{has_int, winners_loop}

-- The least of `m` and the players' scores.
unfoldable pub minimum : ℤ → List Player → ℤ
minimum m [] = m
minimum m (p ∷ ps) = minimum (if ltb_ℤ (score p) m then score p else m) ps

-- The indices, counted from `i`, of the players of the score `v`.
unfoldable pub indices_at : ℤ → ℕ → List Player → List ℤ
indices_at v i [] = []
indices_at v i (p ∷ ps) =
    if eq_ℤ (score p) v then pos i ∷ indices_at v (suc i) ps else indices_at v (suc i) ps

minimum-le : (m : ℤ) (ps : List Player) → minimum m ps ≤ℤ m
unfolding minimum
minimum-le m [] = omega arith
minimum-le m (p ∷ ps) = ground (arith, minimum-le (if ltb_ℤ (score p) m then score p else m) ps)

pub minimum-le_scores : (m : ℤ) (ps : List Player) → All (λ q. minimum m ps ≤ℤ score q) ps
unfolding minimum
minimum-le_scores m [] = tt
minimum-le_scores m (p ∷ ps) = (
  ground (arith, minimum-le (if ltb_ℤ (score p) m then score p else m) ps),
  minimum-le_scores (if ltb_ℤ (score p) m then score p else m) ps,
)

-- The minimum is the start or somebody's score.
pub minimum_attained :
    (m : ℤ) (ps : List Player)
    → (minimum m ps ≡ m)
      ⊎ ((j : ℕ) × (p : Player) × (get_elem? ps j ≡ some p) × (score p ≡ minimum m ps))
unfolding minimum
minimum_attained m [] = inl refl
minimum_attained m (p ∷ ps) =
    elim (minimum_attained (if ltb_ℤ (score p) m then score p else m) ps) [
      | inl e ↦ elim (Bool-cases (ltb_ℤ (score p) m)) [
        | inl low ↦ inr (zero, p, refl, sym (e ∙ rw low))
        | inr high ↦ inl (e ∙ rw high)
      ]
      | inr (j, q, e, v) ↦ inr (suc j, q, e, v)
    ]

-- All members lie below the index.
abbrev Under : ℕ → List ℤ → Type 0
Under i w = All (λ z. (k : ℕ) × (z ≡ pos k) × (k < i)) w

Under-has_int : (i : ℕ) (w : List ℤ) → Under i w → has_int (pos i) w ≡ false
Under-has_int i [] u = refl
Under-has_int i (z ∷ w) u = ground (arith, Under-has_int i w u.1)

Under-suc : (i : ℕ) (w : List ℤ) → Under i w → Under (suc i) w
Under-suc i [] u = tt
Under-suc i (z ∷ w) ((k, e, h), u) = ((k, e, omega arith), Under-suc i w u)

Under-push_back : (i : ℕ) (w : List ℤ) → Under i w → Under (suc i) (push_back w (pos i))
Under-push_back i [] u = ((i, refl, omega arith), tt)
Under-push_back i (z ∷ w) ((k, e, h), u) = ((k, e, omega arith), Under-push_back i w u)

eq_ℤ_comm : (a b : ℤ) → eq_ℤ a b ≡ eq_ℤ b a
eq_ℤ_comm a b = ground arith

-- What the loop leaves when the least score is `v`.
abbrev left : ℤ → ℤ → List ℤ → ℕ → List Player → List ℤ
left v m w i ps = (if eq_ℤ v m then w else []) ++ indices_at v i ps

left_low :
    (v m : ℤ) (w : List ℤ) (i : ℕ) (p : Player) (ps : List Player)
    → ltb_ℤ (score p) m ≡ true
    → v ≤ℤ score p
    → left v (score p) (pos i ∷ []) (suc i) ps ≡ left v m w i (p ∷ ps)
unfolding indices_at
left_low v m w i p ps low h = elim (Bool-cases (eq_ℤ v m)) [
  | inl same ↦ absurd (not_same ((eq_ℤ_iff v m).0 same))
  | inr other ↦
      rw (other, eq_ℤ_comm (score p) v)
        (elim (Bool-cases (eq_ℤ v (score p))) [ inl here ↦ rw here | inr there ↦ rw there ])
]
  where
    not_same : v ≡ m → ⊥
    not_same e = ground arith

left_equal :
    (v : ℤ) (w : List ℤ) (i : ℕ) (p : Player) (ps : List Player)
    → left v (score p) (push_back w (pos i)) (suc i) ps ≡ left v (score p) w i (p ∷ ps)
unfolding indices_at
left_equal v w i p ps = rw (eq_ℤ_comm (score p) v) (elim (Bool-cases (eq_ℤ v (score p))) [
  | inl here ↦ rw here (append_assoc w (pos i ∷ []) _)
  | inr there ↦ rw there
])

left_high :
    (v m : ℤ) (w : List ℤ) (i : ℕ) (p : Player) (ps : List Player)
    → ltb_ℤ (score p) m ≡ false
    → eq_ℤ (score p) m ≡ false
    → v ≤ℤ m
    → left v m w (suc i) ps ≡ left v m w i (p ∷ ps)
unfolding indices_at
left_high v m w i p ps high other h = rw above
  where
    above : eq_ℤ (score p) v ≡ false
    above = ground (arith, eq_ℤ_iff (score p) m, eq_ℤ_iff (score p) v)

-- The loop keeps the old set only if no score was lower, and adds the indices at the minimum.
pub winners_loop_lem :
    (ps : List Player) (i : ℕ) (m : ℤ) (w : List ℤ)
    → Under i w
    → winners_loop ps i m w ≡ left (minimum m ps) m w i ps
unfolding winners_loop minimum
winners_loop_lem [] i m w u = unfold indices_at in rw ((eq_ℤ_iff m m).1 refl) (sym (append-nil w))
winners_loop_lem (p ∷ ps) i m w u = elim (Bool-cases (ltb_ℤ (score p) m)) [
  | inl low ↦
      rw (low, (eq_ℤ_iff (score p) (score p)).1 refl, add-one)
        (winners_loop_lem ps (suc i) (score p) (pos i ∷ []) ((i, refl, omega arith), tt)
          ∙ left_low (minimum (score p) ps) m w i p ps low (minimum-le (score p) ps))
  | inr high ↦ elim (Bool-cases (eq_ℤ (score p) m)) [
    | inl same ↦
        rw (high, same, Under-has_int i w u, add-one)
          (winners_loop_lem ps (suc i) m (push_back w (pos i)) (Under-push_back i w u)
            ∙ rw (sym ((eq_ℤ_iff (score p) m).0 same)) (left_equal (minimum (score p) ps) w i p ps))
    | inr other ↦
        rw (high, other, add-one)
          (winners_loop_lem ps (suc i) m w (Under-suc i w u)
            ∙ left_high (minimum m ps) m w i p ps high other (minimum-le m ps))
  ]
]

pub has_int-indices_at :
    (z v : ℤ) (i : ℕ) (ps : List Player)
    → has_int z (indices_at v i ps) ≡ true
    → (j : ℕ) × (p : Player) × (z ≡ pos (i + j)) × (get_elem? ps j ≡ some p) × (score p ≡ v)
unfolding indices_at
has_int-indices_at z v i [] h = cc
has_int-indices_at z v i (p ∷ ps) h = elim (Bool-cases (eq_ℤ (score p) v)) [
  | inl here ↦ elim (Bool-cases (eq_ℤ (pos i) z)) [
    | inl hit ↦ (zero, p, ground (arith, eq_ℤ_iff (pos i) z), refl, (eq_ℤ_iff (score p) v).0 here)
    | inr miss ↦ later (has_int-indices_at z v (suc i) ps (rw (here, miss) at h))
  ]
  | inr there ↦ later (has_int-indices_at z v (suc i) ps (rw there at h))
]
  where
    later :
        ((j : ℕ) × (q : Player) × (z ≡ pos (suc i + j)) × (get_elem? ps j ≡ some q) × (score q ≡ v))
        → (j : ℕ) × (q : Player) × (z ≡ pos (i + j))
          × (get_elem? (p ∷ ps) j ≡ some q)
          × (score q ≡ v)
    later (j, q, e, f, g) = (suc j, q, e ∙ ap pos (omega arith), f, g)

pub indices_at-has_int :
    (v : ℤ) (i j : ℕ) (p : Player) (ps : List Player)
    → get_elem? ps j ≡ some p
    → score p ≡ v
    → has_int (pos (i + j)) (indices_at v i ps) ≡ true
unfolding indices_at
indices_at-has_int v i j p [] h e = cc
indices_at-has_int v i zero p (q ∷ ps) h e =
    let same : q ≡ p = cc in
    rw (same, (eq_ℤ_iff (score p) v).1 e, add-zero) (rw ((eq_ℤ_iff (pos i) (pos i)).1 refl))
indices_at-has_int v i (suc j) p (q ∷ ps) h e =
    ground (arith, indices_at-has_int v (suc i) j p ps h e)

-- A bound on all players' scores holds of each.
pub All-get_elem? :
    (v : ℤ) (ps : List Player) (j : ℕ) {p : Player}
    → All (λ q. v ≤ℤ score q) ps
    → get_elem? ps j ≡ some p
    → v ≤ℤ score p
All-get_elem? v [] j a h = cc
All-get_elem? v (q ∷ ps) zero a h = ground arith
All-get_elem? v (q ∷ ps) (suc j) a h = All-get_elem? v ps j a.1 h

pub All-rw :
    (u v : ℤ) (ps : List Player) → u ≡ v → All (λ q. u ≤ℤ score q) ps → All (λ q. v ≤ℤ score q) ps
All-rw u v ps e a = rw (← e) a
