-- ===== src/Golf/Player/Score.antt =====
-- Golf's score: the values of the ranks that a hand holds an odd number of times.
pub mod Loop
use moon_base.Base.{
  ℕ, suc, ◌+◌, ◌%◌, ◌≤◌, ◌≡◌, ◌≢◌, dec_le, refl, sym, ap, ◌∙◌, ◌⊎◌, inl, inr, Bool, true, false,
  not, List, [], ◌∷◌, arith, ◌==◌, if◌then◌else◌, Bool-cases, length, All,
}
use moon_base.Base.Int.{ℤ, pos, ◌+ℤ◌, ◌-ℤ◌, ◌≤ℤ◌, int_laws}
use moon_base.Cards.{
  Rank, Card, rank_eq, two, three, four, five, six, seven, eight, nine, ten, jack, queen, king, ace,
}
use moon_base.Cards.Laws.{rank_eq_iff}
use moon_base.Golf.Player.{Player, card_value, has_rank, erase_rank, score_loop, score, all_cards}
pub use moon_base.Golf.Player.Score.Loop.{rank_count, is_odd, total, all_ranks}
use moon_base.Golf.Player.Score.Loop.{
  Distinct, total-congr, total_flip, has_all_ranks, rank_eq_comm, hand_after-Distinct,
  has_rank-hand_after, length-hand_after-le, values, score_loop_lem,
}

total_none : (rs : List Rank) → total (λ r. false) rs ≡ 0
total_none [] = refl
total_none (r ∷ rs) = omega (arith, total_none rs)

total-eq-values :
    (hand : List Rank) → Distinct hand → total (λ r. has_rank r hand) all_ranks ≡ values hand
total-eq-values [] d = total_none all_ranks
total-eq-values (k ∷ hand) d =
    total_flip (λ r. has_rank r (k ∷ hand)) (λ r. has_rank r hand) k all_ranks (has_all_ranks k)
      (ground arith) (λ r o. rw (rank_eq_comm r k o)) (rw ((rank_eq_iff k k).1 refl)) d.0
    ∙ omega (arith, total-eq-values hand d.1)

-- The score is the sum of the values of the ranks that the hand holds an odd number of times.
pub score_lem :
    (p : Player) → score p ≡ pos (total (λ r. is_odd (rank_count r (all_cards p))) all_ranks)
unfolding score
score_lem p =
    score_loop_lem (all_cards p) [] (pos 0) refl
    ∙ ap pos (sym (total-eq-values _ (hand_after-Distinct (all_cards p) [] tt)))
    ∙ ap pos (total-congr _ _ all_ranks λ r. has_rank-hand_after (all_cards p) [] r tt)

card_value-le : (r : Rank) → card_value r ≤ 10
card_value-le r = ground arith

tens : (r : Rank) → card_value r ≡ 10 → (r ≡ ten) ⊎ ((r ≡ queen) ⊎ (r ≡ king))
tens r h = ground arith

-- Of four cards that count ten each two have the same rank.
four_tens :
    (a b c d : Rank)
    → card_value a ≡ 10
    → card_value b ≡ 10
    → card_value c ≡ 10
    → card_value d ≡ 10
    → (a ≡ b) ⊎ ((a ≡ c) ⊎ ((a ≡ d) ⊎ ((b ≡ c) ⊎ ((b ≡ d) ⊎ (c ≡ d)))))
four_tens a b c d h i j k = ground (arith, tens a h, tens b i, tens c j, tens d k)

-- A rank that a set does not hold is none of its members.
has_rank_none : (r : Rank) (ks : List Rank) → has_rank r ks ≡ false → All (λ k. r ≢ k) ks
has_rank_none r [] h = tt
has_rank_none r (k ∷ ks) h =
    (λ e. ground (arith, (rank_eq_iff k r).1 (sym e)), has_rank_none r ks (ground arith))

Distinct-four :
    (a b c d : Rank)
    → Distinct (a ∷ b ∷ c ∷ d ∷ [])
    → (a ≡ b) ⊎ ((a ≡ c) ⊎ ((a ≡ d) ⊎ ((b ≡ c) ⊎ ((b ≡ d) ⊎ (c ≡ d)))))
    → ⊥
Distinct-four a b c d dist e = ground (
  arith,
  has_rank_none a (b ∷ c ∷ d ∷ []) dist.0,
  has_rank_none b (c ∷ d ∷ []) dist.1.0,
  has_rank_none c (d ∷ []) dist.1.1.0,
)

not_four_tens : (a b c d : Rank) → Distinct (a ∷ b ∷ c ∷ d ∷ []) → values (a ∷ b ∷ c ∷ d ∷ []) ≤ 39
not_four_tens a b c d dist = elim (dec_le (values (a ∷ b ∷ c ∷ d ∷ [])) 39) [
  | yes h ↦ h
  | no h ↦ absurd (
      Distinct-four a b c d dist (
        four_tens a b c d (omega (arith, bounds)) (omega (arith, bounds)) (omega (arith, bounds))
          (omega (arith, bounds))))
]
  where
    bounds : (card_value a ≤ 10) × (card_value b ≤ 10) × (card_value c ≤ 10) × (card_value d ≤ 10)
    bounds = (card_value-le a, card_value-le b, card_value-le c, card_value-le d)

values-le : (rs : List Rank) → Distinct rs → length rs ≤ 4 → values rs ≤ 39
values-le [] d h = omega arith
values-le (a ∷ []) d h = omega (arith, card_value-le a)
values-le (a ∷ b ∷ []) d h = omega (arith, card_value-le a, card_value-le b)
values-le (a ∷ b ∷ c ∷ []) d h = omega (arith, card_value-le a, card_value-le b, card_value-le c)
values-le (a ∷ b ∷ c ∷ d ∷ []) dist h = not_four_tens a b c d dist
values-le (a ∷ b ∷ c ∷ d ∷ e ∷ rs) dist h = absurd (omega arith)

-- Every hand scores between 0 and 39.
pub score_bounds : (p : Player) → (pos 0 ≤ℤ score p) × (score p ≤ℤ pos 39)
unfolding score
score_bounds p = rw (score_loop_lem (all_cards p) [] (pos 0) refl) (
    omega (
      arith,
      values-le _ (hand_after-Distinct (all_cards p) [] tt) (length-hand_after-le (all_cards p) []),
    ))
