-- ===== src/Golf/Player/Score/Loop.antt =====
-- The loop of `score` in player.cc: the ranks that are left after each card.
use moon_base.Base.{
  ℕ, suc, ◌+◌, ◌%◌, ◌≤◌, ◌≡◌, refl, ap, ◌∙◌, inl, inr, Bool, true, false, not, List, [], ◌∷◌, arith,
  ◌==◌, if◌then◌else◌, Bool-cases, length,
}
use moon_base.Base.Int.{ℤ, pos, ◌+ℤ◌, ◌-ℤ◌, int_laws}
use moon_base.Cards.{
  Rank, Card, rank_eq, two, three, four, five, six, seven, eight, nine, ten, jack, queen, king, ace,
}
use moon_base.Cards.Laws.{rank_eq_iff}
use moon_base.Golf.Player.{card_value, has_rank, erase_rank, score_loop}

-- How many of the cards have the rank.
abbrev pub rank_count : Rank → List Card → ℕ
rank_count r [] = 0
rank_count r (c ∷ cs) = if rank_eq c.rank r then suc (rank_count r cs) else rank_count r cs

abbrev pub is_odd : ℕ → Bool
is_odd n = n % 2 == 1

-- The values, summed, of those of the ranks that pass a test.
abbrev pub total : (Rank → Bool) → List Rank → ℕ
total f [] = 0
total f (r ∷ rs) = (if f r then card_value r else 0) + total f rs

abbrev pub all_ranks : List Rank
all_ranks =
    two ∷ three ∷ four ∷ five ∷ six ∷ seven ∷ eight ∷ nine ∷ ten ∷ jack ∷ queen ∷ king ∷ ace ∷ []

abbrev pub Distinct : List Rank → Type 0
Distinct [] = Unit
Distinct (k ∷ ks) = (has_rank k ks ≡ false) × Distinct ks

-- Both, or neither.
abbrev differ : Bool → Bool → Bool
differ a b = if a then not b else b

has_rank-erase_self :
    (r : Rank) (ks : List Rank) → Distinct ks → has_rank r (erase_rank r ks) ≡ false
has_rank-erase_self r [] d = refl
has_rank-erase_self r (k ∷ ks) d = ground (arith, has_rank-erase_self r ks d.1, rank_eq_iff k r)

has_rank-erase_ne :
    (k r : Rank) (ks : List Rank)
    → rank_eq r k ≡ false
    → has_rank k (erase_rank r ks) ≡ has_rank k ks
has_rank-erase_ne k r [] h = refl
has_rank-erase_ne k r (j ∷ ks) h =
    ground (arith, has_rank-erase_ne k r ks h, rank_eq_iff j r, rank_eq_iff j k, rank_eq_iff r k)

erase_rank-Distinct : (r : Rank) (ks : List Rank) → Distinct ks → Distinct (erase_rank r ks)
erase_rank-Distinct r [] d = tt
erase_rank-Distinct r (k ∷ ks) d = ground (
  arith,
  erase_rank-Distinct r ks d.1,
  has_rank-erase_ne k r ks,
  rank_eq_iff k r,
  rank_eq_iff r k,
)

pub total-congr :
    (f g : Rank → Bool) (rs : List Rank) → ((r : Rank) → f r ≡ g r) → total f rs ≡ total g rs
total-congr f g [] h = refl
total-congr f g (r ∷ rs) h =
    rw (h r) (ap (λ (n : ℕ). (if g r then card_value r else 0) + n) (total-congr f g rs h))

-- Two tests that agree but at `r`, which the list does not hold.
total_outside :
    (f g : Rank → Bool) (r : Rank) (rs : List Rank)
    → has_rank r rs ≡ false
    → ((k : Rank) → rank_eq k r ≡ false → f k ≡ g k)
    → total f rs ≡ total g rs
total_outside f g r [] n h = refl
total_outside f g r (k ∷ rs) n h = ground (arith, total_outside f g r rs, h k)

-- Two tests that agree but at `r`: the sums differ by the value of `r`.
pub total_flip :
    (f g : Rank → Bool) (r : Rank) (rs : List Rank)
    → has_rank r rs ≡ true
    → Distinct rs
    → ((k : Rank) → rank_eq k r ≡ false → f k ≡ g k)
    → f r ≡ true
    → g r ≡ false
    → total f rs ≡ total g rs + card_value r
total_flip f g r [] m d h t u = cc
total_flip f g r (k ∷ rs) m d h t u = elim (Bool-cases (rank_eq k r)) [
  | inl same ↦
      let e = (rank_eq_iff k r).0 same in
      rw e (rw (t, u) (omega (arith, total_outside f g r rs (rw e at d.0) h)))
  | inr other ↦ rw (h k other) (omega (arith, total_flip f g r rs (ground arith) d.1 h t u))
]

pub has_all_ranks : (r : Rank) → has_rank r all_ranks ≡ true
has_all_ranks two = refl
has_all_ranks _ = refl

is_odd-suc : (n : ℕ) → is_odd (suc n) ≡ not (is_odd n)
is_odd-suc n = ground arith

-- The test of the ranks that will have been met an odd number of times after the rest `cs`.
abbrev odd_after : List Rank → List Card → Rank → Bool
odd_after hand cs r = differ (has_rank r hand) (is_odd (rank_count r cs))

-- The set after one card.
abbrev toggled : Rank → List Rank → List Rank
toggled r hand = if has_rank r hand then erase_rank r hand else r ∷ hand

has_rank-toggled :
    (k r : Rank) (hand : List Rank)
    → Distinct hand
    → has_rank r (toggled k hand) ≡ (if rank_eq k r then not (has_rank r hand) else has_rank r hand)
has_rank-toggled k r hand d =
    ground (arith, has_rank-erase_self k hand d, has_rank-erase_ne r k hand, rank_eq_iff k r)

odd_after-toggled :
    (c : Card) (cs : List Card) (hand : List Rank) (r : Rank)
    → Distinct hand
    → odd_after (toggled c.rank hand) cs r ≡ odd_after hand (c ∷ cs) r
odd_after-toggled c cs hand r d =
    rw (has_rank-toggled c.rank r hand d) (ground (arith, is_odd-suc (rank_count r cs)))

pub rank_eq_comm : (k r : Rank) → rank_eq k r ≡ false → rank_eq r k ≡ false
rank_eq_comm k r h = ground arith

toggled-Distinct : (r : Rank) (hand : List Rank) → Distinct hand → Distinct (toggled r hand)
toggled-Distinct r hand d = ground (arith, erase_rank-Distinct r hand d)

-- The set at the end of the loop.
abbrev hand_after : List Card → List Rank → List Rank
hand_after [] hand = hand
hand_after (c ∷ cs) hand = hand_after cs (toggled c.rank hand)

pub hand_after-Distinct :
    (cs : List Card) (hand : List Rank) → Distinct hand → Distinct (hand_after cs hand)
hand_after-Distinct [] hand d = d
hand_after-Distinct (c ∷ cs) hand d =
    hand_after-Distinct cs (toggled c.rank hand) (toggled-Distinct c.rank hand d)

pub has_rank-hand_after :
    (cs : List Card) (hand : List Rank) (r : Rank)
    → Distinct hand
    → has_rank r (hand_after cs hand) ≡ odd_after hand cs r
has_rank-hand_after [] hand r d = ground arith
has_rank-hand_after (c ∷ cs) hand r d =
    has_rank-hand_after cs (toggled c.rank hand) r (toggled-Distinct c.rank hand d)
    ∙ odd_after-toggled c cs hand r d

length-erase_rank-le : (r : Rank) (ks : List Rank) → length (erase_rank r ks) ≤ length ks
length-erase_rank-le r [] = omega arith
length-erase_rank-le r (k ∷ ks) = ground (arith, length-erase_rank-le r ks)

pub length-hand_after-le :
    (cs : List Card) (hand : List Rank) → length (hand_after cs hand) ≤ length cs + length hand
length-hand_after-le [] hand = omega arith
length-hand_after-le (c ∷ cs) hand =
    ground (arith, length-hand_after-le cs (toggled c.rank hand), length-erase_rank-le c.rank hand)

abbrev pub values : List Rank → ℕ
values [] = 0
values (r ∷ rs) = card_value r + values rs

values-erase_rank :
    (r : Rank) (ks : List Rank)
    → has_rank r ks ≡ true
    → values ks ≡ values (erase_rank r ks) + card_value r
values-erase_rank r [] h = cc
values-erase_rank r (k ∷ ks) h = elim (Bool-cases (rank_eq k r)) [
  | inl same ↦ rw (same, (rank_eq_iff k r).0 same) (omega arith)
  | inr other ↦ rw other (omega (arith, values-erase_rank r ks (rw other at h)))
]

-- One round of the loop keeps the score the sum of the set's values.
round_values :
    (r : Rank) (hand : List Rank) (s : ℤ)
    → s ≡ pos (values hand)
    → (if has_rank r hand then s -ℤ pos (card_value r) else s +ℤ pos (card_value r))
      ≡ pos (values (toggled r hand))
round_values r hand s e = elim (Bool-cases (has_rank r hand)) [
  | inl held ↦ rw (held, e) (omega (int_laws, values-erase_rank r hand held))
  | inr fresh ↦ rw (fresh, e) (omega int_laws)
]

pub score_loop_lem :
    (cs : List Card) (hand : List Rank) (s : ℤ)
    → s ≡ pos (values hand)
    → score_loop cs hand s ≡ pos (values (hand_after cs hand))
unfolding score_loop
score_loop_lem [] hand s e = e
score_loop_lem (c ∷ cs) hand s e =
    score_loop_lem cs (toggled c.rank hand) _ (round_values c.rank hand s e)
