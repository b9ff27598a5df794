-- ===== src/SoLeet/Trades.antt =====
-- What buy_and_sell_stock of cpp/so_leet/so_leet.cc returns is the profit of the best single trade.
use mathlib.Core.Option.{some-injective}
use moon_base.Base.{
  ℕ, zero, suc, ◌+◌, ◌-◌, ◌≤◌, ◌≡◌, refl, ◌∙◌, ◌⊎◌, inl, inr, Bool-cases, some, List, [], ◌∷◌, map,
  All, get_elem?, ltb, if◌then◌else◌, arith,
}
use moon_base.Base.Int.{ℤ, pos, ◌-ℤ◌, int_max}
use moon_base.Absl.{ok}
use moon_base.SoLeet.{in_int, min_ℤ, max_ℤ, trades_loop, buy_and_sell_stock}

-- A trade with the profit `r`: bought at one price and sold at a later one.
abbrev pub Trade : List ℕ → ℕ → Type 0
Trade prices r =
    (i : ℕ) × (j : ℕ) × (p : ℕ) × (q : ℕ) × (i ≤ j)
    × (get_elem? prices i ≡ some p)
    × (get_elem? prices j ≡ some q)
    × (q ≡ p + r)

-- How the loop may come to `r`, from a lowest price `m` and a best profit `b` so far.
abbrev Attained : ℕ → ℕ → List ℕ → ℕ → Type 0
Attained m b prices r =
    (r ≡ b) ⊎ (((j : ℕ) × (q : ℕ) × (get_elem? prices j ≡ some q) × (q ≡ m + r)) ⊎ Trade prices r)

-- No trade of these prices, nor one that bought at `m`, has a greater profit than `r`, which one of
-- them has or `b` is.
record IsBest (m b : ℕ) (prices : List ℕ) (r : ℕ) : Type 0 where
  more : b ≤ r
  from_before : (j q : ℕ) → get_elem? prices j ≡ some q → q ≤ m + r
  from_here :
      (i j p q : ℕ) → i ≤ j → get_elem? prices i ≡ some p → get_elem? prices j ≡ some q → q ≤ p + r
  attained : Attained m b prices r

abbrev least : ℕ → ℕ → ℕ
least m x = if ltb x m then x else m

abbrev greatest : ℕ → ℕ → ℕ
greatest b x = if ltb b x then x else b

min_ℤ_pos : (m x : ℕ) → min_ℤ (pos m) (pos x) ≡ pos (least m x)
min_ℤ_pos m x = ground arith

max_ℤ_pos : (b x : ℕ) → max_ℤ (pos b) (pos x) ≡ pos (greatest b x)
max_ℤ_pos b x = ground arith

profit_lem : (m x : ℕ) → x ≤ int_max → in_int (pos x -ℤ pos (least m x)) ≡ ok (pos (x - least m x))
unfolding in_int ◌-ℤ◌
profit_lem m x h = ground (arith, h)

step :
    (m b x : ℕ) (prices : List ℤ)
    → x ≤ int_max
    → trades_loop (pos m) (pos b) (pos x ∷ prices)
      ≡ trades_loop (pos (least m x)) (pos (greatest b (x - least m x))) prices
unfolding trades_loop
step m b x prices h =
    rw (trades_loop, min_ℤ_pos m x, profit_lem m x h, max_ℤ_pos b (x - least m x)) refl

IsBest-cons :
    (m b x : ℕ) (prices : List ℕ) (r : ℕ)
    → IsBest (least m x) (greatest b (x - least m x)) prices r
    → IsBest m b (x ∷ prices) r
IsBest-cons m b x prices r h = record {
  more = ground (arith, h.more);
  from_before = before;
  from_here = here;
  attained = reached h.attained;
}
  where
    before : (j q : ℕ) → get_elem? (x ∷ prices) j ≡ some q → q ≤ m + r
    before zero q e = let same = some-injective x q e in ground (arith, h.more)
    before (suc j) q e = let low = h.from_before j q e in ground (arith, low)

    here :
        (i j p q : ℕ)
        → i ≤ j
        → get_elem? (x ∷ prices) i ≡ some p
        → get_elem? (x ∷ prices) j ≡ some q
        → q ≤ p + r
    here zero zero p q l e f =
        let same = some-injective x p e in let too = some-injective x q f in omega arith
    here zero (suc j) p q l e f =
        let same = some-injective x p e in let low = h.from_before j q f in ground (arith, low)
    here (suc i) zero p q l e f = absurd (omega (arith, l))
    here (suc i) (suc j) p q l e f = h.from_here i j p q (omega (arith, l)) e f

    -- A price that is the lowest so far is the one to have bought at.
    reached :
        Attained (least m x) (greatest b (x - least m x)) prices r → Attained m b (x ∷ prices) r
    reached (inl e) = elim (Bool-cases (ltb b (x - least m x))) [
      | inl more ↦ inr (inl (0, x, refl, ground (arith, e, more)))
      | inr no_more ↦ inl (ground (arith, e, no_more))
    ]
    reached (inr (inl (j, q, at, e))) = elim (Bool-cases (ltb x m)) [
      | inl low ↦ inr (inr (0, suc j, x, q, omega arith, refl, at, rw low at e))
      | inr high ↦ inr (inl (suc j, q, at, rw high at e))
    ]
    reached (inr (inr (i, j, p, q, l, at, later, e))) =
        inr (inr (suc i, suc j, p, q, omega (arith, l), at, later, e))

trades_loop_lem :
    (prices : List ℕ) (m b : ℕ)
    → All (λ p. p ≤ int_max) prices
    → (r : ℕ) × (trades_loop (pos m) (pos b) (map pos prices) ≡ ok (pos r)) × IsBest m b prices r
unfolding trades_loop
trades_loop_lem [] m b h = (
  b,
  refl,
  record {
    more = omega arith;
    from_before = λ j q e. cc;
    from_here = λ i j p q l e f. cc;
    attained = inl refl;
  },
)
trades_loop_lem (x ∷ prices) m b h =
    let (r, e, best) = trades_loop_lem prices (least m x) (greatest b (x - least m x)) h.1 in
    (r, step m b x (map pos prices) h.0 ∙ e, IsBest-cons m b x prices r best)

All_get :
    (prices : List ℕ) (j : ℕ) (q : ℕ)
    → All (λ p. p ≤ int_max) prices
    → get_elem? prices j ≡ some q
    → q ≤ int_max
All_get [] j q h e = cc
All_get (x ∷ prices) zero q h e = let same = some-injective x q e in omega (arith, h.0)
All_get (x ∷ prices) (suc j) q h e = All_get prices j q h.1 e

-- If no price is negative, the result is the profit of the best single trade: no price is above an
-- earlier one by more than it, and if it is not 0, some price is above an earlier one by just as
-- much. No subtraction leaves the range of an int.
pub buy_and_sell_stock_lem :
    (prices : List ℕ)
    → All (λ p. p ≤ int_max) prices
    → (r : ℕ) × (buy_and_sell_stock (map pos prices) ≡ ok (pos r))
      × ((i j p q : ℕ)
          → i ≤ j
          → get_elem? prices i ≡ some p
          → get_elem? prices j ≡ some q
          → q ≤ p + r)
      × ((r ≡ 0) ⊎ Trade prices r)
unfolding buy_and_sell_stock
buy_and_sell_stock_lem prices h =
    let (r, e, best) = trades_loop_lem prices int_max 0 h in
    (r, e, best.from_here, traded r best.attained)
  where
    traded : (r : ℕ) → Attained int_max 0 prices r → (r ≡ 0) ⊎ Trade prices r
    traded r (inl e) = inl e
    traded r (inr (inl (j, q, at, e))) =
        let low = All_get prices j q h at in inl (omega (arith, e, low))
    traded r (inr (inr t)) = inr t
