-- ===== src/SoLeet/Sums.antt =====
-- The running sums of cpp/so_leet/so_leet.cc are the sums of the prefixes.
use moon_base.Base.{
  Bool-cases, true, inl, inr, ◌≡◌, refl, ap, ◌∙◌, sym, List, [], ◌∷◌, map, all_of, if◌then◌else◌,
  arith,
}
use moon_base.Base.Int.{ℤ, ◌+ℤ◌, int_laws}
use moon_base.Absl.{StatusOr, ok, fault, undefined, ◌>>=◌}
use moon_base.SoLeet.{is_int, in_int, scan, running_sum}

-- The sums of the prefixes of a list that are not empty.
abbrev pub prefix_sums : List ℤ → List ℤ
prefix_sums [] = []
prefix_sums (x ∷ xs) = x ∷ map (◌+ℤ◌ x) (prefix_sums xs)

add_assoc : (a b c : ℤ) → a +ℤ (b +ℤ c) ≡ (a +ℤ b) +ℤ c
add_assoc a b c = grind int_laws

map_add : (a b : ℤ) (xs : List ℤ) → map (◌+ℤ◌ a) (map (◌+ℤ◌ b) xs) ≡ map (◌+ℤ◌ (a +ℤ b)) xs
map_add a b [] = refl
map_add a b (x ∷ xs) = rw (add_assoc a b x, map_add a b xs) refl

-- The values, if all of them are ints.
abbrev pub all_ints : List ℤ → StatusOr (List ℤ)
all_ints xs = if all_of is_int xs then ok xs else fault undefined

all_ints_cons :
    (x : ℤ) (xs : List ℤ) (more : ℤ → StatusOr (List ℤ))
    → more x ≡ all_ints xs
    → (in_int x >>= λ y. more y >>= λ ys. ok (y ∷ ys)) ≡ all_ints (x ∷ xs)
unfolding in_int
all_ints_cons x xs more e = elim (Bool-cases (is_int x)) [
  | inr out ↦ rw (in_int, out) refl
  | inl fits ↦ elim (Bool-cases (all_of is_int xs)) [
    | inl all ↦ rw (in_int, fits, e, all) refl
    | inr some_out ↦ rw (in_int, fits, e, some_out) refl
  ]
]

scan_lem : (sum : ℤ) (nums : List ℤ) → scan sum nums ≡ all_ints (map (◌+ℤ◌ sum) (prefix_sums nums))
unfolding scan
scan_lem sum [] = refl
scan_lem sum (num ∷ nums) =
    all_ints_cons (sum +ℤ num) (map (◌+ℤ◌ sum) (map (◌+ℤ◌ num) (prefix_sums nums)))
      (λ next. scan next nums)
      (scan_lem (sum +ℤ num) nums ∙ ap all_ints (sym (map_add sum num (prefix_sums nums))))

-- On ints, the running sums are the sums of the prefixes, provided that these are all ints;
-- otherwise the call is undefined.
pub running_sum_lem :
    (nums : List ℤ) → all_of is_int nums ≡ true → running_sum nums ≡ all_ints (prefix_sums nums)
unfolding running_sum in_int
running_sum_lem [] h = refl
running_sum_lem (num ∷ nums) h =
    let fits : in_int num ≡ ok num = ground (arith, h) in
    ap (λ x. x >>= λ y. scan num nums >>= λ ys. ok (y ∷ ys)) (sym fits)
    ∙ all_ints_cons num (map (◌+ℤ◌ num) (prefix_sums nums)) (λ next. scan num nums)
        (scan_lem num nums)
