-- ===== src/Base/Lists.antt =====
-- Sequences (std::vector, std::deque) as lists, front first, with the deque's operations at the
-- back, and the facts about them that the components share.
use Prim.Native.Nat.{ℕ, zero, suc, ◌+◌, ◌<◌}
use mathlib.Core.Path.{◌≡◌, refl, sym, ap, ◌∙◌}
use mathlib.Core.Bool.{Bool, true, false, ◌&&◌}
use mathlib.Core.List.{List, [], ◌∷◌, ◌++◌, Perm, perm_middle, foldr}
use mathlib.Core.List.Perm
use mathlib.Core.Option.{Option, none, some}
use native.Mathlib.Omega.{arith}
use native.Mathlib.Nat.{ℕ_set}

module _ {ℓ} {A : Type ℓ} where
  abbrev pub length : List A → ℕ
  length [] = 0
  length (x ∷ xs) = suc (length xs)

  abbrev pub get_elem? : List A → ℕ → Option A
  get_elem? [] i = none
  get_elem? (x ∷ xs) zero = some x
  get_elem? (x ∷ xs) (suc i) = get_elem? xs i

  -- A write out of bounds changes nothing.
  abbrev pub set : List A → ℕ → A → List A
  set [] i v = []
  set (x ∷ xs) zero v = v ∷ xs
  set (x ∷ xs) (suc i) v = x ∷ set xs i v

  -- `std::all_of`
  abbrev pub all_of : (A → Bool) → List A → Bool
  all_of p [] = true
  all_of p (x ∷ xs) = p x && all_of p xs

  -- `deque::back`: none on an empty deque, where the call is undefined.
  abbrev pub back : List A → Option A
  back [] = none
  back (x ∷ []) = some x
  back (x ∷ y ∷ xs) = back (y ∷ xs)

  abbrev pub pop_back : List A → List A
  pop_back [] = []
  pop_back (x ∷ []) = []
  pop_back (x ∷ y ∷ xs) = x ∷ pop_back (y ∷ xs)

  abbrev pub push_back : List A → A → List A
  push_back xs x = xs ++ x ∷ []

  abbrev pub is_empty : List A → Bool
  is_empty [] = true
  is_empty (x ∷ xs) = false

  abbrev pub All {κ} : (A → Type κ) → List A → Type κ
  All P [] = Unit
  All P (x ∷ xs) = P x × All P xs

  pub All-both {κ μ} :
      (P : A → Type κ) (Q : A → Type μ) (xs : List A)
      → All P xs
      → All Q xs
      → All (λ x. P x × Q x) xs
  All-both P Q [] a b = tt
  All-both P Q (x ∷ xs) a b = ((a.0, b.0), All-both P Q xs a.1 b.1)

  pub length-append : (xs ys : List A) → length (xs ++ ys) ≡ length xs + length ys
  length-append [] ys = omega arith
  length-append (x ∷ xs) ys = omega (arith, length-append xs ys)

  pub push_back-pop_back : (xs : List A) {x : A} → back xs ≡ some x → push_back (pop_back xs) x ≡ xs
  push_back-pop_back [] e = cc
  push_back-pop_back (y ∷ []) e = cc
  push_back-pop_back (y ∷ z ∷ xs) e = ap (◌∷◌ y) (push_back-pop_back (z ∷ xs) e)

  pub back_nonempty : (xs : List A) → is_empty xs ≡ false → (x : A) × (back xs ≡ some x)
  back_nonempty [] h = cc
  back_nonempty (y ∷ []) h = (y, refl)
  back_nonempty (y ∷ z ∷ xs) h = back_nonempty (z ∷ xs) refl

  pub length-pop_back :
      (xs : List A) {x : A} → back xs ≡ some x → length xs ≡ length (pop_back xs) + 1
  length-pop_back [] e = cc
  length-pop_back (y ∷ []) e = refl
  length-pop_back (y ∷ z ∷ xs) e = omega (arith, length-pop_back (z ∷ xs) e)

  -- Taking the back off and putting it in front is a reordering.
  pub pop_back-perm : (xs : List A) {x : A} → back xs ≡ some x → Perm xs (x ∷ pop_back xs)
  pop_back-perm [] e = cc
  pop_back-perm (y ∷ []) {x} e = Perm.cons' (ground arith) Perm.nil
  pop_back-perm (y ∷ z ∷ xs) {x} e =
      Perm.trans (Perm.cons y (pop_back-perm (z ∷ xs) e)) (Perm.swap x y (pop_back (z ∷ xs)))

  -- Two items of a list change places.
  pub exchange-perm : (x y : A) (xs ys : List A) → Perm (x ∷ xs ++ y ∷ ys) (y ∷ xs ++ x ∷ ys)
  exchange-perm x y xs ys =
      Perm.trans (Perm.cons x (perm_middle xs ys))
        (Perm.trans (Perm.swap y x (xs ++ ys)) (Perm.cons y (Perm.symm (perm_middle xs ys))))

  pub length-set : (xs : List A) (i : ℕ) (v : A) → length (set xs i v) ≡ length xs
  length-set [] i v = refl
  length-set (x ∷ xs) zero v = refl
  length-set (x ∷ xs) (suc i) v = ap suc (length-set xs i v)

  pub get_elem?-set_self :
      (xs : List A) (i : ℕ) (v : A) → i < length xs → get_elem? (set xs i v) i ≡ some v
  get_elem?-set_self [] i v h = elim h [ ]
  get_elem?-set_self (x ∷ xs) zero v h = refl
  get_elem?-set_self (x ∷ xs) (suc i) v h = get_elem?-set_self xs i v (omega arith)

  pub get_elem?_lt : (xs : List A) (i : ℕ) → i < length xs → (x : A) × (get_elem? xs i ≡ some x)
  get_elem?_lt [] i h = elim h [ ]
  get_elem?_lt (x ∷ xs) zero h = (x, refl)
  get_elem?_lt (x ∷ xs) (suc i) h = get_elem?_lt xs i (omega arith)

  pub lt_get_elem? : (xs : List A) (i : ℕ) {x : A} → get_elem? xs i ≡ some x → i < length xs
  lt_get_elem? [] i h = cc
  lt_get_elem? (x ∷ xs) zero h = omega arith
  lt_get_elem? (x ∷ xs) (suc i) h = omega (arith, lt_get_elem? xs i h)

  length_fold : (xs : List A) → foldr (λ _ n. suc n) 0 xs ≡ length xs
  length_fold [] = refl
  length_fold (x ∷ xs) = ap suc (length_fold xs)

  pub length-Perm : {xs ys : List A} → Perm xs ys → length xs ≡ length ys
  length-Perm {xs} {ys} p =
      sym (length_fold xs) ∙ Perm.foldr-eq ℕ_set (λ _ n. suc n) (λ a b x. refl) p 0 ∙ length_fold ys
