-- ===== src/Base/Text.antt =====
-- `std::to_string` of a number that is not negative, and the character codes of a text.
use Prim.Native.Char.{code}
use Prim.Native.Nat.{ℕ, zero, suc, ◌+◌, ◌-◌, ◌*◌, ◌/◌, ◌%◌, ◌<◌}
use Prim.Native.String.{String, ◌++◌}
use mathlib.Core.Path.{◌≡◌, refl, sym, ap, ◌∙◌}
use mathlib.Core.List
use mathlib.Core.List.{List}
use native.Mathlib.Omega.{arith}
use text.Mathlib.TextLemmas.{nil-append, cons-append}
use moon_base.Base.Tests.{ltb, ◌==◌, if◌then◌else◌, Bool-cases}
use mathlib.Core.Logic.{inl, inr}

-- The codes of the characters: the bytes, if the text is ASCII.
abbrev pub codes : String → List ℕ
codes String.[] = List.[]
codes (String.◌∷◌ c s) = List.◌∷◌ (code c) (codes s)

digit : ℕ → String
digit d =
    if d == 0
    then "0"
    else if d == 1
    then "1"
    else if d == 2
    then "2"
    else if d == 3
    then "3"
    else if d == 4
    then "4"
    else if d == 5
    then "5"
    else if d == 6
    then "6"
    else if d == 7
    then "7"
    else if d == 8
    then "8"
    else "9"

-- With fuel above the number.
digits : ℕ → ℕ → String
digits zero n = ""
digits (suc fuel) n =
    let higher = digits fuel (n / 10) in if ltb n 10 then digit n else higher ++ digit (n % 10)

unfoldable pub to_string : ℕ → String
unfolding digit digits
to_string n = digits (suc n) n

codes-append : (s t : String) → codes (s ++ t) ≡ List.◌++◌ (codes s) (codes t)
codes-append String.[] t = ap codes (nil-append t)
codes-append (String.◌∷◌ c s) t =
    ap codes (cons-append c s t) ∙ ap (List.◌∷◌ (code c)) (codes-append s t)

-- The number that digits stand for, after those read so far.
value_from : ℕ → List ℕ → ℕ
value_from acc List.[] = acc
value_from acc (List.◌∷◌ c cs) = value_from (acc * 10 + (c - 48)) cs

value_from-append :
    (acc : ℕ) (xs ys : List ℕ)
    → value_from acc (List.◌++◌ xs ys) ≡ value_from (value_from acc xs) ys
unfolding value_from
value_from-append acc List.[] ys = refl
value_from-append acc (List.◌∷◌ x xs) ys = value_from-append (acc * 10 + (x - 48)) xs ys

digit-codes : (d : ℕ) → d < 10 → codes (digit d) ≡ List.◌∷◌ (48 + d) List.[]
unfolding digit
digit-codes zero h = refl
digit-codes (suc zero) h = refl
digit-codes (suc (suc zero)) h = refl
digit-codes (suc (suc (suc zero))) h = refl
digit-codes (suc (suc (suc (suc zero)))) h = refl
digit-codes (suc (suc (suc (suc (suc zero))))) h = refl
digit-codes (suc (suc (suc (suc (suc (suc zero)))))) h = refl
digit-codes (suc (suc (suc (suc (suc (suc (suc zero))))))) h = refl
digit-codes (suc (suc (suc (suc (suc (suc (suc (suc zero)))))))) h = refl
digit-codes (suc (suc (suc (suc (suc (suc (suc (suc (suc zero))))))))) h = refl
digit-codes (suc (suc (suc (suc (suc (suc (suc (suc (suc (suc d)))))))))) h = absurd (omega arith)

value_from-digit : (acc d : ℕ) → d < 10 → value_from acc (codes (digit d)) ≡ acc * 10 + d
unfolding value_from
value_from-digit acc d h = ap (value_from acc) (digit-codes d h) ∙ omega arith

value_from-digits : (fuel n : ℕ) → n < fuel → value_from 0 (codes (digits fuel n)) ≡ n
unfolding digits
value_from-digits zero n h = elim h [ ]
value_from-digits (suc fuel) n h = elim (Bool-cases (ltb n 10)) [
  | inl small ↦ rw small (value_from-digit 0 n (ground arith) ∙ omega arith)
  | inr large ↦ rw large (
      ap (value_from 0) (codes-append (digits fuel (n / 10)) (digit (n % 10)))
      ∙ value_from-append 0 (codes (digits fuel (n / 10))) (codes (digit (n % 10)))
      ∙ value_from-digit _ (n % 10) (omega arith)
      ∙ omega (arith, value_from-digits fuel (n / 10) (ground arith)))
]

-- Different numbers have different texts.
pub to_string_inj : (m n : ℕ) → to_string m ≡ to_string n → m ≡ n
unfolding to_string
to_string_inj m n e =
    sym (value_from-digits (suc m) m (omega arith))
    ∙ ap (λ s. value_from 0 (codes s)) e
    ∙ value_from-digits (suc n) n (omega arith)
