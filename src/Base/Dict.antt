-- ===== src/Base/Dict.antt =====
-- `unordered_map<string, V>` as an association list and `unordered_set<string>` as a list, in
-- order of insertion. The order is not the C++ one, which is unspecified.
use Prim.Native.String.{String}
use mathlib.Core.Path.{◌≡◌, refl, subst}
use mathlib.Core.Logic.{◌≢◌, inl, inr}
use mathlib.Core.Bool.{Bool, true, false, ◌||◌, ◌&&◌, not}
use mathlib.Core.List.{List, [], ◌∷◌}
use mathlib.Core.Option.{Option, none, some}
use native.Mathlib.Omega.{arith}
use text.Mathlib.Text.{◌==◌ as str_eq}
use text.Mathlib.TextEquality.{eq_iff}
use moon_base.Base.Lists.{All}
use moon_base.Base.Tests.{if◌then◌else◌, Bool-cases, Option-cases}

abbrev pub Dict {ℓ} : Type ℓ → Type ℓ
Dict V = List (String × V)

module _ {ℓ} {V : Type ℓ} where
  abbrev pub lookup : String → Dict V → Option V
  lookup k [] = none
  lookup k ((j, v) ∷ m) = if str_eq j k then some v else lookup k m

  -- `contains(k)`
  abbrev pub has_key : String → Dict V → Bool
  has_key k m = elim (lookup k m) [ none ↦ false | some _ ↦ true ]

  pub has_key-lookup :
      (k : String) (m : Dict V) → has_key k m ≡ true → (v : V) × (lookup k m ≡ some v)
  has_key-lookup k m h = elim (Option-cases (lookup k m)) [
    | inl e ↦ absurd (missing (lookup k m) e h)
    | inr found ↦ found
  ]
    where
      missing : (o : Option V) → o ≡ none → (elim o [ none ↦ false | some _ ↦ true ]) ≡ true → ⊥
      missing o e h = ground (arith, e, h)

  -- `m[k] = v`
  unfoldable pub insert : String → V → Dict V → Dict V
  insert k v [] = (k, v) ∷ []
  insert k v ((j, w) ∷ m) = if str_eq j k then (k, v) ∷ m else (j, w) ∷ insert k v m

  pub lookup-insert :
      (k j : String) (v : V) (m : Dict V)
      → lookup j (insert k v m) ≡ (if str_eq k j then some v else lookup j m)
  unfolding insert
  lookup-insert k j v [] = refl
  lookup-insert k j v ((i, w) ∷ m) =
      ground (arith, eq_iff k j, eq_iff i k, eq_iff i j, lookup-insert k j v m)

  pub lookup-insert_self : (k : String) (v : V) (m : Dict V) → lookup k (insert k v m) ≡ some v
  lookup-insert_self k v m = ground (arith, lookup-insert k k v m, eq_iff k k)

  pub lookup-insert_ne :
      (k j : String) (v : V) (m : Dict V) → k ≢ j → lookup j (insert k v m) ≡ lookup j m
  lookup-insert_ne k j v m h = ground (arith, lookup-insert k j v m, eq_iff k j)

module _ {ℓ κ} {V : Type ℓ} (P : String → V → Type κ) where
  -- What holds of every entry.
  abbrev pub Entries : Dict V → Type κ
  Entries [] = Unit
  Entries ((k, v) ∷ m) = P k v × Entries m

  pub Entries-lookup : (k : String) (m : Dict V) {v : V} → Entries m → lookup k m ≡ some v → P k v
  Entries-lookup k [] h e = cc
  Entries-lookup k ((j, w) ∷ m) {v = v} h e = elim (Bool-cases (str_eq j k)) [
    | inl same ↦
        let here : j ≡ k = (eq_iff j k).0 same in
        let value : w ≡ v = cc in subst (λ i. P i v) here (subst (P j) value h.0)
    | inr other ↦ Entries-lookup k m h.1 (rw other at e)
  ]

  pub Entries-insert :
      (k : String) (v : V) (m : Dict V) → P k v → Entries m → Entries (insert k v m)
  unfolding insert
  Entries-insert k v [] p h = (p, tt)
  Entries-insert k v ((j, w) ∷ m) p h = elim (Bool-cases (str_eq j k)) [
    | inl same ↦ rw same (p, h.1)
    | inr other ↦ rw other (h.0, Entries-insert k v m p h.1)
  ]

-- `contains(k)` of a set.
abbrev pub member : String → List String → Bool
member k [] = false
member k (x ∷ xs) = str_eq x k || member k xs

-- `insert(k)` into a set.
unfoldable pub add : String → List String → List String
add k [] = k ∷ []
add k (x ∷ xs) = if str_eq x k then x ∷ xs else x ∷ add k xs

-- `erase(k)` from a set.
unfoldable pub erase : String → List String → List String
erase k [] = []
erase k (x ∷ xs) = if str_eq x k then xs else x ∷ erase k xs

pub member-add :
    (k j : String) (xs : List String)
    → member j (add k xs) ≡ (if str_eq k j then true else member j xs)
unfolding add
member-add k j [] = ground arith
member-add k j (x ∷ xs) = ground (arith, eq_iff k j, eq_iff x k, eq_iff x j, member-add k j xs)

pub member-erase_ne :
    (k j : String) (xs : List String) → k ≢ j → member j (erase k xs) ≡ member j xs
unfolding erase
member-erase_ne k j [] h = refl
member-erase_ne k j (x ∷ xs) h =
    ground (arith, eq_iff k j, eq_iff x k, eq_iff x j, member-erase_ne k j xs h)

-- A set has nothing twice.
abbrev pub AreDistinct : List String → Type 0
AreDistinct [] = Unit
AreDistinct (u ∷ us) = (member u us ≡ false) × AreDistinct us

pub add-AreDistinct : (u : String) (us : List String) → AreDistinct us → AreDistinct (add u us)
unfolding add
add-AreDistinct u [] h = (refl, tt)
add-AreDistinct u (x ∷ us) h = elim (Bool-cases (str_eq x u)) [
  | inl e ↦ rw e h
  | inr e ↦ rw e (apart x u us e h.0, add-AreDistinct u us h.1)
]
  where
    apart :
        (x u : String) (us : List String)
        → str_eq x u ≡ false
        → member x us ≡ false
        → member x (add u us) ≡ false
    apart x u us e h = ground (arith, member-add u x us, eq_iff x u, eq_iff u x)

-- A set has lost what was taken out of it.
pub member-erase :
    (k j : String) (xs : List String)
    → AreDistinct xs
    → member j (erase k xs) ≡ (not (str_eq k j) && member j xs)
unfolding erase
member-erase k j [] h = ground arith
member-erase k j (x ∷ xs) h =
    ground (arith, eq_iff k j, eq_iff x k, eq_iff x j, member-erase k j xs h.1, h.0)

pub erase-AreDistinct : (k : String) (xs : List String) → AreDistinct xs → AreDistinct (erase k xs)
unfolding erase
erase-AreDistinct k [] h = tt
erase-AreDistinct k (x ∷ xs) h = elim (Bool-cases (str_eq x k)) [
  | inl e ↦ rw e h.1
  | inr e ↦ rw e (rw (member-erase k x xs h.1, h.0) (ground arith), erase-AreDistinct k xs h.1)
]

pub All-add {κ} :
    (Q : String → Type κ) (u : String) (us : List String) → Q u → All Q us → All Q (add u us)
unfolding add
All-add Q u [] q a = (q, tt)
All-add Q u (x ∷ us) q a = elim (Bool-cases (str_eq x u)) [
  | inl e ↦ rw e a
  | inr e ↦ rw e (a.0, All-add Q u us q a.1)
]

pub Entries-map :
    {V : Type 0} {P Q : String → V → Type 0} (m : Dict V)
    → ((k : String) (v : V) → P k v → Q k v)
    → Entries P m
    → Entries Q m
Entries-map [] f h = tt
Entries-map ((k, v) ∷ m) f h = (f k v h.0, Entries-map m f h.1)
