-- ===== src/Golf/Service/Connections.antt =====
-- `connectionsByUser` only grows: a new user's connection takes no other's place.
use moon_base.Base.{
  ℕ, String, ◌≡◌, refl, false, Bool-cases, inl, inr, Option, none, some, List, [], ◌∷◌, All, arith,
  eq_iff, str_eq, sym, ◌∙◌, ◌⊎◌, if◌then◌else◌,
}
use mathlib.Core.Option.{some-injective}
use moon_base.Base.Dict.{Dict, lookup, has_key, has_key-lookup, insert, lookup-insert}
use moon_base.Golf.GameState.{GameState}
use moon_base.Golf.GameState.Names.{names_of, OfName}
use moon_base.Golf.Service.{Output, insert_new, has_connection}
use moon_base.Golf.Service.Handlers.{Json, is_registered}
use moon_base.Golf.Service.Known.{HasConnection, AllOpen, KnownTo}
use moon_base.Golf.Service.Invariant.{Alone, IsAllowed, notice, view, upgraded, replied, served}

-- Whoever has a connection keeps it.
pub lookup-insert_new :
    (user u : String) (c d : ℕ) (conns : Dict ℕ)
    → lookup u conns ≡ some d
    → lookup u (insert_new user c conns) ≡ some d
lookup-insert_new user u c d conns e = ground (arith, eq_iff user u, lookup-insert user u c conns)

has_key-insert_new :
    (user u : String) (c : ℕ) (conns : Dict ℕ)
    → HasConnection conns u
    → HasConnection (insert_new user c conns) u
has_key-insert_new user u c conns h =
    let (d, e) = has_key-lookup u conns h in
    let e' = lookup-insert_new user u c d conns e in rw (has_key, e') refl

pub KnownTo-insert_new :
    (user : String) (c : ℕ) (conns : Dict ℕ) (g : GameState)
    → KnownTo conns g
    → KnownTo (insert_new user c conns) g
KnownTo-insert_new user c conns g k = record {
  full = k.full;
  known = all (names_of g.players) k.known;
}
  where
    at :
        (o : Option String)
        → OfName (HasConnection conns) o
        → OfName (HasConnection (insert_new user c conns)) o
    at none h = tt
    at (some u) h = has_key-insert_new user u c conns h

    all :
        (os : List (Option String))
        → All (OfName (HasConnection conns)) os
        → All (OfName (HasConnection (insert_new user c conns))) os
    all [] h = tt
    all (o ∷ os) h = (at o h.0, all os h.1)

IsAllowed-insert_new :
    (json : Json) (user : String) (c : ℕ) (conns : Dict ℕ) {o : Output}
    → IsAllowed json conns o
    → IsAllowed json (insert_new user c conns) o
IsAllowed-insert_new json user c conns (notice n) = notice n
IsAllowed-insert_new json user c conns (view {c = d} u at sees) =
    view u (lookup-insert_new user u c d conns at) sees
IsAllowed-insert_new json user c conns upgraded = upgraded
IsAllowed-insert_new json user c conns replied = replied
IsAllowed-insert_new json user c conns served = served

pub All-insert_new :
    (json : Json) (user : String) (c : ℕ) (conns : Dict ℕ) (os : List Output)
    → All (IsAllowed json conns) os
    → All (IsAllowed json (insert_new user c conns)) os
All-insert_new json user c conns [] a = tt
All-insert_new json user c conns (o ∷ os) a =
    (IsAllowed-insert_new json user c conns a.0, All-insert_new json user c conns os a.1)

-- A connection that is not registered is nobody's.
pub is_registered-lookup :
    (c : ℕ) (conns : Dict ℕ) (u : String)
    → is_registered c conns ≡ false
    → lookup u conns ≡ some c
    → ⊥
is_registered-lookup c [] u e h = cc
is_registered-lookup c ((user, d) ∷ m) u e h =
    let less = is_registered-lookup c m u in ground (arith, less)

-- Who has a connection after a new user: that user, by the connection given, or who had it before.
lookup_after :
    (user : String) (c : ℕ) (conns : Dict ℕ) (u : String) (d : ℕ)
    → lookup u (insert user c conns) ≡ some d
    → ((user ≡ u) × (c ≡ d)) ⊎ (lookup u conns ≡ some d)
lookup_after user c conns u d h = go (sym (lookup-insert user u c conns) ∙ h)
  where
    go :
        (if str_eq user u then some c else lookup u conns) ≡ some d
        → ((user ≡ u) × (c ≡ d)) ⊎ (lookup u conns ≡ some d)
    go l = elim (Bool-cases (str_eq user u)) [
      | inl e ↦ inl ((eq_iff user u).0 e, some-injective c d (rw e at l))
      | inr e ↦ inr (rw e at l)
    ]

pub Alone-insert_new :
    (user : String) (c : ℕ) (conns : Dict ℕ)
    → Alone conns
    → is_registered c conns ≡ false
    → Alone (insert_new user c conns)
Alone-insert_new user c conns a e u w d h l = elim (Bool-cases (has_key user conns)) [
  | inl old ↦ a u w d (rw old at h) (rw old at l)
  | inr new ↦ elim (lookup_after user c conns u d (rw new at h)) [
    | inl (mine, same) ↦ elim (lookup_after user c conns w d (rw new at l)) [
      | inl (too, _) ↦ sym mine ∙ too
      | inr old ↦ absurd (is_registered-lookup c conns w e (rw same old))
    ]
    | inr before ↦ elim (lookup_after user c conns w d (rw new at l)) [
      | inl (mine, same) ↦ absurd (is_registered-lookup c conns u e (rw same before))
      | inr old ↦ a u w d before old
    ]
  ]
]

-- A new user's connection is the one given; nobody else gets another.
pub lookup_after_new :
    (user : String) (c : ℕ) (conns : Dict ℕ) (u : String) (d : ℕ)
    → lookup u (insert_new user c conns) ≡ some d
    → (lookup u conns ≡ some d) ⊎ (d ≡ c)
lookup_after_new user c conns u d h = elim (Bool-cases (has_key user conns)) [
  | inl old ↦ inl (rw old at h)
  | inr new ↦ elim (lookup_after user c conns u d (rw new at h)) [
    | inl (mine, same) ↦ inr (sym same)
    | inr before ↦ inl before
  ]
]

pub AllOpen-insert_new :
    (user : String) (c : ℕ) (conns : Dict ℕ) (closed : List ℕ)
    → has_connection c closed ≡ false
    → AllOpen conns closed
    → AllOpen (insert_new user c conns) closed
AllOpen-insert_new user c conns closed live all u d h = elim (lookup_after_new user c conns u d h) [
  | inl before ↦ all u d before
  | inr same ↦ rw same live
]
