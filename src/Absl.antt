-- ===== src/Absl.antt =====
-- absl::Status and absl::StatusOr as the code uses them. A call can also end outside these: by an
-- exception that `at` throws and nothing catches, or in undefined behaviour.
use moon_base.Base.{String, Bool, true, false, ◌≡◌, refl, ◌⊎◌, inl, inr, Option, none, some}

-- The codes of absl::StatusCode; gRPC's have the same values.
pub data StatusCode : Type 0 where
  code_ok cancelled unknown invalid_argument deadline_exceeded not_found already_exists : StatusCode
  permission_denied resource_exhausted failed_precondition aborted out_of_range : StatusCode
  unimplemented internal unavailable data_loss unauthenticated : StatusCode

pub record Status : Type 0 where
  pub code : StatusCode
  pub message : String

pub data Fault : Type 0 where
  -- `std::out_of_range`, thrown by `at`
  throws_out_of_range : Fault
  -- undefined behaviour: `back()` of an empty deque, `*` of an empty optional, a division by zero
  undefined : Fault

-- What a call that returns `StatusOr<A>` can do.
pub data StatusOr {ℓ} (A : Type ℓ) : Type ℓ where
  ok : A → StatusOr A
  err : Status → StatusOr A
  fault : Fault → StatusOr A

infixl 5 ◌>>=◌ ◌>>◌
abbrev pub ◌>>=◌ {ℓ κ} : {A : Type ℓ} {B : Type κ} → StatusOr A → (A → StatusOr B) → StatusOr B
ok a >>= f = f a
err e >>= f = err e
fault b >>= f = fault b

abbrev pub ◌>>◌ {ℓ} : {B : Type ℓ} → StatusOr (Unit {0}) → StatusOr B → StatusOr B
m >> k = m >>= λ _. k

-- `if (test) return error;`
abbrev pub refuse_if : Bool → Status → StatusOr (Unit {0})
refuse_if true e = err e
refuse_if false e = ok tt

abbrev pub or_fault {ℓ} : {A : Type ℓ} → Option A → Fault → StatusOr A
or_fault none b = fault b
or_fault (some a) b = ok a

abbrev pub invalid_argument_error : String → Status
invalid_argument_error m = record { code = invalid_argument; message = m }

abbrev pub failed_precondition_error : String → Status
failed_precondition_error m = record { code = failed_precondition; message = m }

abbrev pub internal_error : String → Status
internal_error m = record { code = internal; message = m }

abbrev pub not_found_error : String → Status
not_found_error m = record { code = not_found; message = m }

abbrev pub already_exists_error : String → Status
already_exists_error m = record { code = already_exists; message = m }

abbrev pub unimplemented_error : String → Status
unimplemented_error m = record { code = unimplemented; message = m }

-- What a chain that ended well went through.
pub ok_inj {ℓ} : {A : Type ℓ} {a b : A} → ok a ≡ ok b → a ≡ b
ok_inj e = cc

pub refuse_if-ok {ℓ} :
    {A : Type ℓ} (b : Bool) (e : Status) (k : StatusOr A) {a : A}
    → (refuse_if b e >> k) ≡ ok a
    → (b ≡ false) × (k ≡ ok a)
refuse_if-ok true e k h = cc
refuse_if-ok false e k h = (refl, h)

pub or_fault-ok {ℓ κ} :
    {A : Type ℓ} {B : Type κ} (o : Option A) (b : Fault) (f : A → StatusOr B) {r : B}
    → (or_fault o b >>= f) ≡ ok r
    → (a : A) × (o ≡ some a) × (f a ≡ ok r)
or_fault-ok none b f h = cc
or_fault-ok (some a) b f h = (a, refl, h)

pub >>=-ok {ℓ κ} :
    {A : Type ℓ} {B : Type κ} (m : StatusOr A) (f : A → StatusOr B) {b : B}
    → (m >>= f) ≡ ok b
    → (a : A) × (m ≡ ok a) × (f a ≡ ok b)
>>=-ok (ok a) f h = (a, refl, h)
>>=-ok (err e) f h = cc
>>=-ok (fault e) f h = cc

pub StatusOr-cases {ℓ} :
    {A : Type ℓ} (m : StatusOr A)
    → ((a : A) × (m ≡ ok a)) ⊎ (((e : Status) × (m ≡ err e)) ⊎ ((b : Fault) × (m ≡ fault b)))
StatusOr-cases (ok a) = inl (a, refl)
StatusOr-cases (err e) = inr (inl (e, refl))
StatusOr-cases (fault b) = inr (inr (b, refl))
