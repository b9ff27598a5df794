-- ===== src/GrpcServices/Port.antt =====
-- Where the gRPC services listen, and that their programs do not return.
use Prim.Native.String.{◌++◌}
use moon_base.Base.{
  ℕ, ◌+◌, ◌%◌, ◌^◌, ◌<◌, String, Bool, ◌≡◌, ◌↔◌, refl, sym, ap, subst, true, false, Option, none,
  some, List, [], ◌∷◌, arith, if◌then◌else◌, ◌⊎◌, inl, inr, Bool-cases,
}
use moon_base.Base.Int.{ℤ, pos, negsuc, ◌≤ℤ◌}
use moon_base.Base.Text.{to_string}
use moon_base.Absl.{undefined}
use moon_base.GrpcServices.{
  Effect, enables_health_check, inits_reflection, builds_and_starts, prints, waits,
  adds_listening_port, registers_service, Ending, blocks, faults, to_port, read_port, main,
}
use moon_base.GrpcServices.Greeter

-- A call is among the effects.
abbrev pub Does : Effect → List Effect → Type 0
Does e [] = ⊥
Does e (d ∷ ds) = (d ≡ e) ⊎ Does e ds

-- A program asks gRPC for one address, that of the port, registers one service there, and does not
-- return: it waits for the server if one is started, and is undefined if not.
pub record Serves (starts : String → Bool) (service : String) (port : ℕ)
    (x : List Effect × Ending ℕ) : Type 0 where
  pub asks : Does (adds_listening_port ("0.0.0.0:" ++ to_string port)) x.0
  pub asks_once :
      (address : String)
      → Does (adds_listening_port address) x.0
      → address ≡ "0.0.0.0:" ++ to_string port
  pub registers : Does (registers_service service) x.0
  pub registers_once : (name : String) → Does (registers_service name) x.0 → name ≡ service
  pub ends : x.1 ≡ (if starts ("0.0.0.0:" ++ to_string port) then blocks else faults undefined)

-- The int that PORT is read as, or the port if it is not set.
abbrev pub requested : (String → ℤ) → Option String → ℤ
requested atoi none = pos 8080
requested atoi (some env) = atoi env

-- The remainder of an int modulo 2 ^ 16 is the number.
abbrev pub IsRemainder : ℤ → ℕ → Type 0
IsRemainder (pos n) p = n % 2 ^ 16 ≡ p
IsRemainder (negsuc n) p = (n + 1 + p) % 2 ^ 16 ≡ 0

to_port-IsRemainder :
    (z : ℤ)
    → (to_port z < 2 ^ 16)
      × IsRemainder z (to_port z)
      × ((pos (to_port z) ≡ z) ↔ ((pos 0 ≤ℤ z) × (z ≤ℤ pos 65535)))
to_port-IsRemainder (pos n) =
    (omega arith, refl, (λ e. ground (arith, e), λ h. ap pos (omega (arith, h.0, h.1))))
to_port-IsRemainder (negsuc n) =
    (omega arith, omega arith, (λ e. cc, λ h. absurd (omega (arith, h.0))))

read_port-to_port :
    (atoi : String → ℤ) (port : Option String)
    → read_port atoi port 8080 ≡ to_port (requested atoi port)
read_port-to_port atoi none = refl
read_port-to_port atoi (some env) = refl

greeter_read_port-to_port :
    (atoi : String → ℤ) (port : Option String)
    → Greeter.read_port atoi port 8080 ≡ to_port (requested atoi port)
greeter_read_port-to_port atoi none = refl
greeter_read_port-to_port atoi (some env) = refl

-- The effects of `RunServer`, and of its end.
abbrev course : String → String → Bool → List Effect
course service address is_started =
    enables_health_check
    ∷ inits_reflection
    ∷ adds_listening_port address
    ∷ registers_service service
    ∷ builds_and_starts
    ∷ prints ("Server listening on " ++ address)
    ∷ (if is_started then waits ∷ [] else [])

course_asks :
    (service address other : String) (is_started : Bool)
    → Does (adds_listening_port other) (course service address is_started)
    → other ≡ address
course_asks service address other true h = ground (arith, h)
course_asks service address other false h = ground (arith, h)

course_registers :
    (service address name : String) (is_started : Bool)
    → Does (registers_service name) (course service address is_started)
    → name ≡ service
course_registers service address name true h = ground (arith, h)
course_registers service address name false h = ground (arith, h)

course-Serves :
    (starts : String → Bool) (service : String) (port : ℕ) (x : List Effect × Ending ℕ)
    → x.0 ≡ course service ("0.0.0.0:" ++ to_string port) (starts ("0.0.0.0:" ++ to_string port))
    → x.1 ≡ (if starts ("0.0.0.0:" ++ to_string port) then blocks else faults undefined)
    → Serves starts service port x
course-Serves starts service port x does ends =
    let address = "0.0.0.0:" ++ to_string port in
    record {
      asks = subst (Does (adds_listening_port address)) (sym does) (inr (inr (inl refl)));
      asks_once = λ other h.
          course_asks service address other (starts address)
            (subst (Does (adds_listening_port other)) does h);
      registers = subst (Does (registers_service service)) (sym does) (inr (inr (inr (inl refl))));
      registers_once = λ name h.
          course_registers service address name (starts address)
            (subst (Does (registers_service name)) does h);
      ends = ends;
    }

main-Serves :
    (atoi : String → ℤ) (starts : String → Bool) (port : Option String)
    → Serves starts "GolfServiceImpl" (read_port atoi port 8080) (main atoi starts port)
main-Serves atoi starts port =
    elim (Bool-cases (starts ("0.0.0.0:" ++ to_string (read_port atoi port 8080)))) [
      | inl e ↦ course-Serves starts _ _ _ (rw e refl) (rw e refl)
      | inr e ↦ course-Serves starts _ _ _ (rw e refl) (rw e refl)
    ]

greeter_main-Serves :
    (atoi : String → ℤ) (starts : String → Bool) (port : Option String)
    → Serves starts "GreeterServiceImpl"
        (Greeter.read_port atoi port 8080)
        (Greeter.main atoi starts port)
greeter_main-Serves atoi starts port =
    elim (Bool-cases (starts ("0.0.0.0:" ++ to_string (Greeter.read_port atoi port 8080)))) [
      | inl e ↦ course-Serves starts _ _ _ (rw e refl) (rw e refl)
      | inr e ↦ course-Serves starts _ _ _ (rw e refl) (rw e refl)
    ]

-- Let PORT hold any text, which `atoi` reads as an int, or not be set, which counts as 8080. There is a
-- port less than 2 ^ 16, the remainder of the int modulo 2 ^ 16, and the int itself if and only if that
-- is from 0 to 65535, such that each of the two programs asks gRPC for the address of this port and no
-- other, registers its own service and no other, and does not return: it waits for good if gRPC starts a
-- server at this address, and otherwise ends in undefined behaviour.
pub main-to_port :
    (atoi : String → ℤ) (starts : String → Bool) (port : Option String)
    → (p : ℕ) × (p < 2 ^ 16)
      × IsRemainder (requested atoi port) p
      × ((pos p ≡ requested atoi port)
          ↔ ((pos 0 ≤ℤ requested atoi port) × (requested atoi port ≤ℤ pos 65535)))
      × Serves starts "GolfServiceImpl" p (main atoi starts port)
      × Serves starts "GreeterServiceImpl" p (Greeter.main atoi starts port)
main-to_port atoi starts port =
    let (less, remainder, exact) = to_port-IsRemainder (requested atoi port) in
    (
      to_port (requested atoi port),
      less,
      remainder,
      exact,
      subst (λ p. Serves starts "GolfServiceImpl" p (main atoi starts port))
          (read_port-to_port atoi port) (main-Serves atoi starts port),
      subst (λ p. Serves starts "GreeterServiceImpl" p (Greeter.main atoi starts port))
          (greeter_read_port-to_port atoi port) (greeter_main-Serves atoi starts port),
    )
