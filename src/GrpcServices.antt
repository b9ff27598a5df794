-- ===== src/GrpcServices.antt =====
-- The gRPC services of cpp/golf_grpc_service and cpp/example_service, and the start of the former. A
-- method is given the request and the response to fill in, and returns a status and the response.
pub mod Greeter
pub mod Port
mod Tests
use Prim.Native.String.{◌++◌}
use moon_base.Base.{
  ℕ, ◌-◌, ◌%◌, ◌^◌, String, Option, none, some, Bool, List, [], ◌∷◌, ◌++◌ as ◌⧺◌, if◌then◌else◌,
}
use moon_base.Base.Int.{ℤ, pos, negsuc}
use moon_base.Base.Text.{to_string}
use moon_base.Absl.{Status, code_ok, Fault, undefined}

-- `grpc::Status::OK`
abbrev pub status_ok : Status
status_ok = record { code = code_ok; message = "" }

-- A method of a service on the messages that protobuf makes of its request and its response.
abbrev pub Method : Type 0 → Type 0 → Type 0
Method Request Response = Request → Response → Status × Response

module _ {Request Response : Type 0} where
  -- `GolfServiceImpl::RegisterUser`
  abbrev pub register_user : Method Request Response
  register_user request response = (status_ok, response)

  -- `GolfServiceImpl::NewGame`
  abbrev pub new_game : Method Request Response
  new_game request response = (status_ok, response)

  -- `GolfServiceImpl::Peek`
  abbrev pub peek : Method Request Response
  peek request response = (status_ok, response)

  -- `GolfServiceImpl::DiscardDraw`
  abbrev pub discard_draw : Method Request Response
  discard_draw request response = (status_ok, response)

  -- `GolfServiceImpl::SwapForDraw`
  abbrev pub swap_for_draw : Method Request Response
  swap_for_draw request response = (status_ok, response)

  -- `GolfServiceImpl::SwapForDiscard`
  abbrev pub swap_for_discard : Method Request Response
  swap_for_discard request response = (status_ok, response)

  -- `GolfServiceImpl::Knock`
  abbrev pub knock : Method Request Response
  knock request response = (status_ok, response)

-- `GreeterServiceImpl::SayHello`, on the name of the request and the message of the reply.
abbrev pub say_hello : Method String String
say_hello name message = (status_ok, "Hello " ++ name)

-- `static_cast<uint16_t>` of an int: modulo 2 ^ 16.
abbrev pub to_port : ℤ → ℕ
to_port (pos n) = n % 2 ^ 16
to_port (negsuc n) = 2 ^ 16 - 1 - n % 2 ^ 16

-- What a program asks of gRPC, and what it prints; a service goes by the name of its class.
pub data Effect : Type 0 where
  enables_health_check inits_reflection builds_and_starts waits : Effect
  registers_service adds_listening_port prints : String → Effect

-- How a call ends, if it does: `Wait` blocks until some thread calls `Shutdown`, which none does.
pub data Ending (A : Type 0) : Type 0 where
  returns : A → Ending A
  blocks : Ending A
  faults : Fault → Ending A

-- What follows a call is done if the call returns.
abbrev pub after : {A B : Type 0} → Ending A → (A → List Effect × Ending B) → List Effect × Ending B
after (returns a) f = f a
after blocks f = ([], blocks)
after (faults b) f = ([], faults b)

-- One call after another.
abbrev pub then_do :
    {A B : Type 0} → List Effect × Ending A → (A → List Effect × Ending B) → List Effect × Ending B
then_do (done, e) f = let (more, e') = after e f in (done ⧺ more, e')

-- `server->Wait()`, of the server that `BuildAndStart` has returned, or of a null pointer.
abbrev pub wait : Bool → List Effect × Ending (Unit {0})
wait is_started = if is_started then (waits ∷ [], blocks) else ([], faults undefined)

-- `ReadPort`, with the variable PORT and `std::atoi` as parameters.
abbrev pub read_port : (String → ℤ) → Option String → ℕ → ℕ
read_port atoi none default_port = default_port
read_port atoi (some env) default_port = to_port (atoi env)

-- Whether `BuildAndStart` returns a server for an address, and not a null pointer, is a parameter.
module _ (atoi : String → ℤ) (starts : String → Bool) where
  -- `RunServer`
  abbrev pub run_server : ℕ → List Effect × Ending (Unit {0})
  run_server port =
      let server_address = "0.0.0.0:" ++ to_string port in
      then_do
        (
          enables_health_check
              ∷ inits_reflection
              ∷ adds_listening_port server_address
              ∷ registers_service "GolfServiceImpl"
              ∷ builds_and_starts
              ∷ prints ("Server listening on " ++ server_address)
              ∷ [],
          returns tt,
        )
        (λ _. wait (starts server_address))

  -- `main`, with its exit code.
  abbrev pub main : Option String → List Effect × Ending ℕ
  main port = then_do (run_server (read_port atoi port 8080)) (λ _. ([], returns 0))
