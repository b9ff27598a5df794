-- ===== src/GrpcServices/Greeter.antt =====
-- The start of cpp/example_service, whose functions have the names that those of the golf gRPC service
-- have.
use Prim.Native.String.{◌++◌}
use moon_base.Base.{ℕ, String, Option, none, some, Bool, List, [], ◌∷◌}
use moon_base.Base.Int.{ℤ}
use moon_base.Base.Text.{to_string}
use moon_base.GrpcServices.{
  Effect, enables_health_check, inits_reflection, adds_listening_port, registers_service,
  builds_and_starts, prints, Ending, returns, then_do, wait, to_port,
}

-- `ReadPort`
abbrev pub read_port : (String → ℤ) → Option String → ℕ → ℕ
read_port atoi none default_port = default_port
read_port atoi (some env) default_port = to_port (atoi env)

module _ (atoi : String → ℤ) (starts : String → Bool) where
  -- `RunServer`
  abbrev pub run_server : ℕ → List Effect × Ending (Unit {0})
  run_server port =
      let server_address = "0.0.0.0:" ++ to_string port in
      then_do
        (
          enables_health_check
              ∷ inits_reflection
              ∷ adds_listening_port server_address
              ∷ registers_service "GreeterServiceImpl"
              ∷ builds_and_starts
              ∷ prints ("Server listening on " ++ server_address)
              ∷ [],
          returns tt,
        )
        (λ _. wait (starts server_address))

  -- `main`, with its exit code.
  abbrev pub main : Option String → List Effect × Ending ℕ
  main port = then_do (run_server (read_port atoi port 8080)) (λ _. ([], returns 0))
