-- ===== src/GrpcServices/Tests.antt =====
-- A port that is too great, and the theorem on ports at it.
use moon_base.Base.{ℕ, ◌^◌, ◌<◌, String, ◌≡◌, ◌↔◌, refl, true, some, str_eq, if◌then◌else◌}
use moon_base.Base.Int.{ℤ, pos, ◌≤ℤ◌}
use moon_base.Base.Text.{to_string}
use moon_base.GrpcServices.{blocks, main}
use moon_base.GrpcServices.Greeter
use moon_base.GrpcServices.Port.{IsRemainder, Serves, main-to_port}

abbrev toy_atoi : String → ℤ
toy_atoi t = if str_eq t "70000" then pos 70000 else pos 0

-- 70000 is 4464 modulo 2 ^ 16, where the server waits.
waits_at_4464 : (main toy_atoi (λ address. str_eq address "0.0.0.0:4464") (some "70000")).1 ≡ blocks
unfolding to_string
waits_at_4464 = refl

main-to_port_example :
    (p : ℕ) × (p < 2 ^ 16)
    × IsRemainder (pos 70000) p
    × ((pos p ≡ pos 70000) ↔ ((pos 0 ≤ℤ pos 70000) × (pos 70000 ≤ℤ pos 65535)))
    × Serves (λ address. true) "GolfServiceImpl" p (main toy_atoi (λ address. true) (some "70000"))
    × Serves
        (λ address. true)
        "GreeterServiceImpl"
        p
        (Greeter.main toy_atoi (λ address. true) (some "70000"))
main-to_port_example = main-to_port toy_atoi (λ address. true) (some "70000")
