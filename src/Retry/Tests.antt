-- ===== src/Retry/Tests.antt =====
-- Runs of the repeated calls.
use jean_fourche.Base.{
  ℕ, ◌≡◌, refl, ◌%◌, ◌*◌, ◌+◌, none, some, [], ◌∷◌, ◌==◌, ltb, if◌then◌else◌, arith,
}
use jean_fourche.Retry.{Outcome, returned, raised, client, server, recursion_error, catch_exception}
use jean_fourche.Retry.Limits.{
  GivesUp, is_client_error, is_server_error, client_errors_end, server_errors_end,
  alternating_errors_exhaust_stack,
}

-- Down for two calls.
abbrev flaky : ℕ → Outcome ℕ
flaky n = if ltb n 2 then raised (client none) else returned n

flaky_waits :
    catch_exception flaky 5 ≡ record { outcome = returned 2; calls = 3; waits = 4 ∷ 8 ∷ [] }
unfolding catch_exception
flaky_waits = refl

abbrev gone : ℕ → Outcome ℕ
gone n = raised (client none)

client_errors_end_example : GivesUp gone 9 is_client_error (catch_exception gone 300)
client_errors_end_example = client_errors_end gone 300 (omega arith) (λ n. tt)

abbrev broken : ℕ → Outcome ℕ
broken n = raised (server (some 3))

server_errors_end_example : GivesUp broken 6 is_server_error (catch_exception broken 300)
server_errors_end_example = server_errors_end broken 300 (omega arith) (λ n. tt)

abbrev turns : ℕ → Outcome ℕ
turns n = if n % 2 == 0 then raised (client none) else raised (server none)

alternating_errors_exhaust_stack_example :
    ((catch_exception turns 100).calls ≡ 100)
    × ((catch_exception turns 100).outcome ≡ raised recursion_error)
alternating_errors_exhaust_stack_example =
    alternating_errors_exhaust_stack turns (λ n. (none, ground (arith, even n)))
      (λ n. (none, ground (arith, odd n))) 100
  where
    even : (n : ℕ) → (2 * n) % 2 ≡ 0
    even n = omega arith

    odd : (n : ℕ) → (2 * n + 1) % 2 ≡ 1
    odd n = omega arith
