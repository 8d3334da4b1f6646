-- ===== src/RpcRetry/Tests.antt =====
-- The retry loop on concrete inputs, and the theorems at inputs that meet their hypotheses.
use my_fans.Common.{ℕ, ◌≡◌, refl, false, some, none, arith, ltb, if◌then◌else◌}
use my_fans.RpcRetry.{
  CircuitState, RetryOptions, Attempt, returned, threw, result, circuit_open, with_retry,
}
use my_fans.RpcRetry.Breaker.{IsValid, with_retry-IsValid, with_retry_open}
use my_fans.RpcRetry.Attempts.{with_retry_succeeds}

abbrev options : RetryOptions ℕ ℕ
options = record {
  max_attempts = 4;
  circuit_breaker_threshold = 5;
  circuit_reset_ms = 30000;
  is_permanent_error = λ e. false;
}

-- Two failures, then the value 42.
abbrev flaky : ℕ → Attempt ℕ ℕ
flaky i = if ltb i 2 then threw 7 else returned 42

abbrev down : ℕ → Attempt ℕ ℕ
down i = threw 7

abbrev fresh : CircuitState
fresh = record { failures = 0; opened_at = none }

abbrev worn : CircuitState
worn = record { failures = 3; opened_at = none }

abbrev tripped : CircuitState
tripped = record { failures = 5; opened_at = some 1000 }

abbrev clock : ℕ → ℕ
clock i = 50000

with_retry-IsValid_example : IsValid 5 (with_retry options flaky clock 40000 tripped).circuit
with_retry-IsValid_example =
    with_retry-IsValid options flaky clock 40000 tripped (omega arith) (omega arith) (omega arith)

with_retry_open_example :
    with_retry options flaky clock 2000 tripped
    ≡ record { outcome = circuit_open; circuit = tripped; calls = 0 }
with_retry_open_example = with_retry_open options flaky clock 2000 1000 tripped refl (omega arith)

with_retry_succeeds_example :
    with_retry options flaky clock 0 fresh
    ≡ record { outcome = result 42; circuit = record { failures = 0; opened_at = none }; calls = 3 }
with_retry_succeeds_example =
    with_retry_succeeds options flaky clock 0 fresh refl 2 42 (omega arith)
      (λ i lo hi. (7, ground arith, refl)) refl (omega arith)
