-- ===== src/RpcRetry.antt =====
-- backend/src/common/utils/rpc-retry.ts: bounded retries under a circuit breaker.
-- The operation's outcome at each attempt and the clock's reading after each failed attempt come
-- from the environment, as functions of the attempt's number. Sleeping between attempts changes no
-- state; how long it lasts is `jittered_delay`, whose random number is the fraction `num / den`.
pub mod Breaker
pub mod Attempts
mod Tests
use my_fans.Common.{
  ℕ, zero, suc, ◌+◌, ◌*◌, ◌/◌, ◌^◌, min, Bool, Option, none, some, ltb, leb, if◌then◌else◌, get_or,
}

pub record CircuitState : Type 0 where
  pub failures : ℕ
  pub opened_at : Option ℕ

-- `getCircuit`: the entry of the map, or a new one.
abbrev pub get_circuit : Option CircuitState → CircuitState
get_circuit entry = get_or entry (record { failures = 0; opened_at = none })

-- Math.floor(exp / 2 + random * (exp / 2)), as one quotient.
pub jittered_delay : (attempt base cap num den : ℕ) → ℕ
jittered_delay attempt base cap num den =
    let exp = min (base * 2 ^ attempt) cap in (exp * den + num * exp) / (2 * den)

module _ (T E : Type 0) where
  pub record RetryOptions : Type 0 where
    pub max_attempts : ℕ
    pub circuit_breaker_threshold : ℕ
    pub circuit_reset_ms : ℕ
    pub is_permanent_error : E → Bool

  -- How one attempt ended.
  pub data Attempt : Type 0 where
    returned : T → Attempt
    threw : E → Attempt

  -- How the call ended. `gave_up none` is `throw undefined`, after no attempt at all.
  pub data Outcome : Type 0 where
    result : T → Outcome
    circuit_open : Outcome
    permanent : E → Outcome
    gave_up : Option E → Outcome

  -- The outcome, the circuit that is left, and how often the operation was called.
  pub record Report : Type 0 where
    pub outcome : Outcome
    pub circuit : CircuitState
    pub calls : ℕ

module _ {T E : Type 0} (opts : RetryOptions T E) (fn : ℕ → Attempt T E) (clock : ℕ → ℕ) where
  -- The loop from `attempt` on, with `left` attempts to go.
  pub attempts : (left attempt : ℕ) → Option E → CircuitState → Report T E
  attempts zero attempt last c = record { outcome = gave_up last; circuit = c; calls = attempt }
  attempts (suc left) attempt last c = elim (fn attempt) [
    | returned v ↦ record {
      outcome = result v;
      circuit = record c { failures = 0 };
      calls = attempt + 1;
    }
    | threw e ↦
        let failed = record c { failures = c.failures + 1 } in
        let rest = attempts left (attempt + 1) (some e) failed in
        if opts.is_permanent_error e
        then record {
          outcome = permanent e;
          circuit = record c { failures = 0 };
          calls = attempt + 1;
        }
        else if leb opts.circuit_breaker_threshold failed.failures
        then record {
          outcome = circuit_open;
          circuit = record failed { opened_at = some (clock attempt) };
          calls = attempt + 1;
        }
        else rest
  ]

  pub with_retry : (now : ℕ) → CircuitState → Report T E
  unfolding attempts
  with_retry now c = elim c.opened_at [
    | none ↦ attempts opts.max_attempts 0 none c
    | some t ↦
        if ltb now (t + opts.circuit_reset_ms)
        then record { outcome = circuit_open; circuit = c; calls = 0 }
        else attempts opts.max_attempts 0 none (record c { opened_at = none })
  ]
