-- ===== src/RpcRetry/Breaker.antt =====
-- The circuit breaker's invariant, and when it lets a call through.
use my_fans.Common.{
  ℕ, ◌-◌, ◌⊎◌, refl, leb, zero, suc, ◌+◌, ◌≤◌, ◌<◌, ◌≡◌, false, Option, none, some, arith, inl, inr,
  Option-cases, Bool-cases,
}
use my_fans.RpcRetry.{
  CircuitState, RetryOptions, Attempt, returned, threw, circuit_open, attempts, with_retry,
}

abbrev pub OpenWhen : Option ℕ → ℕ → ℕ → Type 0
OpenWhen none failures threshold = failures < threshold
OpenWhen (some t) failures threshold = threshold ≤ failures

-- The circuit is open exactly when it has counted as many failures as the threshold.
abbrev pub IsValid : ℕ → CircuitState → Type 0
IsValid threshold c = OpenWhen c.opened_at c.failures threshold

pub Attempt-cases :
    {T E : Type 0} (a : Attempt T E) → ((v : T) × (a ≡ returned v)) ⊎ ((e : E) × (a ≡ threw e))
Attempt-cases (returned v) = inl (v, refl)
Attempt-cases (threw e) = inr (e, refl)

module _ {T E : Type 0} (opts : RetryOptions T E) (fn : ℕ → Attempt T E) (clock : ℕ → ℕ) where
  -- The first attempt may be the probe of a circuit that was open.
  attempts-IsValid :
      (left attempt : ℕ) (last : Option E) (c : CircuitState)
      → 0 < opts.circuit_breaker_threshold
      → c.opened_at ≡ none
      → (left ≡ 0 → c.failures < opts.circuit_breaker_threshold)
      → IsValid opts.circuit_breaker_threshold (attempts opts fn clock left attempt last c).circuit
  unfolding attempts
  attempts-IsValid zero attempt last c pos closed low = let l = low refl in ground arith
  attempts-IsValid (suc left) attempt last c pos closed low = elim (Attempt-cases (fn attempt)) [
    | inl (v, ok) ↦ ground arith
    | inr (e, failed) ↦ elim (Bool-cases (leb opts.circuit_breaker_threshold (c.failures + 1))) [
      | inl trips ↦ ground arith
      | inr holds ↦
          let ih =
            attempts-IsValid left (attempt + 1) (some e) (record c { failures = c.failures + 1 })
              pos closed (λ _. ground arith) in
          ground arith
    ]
  ]

  -- A call keeps the invariant: afterwards too the circuit is open exactly when it has counted as
  -- many failures as the threshold, if at least one attempt is allowed.
  pub with_retry-IsValid :
      (now : ℕ) (c : CircuitState)
      → 0 < opts.circuit_breaker_threshold
      → 0 < opts.max_attempts
      → IsValid opts.circuit_breaker_threshold c
      → IsValid opts.circuit_breaker_threshold (with_retry opts fn clock now c).circuit
  unfolding with_retry
  with_retry-IsValid now c pos some' valid = elim (Option-cases c.opened_at) [
    | inl closed ↦
        let done = attempts-IsValid opts.max_attempts 0 none c pos closed (λ _. ground arith) in
        ground arith
    | inr (t, opened) ↦
        let done =
          attempts-IsValid opts.max_attempts 0 none (record c { opened_at = none }) pos refl
            (λ z. absurd (omega arith)) in
        ground arith
  ]

  -- While the circuit is open and its reset time has not passed, the operation is not called and
  -- nothing changes.
  pub with_retry_open :
      (now t : ℕ) (c : CircuitState)
      → c.opened_at ≡ some t
      → now < t + opts.circuit_reset_ms
      → with_retry opts fn clock now c ≡ record { outcome = circuit_open; circuit = c; calls = 0 }
  unfolding with_retry
  with_retry_open now t c opened early = ground arith

  -- After the reset time a valid open circuit allows one probe: if it fails transiently, the circuit
  -- opens again at once, with the new time, after that one call.
  pub with_retry_probe :
      (now t : ℕ) (e : E) (c : CircuitState)
      → IsValid opts.circuit_breaker_threshold c
      → 0 < opts.max_attempts
      → c.opened_at ≡ some t
      → t + opts.circuit_reset_ms ≤ now
      → fn 0 ≡ threw e
      → opts.is_permanent_error e ≡ false
      → with_retry opts fn clock now c ≡ record {
        outcome = circuit_open;
        circuit = record { failures = c.failures + 1; opened_at = some (clock 0) };
        calls = 1;
      }
  unfolding with_retry
  with_retry_probe now t e c valid some' opened late failed transient =
      let more : opts.max_attempts ≡ suc (opts.max_attempts - 1) = omega arith in ground arith
