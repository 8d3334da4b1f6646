-- ===== src/RpcRetry/Attempts.antt =====
-- What a sequence of attempts comes to, on every way in which it can end.
use mathlib.Core.Path.{subst}
use native.Mathlib.Nat.{le-div_iff_mul-le, div-le_of_le-mul}
use my_fans.Common.{
  ℕ, zero, suc, ◌+◌, ◌-◌, ◌*◌, ◌/◌, ◌%◌, ◌^◌, ap, min, ◌≤◌, ◌<◌, ◌≡◌, refl, false, Option, none,
  some, arith, ◌⊎◌, inl, inr,
}
use my_fans.RpcRetry.{
  CircuitState, RetryOptions, Attempt, returned, threw, result, gave_up, circuit_open,
  jittered_delay, attempts, with_retry,
}
use my_fans.RpcRetry.Breaker.{Attempt-cases}

module _ {T E : Type 0} (opts : RetryOptions T E) (fn : ℕ → Attempt T E) (clock : ℕ → ℕ) where
  attempts-calls-le :
      (left attempt : ℕ) (last : Option E) (c : CircuitState)
      → (attempts opts fn clock left attempt last c).calls ≤ attempt + left
  unfolding attempts
  attempts-calls-le zero attempt last c = omega arith
  attempts-calls-le (suc left) attempt last c = elim (Attempt-cases (fn attempt)) [
    | inl (v, ok) ↦ ground arith
    | inr (e, failed) ↦ ground (
      arith,
      attempts-calls-le left (attempt + 1) (some e) (record c { failures = c.failures + 1 }),
    )
  ]

  -- The operation is never called more often than the options allow.
  pub with_retry-calls-le :
      (now : ℕ) (c : CircuitState) → (with_retry opts fn clock now c).calls ≤ opts.max_attempts
  unfolding with_retry
  with_retry-calls-le now c = ground (
    arith,
    attempts-calls-le opts.max_attempts 0 none c,
    attempts-calls-le opts.max_attempts 0 none (record c { opened_at = none }),
  )

  -- The first `k` attempts from `attempt` on fail, and not for good.
  abbrev pub FailsTransiently : (attempt k : ℕ) → Type 0
  FailsTransiently attempt k =
      (i : ℕ)
      → attempt ≤ i
      → i < attempt + k
      → (e : E) × (fn i ≡ threw e) × (opts.is_permanent_error e ≡ false)

  attempts_step :
      (left attempt : ℕ) (last : Option E) (e : E) (c : CircuitState)
      → fn attempt ≡ threw e
      → opts.is_permanent_error e ≡ false
      → c.failures + 1 < opts.circuit_breaker_threshold
      → attempts opts fn clock (suc left) attempt last c
        ≡ attempts opts fn clock left
            (attempt + 1)
            (some e)
            (record c { failures = c.failures + 1 })
  unfolding attempts
  attempts_step left attempt last e c failed transient low = ground arith

  -- Below the threshold, such attempts only count.
  attempts_skip :
      (k left attempt : ℕ) (last : Option E) (c : CircuitState)
      → FailsTransiently attempt k
      → c.failures + k < opts.circuit_breaker_threshold
      → (l : Option E) × (attempts opts fn clock (k + left) attempt last c
          ≡ attempts opts fn clock left (attempt + k) l (record c { failures = c.failures + k }))
        × (((k ≡ 0) × (l ≡ last)) ⊎ ((e : E) × (l ≡ some e) × (fn (attempt + k - 1) ≡ threw e)))
  attempts_skip zero left attempt last c fails low =
      let same : c.failures + 0 ≡ c.failures = omega arith in (last, ground arith, inl (refl, refl))
  attempts_skip (suc k) left attempt last c fails low =
      let (e, failed, transient) = fails attempt (omega arith) (omega arith) in
      let (l, rest, end) =
        attempts_skip k left (attempt + 1) (some e) (record c { failures = c.failures + 1 })
          (λ i lo hi. fails i (omega arith) (omega arith)) (omega arith) in
      (
        l,
        ground (arith, attempts_step (k + left) attempt last e c failed transient (omega arith)),
        inr (elim end [
          | inl (z, same) ↦ (e, same, ground arith)
          | inr (e', same, fell) ↦ (e', same, ground arith)
        ]),
      )

  attempts_ok :
      (left attempt : ℕ) (last : Option E) (v : T) (c : CircuitState)
      → fn attempt ≡ returned v
      → attempts opts fn clock (suc left) attempt last c
        ≡ record { outcome = result v; circuit = record c { failures = 0 }; calls = attempt + 1 }
  unfolding attempts
  attempts_ok left attempt last v c ok = ground arith

  attempts_end :
      (attempt : ℕ) (last : Option E) (c : CircuitState)
      → attempts opts fn clock 0 attempt last c
        ≡ record { outcome = gave_up last; circuit = c; calls = attempt }
  unfolding attempts
  attempts_end attempt last c = refl

  attempts_trip :
      (left attempt : ℕ) (last : Option E) (e : E) (c : CircuitState)
      → fn attempt ≡ threw e
      → opts.is_permanent_error e ≡ false
      → opts.circuit_breaker_threshold ≤ c.failures + 1
      → attempts opts fn clock (suc left) attempt last c ≡ record {
        outcome = circuit_open;
        circuit = record { failures = c.failures + 1; opened_at = some (clock attempt) };
        calls = attempt + 1;
      }
  unfolding attempts
  attempts_trip left attempt last e c failed transient high = ground arith

  module _ (now : ℕ) (c : CircuitState) (closed : c.opened_at ≡ none) where
    -- A closed circuit, `k` transient failures below the threshold, then a success: that result is
    -- returned after `k + 1` calls, and the count of failures starts again.
    pub with_retry_succeeds :
        (k : ℕ) (v : T)
        → k < opts.max_attempts
        → FailsTransiently 0 k
        → fn k ≡ returned v
        → c.failures + k < opts.circuit_breaker_threshold
        → with_retry opts fn clock now c ≡ record {
          outcome = result v;
          circuit = record { failures = 0; opened_at = none };
          calls = k + 1;
        }
    unfolding with_retry
    with_retry_succeeds k v enough fails ok low =
        let left = opts.max_attempts - k - 1 in
        let all : opts.max_attempts ≡ k + suc left = omega arith in
        let (l, skip, _) = attempts_skip k (suc left) 0 none c fails low in
        let final =
          attempts_ok left (0 + k) l v (record c { failures = c.failures + k })
            (subst (λ i. fn i ≡ returned v) (omega arith) ok) in
        ground arith

    -- A closed circuit, and only transient failures, which stay below the threshold: after exactly
    -- `max_attempts` calls the last error is thrown, and the failures are counted.
    pub with_retry_gives_up :
        0 < opts.max_attempts
        → FailsTransiently 0 opts.max_attempts
        → c.failures + opts.max_attempts < opts.circuit_breaker_threshold
        → (e : E) × (fn (opts.max_attempts - 1) ≡ threw e)
          × (with_retry opts fn clock now c ≡ record {
            outcome = gave_up (some e);
            circuit = record { failures = c.failures + opts.max_attempts; opened_at = none };
            calls = opts.max_attempts;
          })
    unfolding with_retry
    with_retry_gives_up some' fails low =
        let (l, skip, end) = attempts_skip opts.max_attempts 0 0 none c fails low in
        elim end [
          | inl (z, same) ↦ absurd (omega arith)
          | inr (e, same, fell) ↦ (
            e,
            ground arith,
            ground (
              arith,
              attempts_end (0 + opts.max_attempts) l
                  (record c { failures = c.failures + opts.max_attempts }),
            ),
          )
        ]

    -- A closed circuit and transient failures up to the threshold, within the attempts allowed: the
    -- circuit opens at the failure that reaches the threshold, and no further call is made.
    pub with_retry_trips :
        (k : ℕ)
        → k < opts.max_attempts
        → FailsTransiently 0 (k + 1)
        → c.failures + k + 1 ≡ opts.circuit_breaker_threshold
        → with_retry opts fn clock now c ≡ record {
          outcome = circuit_open;
          circuit = record {
            failures = opts.circuit_breaker_threshold;
            opened_at = some (clock k);
          };
          calls = k + 1;
        }
    unfolding with_retry
    with_retry_trips k enough fails reached =
        let left = opts.max_attempts - k - 1 in
        let all : opts.max_attempts ≡ k + suc left = omega arith in
        let (e, failed, transient) = fails k (omega arith) (omega arith) in
        let (l, skip, _) =
          attempts_skip k (suc left) 0 none c (λ i lo hi. fails i lo (omega arith)) (omega arith) in
        let final =
          attempts_trip left (0 + k) l e (record c { failures = c.failures + k })
            (subst (λ i. fn i ≡ threw e) (omega arith) failed) transient (omega arith) in
        ground arith

half_to_whole :
    (x num den : ℕ)
    → num < den
    → (x / 2 ≤ (x * den + num * x) / (2 * den)) × ((x * den + num * x) / (2 * den) ≤ x)
half_to_whole x num den frac =
    let halves : x ≡ x / 2 * 2 + x % 2 = omega arith in
    let spare : den ≡ num + (den - num) = omega arith in
    (
      (le-div_iff_mul-le (omega arith)).1 (omega (arith, ap (λ (t : ℕ). t * den) halves)),
      div-le_of_le-mul (2 * den) (omega (arith, ap (λ (t : ℕ). t * x) spare)),
    )

-- The pause before the next attempt lies between half of the capped exponential delay and the whole
-- of it, so it never exceeds the cap.
pub jittered_delay_bounds :
    (attempt base cap num den : ℕ)
    → num < den
    → (min (base * 2 ^ attempt) cap / 2 ≤ jittered_delay attempt base cap num den)
      × (jittered_delay attempt base cap num den ≤ min (base * 2 ^ attempt) cap)
      × (jittered_delay attempt base cap num den ≤ cap)
unfolding jittered_delay
jittered_delay_bounds attempt base cap num den frac =
    let h = half_to_whole (min (base * 2 ^ attempt) cap) num den frac in (h.0, h.1, omega arith)
