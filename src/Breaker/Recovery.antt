-- ===== src/Breaker/Recovery.antt =====
-- How the breaker of circuit-breaker.ts trips and recovers, call by call.
use corporate_lawyers_backen.Prelude.{
  ℕ, suc, ◌+◌, ◌≤◌, ◌<◌, Option, none, ◌≡◌, List, [], ◌∷◌, arith, length,
}
use corporate_lawyers_backen.Breaker.{
  CircuitState, CircuitBreaker, Ending, value, failure, on_success, on_failure, admit, or_fallback,
  execute,
}

module _ {ℓ} {T : Type ℓ} where
  -- While the breaker is open and its time is not over, the action plays no part: the answer is the
  -- fallback, or 503 where there is none, and the breaker stays as it is.
  pub execute-open :
      (now now' : ℕ) (action : Ending T) (fallback : Option (Ending T)) (b : CircuitBreaker)
      → b.state ≡ CircuitState.open_circuit
      → now < b.last_failure_time + b.recovery_timeout_ms
      → execute now now' action fallback b ≡ (b, or_fallback fallback Ending.unavailable)
  unfolding execute admit
  execute-open now now' action fallback b open_now early = ground arith

  -- Once the time is over the action is run. Its success closes the breaker with a clean count; its
  -- failure leaves the breaker open for another period, from the time of the failure.
  pub execute-recovers :
      (now now' : ℕ) (x : T) (fallback : Option (Ending T)) (b : CircuitBreaker)
      → b.state ≡ CircuitState.open_circuit
      → b.failure_threshold ≤ b.failure_count
      → b.last_failure_time + b.recovery_timeout_ms ≤ now
      → (execute now now' (value x) fallback b
          ≡ (record b { failure_count = 0; state = CircuitState.closed }, value x))
        × (execute now now' failure fallback b ≡ (
          record b { failure_count = suc b.failure_count; last_failure_time = now' },
          or_fallback fallback failure,
        ))
  unfolding execute admit on_success on_failure
  execute-recovers now now' x fallback b open_now tripped late = (ground arith, ground arith)

-- The promise of an action that fails.
abbrev pub failed : Ending (Unit {0})
failed = failure

-- Calls that fail one after another, each at its time.
unfoldable pub fail_times : List ℕ → CircuitBreaker → CircuitBreaker
fail_times [] b = b
fail_times (t ∷ ts) b = fail_times ts (execute t t failed none b).0

execute-failing :
    (t : ℕ) (b : CircuitBreaker)
    → b.state ≡ CircuitState.closed
    → (execute t t failed none b).0 ≡ on_failure t b
unfolding execute admit
execute-failing t b closed = ground arith

fails_below :
    (ts : List ℕ) (b : CircuitBreaker)
    → b.state ≡ CircuitState.closed
    → b.failure_count + length ts < b.failure_threshold
    → ((fail_times ts b).state ≡ CircuitState.closed)
      × ((fail_times ts b).failure_count ≡ b.failure_count + length ts)
      × ((fail_times ts b).failure_threshold ≡ b.failure_threshold)
unfolding fail_times on_failure
fails_below [] b closed left = ground arith
fails_below (u ∷ ts) b closed left =
    rw (execute-failing u b closed, fail_times) (ground (arith, fails_below ts (on_failure u b)))

-- A closed breaker stays closed through fewer failures in a row than are left to its threshold, and
-- counts each; the failure that reaches the threshold opens it, from the time of that failure.
pub fail_times-trips :
    (ts : List ℕ) (t : ℕ) (b : CircuitBreaker)
    → b.state ≡ CircuitState.closed
    → b.failure_count + length ts + 1 ≡ b.failure_threshold
    → ((fail_times ts b).state ≡ CircuitState.closed)
      × ((fail_times ts b).failure_count ≡ b.failure_count + length ts)
      × (((execute t t failed none (fail_times ts b)).0).state ≡ CircuitState.open_circuit)
      × (((execute t t failed none (fail_times ts b)).0).last_failure_time ≡ t)
unfolding on_failure
fail_times-trips ts t b closed left =
    let (still, counted, same) = fails_below ts b closed (omega arith) in
    rw (execute-failing t (fail_times ts b) still) (ground arith)
