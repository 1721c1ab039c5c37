-- ===== src/Breaker/Invariant.antt =====
-- What holds of the breaker of circuit-breaker.ts between its steps, however calls overlap.
use corporate_lawyers_backen.Prelude.{ℕ, suc, ◌≤◌, ◌<◌, Option, none, some, ◌≡◌, ◌⊎◌, ◌↔◌, arith}
use corporate_lawyers_backen.Breaker.{
  CircuitState, CircuitBreaker, new_breaker, on_success, on_failure, admit,
}

-- The breaker has counted the failures, and its threshold is the given one. Closed means fewer
-- failures than the threshold, and any other state at least as many.
pub record Inv (threshold failures : ℕ) (b : CircuitBreaker) : Type 0 where
  pub positive : 0 < threshold
  pub same_threshold : b.failure_threshold ≡ threshold
  pub counted : b.failure_count ≡ failures
  pub closed_below : b.state ≡ CircuitState.closed → failures < threshold
  pub tripped_above : (b.state ≡ CircuitState.closed) ⊎ (threshold ≤ failures)

-- The breaker with the number of actions in flight, and the number of actions that have failed since
-- one last succeeded, which the breaker does not see. Calls are asynchronous, so another call may
-- begin or end while an action runs.
pub record Shared : Type 0 where
  pub breaker : CircuitBreaker
  pub in_flight : ℕ
  pub failures : ℕ

pub data Step : Shared → Shared → Type 0 where
  begin :
      {s : Shared} (now : ℕ) (b : CircuitBreaker)
      → admit now s.breaker ≡ some b
      → Step s (record { breaker = b; in_flight = suc s.in_flight; failures = s.failures })
  reject : {s : Shared} (now : ℕ) → admit now s.breaker ≡ none → Step s s
  succeed :
      {s : Shared} (n : ℕ)
      → s.in_flight ≡ suc n
      → Step s (record { breaker = on_success s.breaker; in_flight = n; failures = 0 })
  fail :
      {s : Shared} (now n : ℕ)
      → s.in_flight ≡ suc n
      → Step s
          (record { breaker = on_failure now s.breaker; in_flight = n; failures = suc s.failures })

pub data Reach (s : Shared) : Shared → Type 0 where
  here : Reach s s
  next : {t u : Shared} → Reach s t → Step t u → Reach s u

module _ {threshold : ℕ} where
  admit-Inv :
      (now failures : ℕ) (b b' : CircuitBreaker)
      → Inv threshold failures b
      → admit now b ≡ some b'
      → Inv threshold failures b'
  unfolding admit
  admit-Inv now failures b b' h e = ground arith

  on_success-Inv :
      (failures : ℕ) (b : CircuitBreaker)
      → Inv threshold failures b
      → Inv threshold 0 (on_success b)
  unfolding on_success
  on_success-Inv failures b h = ground arith

  on_failure-Inv :
      (now failures : ℕ) (b : CircuitBreaker)
      → Inv threshold failures b
      → Inv threshold (suc failures) (on_failure now b)
  unfolding on_failure
  on_failure-Inv now failures b h = ground arith

  Step-Inv :
      {s t : Shared}
      → Step s t
      → Inv threshold s.failures s.breaker
      → Inv threshold t.failures t.breaker
  Step-Inv (begin {s} now b e) h = admit-Inv now s.failures s.breaker b h e
  Step-Inv (reject now e) h = h
  Step-Inv (succeed {s} n e) h = on_success-Inv s.failures s.breaker h
  Step-Inv (fail {s} now n e) h = on_failure-Inv now s.failures s.breaker h

  Reach-keeps_Inv :
      {s t : Shared}
      → Inv threshold s.failures s.breaker
      → Reach s t
      → Inv threshold t.failures t.breaker
  Reach-keeps_Inv h here = h
  Reach-keeps_Inv h (next r st) = Step-Inv st (Reach-keeps_Inv h r)

new_breaker-Inv :
    (threshold : ℕ) (timeout : Option ℕ)
    → 0 < threshold
    → Inv threshold 0 (new_breaker (some threshold) timeout)
unfolding new_breaker
new_breaker-Inv threshold timeout h = ground arith

-- From a new breaker with a positive threshold, however its calls overlap, the breaker is closed
-- exactly when fewer of its actions than the threshold have failed since one last succeeded.
pub closed_iff_below :
    (threshold : ℕ) (timeout : Option ℕ) (t : Shared)
    → 0 < threshold
    → Reach
        (record { breaker = new_breaker (some threshold) timeout; in_flight = 0; failures = 0 })
        t
    → (t.breaker.state ≡ CircuitState.closed) ↔ (t.failures < threshold)
closed_iff_below threshold timeout t positive r =
    let h = Reach-keeps_Inv (new_breaker-Inv threshold timeout positive) r in
    (h.closed_below, λ below. ground (arith, h.tripped_above))
