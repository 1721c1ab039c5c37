-- ===== src/Breaker.antt =====
-- src/common/resilience/circuit-breaker.ts. Times are milliseconds. An action is a promise: it is
-- known here by how it ends, and `Date.now()` by the values that it returns.
pub mod Invariant
pub mod Recovery
use corporate_lawyers_backen.Prelude.{
  ℕ, suc, ◌+◌, Bool, true, false, Option, none, some, leb, if◌then◌else◌,
}

pub data CircuitState : Type 0 where
  closed open_circuit half_open : CircuitState

pub record CircuitBreaker : Type 0 where
  pub state : CircuitState
  pub failure_count : ℕ
  pub last_failure_time : ℕ
  pub failure_threshold : ℕ
  pub recovery_timeout_ms : ℕ

-- `new CircuitBreaker(name, options)`, with the defaults 5 and 30000.
unfoldable pub new_breaker : Option ℕ → Option ℕ → CircuitBreaker
new_breaker threshold timeout = record {
  state = CircuitState.closed;
  failure_count = 0;
  last_failure_time = 0;
  failure_threshold = elim threshold [ none ↦ 5 | some n ↦ n ];
  recovery_timeout_ms = elim timeout [ none ↦ 30000 | some n ↦ n ];
}

-- How a promise ends.
pub data Ending {ℓ} (T : Type ℓ) : Type ℓ where
  value : T → Ending T
  failure : Ending T
  unavailable : Ending T

unfoldable pub on_success : CircuitBreaker → CircuitBreaker
on_success b = record b { failure_count = 0; state = CircuitState.closed }

unfoldable pub on_failure : (now : ℕ) → CircuitBreaker → CircuitBreaker
on_failure now b = record b {
  failure_count = suc b.failure_count;
  last_failure_time = now;
  state =
      if leb b.failure_threshold (suc b.failure_count) then CircuitState.open_circuit else b.state;
}

abbrev pub is_open : CircuitState → Bool
is_open CircuitState.open_circuit = true
is_open _ = false

-- `elapsed >= recoveryTimeoutMs`, with `lastFailureTime` on the other side.
abbrev pub recovered : (now : ℕ) → CircuitBreaker → Bool
recovered now b = leb (b.last_failure_time + b.recovery_timeout_ms) now

-- The start of `execute`, up to the action: the breaker if the action is run, or nothing.
unfoldable pub admit : (now : ℕ) → CircuitBreaker → Option CircuitBreaker
admit now b =
    if is_open b.state
    then (if recovered now b then some (record b { state = CircuitState.half_open }) else none)
    else some b

module _ {ℓ} {T : Type ℓ} where
  -- `if (fallback) return fallback()`
  abbrev pub or_fallback : Option (Ending T) → Ending T → Ending T
  or_fallback none e = e
  or_fallback (some e') e = e'

  -- The rest of `execute`, when the action has ended at the time `now'`.
  abbrev pub finish :
      (now' : ℕ) → Ending T → Option (Ending T) → CircuitBreaker → CircuitBreaker × Ending T
  finish now' (value x) fallback b = (on_success b, value x)
  finish now' failure fallback b = (on_failure now' b, or_fallback fallback failure)
  finish now' unavailable fallback b = (on_failure now' b, or_fallback fallback unavailable)

  abbrev pub after_admission :
      (now' : ℕ)
      → Ending T
      → Option (Ending T)
      → CircuitBreaker
      → Option CircuitBreaker
      → CircuitBreaker × Ending T
  after_admission now' action fallback b none = (b, or_fallback fallback unavailable)
  after_admission now' action fallback b (some b') = finish now' action fallback b'

  -- `execute`, when nothing else runs between its start and the end of its action.
  unfoldable pub execute :
      (now now' : ℕ) → Ending T → Option (Ending T) → CircuitBreaker → CircuitBreaker × Ending T
  execute now now' action fallback b = after_admission now' action fallback b (admit now b)
