-- ===== src/Examples/Services.antt =====
-- The theorems on the circuit breaker, the extended Prisma client, the notifications and the pages
-- at concrete inputs.
use corporate_lawyers_backen.Prelude.{
  ℕ, ◌<◌, true, none, some, List, [], ◌∷◌, ◌≡◌, refl, ◌↔◌, arith,
}
use corporate_lawyers_backen.World.{NotificationType}
use corporate_lawyers_backen.Breaker.{
  CircuitState, CircuitBreaker, Ending, value, new_breaker, on_failure, admit, execute,
}
use corporate_lawyers_backen.Breaker.Invariant.{Step, Reach, closed_iff_below}
use corporate_lawyers_backen.Breaker.Recovery.{execute-open}
use corporate_lawyers_backen.SoftDelete.{Model, is_soft_delete_model}
use corporate_lawyers_backen.Notifications.{Account, Store}

-- Two failures open it.
abbrev touchy : CircuitBreaker
touchy = record {
  state = CircuitState.closed;
  failure_count = 0;
  last_failure_time = 0;
  failure_threshold = 2;
  recovery_timeout_ms = 100;
}

-- Opened at the time 50.
abbrev tripped : CircuitBreaker
tripped = record touchy {
  state = CircuitState.open_circuit;
  failure_count = 2;
  last_failure_time = 50;
}

-- One action in flight, and its failure.
one_failure :
    Reach
      (record { breaker = new_breaker (some 2) (some 100); in_flight = 0; failures = 0 })
      (record { breaker = on_failure 50 touchy; in_flight = 0; failures = 1 })
unfolding new_breaker admit
one_failure = Reach.next (Reach.next Reach.here (Step.begin 40 touchy refl)) (Step.fail 50 0 refl)

closed_iff_below_example : ((on_failure 50 touchy).state ≡ CircuitState.closed) ↔ (1 < 2)
closed_iff_below_example =
    closed_iff_below 2 (some 100)
      (record { breaker = on_failure 50 touchy; in_flight = 0; failures = 1 }) (omega arith)
      one_failure

execute-open_example : execute {T = ℕ} 60 70 (value 1) none tripped ≡ (tripped, Ending.unavailable)
execute-open_example = execute-open 60 70 (value 1) none tripped refl (omega arith)

abbrev live_account : Account
live_account = record { id = 1; email = 11; deleted_at = none }

abbrev deleted_account : Account
deleted_account = record { id = 2; email = 12; deleted_at = some 9 }

abbrev accounts : List Account
accounts = live_account ∷ deleted_account ∷ []

user-soft : is_soft_delete_model Model.user ≡ true
unfolding is_soft_delete_model
user-soft = refl

abbrev sample_store : Store
sample_store = record {
  notifications =
      record { id = 5; user_id = 1; kind = NotificationType.in_app; read_at = none }
      ∷ record { id = 6; user_id = 3; kind = NotificationType.in_app; read_at = none }
      ∷ [];
  users = accounts;
  email_queue = [];
}
