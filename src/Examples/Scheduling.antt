-- ===== src/Examples/Scheduling.antt =====
-- The theorems on src/modules/calendar/event.service.ts and src/modules/integrations/webhooks at
-- concrete rows.
use corporate_lawyers_backen.Prelude.{
  ℕ, zero, suc, ◌+◌, ◌<◌, true, false, none, [], ◌∷◌, ◌++◌, ◌≡◌, refl, ◌⊎◌, ◌↔◌, any, map, is_some,
  includes, arith,
}
use corporate_lawyers_backen.World.{HttpError, ok, err, final}
use corporate_lawyers_backen.Calendar.{
  Event, CreateEventDto, Store, takes_part, not_excluded, check_schedule_conflicts, find_one,
}
use corporate_lawyers_backen.Calendar.Events.{event_of, create}
use corporate_lawyers_backen.Calendar.Conflicts.{SharesInstant, names, check_schedule_conflicts_lem}
use corporate_lawyers_backen.Calendar.Order.{Ordered, creates, Step-Ordered}
use corporate_lawyers_backen.Calendar.Atomicity.{create-not_atomic}
use corporate_lawyers_backen.Webhooks
use corporate_lawyers_backen.Webhooks.{Job, Reply, answered, broken, process}
use corporate_lawyers_backen.Examples.Worker.{worker}
use corporate_lawyers_backen.Webhooks.Delivery.{
  AllFail, succeeds, delivery_of, numbers_from, process-attempts, is_plain,
}

-- A hearing from 100 to 200 that user 1 made.
abbrev hearing : Event
hearing = record {
  id = 5;
  title = 0;
  kind = 0;
  start_date = 100;
  end_date = 200;
  location = none;
  is_all_day = false;
  case_id = none;
  created_by_id = 1;
  deleted_at = none;
}

abbrev calendar : Store
calendar = record {
  events = hearing ∷ [];
  attendees = [];
  reminders = [];
  users = record { id = 1; deleted_at = none } ∷ record { id = 2; deleted_at = none } ∷ [];
  cases = 10 ∷ [];
  audit = [];
}

check_schedule_conflicts_lem_example :
    (any (names 1 hearing.id) (check_schedule_conflicts (1 ∷ 2 ∷ []) 150 250 none calendar) ≡ true)
    ↔ ((includes (1 ∷ 2 ∷ []) 1 ≡ true)
        × (is_some hearing.deleted_at ≡ false)
        × (not_excluded none hearing ≡ true)
        × (takes_part 1 calendar hearing ≡ true)
        × SharesInstant 150 250 hearing)
check_schedule_conflicts_lem_example =
    check_schedule_conflicts_lem (1 ∷ 2 ∷ []) 1 150 250 none calendar hearing (tt, tt) refl
      (omega arith) (omega arith)

-- User 2 is named twice.
abbrev meeting : CreateEventDto
meeting = record {
  title = 1;
  kind = 0;
  start_date = 300;
  end_date = 400;
  location = none;
  is_all_day = none;
  case_id = none;
  attendee_ids = 2 ∷ 2 ∷ [];
  reminders = [];
}

calendar-Ordered : Ordered calendar
calendar-Ordered = record { keyed = (tt, tt); ordered = (omega arith, tt) }

Step-Ordered_example : Ordered (final (create 6 meeting 1 calendar))
Step-Ordered_example = Step-Ordered (creates 6 meeting 1 refl) calendar-Ordered

create-not_atomic_example :
    (s' : Store) × (create 6 meeting 1 calendar ≡ err HttpError.conflict s')
    × (find_one 6 s' ≡ ok (event_of 6 meeting 1) s')
create-not_atomic_example = create-not_atomic 6 meeting 1 calendar refl refl refl refl refl refl

abbrev job : Job
job = record { endpoint_id = 1; endpoint_url = 2; endpoint_secret = 3; event = 4 }

-- The network fails twice, and the third attempt is answered with 200.
abbrev replies : ℕ → Reply
replies zero = broken false
replies (suc zero) = broken false
replies (suc (suc m)) = answered 200

replies_plain : (m : ℕ) → is_plain (replies m) ≡ true
replies_plain zero = refl
replies_plain (suc zero) = refl
replies_plain (suc (suc m)) = refl

abbrev hooks : Webhooks.Store
hooks = record { endpoints = []; deliveries = []; queue = [] }

process-attempts_example :
    ((n : ℕ) × (n < 5)
      × AllFail replies n
      × (succeeds (replies n) ≡ true)
      × (worker.run 5 (λ made. process job made (replies made)) hooks ≡ (
        record hooks {
          deliveries = hooks.deliveries ++ map (delivery_of job replies) (numbers_from 0 (n + 1));
        },
        true,
      )))
    ⊎ AllFail replies 5
      × (worker.run 5 (λ made. process job made (replies made)) hooks ≡ (
        record hooks {
          deliveries = hooks.deliveries ++ map (delivery_of job replies) (numbers_from 0 5);
        },
        false,
      ))
process-attempts_example = process-attempts worker job replies hooks replies_plain
