-- ===== src/Examples/TimeEntries.antt =====
-- The theorems on src/modules/billing/time-entry.service.ts at concrete rows.
use corporate_lawyers_backen.Prelude.{false, none, some, ◌≡◌, ◌⊎◌}
use corporate_lawyers_backen.World.{UserRole, TimeEntry, World, ok, err, HttpError}
use corporate_lawyers_backen.Billing.TimeEntries as Time
use corporate_lawyers_backen.Billing.TimeEntries.Laws.{MayTouch, UpdateReason, update_entry_lem}
use corporate_lawyers_backen.Samples.{world}

abbrev longer : Time.UpdateTimeEntryDto
longer = record {
  description = none;
  hours = some 300;
  rate = none;
  is_billable = none;
  date = none;
}

update_entry_lem_example :
    ((e : HttpError) × (Time.update 500 50 longer 2 UserRole.lawyer world ≡ err e world)
      × UpdateReason 500 50 longer 2 UserRole.lawyer world e)
    ⊎ (entry : TimeEntry) × (w' : World) × (Time.find_entry 50 world.db.time_entries ≡ some entry)
      × MayTouch 2 UserRole.lawyer entry
      × (Time.in_future 500 longer.date ≡ false)
      × (Time.update 500 50 longer 2 UserRole.lawyer world ≡ ok (Time.edited longer entry) w')
      × (Time.find_entry 50 w'.db.time_entries ≡ some (Time.edited longer entry))
update_entry_lem_example = update_entry_lem 500 50 2 UserRole.lawyer world longer

abbrev worked : Time.CreateTimeEntryDto
worked = record {
  case_id = 10;
  description = 1;
  hours = 100;
  rate = none;
  is_billable = none;
  date = 400;
}
