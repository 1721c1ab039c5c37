-- ===== src/Calendar/Events.antt =====
-- The events of src/modules/calendar/event.service.ts: create, update and remove.
use corporate_lawyers_backen.Prelude.{
  ℕ, Bool, false, none, some, List, ◌&&◌, [], ◌∷◌, ◌++◌, not, ◌||◌, ◌==◌, leb, or_else, set_if,
  update_where, map,
}
use corporate_lawyers_backen.World.{
  UserRole, HttpError, Ended, ok, err, ◌>>=◌, ◌>>◌, pure, guard, get, modify, final,
}
use corporate_lawyers_backen.Roles.{is_admin}
use corporate_lawyers_backen.Calendar.{
  AttendeeStatus, Event, EventAction, Store, CreateEventDto, UpdateEventDto, log_event, find_one,
  check_schedule_conflicts, create_attendee, reminder_of, has_case, has_user,
}

abbrev pub fails_with : HttpError → Ended Store (Unit {0}) → Ended Store (Unit {0})
fails_with e ended = err e (final ended)

-- `Promise.all` over the attendees: every creation is started, and the first that fails fails the whole.
unfoldable pub create_attendees : (event_id : ℕ) → List ℕ → Store → Ended Store (Unit {0})
create_attendees event_id [] s = ok tt s
create_attendees event_id (user_id ∷ user_ids) s =
    elim (create_attendee event_id user_id AttendeeStatus.tentative s) [
      | ok a s' ↦ create_attendees event_id user_ids s'
      | err e s' ↦ fails_with e (create_attendees event_id user_ids s')
    ]

abbrev pub event_of : (new_id : ℕ) → CreateEventDto → (created_by_id : ℕ) → Event
event_of new_id dto created_by_id = record {
  id = new_id;
  title = dto.title;
  kind = dto.kind;
  start_date = dto.start_date;
  end_date = dto.end_date;
  location = dto.location;
  is_all_day = or_else dto.is_all_day false;
  case_id = dto.case_id;
  created_by_id = created_by_id;
  deleted_at = none;
}

-- The rest of `create`, once the attendees are there: the reminders, the warnings and the event.
abbrev pub after_attendees :
    (new_id : ℕ) → CreateEventDto → (created_by_id : ℕ) → Store → Ended Store (Event × List (ℕ × ℕ))
after_attendees new_id dto created_by_id = do
  modify λ s. record s { reminders = s.reminders ++ map (reminder_of new_id) dto.reminders }
  s ← get
  let conflicts =
      check_schedule_conflicts (created_by_id ∷ dto.attendee_ids) dto.start_date dto.end_date
        (some new_id) s
  log_event created_by_id EventAction.created new_id
  event ← find_one new_id
  pure (event, conflicts)

unfoldable pub create :
    (new_id : ℕ) → CreateEventDto → (created_by_id : ℕ) → Store → Ended Store (Event × List (ℕ × ℕ))
create new_id dto created_by_id = do
  guard (not (leb dto.end_date dto.start_date)) HttpError.bad_request
  s ← get
  guard (has_case dto.case_id s && has_user created_by_id s) HttpError.bad_request
  modify λ s. record s { events = s.events ++ event_of new_id dto created_by_id ∷ [] }
  create_attendees new_id dto.attendee_ids
  after_attendees new_id dto created_by_id

-- `undefined` leaves a column as it is.
abbrev pub edited : UpdateEventDto → Event → Event
edited dto e = record e {
  title = or_else dto.title e.title;
  kind = or_else dto.kind e.kind;
  start_date = or_else dto.start_date e.start_date;
  end_date = or_else dto.end_date e.end_date;
  location = set_if dto.location e.location;
  is_all_day = or_else dto.is_all_day e.is_all_day;
  case_id = set_if dto.case_id e.case_id;
}

-- `event.createdById !== userId && !isAdmin`, turned round
abbrev pub may_change : ℕ → UserRole → Event → Bool
may_change user_id role e = e.created_by_id == user_id || is_admin role

abbrev pub write_event : ℕ → (Event → Event) → Store → Ended Store (Unit {0})
write_event id f = modify λ s. record s { events = update_where (λ e. e.id == id) f s.events }

unfoldable pub update :
    ℕ → UpdateEventDto → (user_id : ℕ) → UserRole → Store → Ended Store (Unit {0})
update id dto user_id role = do
  event ← find_one id
  guard (may_change user_id role event) HttpError.forbidden
  guard (not (leb (or_else dto.end_date event.end_date) (or_else dto.start_date event.start_date)))
      HttpError.bad_request
  s ← get
  guard (has_case dto.case_id s) HttpError.bad_request
  write_event id (edited dto)
  log_event user_id EventAction.updated id

abbrev pub delete_at : (now : ℕ) → Event → Event
delete_at now e = record e { deleted_at = some now }

unfoldable pub remove : (now : ℕ) → ℕ → (user_id : ℕ) → UserRole → Store → Ended Store (Unit {0})
remove now id user_id role = do
  event ← find_one id
  guard (may_change user_id role event) HttpError.forbidden
  write_event id (delete_at now)
  log_event user_id EventAction.deleted id
