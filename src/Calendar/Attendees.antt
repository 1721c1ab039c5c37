-- ===== src/Calendar/Attendees.antt =====
-- The attendees and reminders of src/modules/calendar/event.service.ts.
use corporate_lawyers_backen.Prelude.{
  ℕ, Option, [], ◌∷◌, ◌++◌, not, ◌&&◌, ◌||◌, ◌==◌, is_some, or_else, select, any, update_where,
}
use corporate_lawyers_backen.World.{UserRole, HttpError, Ended, ◌>>=◌, ◌>>◌, guard, get, modify}
use corporate_lawyers_backen.Roles.{is_admin}
use corporate_lawyers_backen.Calendar.{
  AttendeeStatus, Store, ReminderDto, find_one, attends, create_attendee, reminder_of,
}

unfoldable pub add_attendee :
    (event_id user_id : ℕ) → Option AttendeeStatus → Store → Ended Store (Unit {0})
add_attendee event_id user_id status = do
  find_one event_id
  s ← get
  guard (any (λ u. u.id == user_id && not (is_some u.deleted_at)) s.users) HttpError.not_found
  create_attendee event_id user_id (or_else status AttendeeStatus.tentative)

unfoldable pub update_attendee_status :
    (event_id user_id : ℕ)
    → AttendeeStatus
    → (current_user_id : ℕ) → UserRole
    → Store
    → Ended Store (Unit {0})
update_attendee_status event_id user_id status current_user_id role = do
  find_one event_id
  s ← get
  guard (any (attends event_id user_id) s.attendees) HttpError.not_found
  guard (user_id == current_user_id || is_admin role) HttpError.forbidden
  modify λ s. record s {
    attendees =
        update_where (attends event_id user_id) (λ a. record a { status = status }) s.attendees;
  }

unfoldable pub remove_attendee : (event_id user_id : ℕ) → Store → Ended Store (Unit {0})
remove_attendee event_id user_id = do
  find_one event_id
  s ← get
  guard (any (attends event_id user_id) s.attendees) HttpError.not_found
  modify λ s. record s { attendees = select (λ a. not (attends event_id user_id a)) s.attendees }

unfoldable pub add_reminder : (event_id : ℕ) → ReminderDto → Store → Ended Store (Unit {0})
add_reminder event_id dto = do
  find_one event_id
  modify λ s. record s { reminders = s.reminders ++ reminder_of event_id dto ∷ [] }

unfoldable pub remove_reminder : ℕ → Store → Ended Store (Unit {0})
remove_reminder id = do
  s ← get
  guard (any (λ r. r.id == id) s.reminders) HttpError.not_found
  modify λ s. record s { reminders = select (λ r. not (r.id == id)) s.reminders }
