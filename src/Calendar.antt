-- ===== src/Calendar.antt =====
-- src/modules/calendar/event.service.ts, on its own tables. Times are milliseconds. A `findMany`
-- without an order gives its rows in the order of the table; the order of `findAll` is a parameter.
pub mod Events
pub mod Attendees
pub mod Listing
pub mod Conflicts
pub mod Order
pub mod Atomicity
use corporate_lawyers_backen.Prelude.{
  ℕ, Bool, true, false, Option, none, some, List, [], ◌∷◌, ◌++◌, not, ◌&&◌, ◌||◌, ◌==◌, ltb, leb,
  if◌then◌else◌, is_some, or_else, set_if, find, select, any, update_where, map, includes, sort_asc,
}
use corporate_lawyers_backen.World.{
  UserRole, HttpError, Ended, ok, err, ◌>>=◌, ◌>>◌, pure, guard, need, get, modify, final,
}
use corporate_lawyers_backen.Roles.{is_admin}
use corporate_lawyers_backen.Billing.Invoices.Listing.{equals_if, within}
use corporate_lawyers_backen.Paging.{Meta, page}

pub data AttendeeStatus : Type 0 where
  confirmed tentative declined : AttendeeStatus

pub record Event : Type 0 where
  pub id : ℕ
  pub title : ℕ
  pub kind : ℕ
  pub start_date : ℕ
  pub end_date : ℕ
  pub location : Option ℕ
  pub is_all_day : Bool
  pub case_id : Option ℕ
  pub created_by_id : ℕ
  pub deleted_at : Option ℕ

pub record EventAttendee : Type 0 where
  pub event_id : ℕ
  pub user_id : ℕ
  pub status : AttendeeStatus

pub record Reminder : Type 0 where
  pub id : ℕ
  pub event_id : ℕ
  pub kind : ℕ
  pub minutes_before : ℕ

-- What the service reads of a user.
pub record Person : Type 0 where
  pub id : ℕ
  pub deleted_at : Option ℕ

pub data EventAction : Type 0 where
  created updated deleted : EventAction

-- `cases` has the ids of the cases, the deleted ones included; `audit` has the user, the action and the event of its entries.
pub record Store : Type 0 where
  pub events : List Event
  pub attendees : List EventAttendee
  pub reminders : List Reminder
  pub users : List Person
  pub cases : List ℕ
  pub audit : List (ℕ × EventAction × ℕ)

-- A reminder of the request; `new_id` is the id of its row.
pub record ReminderDto : Type 0 where
  pub new_id : ℕ
  pub kind : ℕ
  pub minutes_before : ℕ

pub record CreateEventDto : Type 0 where
  pub title : ℕ
  pub kind : ℕ
  pub start_date : ℕ
  pub end_date : ℕ
  pub location : Option ℕ
  pub is_all_day : Option Bool
  pub case_id : Option ℕ
  pub attendee_ids : List ℕ
  pub reminders : List ReminderDto

pub record UpdateEventDto : Type 0 where
  pub title : Option ℕ
  pub kind : Option ℕ
  pub start_date : Option ℕ
  pub end_date : Option ℕ
  pub location : Option ℕ
  pub is_all_day : Option Bool
  pub case_id : Option ℕ

abbrev pub log_event : ℕ → EventAction → ℕ → Store → Ended Store (Unit {0})
log_event user_id action event_id =
    modify λ s. record s { audit = s.audit ++ (user_id, action, event_id) ∷ [] }

abbrev pub is_live_at : ℕ → Event → Bool
is_live_at id e = e.id == id && not (is_some e.deleted_at)

unfoldable pub find_one : ℕ → Store → Ended Store Event
find_one id = do s ← get; need (find (is_live_at id) s.events) HttpError.not_found

abbrev pub attends : (event_id user_id : ℕ) → EventAttendee → Bool
attends event_id user_id a = a.event_id == event_id && a.user_id == user_id

-- `OR: [{ createdById: userId }, { attendees: { some: { userId } } }]`
abbrev pub takes_part : ℕ → Store → Event → Bool
takes_part user_id s e = e.created_by_id == user_id || any (attends e.id user_id) s.attendees

-- `if (excludeEventId) where.id = { not: excludeEventId }`
abbrev pub not_excluded : Option ℕ → Event → Bool
not_excluded none e = true
not_excluded (some id) e = not (e.id == id)

-- The `where` of the query for one user.
abbrev pub overlapping : ℕ → (start_date end_date : ℕ) → Option ℕ → Store → Event → Bool
overlapping user_id start_date end_date exclude s e =
    not (is_some e.deleted_at)
    && (takes_part user_id s e
        && (ltb e.start_date end_date && (ltb start_date e.end_date && not_excluded exclude e)))

-- The pairs of a user and a conflicting event.
unfoldable pub check_schedule_conflicts :
    List ℕ → (start_date end_date : ℕ) → Option ℕ → Store → List (ℕ × ℕ)
check_schedule_conflicts [] start_date end_date exclude s = []
check_schedule_conflicts (user_id ∷ user_ids) start_date end_date exclude s =
    map (λ e. (user_id, e.id)) (select (overlapping user_id start_date end_date exclude s) s.events)
    ++ check_schedule_conflicts user_ids start_date end_date exclude s

-- The foreign keys of an event: its case, if it has one, and whoever made it.
abbrev pub has_case : Option ℕ → Store → Bool
has_case none s = true
has_case (some case_id) s = includes s.cases case_id

abbrev pub has_user : ℕ → Store → Bool
has_user user_id s = any (λ u. u.id == user_id) s.users

-- `eventAttendee.create`: the user has to exist, and attends an event once.
unfoldable pub create_attendee :
    (event_id user_id : ℕ) → AttendeeStatus → Store → Ended Store (Unit {0})
create_attendee event_id user_id status = do
  s ← get
  guard (any (λ u. u.id == user_id) s.users) HttpError.bad_request
  guard (not (any (attends event_id user_id) s.attendees)) HttpError.conflict
  modify λ s. record s {
    attendees =
        s.attendees ++ record { event_id = event_id; user_id = user_id; status = status } ∷ [];
  }

abbrev pub reminder_of : (event_id : ℕ) → ReminderDto → Reminder
reminder_of event_id dto = record {
  id = dto.new_id;
  event_id = event_id;
  kind = dto.kind;
  minutes_before = dto.minutes_before;
}
