-- ===== src/Billing/TimeEntries.antt =====
-- src/modules/billing/time-entry.service.ts.
pub mod Laws
pub mod Summing
use corporate_lawyers_backen.Prelude.{
  ℕ, ◌+◌, ◌*◌, Bool, true, false, Option, none, some, List, [], ◌∷◌, ◌++◌, not, ◌&&◌, ◌||◌, ◌==◌,
  ltb, if◌then◌else◌, is_some, or_else, find, select, update_where,
}
use corporate_lawyers_backen.World.{
  UserRole, LawyerProfile, TimeEntry, Action, EntityType, Tables, World, HttpError, M, pure, ◌>>=◌,
  ◌>>◌, guard, need, read_db, write_db, log,
}
use corporate_lawyers_backen.Roles.{is_admin}
use corporate_lawyers_backen.Cases.Status.{is_over}
use corporate_lawyers_backen.Cases.Records as Records
use corporate_lawyers_backen.Cases.Access.{assert_case_access}

pub record CreateTimeEntryDto : Type 0 where
  pub case_id : ℕ
  pub description : ℕ
  pub hours : ℕ
  pub rate : Option ℕ
  pub is_billable : Option Bool
  pub date : ℕ

pub record UpdateTimeEntryDto : Type 0 where
  pub description : Option ℕ
  pub hours : Option ℕ
  pub rate : Option ℕ
  pub is_billable : Option Bool
  pub date : Option ℕ

-- `profile ? Number(profile.hourlyRate) : 0`
abbrev pub hourly_rate : Option LawyerProfile → ℕ
hourly_rate none = 0
hourly_rate (some p) = p.hourly_rate

abbrev pub new_entry : (new_id : ℕ) → CreateTimeEntryDto → ℕ → Tables → TimeEntry
new_entry new_id dto lawyer_id db = record {
  id = new_id;
  case_id = dto.case_id;
  lawyer_id = lawyer_id;
  description = dto.description;
  hours = dto.hours;
  rate = or_else dto.rate (hourly_rate (find (λ p. p.user_id == lawyer_id) db.lawyer_profiles));
  is_billable = or_else dto.is_billable true;
  is_billed = false;
  date = dto.date;
  invoice_id = none;
  deleted_at = none;
}

unfoldable pub create : (now new_id : ℕ) → CreateTimeEntryDto → ℕ → UserRole → M TimeEntry
create now new_id dto lawyer_id user_role = do
  assert_case_access dto.case_id lawyer_id user_role none
  case_data ← Records.find_one dto.case_id
  guard (not (is_over case_data.status)) HttpError.bad_request
  guard (not (ltb now dto.date)) HttpError.bad_request
  db ← read_db
  let entry = new_entry new_id dto lawyer_id db
  write_db λ db. record db { time_entries = db.time_entries ++ entry ∷ [] }
  log lawyer_id Action.create EntityType.time_entry_entity new_id
  pure entry

abbrev pub find_entry : ℕ → List TimeEntry → Option TimeEntry
find_entry id = find (λ e. e.id == id && not (is_some e.deleted_at))

unfoldable pub find_one : ℕ → M TimeEntry
find_one id = do db ← read_db; need (find_entry id db.time_entries) HttpError.not_found

-- `entry.lawyerId === userId || isAdmin`
abbrev pub owns : ℕ → UserRole → TimeEntry → Bool
owns user_id user_role e = e.lawyer_id == user_id || is_admin user_role

-- `dto.date && new Date(dto.date) > new Date()`
abbrev pub in_future : (now : ℕ) → Option ℕ → Bool
in_future now none = false
in_future now (some date) = ltb now date

abbrev pub edited : UpdateTimeEntryDto → TimeEntry → TimeEntry
edited dto e = record e {
  description = or_else dto.description e.description;
  hours = or_else dto.hours e.hours;
  rate = or_else dto.rate e.rate;
  is_billable = or_else dto.is_billable e.is_billable;
  date = or_else dto.date e.date;
}

unfoldable pub update : (now : ℕ) → ℕ → UpdateTimeEntryDto → ℕ → UserRole → M TimeEntry
unfolding find_one
update now id dto user_id user_role = do
  entry ← find_one id
  guard (not entry.is_billed) HttpError.bad_request
  guard (owns user_id user_role entry) HttpError.forbidden
  guard (not (in_future now dto.date)) HttpError.bad_request
  write_db
      λ db. record db { time_entries = update_where (λ e. e.id == id) (edited dto) db.time_entries }
  log user_id Action.update EntityType.time_entry_entity id
  pure (edited dto entry)

unfoldable pub remove : (now : ℕ) → ℕ → ℕ → UserRole → M (Unit {0})
unfolding find_one
remove now id user_id user_role = do
  entry ← find_one id
  guard (not entry.is_billed) HttpError.bad_request
  guard (owns user_id user_role entry) HttpError.forbidden
  write_db λ db. record db {
    time_entries =
        update_where (λ e. e.id == id) (λ e. record e { deleted_at = some now }) db.time_entries;
  }
  log user_id Action.delete EntityType.time_entry_entity id

-- Hours in hundredths, amounts in ten-thousandths.
pub record Summary : Type 0 where
  pub total_hours : ℕ
  pub total_amount : ℕ
  pub unbilled_hours : ℕ
  pub unbilled_amount : ℕ

-- One round of the loop of `getSummary`.
abbrev pub count_entry : Summary → TimeEntry → Summary
count_entry s e = record {
  total_hours = s.total_hours + e.hours;
  total_amount = s.total_amount + e.hours * e.rate;
  unbilled_hours = if not e.is_billed then s.unbilled_hours + e.hours else s.unbilled_hours;
  unbilled_amount =
      if not e.is_billed then s.unbilled_amount + e.hours * e.rate else s.unbilled_amount;
}

pub summarise : Summary → List TimeEntry → Summary
summarise s [] = s
summarise s (e ∷ entries) = summarise (count_entry s e) entries

-- `where: { caseId, isBillable: true }`, of rows not deleted
abbrev pub counts : ℕ → TimeEntry → Bool
counts case_id e = e.case_id == case_id && e.is_billable && not (is_some e.deleted_at)

abbrev pub zero_summary : Summary
zero_summary = record { total_hours = 0; total_amount = 0; unbilled_hours = 0; unbilled_amount = 0 }

unfoldable pub get_summary : ℕ → Tables → Summary
unfolding summarise
get_summary case_id db = summarise zero_summary (select (counts case_id) db.time_entries)
