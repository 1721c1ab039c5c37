-- ===== src/Calendar/Listing.antt =====
-- `findAll` and `getAvailability` of src/modules/calendar/event.service.ts.
use corporate_lawyers_backen.Prelude.{
  ℕ, Bool, true, false, Option, none, some, List, not, ◌&&◌, ◌==◌, leb, if◌then◌else◌, is_some,
  select, sort_asc,
}
use corporate_lawyers_backen.World.{UserRole}
use corporate_lawyers_backen.Roles.{is_admin}
use corporate_lawyers_backen.Billing.Invoices.Listing.{equals_if, within}
use corporate_lawyers_backen.Paging.{Meta, page}
use corporate_lawyers_backen.Calendar.{Event, Store, takes_part}

unfoldable pub get_availability : ℕ → (date_from date_to : ℕ) → Store → List Event
get_availability user_id date_from date_to s =
    sort_asc (λ e. e.start_date)
      (select
        (λ e.
          not (is_some e.deleted_at)
          && (takes_part user_id s e && (leb e.start_date date_to && leb date_from e.end_date)))
        s.events)

pub record EventQueryDto : Type 0 where
  pub kind : Option ℕ
  pub case_id : Option ℕ
  pub user_id : Option ℕ
  pub date_from : Option ℕ
  pub date_to : Option ℕ
  pub limit : Option ℕ
  pub offset : Option ℕ

abbrev pub takes_part_if : Option ℕ → Store → Event → Bool
takes_part_if none s e = true
takes_part_if (some user_id) s e = takes_part user_id s e

abbrev pub has_case_if : Option ℕ → Option ℕ → Bool
has_case_if none case_id = true
has_case_if (some n) none = false
has_case_if (some n) (some m) = m == n

abbrev pub matches : EventQueryDto → ℕ → UserRole → Store → Event → Bool
matches q user_id role s e =
    not (is_some e.deleted_at)
    && (takes_part_if (if is_admin role then none else some user_id) s e
        && (takes_part_if q.user_id s e
            && (equals_if q.kind e.kind
                && (has_case_if q.case_id e.case_id && within q.date_from q.date_to e.start_date))))

module _ (order_by : List Event → List Event) where
  unfoldable pub find_all : EventQueryDto → ℕ → UserRole → Store → List Event × Meta
  find_all q user_id role s =
      page q.limit q.offset (order_by (select (matches q user_id role s) s.events))
