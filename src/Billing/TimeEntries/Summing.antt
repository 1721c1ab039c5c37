-- ===== src/Billing/TimeEntries/Summing.antt =====
-- What `getSummary` of src/modules/billing/time-entry.service.ts adds up.
use corporate_lawyers_backen.Prelude.{
  ℕ, ◌+◌, ◌*◌, List, [], ◌∷◌, ◌≡◌, if◌then◌else◌, select, sum_by, arith,
}
use corporate_lawyers_backen.World.{TimeEntry, Tables}
use corporate_lawyers_backen.Billing.TimeEntries.{
  Summary, count_entry, summarise, counts, zero_summary, get_summary,
}

abbrev pub open_only : (TimeEntry → ℕ) → TimeEntry → ℕ
open_only f e = if e.is_billed then 0 else f e

abbrev pub fee : TimeEntry → ℕ
fee e = e.hours * e.rate

summarise_lem :
    (s : Summary) (entries : List TimeEntry)
    → summarise s entries ≡ record {
      total_hours = s.total_hours + sum_by (λ e. e.hours) entries;
      total_amount = s.total_amount + sum_by fee entries;
      unbilled_hours = s.unbilled_hours + sum_by (open_only (λ e. e.hours)) entries;
      unbilled_amount = s.unbilled_amount + sum_by (open_only fee) entries;
    }
unfolding summarise
summarise_lem s [] = ground arith
summarise_lem s (e ∷ entries) = ground (arith, summarise_lem (count_entry s e) entries)

-- The loop computes the four sums over the live, billable entries of the case: the hours and the
-- fees of all of them, and of those that no invoice bills.
pub get_summary_lem :
    (case_id : ℕ) (db : Tables)
    → let entries = select (counts case_id) db.time_entries in
      get_summary case_id db ≡ record {
        total_hours = sum_by (λ e. e.hours) entries;
        total_amount = sum_by fee entries;
        unbilled_hours = sum_by (open_only (λ e. e.hours)) entries;
        unbilled_amount = sum_by (open_only fee) entries;
      }
unfolding get_summary
get_summary_lem case_id db =
    ground (arith, summarise_lem zero_summary (select (counts case_id) db.time_entries))
