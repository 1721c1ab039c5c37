-- ===== src/Examples/Listings.antt =====
-- The theorems on the numbers of cases and invoices, and on the listing of invoices, at concrete
-- rows.
use corporate_lawyers_backen.Prelude.{
  none, some, List, [], ◌∷◌, ◌++◌, ◌≡◌, refl, ◌&&◌, ◌==◌, ltb, select, All, arith,
}
use corporate_lawyers_backen.World.{UserRole, InvoiceStatus, ClientProfile, err, HttpError}
use corporate_lawyers_backen.Numbering.{Numbered, next_number, last_number, create_numbered}
use corporate_lawyers_backen.Numbering.Freshness.{IsCurrent, deleted, create_numbered-deleted}
use corporate_lawyers_backen.Paging.{page}
use corporate_lawyers_backen.Billing.Status.{is_draft}
use corporate_lawyers_backen.Billing.Payments.{is_live}
use corporate_lawyers_backen.Billing.Invoices.Find.{find_one}
use corporate_lawyers_backen.Billing.Invoices.Listing.{InvoiceQueryDto, find_all}
use corporate_lawyers_backen.Billing.Invoices.Visibility.{drafts_of, find_all-shows_drafts}
use corporate_lawyers_backen.Samples.{invoice_with, world}

abbrev this_year : List Numbered
this_year = record { number = 1; deleted_at = none } ∷ record { number = 2; deleted_at = none } ∷ []

this_year-IsCurrent : All IsCurrent this_year
this_year-IsCurrent = ((refl, omega arith), ((refl, omega arith), tt))

create_numbered-deleted_example :
    create_numbered ltb (
      deleted 500
        (next_number ltb this_year)
        (this_year ++ record { number = next_number ltb this_year; deleted_at = none } ∷ []))
    ≡ none
create_numbered-deleted_example =
    create_numbered-deleted ltb (λ a b h h'. refl) 500 this_year this_year-IsCurrent

next_number_run : next_number ltb this_year ≡ 3
unfolding next_number last_number
next_number_run = refl

abbrev all_of_them : InvoiceQueryDto
all_of_them = record (drafts_of 0) { client_profile_id = none; status = none }

abbrev the_client : ClientProfile
the_client = record { id = 30; user_id = 3 }

find_all-shows_drafts_example :
    (find_all (λ i. 0) (λ rows. rows) (drafts_of 30) 3 UserRole.client world.db
      ≡ page none none (
          select
            (λ i. is_live i && i.client_profile_id == 30 && is_draft i.status)
            world.db.invoices))
    × (find_one 70 (some (3, UserRole.client)) world ≡ err HttpError.forbidden world)
find_all-shows_drafts_example =
    find_all-shows_drafts (λ i. 0) (λ rows. rows) 3 world the_client refl 30
      (invoice_with 70 InvoiceStatus.draft) refl refl
