-- ===== src/Documents/Listing.antt =====
-- `findAll` of src/modules/document/document.service.ts, and what it lists that `findOne` hides.
use corporate_lawyers_backen.Prelude.{
  ℕ, Bool, true, Option, none, some, List, not, ◌&&◌, ◌||◌, ◌==◌, if◌then◌else◌, includes, is_some,
  select,
}
use corporate_lawyers_backen.World.{UserRole}
use corporate_lawyers_backen.Roles.{is_admin}
use corporate_lawyers_backen.Billing.Invoices.Listing.{equals_if, within}
use corporate_lawyers_backen.Paging.{Meta, page}
use corporate_lawyers_backen.Documents.{Document, Store}
use corporate_lawyers_backen.Documents.Files.{case_ids}

pub record DocumentQueryDto : Type 0 where
  pub kind : Option ℕ
  pub uploaded_by_id : Option ℕ
  pub is_confidential : Option Bool
  pub search : Option ℕ
  pub tag : Option ℕ
  pub case_id : Option ℕ
  pub date_from : Option ℕ
  pub date_to : Option ℕ
  pub limit : Option ℕ
  pub offset : Option ℕ

-- `where.OR` for whoever is not an administrator
abbrev pub may_list : ℕ → UserRole → Document → Bool
may_list user_id role d =
    is_admin role || (not d.is_confidential || (d.is_confidential && d.uploaded_by_id == user_id))

abbrev pub same_if : Option Bool → Bool → Bool
same_if none b = true
same_if (some a) b = if a then b else not b

abbrev pub listed_if : Option ℕ → List ℕ → Bool
listed_if none ns = true
listed_if (some n) ns = includes ns n

-- `hits` is the database's search in a title.
module _ (hits : ℕ → Document → Bool) (order_by : List Document → List Document) where
  abbrev pub is_hit : Option ℕ → Document → Bool
  is_hit none d = true
  is_hit (some search) d = hits search d

  abbrev pub matches : DocumentQueryDto → ℕ → UserRole → Store → Document → Bool
  matches q user_id role s d =
      not (is_some d.deleted_at)
      && (may_list user_id role d
          && (equals_if q.kind d.kind
              && (equals_if q.uploaded_by_id d.uploaded_by_id
                  && (same_if (if is_admin role then q.is_confidential else none) d.is_confidential
                      && (is_hit q.search d
                          && (listed_if q.tag d.tags
                              && (listed_if q.case_id (case_ids d.id s)
                                  && within q.date_from q.date_to d.created_at)))))))

  unfoldable pub find_all : DocumentQueryDto → ℕ → UserRole → Store → List Document × Meta
  find_all q user_id role s =
      page q.limit q.offset (order_by (select (matches q user_id role s) s.documents))
