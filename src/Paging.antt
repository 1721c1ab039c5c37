-- ===== src/Paging.antt =====
-- The page that every `findAll` of the services returns (for one, billing/invoice.service.ts): a
-- slice of the matching rows in their order, and its `meta`.
pub mod Laws
use corporate_lawyers_backen.Prelude.{ℕ, ◌+◌, Bool, Option, List, ltb, or_else, length, take, drop}

-- `meta`
pub record Meta : Type 0 where
  pub total : ℕ
  pub limit : ℕ
  pub offset : ℕ
  pub has_next_page : Bool
  pub has_previous_page : Bool

-- `findMany({ skip, take })` and `count`, over the rows that match.
unfoldable pub page {ℓ} : {A : Type ℓ} → (limit offset : Option ℕ) → List A → List A × Meta
page limit offset rows =
    let limit' = or_else limit 20 in
    let offset' = or_else offset 0 in
    (
      take limit' (drop offset' rows),
      record {
        total = length rows;
        limit = limit';
        offset = offset';
        has_next_page = ltb (offset' + limit') (length rows);
        has_previous_page = ltb 0 offset';
      },
    )
