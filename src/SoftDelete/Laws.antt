-- ===== src/SoftDelete/Laws.antt =====
-- What the extended client of src/core/database/prisma.extension.ts lets a query see.
use corporate_lawyers_backen.Prelude.{
  ℕ, Bool, true, false, Option, none, some, List, ◌≡◌, ◌⊎◌, inl, inr, not, ◌&&◌, is_some, find,
  select, Option-cases,
}
use corporate_lawyers_backen.SoftDelete.{
  Model, is_soft_delete_model, Where, find_many, screen, find_unique,
}

module _ {A : Type 0} (deleted_at : A → Option ℕ) (model : Model)
    (soft : is_soft_delete_model model ≡ true) where
  -- `findMany` on a model with soft deletion returns the rows that are not deleted and that match
  -- the rest of the `where`. What the caller asks of `deletedAt` is overwritten.
  pub find_many-live :
      (q : Where A) (rows : List A)
      → find_many deleted_at model q rows
        ≡ select (λ row. not (is_some (deleted_at row)) && q.rest row) rows
  unfolding find_many
  find_many-live q rows = rw soft

  -- With `deletedAt` in hand, `findUnique` returns the row of the key exactly when it is not deleted.
  pub find_unique-live :
      (key : A → Bool) (rows : List A) (row : A)
      → find key rows ≡ some row
      → ((deleted_at row ≡ none) × (find_unique deleted_at model true key rows ≡ some row))
        ⊎ ((is_some (deleted_at row) ≡ true) × (find_unique deleted_at model true key rows ≡ none))
  unfolding find_unique
  find_unique-live key rows row found = elim (Option-cases (deleted_at row)) [
    | inl live ↦ inl (live, rw (soft, found) (rw (live, screen)))
    | inr (t, deleted) ↦ inr (rw deleted, rw (soft, found) (rw (deleted, screen)))
  ]

  -- When the query selects columns and `deletedAt` is not among them, `findUnique` returns nothing,
  -- whatever the rows are: the missing property is not null.
  pub find_unique-select_finds_nothing :
      (key : A → Bool) (rows : List A) → find_unique deleted_at model false key rows ≡ none
  unfolding find_unique
  find_unique-select_finds_nothing key rows = elim (Option-cases (find key rows)) [
    | inl missing ↦ rw (soft, missing)
    | inr (row, found) ↦ rw (soft, found)
  ]
