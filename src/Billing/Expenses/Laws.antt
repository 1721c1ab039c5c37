-- ===== src/Billing/Expenses/Laws.antt =====
-- What src/modules/billing/expense.service.ts lets happen to an expense.
use corporate_lawyers_backen.Prelude.{
  ℕ, true, false, none, some, List, [], ◌∷◌, ◌++◌, ◌≡◌, refl, ◌⊎◌, inl, inr, not, ◌==◌,
  update_where, Bool-cases, Option-cases, arith,
}
use corporate_lawyers_backen.World.{
  UserRole, Case, Expense, World, ok, err, HttpError, ◌>>=◌, final,
}
use corporate_lawyers_backen.Roles.{is_admin}
use corporate_lawyers_backen.Cases.Records.{find_case}
use corporate_lawyers_backen.Cases.Status.{is_over}
use corporate_lawyers_backen.Cases.Lookup.{Coherent, find_one-cases}
use corporate_lawyers_backen.Cases.Access.{MayAccess, assert_case_access_sound}
use corporate_lawyers_backen.Billing.Expenses.{
  CreateExpenseDto, UpdateExpenseDto, new_expense, find_expense, find_one, owns, edited, create,
  update, remove,
}

find_expense-update :
    (k : ℕ) (f : Expense → Expense) (rows : List Expense) (e : Expense)
    → ((e : Expense) → (f e).id ≡ e.id)
    → ((e : Expense) → (f e).deleted_at ≡ e.deleted_at)
    → find_expense k rows ≡ some e
    → find_expense k (update_where (λ e. e.id == k) f rows) ≡ some (f e)
find_expense-update k f [] e same live h = ground arith
find_expense-update k f (r ∷ rows) e same live h =
    ground (arith, same r, live r, find_expense-update k f rows e same live)

find_expense-deleted :
    (now id : ℕ) (rows : List Expense)
    → find_expense id
        (update_where (λ e. e.id == id) (λ e. record e { deleted_at = some now }) rows)
      ≡ none
find_expense-deleted now id [] = refl
find_expense-deleted now id (e ∷ rows) = ground (arith, find_expense-deleted now id rows)

module _ (user_id : ℕ) (role : UserRole) (w : World) where
  -- An expense may be touched when no invoice bills it, the user may see its case, and the user
  -- recorded it or is an administrator.
  abbrev pub MayTouchExpense : Expense → Type 0
  MayTouchExpense e =
      (e.is_billed ≡ false)
      × MayAccess w.db e.case_id user_id role none
      × ((e.created_by_id ≡ user_id) ⊎ (is_admin role ≡ true))

  find_one-expense :
      (id : ℕ)
      → ((e : HttpError) × (find_one id user_id role w ≡ err e w))
        ⊎ (expense : Expense) × (find_expense id w.db.expenses ≡ some expense)
          × (find_one id user_id role w ≡ ok expense w)
          × MayAccess w.db expense.case_id user_id role none
  unfolding find_one
  find_one-expense id = elim (Option-cases (find_expense id w.db.expenses)) [
    | inl missing ↦ inl (HttpError.not_found, rw (missing, ◌>>=◌))
    | inr (expense, found) ↦ elim (assert_case_access_sound expense.case_id user_id role none w) [
      | inl (passes, ground_of) ↦ inr (expense, found, rw (found, passes, ◌>>=◌), ground_of)
      | inr refused ↦ inl (HttpError.forbidden, rw (found, refused, ◌>>=◌))
    ]
  ]

  -- An update is refused and writes nothing, or it finds an expense that the user may touch. Then
  -- the row is the expense as edited.
  pub update_expense_lem :
      (id : ℕ) (dto : UpdateExpenseDto)
      → ((e : HttpError) × (update id dto user_id role w ≡ err e w))
        ⊎ (expense : Expense) × (w' : World) × (find_expense id w.db.expenses ≡ some expense)
          × MayTouchExpense expense
          × (update id dto user_id role w ≡ ok (edited dto expense) w')
          × (find_expense id w'.db.expenses ≡ some (edited dto expense))
  unfolding update
  update_expense_lem id dto = elim (find_one-expense id) [
    | inl (e, refused) ↦ inl (e, rw (refused, ◌>>=◌))
    | inr (expense, found, reads, access) ↦ elim (Bool-cases (not expense.is_billed)) [
      | inr billed ↦ inl (HttpError.bad_request, rw (reads, billed, ◌>>=◌))
      | inl unbilled ↦ elim (Bool-cases (owns user_id role expense)) [
        | inr stranger ↦ inl (HttpError.forbidden, rw (reads, unbilled, stranger, ◌>>=◌))
        | inl owner ↦ inr (
          expense,
          final (update id dto user_id role w),
          found,
          (ground arith, access, ground arith),
          rw (reads, unbilled, owner, ◌>>=◌, final),
          rw (reads, unbilled, owner, ◌>>=◌, final)
              (find_expense-update id (edited dto) w.db.expenses expense (λ e. refl) (λ e. refl)
                found),
        )
      ]
    ]
  ]

  -- A removal is refused and writes nothing, or it finds an expense that the user may touch, which
  -- is not found any more afterwards.
  pub remove_expense_lem :
      (now id : ℕ)
      → ((e : HttpError) × (remove now id user_id role w ≡ err e w))
        ⊎ (expense : Expense) × (w' : World) × (find_expense id w.db.expenses ≡ some expense)
          × MayTouchExpense expense
          × (remove now id user_id role w ≡ ok tt w')
          × (find_expense id w'.db.expenses ≡ none)
  unfolding remove
  remove_expense_lem now id = elim (find_one-expense id) [
    | inl (e, refused) ↦ inl (e, rw (refused, ◌>>=◌))
    | inr (expense, found, reads, access) ↦ elim (Bool-cases (not expense.is_billed)) [
      | inr billed ↦ inl (HttpError.bad_request, rw (reads, billed, ◌>>=◌))
      | inl unbilled ↦ elim (Bool-cases (owns user_id role expense)) [
        | inr stranger ↦ inl (HttpError.forbidden, rw (reads, unbilled, stranger, ◌>>=◌))
        | inl owner ↦ inr (
          expense,
          final (remove now id user_id role w),
          found,
          (ground arith, access, ground arith),
          rw (reads, unbilled, owner, ◌>>=◌, final),
          rw (reads, unbilled, owner, ◌>>=◌, final) (find_expense-deleted now id w.db.expenses),
        )
      ]
    ]
  ]

-- On a coherent cache an expense is recorded only by a user who may see the case, on a live case
-- that is neither closed nor archived, and then it is the last row, billed by no invoice. Otherwise
-- the request is refused and the tables are as they were.
pub create_expense_lem :
    (new_id : ℕ) (dto : CreateExpenseDto) (user_id : ℕ) (role : UserRole) (w : World)
    → Coherent w
    → ((e : HttpError) × (w' : World) × (create new_id dto user_id role w ≡ err e w')
        × (w'.db ≡ w.db))
      ⊎ (row : Case) × (w' : World) × (find_case dto.case_id w.db.cases ≡ some row)
        × (is_over row.status ≡ false)
        × MayAccess w.db dto.case_id user_id role none
        × (create new_id dto user_id role w ≡ ok (new_expense new_id dto user_id) w')
        × (w'.db.expenses ≡ w.db.expenses ++ new_expense new_id dto user_id ∷ [])
unfolding create
create_expense_lem new_id dto user_id role w h =
    elim (assert_case_access_sound dto.case_id user_id role none w) [
      | inr refused ↦ inl (HttpError.forbidden, w, rw (refused, ◌>>=◌), refl)
      | inl (passes, access) ↦ elim (find_one-cases dto.case_id w h) [
        | inl (missing, fails) ↦ inl (HttpError.not_found, w, rw (passes, fails, ◌>>=◌), refl)
        | inr found ↦ elim (Bool-cases (is_over found.row.status)) [
          | inl over ↦ inl (
            HttpError.bad_request,
            found.after,
            rw (passes, found.returns, over, ◌>>=◌),
            rw found.same_rest,
          )
          | inr going_on ↦ inr (
            found.row,
            final (create new_id dto user_id role w),
            found.is_row,
            going_on,
            access,
            rw (passes, found.returns, going_on, ◌>>=◌, final),
            rw (passes, found.returns, going_on, ◌>>=◌, final) (rw found.same_rest),
          )
        ]
      ]
    ]
