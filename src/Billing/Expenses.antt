-- ===== src/Billing/Expenses.antt =====
-- src/modules/billing/expense.service.ts.
pub mod Laws
use corporate_lawyers_backen.Prelude.{
  ℕ, Bool, true, false, Option, none, some, List, [], ◌∷◌, ◌++◌, not, ◌&&◌, ◌||◌, ◌==◌, is_some,
  or_else, set_if, find, update_where,
}
use corporate_lawyers_backen.World.{
  UserRole, Expense, Action, EntityType, Tables, World, HttpError, M, pure, ◌>>=◌, ◌>>◌, guard,
  need, read_db, write_db, log,
}
use corporate_lawyers_backen.Roles.{is_admin}
use corporate_lawyers_backen.Cases.Status.{is_over}
use corporate_lawyers_backen.Cases.Records as Records
use corporate_lawyers_backen.Cases.Access.{assert_case_access}

pub record CreateExpenseDto : Type 0 where
  pub case_id : ℕ
  pub description : ℕ
  pub amount : ℕ
  pub is_billable : Option Bool
  pub date : ℕ
  pub receipt_url : Option ℕ

pub record UpdateExpenseDto : Type 0 where
  pub description : Option ℕ
  pub amount : Option ℕ
  pub is_billable : Option Bool
  pub date : Option ℕ
  pub receipt_url : Option ℕ

abbrev pub new_expense : (new_id : ℕ) → CreateExpenseDto → ℕ → Expense
new_expense new_id dto created_by_id = record {
  id = new_id;
  case_id = dto.case_id;
  created_by_id = created_by_id;
  description = dto.description;
  amount = dto.amount;
  is_billable = or_else dto.is_billable true;
  is_billed = false;
  date = dto.date;
  receipt_url = dto.receipt_url;
  invoice_id = none;
  deleted_at = none;
}

unfoldable pub create : (new_id : ℕ) → CreateExpenseDto → ℕ → UserRole → M Expense
create new_id dto created_by_id user_role = do
  assert_case_access dto.case_id created_by_id user_role none
  case_data ← Records.find_one dto.case_id
  guard (not (is_over case_data.status)) HttpError.bad_request
  let expense = new_expense new_id dto created_by_id
  write_db λ db. record db { expenses = db.expenses ++ expense ∷ [] }
  log created_by_id Action.create EntityType.expense_entity new_id
  pure expense

abbrev pub find_expense : ℕ → List Expense → Option Expense
find_expense id = find (λ e. e.id == id && not (is_some e.deleted_at))

-- `findOne` with the user that asks, which `update` and `remove` pass on.
unfoldable pub find_one : ℕ → ℕ → UserRole → M Expense
find_one id user_id user_role = do
  db ← read_db
  expense ← need (find_expense id db.expenses) HttpError.not_found
  assert_case_access expense.case_id user_id user_role none
  pure expense

-- `expense.createdById === userId || isAdmin`
abbrev pub owns : ℕ → UserRole → Expense → Bool
owns user_id user_role e = e.created_by_id == user_id || is_admin user_role

abbrev pub edited : UpdateExpenseDto → Expense → Expense
edited dto e = record e {
  description = or_else dto.description e.description;
  amount = or_else dto.amount e.amount;
  is_billable = or_else dto.is_billable e.is_billable;
  date = or_else dto.date e.date;
  receipt_url = set_if dto.receipt_url e.receipt_url;
}

unfoldable pub update : ℕ → UpdateExpenseDto → ℕ → UserRole → M Expense
update id dto user_id user_role = do
  expense ← find_one id user_id user_role
  guard (not expense.is_billed) HttpError.bad_request
  guard (owns user_id user_role expense) HttpError.forbidden
  write_db λ db. record db { expenses = update_where (λ e. e.id == id) (edited dto) db.expenses }
  log user_id Action.update EntityType.expense_entity id
  pure (edited dto expense)

unfoldable pub remove : (now : ℕ) → ℕ → ℕ → UserRole → M (Unit {0})
remove now id user_id user_role = do
  expense ← find_one id user_id user_role
  guard (not expense.is_billed) HttpError.bad_request
  guard (owns user_id user_role expense) HttpError.forbidden
  write_db λ db. record db {
    expenses = update_where (λ e. e.id == id) (λ e. record e { deleted_at = some now }) db.expenses;
  }
  log user_id Action.delete EntityType.expense_entity id
