-- ===== src/Samples.antt =====
-- Rows on which the theorems are tried.
use corporate_lawyers_backen.Prelude.{ℕ, true, false, none, [], ◌∷◌}
use corporate_lawyers_backen.World.{
  UserRole, UserStatus, CaseStatus, CasePriority, CaseAssignmentRole, InvoiceStatus, User, Case,
  CaseAssignment, TimeEntry, Expense, Invoice, InvoiceItem, Tables, World,
}
use corporate_lawyers_backen.Cases.Lookup.{Coherent}

abbrev pub lawyer_user : User
lawyer_user = record {
  id = 2;
  email = 98 ∷ [];
  first_name = 97 ∷ [];
  last_name = 98 ∷ [];
  role = UserRole.lawyer;
  status = UserStatus.active;
  deleted_at = none;
}

abbrev pub active_case : Case
active_case = record {
  id = 10;
  year = 2025;
  number = 1;
  title = 0;
  description = none;
  case_type = 0;
  legal_area = none;
  court = none;
  court_file_number = none;
  priority = CasePriority.medium;
  status = CaseStatus.active;
  client_profile_id = 30;
  close_date = none;
  deleted_at = none;
}

abbrev pub lead_assignment : CaseAssignment
lead_assignment = record {
  id = 20;
  case_id = 10;
  user_id = 7;
  role = CaseAssignmentRole.lead_attorney;
  removed_at = none;
}

-- Two and a half hours at 2000.00.
abbrev pub unbilled_entry : TimeEntry
unbilled_entry = record {
  id = 50;
  case_id = 10;
  lawyer_id = 2;
  description = 0;
  hours = 250;
  rate = 200000;
  is_billable = true;
  is_billed = false;
  date = 100;
  invoice_id = none;
  deleted_at = none;
}

abbrev pub unbilled_expense : Expense
unbilled_expense = record {
  id = 60;
  case_id = 10;
  created_by_id = 2;
  description = 0;
  amount = 150000;
  is_billable = true;
  is_billed = false;
  date = 100;
  receipt_url = none;
  invoice_id = none;
  deleted_at = none;
}

-- 1000.00 and a tax of 160.00.
abbrev pub invoice_with : ℕ → InvoiceStatus → Invoice
invoice_with id status = record {
  id = id;
  case_id = 10;
  client_profile_id = 30;
  subtotal = 100000;
  tax_rate = 16;
  tax_amount = 16000;
  total = 116000;
  status = status;
  due_date = 900;
  paid_at = none;
  notes = none;
  deleted_at = none;
}

abbrev pub sample_item : InvoiceItem
sample_item = record {
  id = 80;
  invoice_id = 70;
  description = 0;
  quantity = 100;
  unit_price = 100000;
  amount = 100000;
}

abbrev pub tables : Tables
tables = record {
  users = lawyer_user ∷ [];
  client_profiles = record { id = 30; user_id = 3 } ∷ [];
  lawyer_profiles = record { user_id = 2; hourly_rate = 200000; specializations = 4 ∷ [] } ∷ [];
  cases = active_case ∷ [];
  assignments = lead_assignment ∷ [];
  timeline = [];
  time_entries = unbilled_entry ∷ [];
  expenses = unbilled_expense ∷ [];
  invoices =
      invoice_with 70 InvoiceStatus.draft
      ∷ invoice_with 71 InvoiceStatus.sent
      ∷ invoice_with 72 InvoiceStatus.paid
      ∷ [];
  items = sample_item ∷ [];
  payments = [];
  leads = [];
  intake_forms = [];
  conflict_checks = [];
  parties = [];
}

-- Between two requests, with an empty cache.
abbrev pub world : World
world = record {
  db = tables;
  tx = tables;
  cache = [];
  audit = [];
  webhooks = [];
  notifications = [];
}

abbrev pub cached_world : World
cached_world = record world { cache = (10, active_case) ∷ [] }

pub world-Coherent : Coherent world
world-Coherent id c h = absurd (cc)
