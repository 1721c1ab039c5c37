-- ===== src/Billing.antt =====
-- src/modules/billing: invoices, payments, time entries and expenses.
pub mod Status
pub mod Payments
pub mod Figures
pub mod Invoices
pub mod TimeEntries
pub mod Expenses
