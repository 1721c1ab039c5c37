-- ===== src/Billing/Invoices.antt =====
-- src/modules/billing/invoice.service.ts.
pub mod Find
pub mod Create
pub mod Update
pub mod Items
pub mod Listing
pub mod Creation
pub mod Billed
pub mod Cycle
pub mod Reconcile
pub mod Transitions
pub mod Edits
pub mod Visibility
