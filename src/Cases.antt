-- ===== src/Cases.antt =====
-- src/modules/case: the case records behind their cache, and who may see them.
pub mod Status
pub mod Records
pub mod Numbers
pub mod Create
pub mod Lookup
pub mod Editing
pub mod Moving
pub mod Stale
pub mod Access
pub mod Assignments
pub mod LeadAttorney
pub mod Opening
