-- ===== src/Leads.antt =====
-- src/modules/crm/lead.service.ts.
pub mod Status
pub mod Score
pub mod Records
pub mod Convert
pub mod Conflicts
pub mod Scoring
pub mod Editing
pub mod Handover
pub mod Conversion
pub mod Shortcut
pub mod Screening
