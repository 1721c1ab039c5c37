-- ===== src/Examples.antt =====
-- The theorems at concrete inputs, and runs of the operations.
mod Cases
mod Billing
mod TimeEntries
mod Services
mod Leads
mod Listings
mod Opening
mod Accounts
mod Sessions
mod Documents
mod Scheduling
mod Messaging
mod Users
mod Worker
