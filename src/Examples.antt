-- ===== src/Examples.antt =====
-- Concrete runs on tables in memory: that the theorems' hypotheses can be met.
pub mod Requests
pub mod Accounts
pub mod Events
pub mod Redelivery
pub mod Cases
pub mod Invoices
pub mod Callbacks
pub mod Batches
