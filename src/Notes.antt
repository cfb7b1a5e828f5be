-- ===== src/Notes.antt =====
-- The notes of the accounts: their metrics (app/services/note_metrics_service.py) and the tasks that
-- run in the background for them, with the ledgers where their results are read.
pub mod Metrics
pub mod Plan
pub mod Snapshots
pub mod Trend
pub mod Ledger
pub mod Deletion
pub mod Polling
pub mod Answers
pub mod Deleting
pub mod Export
pub mod Checks
pub mod Settling
pub mod Checking
mod Examples
