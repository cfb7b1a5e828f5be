-- ===== src/Publish.antt =====
-- The publishing part of the program: the job table (app/models/publish_job.py), the scheduler's
-- state machine (app/publish/scheduler.py) and the endpoints (app/http/publish_rest.py).
pub mod Job
pub mod Store
pub mod Endpoints
pub mod Edits
pub mod Rows
pub mod Busy
pub mod Spacing
pub mod Runner
pub mod Invariant
pub mod Safety
pub mod Outcome
pub mod Selection
pub mod Requests
pub mod Editing
pub mod Races
mod Examples
