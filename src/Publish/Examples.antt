-- ===== src/Publish/Examples.antt =====
-- The theorems about publishing at concrete inputs.
mod Data
mod Process
mod Outcome
mod Requests
