-- ===== src/Publish/Invariant.antt =====
-- The invariant of the publishing process, kept by every step.
pub mod Defs
pub mod Moved
pub mod Ambient
pub mod Move
pub mod Steps
pub mod Claim
pub mod Reached
