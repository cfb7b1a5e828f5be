-- ===== src/Video.antt =====
-- The scheduler of video jobs: app/video/scheduler.py and app/models/video_job.py.
pub mod Job
pub mod Stages
pub mod Store
pub mod Resume
pub mod Run
pub mod Revision
pub mod Endpoints
pub mod Children
pub mod Remedies
pub mod Listing
mod Examples
