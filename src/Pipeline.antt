-- ===== src/Pipeline.antt =====
-- The stages of the video pipeline that are computations: app/video/pipeline.
pub mod Resegment
pub mod Coverage
pub mod Blocks
pub mod Timeline
pub mod Speech
pub mod Sums
pub mod Lasting
pub mod Once
pub mod Fitting
mod Carve
mod Merged
mod Snapping
mod Filled
mod Settled
mod Resting
mod Examples
