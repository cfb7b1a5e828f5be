-- ===== src/Edits.antt =====
-- The revision of a finished video: app/video/pipeline/remake/revision.py. The children are the values
-- of an operation, the plan and its check, where its scenes lie in the source, and what it does.
mod Value
mod Key
mod Plan
mod Bracket
mod Reply
mod Override
mod Apply
mod Spans
mod Fates
mod Accepted
mod Revision
mod Fitting
mod Lookups
mod Latest
mod Examples
