-- ===== src/Text.antt =====
-- app/browser/text_formatter.py: the length of a text as the platform counts it, and truncation.
pub mod Emoji
pub mod Truncate
mod Examples
