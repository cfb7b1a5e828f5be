-- ===== src/Accounts.antt =====
-- The accounts of the platform: app/services/account_service.py, cookie_service.py and
-- placeholder_reaper.py.
pub mod Account
pub mod Cookie
pub mod Placeholders
pub mod Import
pub mod Reaping
pub mod Cleaning
pub mod Importing
pub mod Normalize
pub mod Roundtrip
mod Examples
