-- ===== src/Auth.antt =====
-- Operators, their access to accounts, and the guards.
pub mod Guards
pub mod Agreement
pub mod Operators
pub mod Grants
