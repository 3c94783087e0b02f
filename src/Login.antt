-- ===== src/Login.antt =====
-- Browser sign-in through Telegram, `BrowserLoginStore` of bot/onboarding_auth.py: the rows and
-- answers, the methods as functions of the table, and their theorems.
pub mod Types
pub mod Store
pub mod Approve
pub mod Steps
pub mod Rows
pub mod Verify
pub mod Refines
pub mod Invariant
pub mod Once
pub mod Lockout
pub mod Binding
mod Tests
