-- ===== src/Cabinet.antt =====
-- The account tables of bot/bot.py behind the web cabinet: pairing codes, the binding of a Telegram
-- chat to a website profile, sessions, and the callback codes that sign an application in.
pub mod Codes
pub mod Typed
pub mod Pairing
pub mod Live
pub mod Tables
pub mod Bind
pub mod Sessions
pub mod Accounts
pub mod Resets
pub mod Steps
pub mod Effects
pub mod AccountEffects
pub mod Binding
pub mod Signing
pub mod Registering
pub mod Revoking
mod Tests
