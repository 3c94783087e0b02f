-- ===== src/Routes.antt =====
-- The administrators' control over the routes of the client manifest, of bot/bot.py.
pub mod Policies
pub mod Gates
mod Tests
