-- ===== src/Shop.antt =====
-- What bot/bot.py sells and gives away: invoices and what they accrue, referral statistics, the
-- administrator's credits, and the limits on how often a user may act.
pub mod Types
pub mod Invoices
pub mod Accrual
pub mod Steps
pub mod Open
pub mod Once
pub mod Credits
pub mod Credited
pub mod Limits
pub mod Limited
mod Tests
