-- ===== src/Billing.antt =====
-- The prepaid wallet of bot/mosaic_billing.py: the tables of accounts, wallets, ledger, daily debits,
-- payments and trial claims, the operations on them, and their theorems.
pub mod Types
pub mod Wallet
pub mod Payments
pub mod Steps
pub mod Balance
pub mod Once
pub mod Paid
pub mod Daily
pub mod Extension
pub mod Trial
pub mod Renewal
pub mod Entitled
pub mod Settings
mod Tests
