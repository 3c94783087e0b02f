-- ===== src/Invites.antt =====
-- Sponsored invites, `SponsoredInviteStore` of bot/sponsored_invites.py: the rows and results, the
-- methods as functions of the table, and their theorems.
pub mod Types
pub mod Create
pub mod Claim
pub mod Admin
pub mod Steps
pub mod Refines
pub mod Validity
pub mod Lifecycle
pub mod Winner
pub mod Requests
mod Tests
