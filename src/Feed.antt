-- ===== src/Feed.antt =====
-- The nodes of a group that bot/bot.py offers to one client: a ranked and shuffled selection that the
-- client and the week decide.
pub mod Shuffle
pub mod Shard
pub mod Swaps
pub mod Picks
pub mod Ranking
pub mod Selection
mod Tests
