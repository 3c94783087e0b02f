-- ===== src/Collector.antt =====
-- The collector of the pool, bot/mosaic_pool_collector.py: which of the found nodes are probed.
pub mod Strata
pub mod Unique
pub mod Counts
pub mod Fair
mod Tests
