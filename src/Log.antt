-- ===== src/Log.antt =====
-- emboss/_log_cache.py, the log-structured cache.
pub mod Record
pub mod Frame
pub mod Scan
pub mod Index
pub mod Shard
pub mod Compact
pub mod Consolidate
