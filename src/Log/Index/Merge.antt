-- ===== src/Log/Index/Merge.antt =====
-- emboss/_log_cache.py: the merge and the packing of `_ensure_index`.
mod Winner
mod Pack
pub use Winner.{Event, newer, latest, events, latest-le, get-merge_logs}
pub use Pack.{
  IsDistinct, put-IsDistinct, packed_winner, pack_entries-IsPacked, find_entry-pack_entries,
}
