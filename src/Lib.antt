-- ===== src/Lib.antt =====
-- Verification of emboss, a library of disk caches and of the decorator `@cached` (emboss/*.py).
--
-- The parts. A function under `@cached` (emboss/_cached.py) looks its result up in a cache by a key
-- made of the function's source and arguments, and computes and stores it on a miss. `LogCache`
-- (emboss/_log_cache.py) keeps append-only logs of framed, pickled records, several writers' side
-- by side, and finds the current record of a key by an index built from all logs. `SqliteCache`
-- (emboss/_sqlite_cache.py) keeps one table with triggers that count rows and bytes, evicts down to
-- nine tenths of a size limit, and spills large values to files. `FanoutCache` spreads keys over
-- several such tables, `FileCache` keeps a file per key, and `transfer` copies one cache into
-- another.
--
-- The files.
--   Prelude        what the others share: Boolean tests, lists and slices, `dict`, sorting.
--   Log/Record     `_Record`, `_OpaqueValue`, the envelope test.
--   Log/Frame      `_frame`, `_salvage_opaque`, `_parse_frame`, the rewriting loop of a compaction.
--   Log/Scan       `_resync`, `_read_records`.
--   Log/Index      `_PackedIndex` and its build in `_ensure_index`. A digest is a number.
--   Log/Shard      one prefix of a `LogCache`: the logs by name and the index in memory, with
--                  `_ensure_index`, `_read_verified`, `_shard_get`, `get` (`get_value`), `_append`,
--                  `_fold_own_append`, `set` up to its append (`set_append`) and `delete`.
--   Sqlite         `SqliteCache`: the table as the list of its rows, the two counters that triggers
--                  keep, the spill files; `get` is `get_value`.
--   Cached         `_cache_only_active`, `_lookup`, `_serve`, `_settle`, `_compute`, `wrapper`,
--                  `_parse_accept_token`. The cache is a record of operations with the laws of
--                  `IsCache`, which a dict fills.
--   Log/Compact    `_compact_prefix`, `_trim_to_limit`, `_rec_size`, `clear`, `_iter_live` and what
--                  counts or lists by it, in one prefix.
--   Log/Consolidate  `_consolidate_prefix` and its steps, in one prefix: the snapshot and the merge
--                  in Consolidate itself, `_resolve_spills` and `_pool_adopt` in Spills, the rewrite,
--                  the prune and the sweeps in Prune, the whole pass in Pass, and in Trigger
--                  the whole of `LogCache.set` with the pass or the compaction it may set off.
--   Cached/Latch   `_InflightLatch`: the threads inside `hold`, the table of locks and references.
--   Cached/Anno    the annotations, `_member_shapes`, `_union_codec_members`, `_wants_codec`.
--   Cached/Codec   `_encode` and `_decode`, and in Codec/Calls their place in the decorator.
--   File           `FileCache` (emboss/_file_cache.py): text keys, their paths, the files with their
--                  times and sizes, the running total and its eviction.
--   Fanout         `FanoutCache` (emboss/_fanout_cache.py): a list of databases of Sqlite.
--   Transfer       `transfer` (emboss/_transfer.py), over the interface of Cached.
--   Tests          runs at concrete inputs, with a small pickle that keeps the law asked of one.
--
-- What stands behind parameters: pickle, md5 and sha256, the file of a spilled value, the clocks, the
-- match of the pattern for conflict copies, the outcome of links, copies and unlinks, what other
-- processes do to the logs while a pass runs, the wrapped function, pydantic and the constructors of
-- dataclasses. Times are whole numbers, and the low water mark `0.9 * limit` is kept exact.
--
-- Fuel. The scan of a log gets one round more than the log has bytes, the binary search one more
-- than there are entries, and eviction one more than there are rows.
--
-- Not modelled: the batch of passes over all prefixes, the write of a spill file of `LogCache`;
-- file locks and retries; the asyncio twins of the latch and of `_compute`; the keys of `@cached`
-- and the resolution of quoted annotations, which is left to `typing`; keys of `FileCache` that
-- are no text, and its `nuke`; the command line; log messages; the overflow of the fields of a
-- packed index entry.
pub mod Cached
pub mod Fanout
pub mod File
pub mod Log
pub mod Prelude
pub mod Sqlite
pub mod Tests
pub mod Transfer
