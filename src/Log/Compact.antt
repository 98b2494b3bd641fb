-- ===== src/Log/Compact.antt =====
-- emboss/_log_cache.py: the scans that go past the index (`_compact_prefix`, `_trim_to_limit`,
-- `_rec_size`, `clear`, `_iter_live` and what counts or lists by it), in one prefix.
pub mod Kept
pub mod Rewrite
pub mod Limit
pub mod Views
use emboss.Prelude.{
  ℕ, ◌+◌, String, Bool, true, false, Option, none, some, List, [], ◌∷◌, ◌++◌, map, length, keep_if,
  sum_by, ltb, leb, str_eq, if◌then◌else◌,
}
use emboss.Prelude.Dict.{Dict, get, put, remove, str_dec}
use emboss.Prelude.Sort.{sorted_by}
use emboss.Log.Record.{Bytes, Py, atom, Content, plain, opaque, Record, Pickle}
use emboss.Log.Frame.{write_frames}
use emboss.Log.Scan.{ScanResult, read_records}
use emboss.Log.Index.{live}
use emboss.Log.Shard.{LogFile, readable, unreadable, Env, Shard, scan_logs, by_name}

module _ {V : Type 0} where
  -- `if cur is None or rec.store_time >= cur.store_time: latest[rec.key] = rec`
  unfoldable pub note_latest : Dict String (Record V) → Record V → Dict String (Record V)
  note_latest latest rec = elim (get str_dec rec.key latest) [
    | none ↦ put str_dec rec.key rec latest
    | some cur ↦
        if leb cur.store_time rec.store_time then put str_dec rec.key rec latest else latest
  ]

  unfoldable pub latest_records : Dict String (Record V) → List (Record V) → Dict String (Record V)
  unfolding note_latest
  latest_records latest [] = latest
  latest_records latest (rec ∷ recs) = latest_records (note_latest latest rec) recs

  -- `[r for r in latest.values() if self._live(r, now)]`
  unfoldable pub live_values : Dict String (Record V) → ℕ → List (Record V)
  live_values latest now = keep_if (λ rec. live rec now) (map (λ item. item.1) latest)

  -- `sorted(..., reverse=True)`, which keeps the order of equals
  insert_newest : Record V → List (Record V) → List (Record V)
  insert_newest rec [] = rec ∷ []
  insert_newest rec (r ∷ recs) =
      if ltb r.store_time rec.store_time then rec ∷ r ∷ recs else r ∷ insert_newest rec recs

  unfoldable pub newest_first : List (Record V) → List (Record V) → List (Record V)
  unfolding insert_newest
  newest_first acc [] = acc
  newest_first acc (rec ∷ recs) = newest_first (insert_newest rec acc) recs

-- `spill_size` is the size of a spill file, 0 where `stat` raises.
module _ {V : Type 0} (env : Env V) (spill_size : String → ℕ) where
  value_size : Content V → ℕ
  value_size (opaque blob names) = length blob
  value_size (plain value) = length (env.pickle.dumps (atom value))

  unfoldable pub rec_size : Record V → ℕ
  unfolding value_size
  rec_size rec = elim rec.spill [
    | none ↦ value_size rec.value
    | some rel ↦ if str_eq rel "" then value_size rec.value else spill_size rel
  ]

  -- The loop of `_trim_to_limit`, over the records from the newest on.
  unfoldable pub trim_from : ℕ → ℕ → List (Record V) → List (Record V)
  trim_from limit running [] = []
  trim_from limit running (rec ∷ recs) =
      let rest = trim_from limit (running + rec_size rec) recs in
      if ltb limit (running + rec_size rec) then [] else rec ∷ rest

  unfoldable pub trim_to_limit : ℕ → List (Record V) → List (Record V)
  unfolding trim_from newest_first
  trim_to_limit limit items =
      if leb (sum_by rec_size items) limit then items else trim_from limit 0 (newest_first [] items)

  trim_if : Option ℕ → List (Record V) → List (Record V)
  trim_if none items = items
  trim_if (some limit) items = trim_to_limit limit items

  -- What a compaction keeps of the scanned records.
  unfoldable pub kept : Option ℕ → ℕ → List (Record V) → List (Record V)
  unfolding trim_if
  kept limit now recs =
      sorted_by (λ rec. rec.store_time) (trim_if limit (live_values (latest_records [] recs) now))

  -- `none` is an exception: an unreadable log, or a frame that cannot be packed.
  unfoldable pub compact_prefix : Option ℕ → Shard → ℕ → Option Shard
  compact_prefix limit shard now = elim (get str_dec env.log_name shard.logs) [
    | none ↦ some shard
    | some (unreadable size) ↦ none
    | some (readable bytes) ↦ elim (read_records env.pickle bytes) [
      | none ↦ none
      | some scan ↦ elim (write_frames env.pickle (kept limit now scan.records)) [
        | none ↦ none
        | some out ↦ some (record shard {
          logs = put str_dec env.log_name (readable out) shard.logs;
          index = none;
          sig = none;
        })
      ]
    ]
  ]

  unfoldable pub all_records : List (String × ScanResult V) → List (Record V)
  all_records [] = []
  all_records ((name, scan) ∷ scans) = scan.records ++ all_records scans

  -- `_iter_live`: the logs that cannot be read are left out.
  unfoldable pub iter_live : Shard → ℕ → List (Record V)
  iter_live shard now =
      live_values (latest_records [] (all_records (scan_logs env (by_name shard.logs)))) now

  -- `__len__`, `__iter__` and `volume`
  unfoldable pub count_live : Shard → ℕ → ℕ
  count_live shard now = length (iter_live shard now)

  unfoldable pub iter : Shard → ℕ → List String
  iter shard now = map (λ rec. rec.key) (iter_live shard now)

  unfoldable pub volume : Shard → ℕ → ℕ
  volume shard now = sum_by rec_size (iter_live shard now)

  unfoldable pub dropped : Shard → Shard
  dropped shard = record {
    logs = remove str_dec env.log_name shard.logs;
    index = none;
    sig = none;
    checked = none;
  }

  -- `clear`: the own log goes, and the live winners in it are counted.
  unfoldable pub clear_prefix : Shard → ℕ → Shard × ℕ
  unfolding dropped
  clear_prefix shard now = elim (get str_dec env.log_name shard.logs) [
    | none ↦ (dropped shard, 0)
    | some (unreadable size) ↦ (record shard { index = none; sig = none; checked = none }, 0)
    | some (readable bytes) ↦ elim (read_records env.pickle bytes) [
      | none ↦ (dropped shard, 0)
      | some scan ↦ (dropped shard, length (live_values (latest_records [] scan.records) now))
    ]
  ]
