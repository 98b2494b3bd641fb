-- ===== src/Log/Consolidate.antt =====
-- emboss/_log_cache.py: the first half of `_consolidate_prefix`: `_snapshot_sources` and
-- `_collect_live_across_logs`, in one prefix. Its files are dicts by name; a set is a list.
pub mod Paths
pub mod Adopts
pub mod Backed
pub mod Pass
pub mod Prune
pub mod Resolves
pub mod Spared
pub mod Spills
pub mod Trigger
use emboss.Prelude.{
  ℕ, ◌+◌, String, Bool, true, false, not, ◌&&◌, ◌||◌, Option, none, some, List, [], ◌∷◌, ◌++◌, map,
  keep_if, sum_by, ltb, leb, ◌==◌, str_eq, includes, if◌then◌else◌,
}
use emboss.Prelude.Dict.{Dict, get, put, str_dec}
use emboss.Prelude.Sort.{sorted_by}
use emboss.Log.Record.{Bytes, Record, Pickle}
use emboss.Log.Scan.{ScanResult, read_records}
use emboss.Log.Index.{live}
use emboss.Log.Shard.{LogFile, readable, unreadable, log_size, by_name}

-- A `*.log` file: `statable` is false where `stat` raises another error than absence.
pub record Source : Type 0 where
  pub file : LogFile
  pub mtime : ℕ
  pub statable : Bool

-- `(st.st_size, st.st_mtime_ns)`
unfoldable pub identity : Source → Option (ℕ × ℕ)
unfolding log_size
identity src = if src.statable then some (log_size src.file, src.mtime) else none

pub record Snapshot : Type 0 where
  pub seen : Dict String (ℕ × ℕ)
  pub unstat : List String
  pub conflict_logs : List String

-- `is_conflict_log` is the match of the pattern for conflict copies.
unfoldable pub snapshot_sources : (String → Bool) → Dict String Source → Snapshot
unfolding identity
snapshot_sources is_conflict_log [] = record { seen = []; unstat = []; conflict_logs = [] }
snapshot_sources is_conflict_log ((name, src) ∷ sources) =
    let rest = snapshot_sources is_conflict_log sources in
    elim (identity src) [
      | none ↦ record rest { unstat = name ∷ rest.unstat }
      | some id ↦ record rest {
        seen = (name, id) ∷ rest.seen;
        conflict_logs =
            if is_conflict_log name then name ∷ rest.conflict_logs else rest.conflict_logs;
      }
    ]

-- A record with the name of the log that it was merged from.
abbrev pub Kept : Type 0 → Type 0
Kept V = Record V × String

module _ {V : Type 0} where
  -- `if cur is None or rec.store_time >= cur[0].store_time: latest[rec.key] = (rec, name)`
  unfoldable pub note_kept : String → Dict String (Kept V) → Record V → Dict String (Kept V)
  note_kept name latest rec = elim (get str_dec rec.key latest) [
    | none ↦ put str_dec rec.key (rec, name) latest
    | some cur ↦
        if leb cur.0.store_time rec.store_time
        then put str_dec rec.key (rec, name) latest
        else latest
  ]

  unfoldable pub note_records :
      String → Dict String (Kept V) → List (Record V) → Dict String (Kept V)
  unfolding note_kept
  note_records name latest [] = latest
  note_records name latest (rec ∷ recs) = note_records name (note_kept name latest rec) recs

module _ {V : Type 0} (p : Pickle V) where
  -- `none` is an `OSError`; also a log that is gone by now cannot be read.
  unfoldable pub read_source : Option Source → Option (List (Record V))
  read_source none = none
  read_source (some src) = elim src.file [
    | unreadable size ↦ none
    | readable bytes ↦ elim (read_records p bytes) [ none ↦ none | some scan ↦ some scan.records ]
  ]

  -- The loop over `sorted(sources)`: the latest records by key, and the logs not read.
  unfoldable pub collect :
      Dict String Source
      → List (String × (ℕ × ℕ))
      → Dict String (Kept V)
      → Dict String (Kept V) × List String
  unfolding read_source note_records
  collect files [] latest = (latest, [])
  collect files ((name, id) ∷ names) latest = elim (read_source (get str_dec name files)) [
    | none ↦ let (found, unread) = collect files names latest in (found, name ∷ unread)
    | some recs ↦ collect files names (note_records name latest recs)
  ]

  unfoldable pub collect_live_across_logs :
      Dict String Source → Dict String (ℕ × ℕ) → ℕ → List (Kept V) × List String
  unfolding collect
  collect_live_across_logs files seen now =
      let (latest, unread) = collect files (by_name seen) [] in
      (
        sorted_by (λ (pair : Kept V). pair.0.store_time)
            (keep_if (λ (pair : Kept V). live pair.0 now) (map (λ item. item.1) latest)),
        unread,
      )

-- `_trim_to_limit` and the sort behind it, over records with their sources; `rec_size` is
-- `_rec_size`.
module _ {V : Type 0} (rec_size : Record V → ℕ) where
  unfoldable pub insert_newest_pair : Kept V → List (Kept V) → List (Kept V)
  insert_newest_pair pair [] = pair ∷ []
  insert_newest_pair pair (q ∷ qs) =
      if ltb q.0.store_time pair.0.store_time then pair ∷ q ∷ qs else q ∷ insert_newest_pair pair qs

  unfoldable pub newest_pairs : List (Kept V) → List (Kept V) → List (Kept V)
  unfolding insert_newest_pair
  newest_pairs acc [] = acc
  newest_pairs acc (pair ∷ pairs) = newest_pairs (insert_newest_pair pair acc) pairs

  unfoldable pub trim_pairs_from : ℕ → ℕ → List (Kept V) → List (Kept V)
  trim_pairs_from limit running [] = []
  trim_pairs_from limit running (pair ∷ pairs) =
      let rest = trim_pairs_from limit (running + rec_size pair.0) pairs in
      if ltb limit (running + rec_size pair.0) then [] else pair ∷ rest

  unfoldable pub trim_pairs : Option ℕ → List (Kept V) → List (Kept V)
  unfolding newest_pairs trim_pairs_from
  trim_pairs none pairs = pairs
  trim_pairs (some limit) pairs =
      if leb (sum_by (λ (pair : Kept V). rec_size pair.0) pairs) limit
      then pairs
      else trim_pairs_from limit 0 (newest_pairs [] pairs)

  -- The records that the own log is to carry.
  unfoldable pub ours : Option ℕ → String → List String → List (Kept V) → List (Kept V)
  unfolding trim_pairs
  ours limit target prune_logs keep =
      sorted_by (λ (pair : Kept V). pair.0.store_time)
        (trim_pairs limit
          (keep_if (λ (pair : Kept V). str_eq pair.1 target || includes prune_logs pair.1) keep))
