-- ===== src/Log/Consolidate/Pass.antt =====
-- emboss/_log_cache.py: `_consolidate_prefix`, the steps of `Consolidate` and its children in order.
-- Other processes are not excluded: `before_read` and `before_prune` are what they do to the logs
-- between the snapshot and the reads, and between the rewrite and the second `stat`.
pub mod Abort
mod Carried
pub mod Peers
pub mod Pool
pub mod Stored
pub mod Winners
use emboss.Prelude.{
  ℕ, String, Bool, true, false, not, ◌&&◌, Option, none, some, List, [], ◌∷◌, ◌++◌, map, keep_if,
  str_eq, includes, if◌then◌else◌,
}
use emboss.Prelude.Dict.{Dict, get, str_dec}
use emboss.Log.Record.{Bytes, Record}
use emboss.Log.Index.{PackedIndex}
use emboss.Log.Shard.{Env}
use emboss.Log.Compact.{rec_size}
use emboss.Log.Consolidate.{
  Source, Snapshot, snapshot_sources, Kept, collect_live_across_logs, ours,
}
use emboss.Log.Consolidate.Paths.{removesuffix, with_suffix}
use emboss.Log.Consolidate.Prune.{
  write_consolidated, prune_sources, sweep_shared_spills, sweep_temporaries,
  sweep_legacy_namespaces, remove_namespace,
}
use emboss.Log.Consolidate.Spills.{
  Stat, fault, stat_of, LegacyFile, Copied, Disk, Spillage, Resolved, resolve_spills,
}

-- A prefix on disk, with what the process holds of it in memory.
pub record Prefix : Type 0 where
  pub sources : Dict String Source
  pub pool : Dict String Stat
  pub temporaries : Dict String Stat
  pub namespaces : Dict String Stat
  pub legacy : Dict String LegacyFile
  pub index : Option PackedIndex
  pub sig : Option (List (String × ℕ))
  pub checked : Option ℕ
  pub needs_migration : Bool
  pub consolidated_at : Option ℕ

-- The instance, and what the pass meets.
pub record Setting (V : Type 0) : Type 0 where
  pub env : Env V
  pub name : String
  pub size_limit : Option ℕ
  pub is_conflict_log : String → Bool
  pub sha256 : Bytes → String
  pub copy_of : String → Copied
  pub can_unlink : String → Bool
  pub written_at : ℕ
  pub before_read : Dict String Source → Dict String Source
  pub before_prune : Dict String Source → Dict String Source

stat_size : Option Stat → ℕ
stat_size (some (stat_of size time)) = size
stat_size _ = 0

-- `stat` of the spill file at a path, 0 where it raises
unfoldable pub spill_size : Prefix → String → ℕ
unfolding stat_size
spill_size prefix rel = elim (get str_dec rel prefix.pool) [
  | some stat ↦ stat_size (some stat)
  | none ↦ elim (get str_dec rel prefix.legacy) [
    | none ↦ 0
    | some file ↦ stat_size (some file.stat)
  ]
]

add_spill : Option String → List String → List String
add_spill none rels = rels
add_spill (some rel) rels = if str_eq rel "" then rels else rel ∷ rels

module _ {V : Type 0} where
  -- `{r.spill for r in records if r.spill}`
  unfoldable pub spills_of : List (Record V) → List String
  unfolding add_spill
  spills_of [] = []
  spills_of (rec ∷ recs) = add_spill rec.spill (spills_of recs)

module _ {V : Type 0} (setting : Setting V) where
  abbrev pub target : String
  target = setting.env.log_name

  abbrev pub writer_id : String
  writer_id = removesuffix target ".log"

  -- `explicit_prune | conflict_logs`, less the own log
  unfoldable pub prune_set : List String → Snapshot → List String
  prune_set prune shot =
      keep_if (λ name. not (str_eq name target))
        (map (with_suffix ".log") prune ++ shot.conflict_logs)

  remove_namespaces :
      List String
      → Dict String Stat × Dict String LegacyFile
      → Dict String Stat × Dict String LegacyFile
  unfolding remove_namespace
  remove_namespaces [] state = state
  remove_namespaces (writer ∷ writers) state =
      remove_namespaces writers
        (remove_namespace setting.can_unlink setting.name (with_suffix ".spill" writer) state)

  unfoldable pub kept_spills : List String → List (Record V) → List (Kept V) → List String
  unfolding spills_of
  kept_spills prune_logs consolidated keep =
      spills_of consolidated
      ++ spills_of (
          map (λ (pair : Kept V). pair.0)
            (keep_if
              (λ (pair : Kept V). not (str_eq pair.1 target) && not (includes prune_logs pair.1))
              keep))

  unfoldable pub keep_sources : List String → Snapshot → Resolved V → List String
  keep_sources unread shot res =
      unread
      ++ map (with_suffix ".log") res.failed_adoptions
      ++ keep_if (includes res.absent_sources) shot.conflict_logs

  -- What follows the rewrite of the own log, which has left `written`.
  unfoldable pub collect_garbage :
      List String
      → List String
      → List String
      → Snapshot
      → List (Kept V)
      → Resolved V
      → Dict String Source
      → ℕ
      → ℕ
      → Prefix
      → Prefix
  unfolding remove_namespaces
  collect_garbage prune prune_logs unread shot keep res written now mono prefix =
      let (left, pruned) =
        prune_sources target (keep_sources unread shot res) prune_logs shot.seen
          (setting.before_prune written) in
      let spills = kept_spills prune_logs res.consolidated keep in
      let swept =
        sweep_legacy_namespaces setting.can_unlink now setting.name spills res.failed_adoptions
          (writer_id ∷ prune) unread
          (remove_namespaces pruned (prefix.namespaces, res.disk.legacy)).0
          (remove_namespaces pruned (prefix.namespaces, res.disk.legacy)).1 in
      let (dirs, files) =
        if includes res.failed_adoptions writer_id
        then swept
        else remove_namespace setting.can_unlink setting.name (with_suffix ".spill" writer_id)
            swept in
      record {
        sources = left;
        pool = sweep_shared_spills setting.can_unlink now spills unread res.disk.pool;
        temporaries = sweep_temporaries setting.can_unlink now prefix.temporaries;
        namespaces = dirs;
        legacy = files;
        index = none;
        sig = none;
        checked = none;
        needs_migration = false;
        consolidated_at = some mono;
      }

  abbrev pub spillage : Spillage
  spillage = record {
    prefix = setting.name;
    target = target;
    sha256 = setting.sha256;
    copy_of = setting.copy_of;
    written_at = setting.written_at;
  }

  -- The records that the own log is to carry, with their spill files in the pool.
  unfoldable pub resolved : List String → List (Kept V) → Prefix → Resolved V
  resolved prune_logs keep prefix =
      resolve_spills spillage (record { pool = prefix.pool; legacy = prefix.legacy })
        (ours (rec_size setting.env (spill_size prefix)) setting.size_limit target prune_logs keep)

  -- The pass behind the test of the own log; `none` is a frame that cannot be packed.
  unfoldable pub rewrite :
      List String
      → List String
      → List String
      → Snapshot
      → List (Kept V)
      → Dict String Source
      → ℕ
      → ℕ
      → Prefix
      → Option Prefix
  unfolding resolved
  rewrite prune prune_logs unread shot keep files now mono prefix =
      let res = resolved prune_logs keep prefix in
      elim (write_consolidated setting.env.pickle target setting.written_at res.consolidated
        files) [
          | none ↦ none
          | some written ↦
              some (collect_garbage prune prune_logs unread shot keep res written now mono prefix)
        ]

  unfoldable pub snapshot_of : Prefix → Snapshot
  snapshot_of prefix = snapshot_sources setting.is_conflict_log prefix.sources

  -- What the reads find, behind the snapshot: the live records, and the logs not read.
  unfoldable pub gathered : ℕ → Prefix → List (Kept V) × List String
  unfolding snapshot_of
  gathered now prefix =
      let shot = snapshot_of prefix in
      let (keep, unread) =
        collect_live_across_logs setting.env.pickle (setting.before_read prefix.sources) shot.seen
          now in
      (keep, unread ++ shot.unstat)

  -- A pass that cannot read the own log changes nothing but the time of the last pass.
  unfoldable pub consolidate_prefix : List String → ℕ → ℕ → Prefix → Option Prefix
  unfolding snapshot_of gathered
  consolidate_prefix prune now mono prefix =
      let shot = snapshot_of prefix in
      let prune_logs = prune_set prune shot in
      let files = setting.before_read prefix.sources in
      let (keep, unread) = gathered now prefix in
      if includes unread target
      then some (record prefix { sources = files; consolidated_at = some mono })
      else rewrite prune prune_logs unread shot keep files now mono prefix
