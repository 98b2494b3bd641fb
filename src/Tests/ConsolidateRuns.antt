-- ===== src/Tests/ConsolidateRuns.antt =====
-- emboss/_log_cache.py: the theorems on a consolidation pass, at an own log, a pruned log whose
-- record has its value in the pool, and the log of a peer.
use emboss.Prelude.{
  ℕ, ◌≡◌, ◌≢◌, refl, sym, ◌∙◌, eq_iff, str_eq, String, true, false, inl, inr, Option, none, some,
  List, [], ◌∷◌, ◌++◌, ◌||◌, All, includes,
}
use mathlib.Core.Bool.{true≢false}
use emboss.Prelude.Dict.{get, put, remove, str_dec, get-put_self}
use emboss.Log.Record.{Bytes, Py, null, plain, Record}
use emboss.Log.Frame.{frame, parse_frame}
use emboss.Log.Scan.{ScanResult, read_records, resync}
use emboss.Log.Shard.{LogFile, readable, unreadable}
use emboss.Log.Consolidate.{Source, identity, Kept}
use emboss.Log.Consolidate.Prune.{same_identity}
use emboss.Log.Consolidate.Adopts.{Backed}
use emboss.Log.Consolidate.Spills.{Stat, stat_of, Copied, copied}
use emboss.Log.Consolidate.Pass.{
  Prefix, Setting, target, spillage, prune_set, resolved, rewrite, gathered, snapshot_of,
  consolidate_prefix,
}
use emboss.Log.Consolidate.Pass.Abort.{IsBlind, consolidate_prefix-blind}
use emboss.Log.Consolidate.Pass.Peers.{consolidate_prefix-peer, rewrite-changed}
use emboss.Log.Consolidate.Pass.Pool.{disk_of, consolidate_prefix-Backed}
use emboss.Log.Consolidate.Pass.Stored.{Stored, HeldIn}
use emboss.Log.Consolidate.Pass.Winners.{consolidate_prefix-Stored, consolidate_prefix-HeldIn}
use emboss.Tests.Toy.{toy, toy-IsPickle}
use emboss.Tests.LogRuns.{a_frame, env}

abbrev c_rec : Record Unit
c_rec = record {
  key = "c";
  value = plain null;
  expire_time = none;
  store_time = 6;
  deleted = false;
  spill = some "p/spill/x.val";
}

abbrev c_frame : Bytes
c_frame =
    0 ∷ 0 ∷ 0 ∷ 26 ∷ 0x80 ∷ 0 ∷ 6 ∷ 1 ∷ 100 ∷ 0 ∷ 0 ∷ 0 ∷ 2 ∷ 6 ∷ 3 ∷ 1 ∷ 113 ∷ 48 ∷ 116 ∷ 113 ∷ 106
    ∷ 109 ∷ 109 ∷ 48 ∷ 121 ∷ 47 ∷ 119 ∷ 98 ∷ 109 ∷ 0 ∷ []

frame-c_rec : frame toy c_rec ≡ some c_frame
unfolding toy frame emboss.Log.Record.as_tuple
frame-c_rec = refl

abbrev setting : Setting Unit
setting = record {
  env = env;
  name = "p";
  size_limit = none;
  is_conflict_log = λ name. false;
  sha256 = λ bytes. "h";
  copy_of = λ rel. copied;
  can_unlink = λ rel. true;
  written_at = 8;
  before_read = λ sources. sources;
  before_prune = λ sources. sources;
}

abbrev log_of : Bytes → Source
log_of bytes = record { file = readable bytes; mtime = 3; statable = true }

abbrev before : Prefix
before = record {
  sources = ("n1.log", log_of a_frame) ∷ ("n2.log", log_of []) ∷ ("old.log", log_of c_frame) ∷ [];
  pool = ("p/spill/x.val", stat_of 40 0) ∷ ("p/spill/y.val", stat_of 40 0) ∷ [];
  temporaries = [];
  namespaces = [];
  legacy = [];
  index = none;
  sig = none;
  checked = none;
  needs_migration = true;
  consolidated_at = none;
}

abbrev after : Prefix
after = record {
  sources =
      ("n1.log", record { file = readable (a_frame ++ c_frame); mtime = 8; statable = true })
      ∷ ("n2.log", log_of [])
      ∷ [];
  pool = ("p/spill/x.val", stat_of 40 0) ∷ [];
  temporaries = [];
  namespaces = [];
  legacy = [];
  index = none;
  sig = none;
  checked = none;
  needs_migration = false;
  consolidated_at = some 2;
}

consolidated : consolidate_prefix setting ("old" ∷ []) 4000 2 before ≡ some after
unfolding consolidate_prefix rewrite resolved gathered snapshot_of prune_set get put remove str_dec
    toy read_records parse_frame resync emboss.Log.Scan.push emboss.Log.Scan.mark_tear
    emboss.Log.Frame.unpack emboss.Log.Frame.decode_blob emboss.Log.Record.record_from
    emboss.Log.Record.as_tuple emboss.Log.Frame.write_frames emboss.Log.Index.live
    emboss.Prelude.Sort.sorted_by emboss.Log.Shard.by_name emboss.Log.Consolidate.snapshot_sources
    emboss.Log.Consolidate.identity emboss.Log.Consolidate.collect_live_across_logs
    emboss.Log.Consolidate.note_records emboss.Log.Consolidate.read_source
    emboss.Log.Consolidate.ours emboss.Log.Consolidate.trim_pairs
    emboss.Log.Consolidate.Prune.write_consolidated emboss.Log.Consolidate.Prune.prune_sources
    emboss.Log.Consolidate.Prune.is_prunable emboss.Log.Consolidate.Prune.sweep_shared_spills
    emboss.Log.Consolidate.Prune.sweep_temporaries
    emboss.Log.Consolidate.Prune.sweep_legacy_namespaces
    emboss.Log.Consolidate.Prune.remove_namespace emboss.Log.Consolidate.Prune.is_old
    emboss.Log.Consolidate.Spills.resolve_spills emboss.Log.Consolidate.Spills.resolve_spill
    emboss.Log.Consolidate.Paths.removesuffix emboss.Log.Consolidate.Paths.is_shared_spill
    emboss.Log.Consolidate.Pass.collect_garbage emboss.Log.Consolidate.Pass.kept_spills
    emboss.Log.Consolidate.Pass.keep_sources emboss.Log.Consolidate.Pass.spills_of
consolidated = refl

sees : includes (gathered setting 4000 before).1 (target setting) ≡ false
unfolding consolidate_prefix rewrite resolved gathered snapshot_of prune_set get put remove str_dec
    toy read_records parse_frame resync emboss.Log.Scan.push emboss.Log.Scan.mark_tear
    emboss.Log.Frame.unpack emboss.Log.Frame.decode_blob emboss.Log.Record.record_from
    emboss.Log.Record.as_tuple emboss.Log.Frame.write_frames emboss.Log.Index.live
    emboss.Prelude.Sort.sorted_by emboss.Log.Shard.by_name emboss.Log.Consolidate.snapshot_sources
    emboss.Log.Consolidate.identity emboss.Log.Consolidate.collect_live_across_logs
    emboss.Log.Consolidate.note_records emboss.Log.Consolidate.read_source
    emboss.Log.Consolidate.ours emboss.Log.Consolidate.trim_pairs
    emboss.Log.Consolidate.Prune.write_consolidated emboss.Log.Consolidate.Prune.prune_sources
    emboss.Log.Consolidate.Prune.is_prunable emboss.Log.Consolidate.Prune.sweep_shared_spills
    emboss.Log.Consolidate.Prune.sweep_temporaries
    emboss.Log.Consolidate.Prune.sweep_legacy_namespaces
    emboss.Log.Consolidate.Prune.remove_namespace emboss.Log.Consolidate.Prune.is_old
    emboss.Log.Consolidate.Spills.resolve_spills emboss.Log.Consolidate.Spills.resolve_spill
    emboss.Log.Consolidate.Paths.removesuffix emboss.Log.Consolidate.Paths.is_shared_spill
    emboss.Log.Consolidate.Pass.collect_garbage emboss.Log.Consolidate.Pass.kept_spills
    emboss.Log.Consolidate.Pass.keep_sources emboss.Log.Consolidate.Pass.spills_of
sees = refl

consolidate_prefix-Stored_example :
    Stored toy
      (get str_dec "n1.log" after.sources)
      (resolved setting
        (prune_set setting ("old" ∷ []) (snapshot_of setting before))
        (gathered setting 4000 before).0
        before).consolidated
consolidate_prefix-Stored_example =
    consolidate_prefix-Stored setting ("old" ∷ []) 4000 2 before after toy-IsPickle sees
      (λ sources. refl) consolidated

consolidate_prefix-HeldIn_example :
    All
      (λ (pair : Kept Unit).
        (str_eq pair.1 "n1.log"
            || includes (prune_set setting ("old" ∷ []) (snapshot_of setting before)) pair.1)
          ≡ true
        → pair.0.spill ≡ none
        → HeldIn toy (get str_dec "n1.log" after.sources) pair.0)
      (gathered setting 4000 before).0
consolidate_prefix-HeldIn_example =
    consolidate_prefix-HeldIn setting ("old" ∷ []) 4000 2 before after toy-IsPickle refl sees
      (λ sources. refl) consolidated

consolidate_prefix-Backed_example :
    All
      (Backed (spillage setting) (disk_of setting after))
      (resolved setting
        (prune_set setting ("old" ∷ []) (snapshot_of setting before))
        (gathered setting 4000 before).0
        before).consolidated
consolidate_prefix-Backed_example =
    consolidate_prefix-Backed setting ("old" ∷ []) 4000 2 before after sees consolidated

n2-n1 : ◌≢◌ {A = String} "n2.log" "n1.log"
n2-n1 = λ e. true≢false (sym ((eq_iff "n2.log" "n1.log").1 e))

n2-outside : includes (prune_set setting ("old" ∷ []) (snapshot_of setting before)) "n2.log" ≡ false
unfolding consolidate_prefix rewrite resolved gathered snapshot_of prune_set get put remove str_dec
    toy read_records parse_frame resync emboss.Log.Scan.push emboss.Log.Scan.mark_tear
    emboss.Log.Frame.unpack emboss.Log.Frame.decode_blob emboss.Log.Record.record_from
    emboss.Log.Record.as_tuple emboss.Log.Frame.write_frames emboss.Log.Index.live
    emboss.Prelude.Sort.sorted_by emboss.Log.Shard.by_name emboss.Log.Consolidate.snapshot_sources
    emboss.Log.Consolidate.identity emboss.Log.Consolidate.collect_live_across_logs
    emboss.Log.Consolidate.note_records emboss.Log.Consolidate.read_source
    emboss.Log.Consolidate.ours emboss.Log.Consolidate.trim_pairs
    emboss.Log.Consolidate.Prune.write_consolidated emboss.Log.Consolidate.Prune.prune_sources
    emboss.Log.Consolidate.Prune.is_prunable emboss.Log.Consolidate.Prune.sweep_shared_spills
    emboss.Log.Consolidate.Prune.sweep_temporaries
    emboss.Log.Consolidate.Prune.sweep_legacy_namespaces
    emboss.Log.Consolidate.Prune.remove_namespace emboss.Log.Consolidate.Prune.is_old
    emboss.Log.Consolidate.Spills.resolve_spills emboss.Log.Consolidate.Spills.resolve_spill
    emboss.Log.Consolidate.Paths.removesuffix emboss.Log.Consolidate.Paths.is_shared_spill
    emboss.Log.Consolidate.Pass.collect_garbage emboss.Log.Consolidate.Pass.kept_spills
    emboss.Log.Consolidate.Pass.keep_sources emboss.Log.Consolidate.Pass.spills_of
n2-outside = refl

consolidate_prefix-peer_example :
    get str_dec "n2.log" after.sources ≡ get str_dec "n2.log" before.sources
consolidate_prefix-peer_example =
    consolidate_prefix-peer setting ("old" ∷ []) 4000 2 before after "n2.log" n2-n1 n2-outside
      (λ sources. refl) (λ sources. refl) consolidated

abbrev own_lost : Source
own_lost = record { file = unreadable 17; mtime = 3; statable = true }

abbrev unreadable_own : Prefix
unreadable_own = record before { sources = ("n1.log", own_lost) ∷ ("old.log", log_of c_frame) ∷ [] }

own-there : get str_dec "n1.log" unreadable_own.sources ≡ some own_lost
unfolding get str_dec
own-there = refl

own-IsBlind : IsBlind setting unreadable_own own_lost
unfolding get str_dec emboss.Log.Consolidate.read_source
own-IsBlind = inr refl

consolidate_prefix-blind_example :
    consolidate_prefix setting ("old" ∷ []) 4000 2 unreadable_own
    ≡ some (record unreadable_own { consolidated_at = some 2 })
consolidate_prefix-blind_example =
    consolidate_prefix-blind setting ("old" ∷ []) 4000 2 unreadable_own own_lost own-there
      own-IsBlind

-- The writer of `old.log` is alive and appends while the own log is rewritten.
abbrev appended : Setting Unit
appended = record setting { before_prune = put str_dec "old.log" (log_of (c_frame ++ a_frame)) }

abbrev after_append : Prefix
after_append = record after {
  sources =
      ("n1.log", record { file = readable (a_frame ++ c_frame); mtime = 8; statable = true })
      ∷ ("n2.log", log_of [])
      ∷ ("old.log", log_of (c_frame ++ a_frame))
      ∷ [];
}

rewritten :
    rewrite appended
      ("old" ∷ [])
      ("old.log" ∷ [])
      []
      (snapshot_of appended before)
      (gathered appended 4000 before).0
      before.sources
      4000
      2
      before
    ≡ some after_append
unfolding consolidate_prefix rewrite resolved gathered snapshot_of prune_set get put remove str_dec
    toy read_records parse_frame resync emboss.Log.Scan.push emboss.Log.Scan.mark_tear
    emboss.Log.Frame.unpack emboss.Log.Frame.decode_blob emboss.Log.Record.record_from
    emboss.Log.Record.as_tuple emboss.Log.Frame.write_frames emboss.Log.Index.live
    emboss.Prelude.Sort.sorted_by emboss.Log.Shard.by_name emboss.Log.Consolidate.snapshot_sources
    emboss.Log.Consolidate.identity emboss.Log.Consolidate.collect_live_across_logs
    emboss.Log.Consolidate.note_records emboss.Log.Consolidate.read_source
    emboss.Log.Consolidate.ours emboss.Log.Consolidate.trim_pairs
    emboss.Log.Consolidate.Prune.write_consolidated emboss.Log.Consolidate.Prune.prune_sources
    emboss.Log.Consolidate.Prune.is_prunable emboss.Log.Consolidate.Prune.sweep_shared_spills
    emboss.Log.Consolidate.Prune.sweep_temporaries
    emboss.Log.Consolidate.Prune.sweep_legacy_namespaces
    emboss.Log.Consolidate.Prune.remove_namespace emboss.Log.Consolidate.Prune.is_old
    emboss.Log.Consolidate.Spills.resolve_spills emboss.Log.Consolidate.Spills.resolve_spill
    emboss.Log.Consolidate.Paths.removesuffix emboss.Log.Consolidate.Paths.is_shared_spill
    emboss.Log.Consolidate.Pass.collect_garbage emboss.Log.Consolidate.Pass.kept_spills
    emboss.Log.Consolidate.Pass.keep_sources emboss.Log.Consolidate.Pass.spills_of
rewritten = refl

grown :
    All
      (λ (item : String × (ℕ × ℕ)).
        item.0 ≡ "old.log" → same_identity (identity (log_of (c_frame ++ a_frame))) item.1 ≡ false)
      (snapshot_of appended before).seen
unfolding snapshot_of emboss.Log.Consolidate.snapshot_sources identity same_identity
grown = ((λ e. refl), ((λ e. refl), ((λ e. refl), tt)))

rewrite-changed_example :
    get str_dec "old.log" after_append.sources ≡ some (log_of (c_frame ++ a_frame))
rewrite-changed_example =
    rewrite-changed appended ("old" ∷ []) ("old.log" ∷ []) [] (snapshot_of appended before)
      (gathered appended 4000 before).0 before.sources 4000 2 before after_append "old.log"
      (log_of (c_frame ++ a_frame)) (λ sources. get-put_self str_dec "old.log" _ sources) grown
      rewritten
