-- ===== src/Log/Consolidate/Pass/Winners.antt =====
-- emboss/_log_cache.py: the own log and the pool behind a consolidation pass.
use emboss.Prelude.{
  ℕ, ◌≡◌, refl, sym, ap, ◌∙◌, String, true, false, ◌||◌, Option, none, some, List, [], ◌∷◌, All,
  All-map, keep_if-All, str_eq, eq_refl, includes,
}
use mathlib.Core.Path.{subst}
use mathlib.Core.List.{Mem, mem-cons_self, mem-cons_of_mem}
use emboss.Prelude.Dict.{Dict, get, str_dec}
use emboss.Prelude.Sort.{All-sorted_by}
use emboss.Log.Record.{Record, IsPickle}
use emboss.Log.Frame.Laws.{Carried}
use emboss.Log.Compact.{rec_size}
use emboss.Log.Compact.Rewrite.{read_records-Carried}
use emboss.Log.Consolidate.{Source, Kept, ours, trim_pairs}
use emboss.Log.Consolidate.Spills.{repointed}
use emboss.Log.Consolidate.Resolves.{resolve_spills-All, All-resolve_spills}
use emboss.Log.Consolidate.Prune.{is_prunable}
use emboss.Log.Consolidate.Spared.{Unprunable}
use emboss.Log.Consolidate.Pass.{
  Prefix, Setting, target, spillage, prune_set, resolved, keep_sources, spill_size, gathered,
  snapshot_of, consolidate_prefix,
}
use emboss.Log.Consolidate.Pass.Carried.{collect_live-All, ours-All}
use emboss.Log.Consolidate.Pass.Peers.{rewrite_steps, sources-collect_garbage}
use emboss.Log.Consolidate.Pass.Stored.{Stored, HeldIn, Stored-HeldIn, write_consolidated-Stored}

All-Mem : {A : Type 0} (xs : List A) → All (λ x. Mem x xs) xs
All-Mem [] = tt
All-Mem (x ∷ xs) = (
  mem-cons_self,
  All-map (λ y. Mem y xs) (λ y. Mem y (x ∷ xs)) xs (λ y m. mem-cons_of_mem x m) (All-Mem xs),
)

own-Unprunable :
    (own : String) (keep prune_logs : List String) (now : Option Source)
    (seen : Dict String (ℕ × ℕ))
    → Unprunable own keep prune_logs now own seen
unfolding is_prunable
own-Unprunable own keep prune_logs now [] = tt
own-Unprunable own keep prune_logs now (item ∷ seen) =
    ((λ e. rw (eq_refl own) refl), own-Unprunable own keep prune_logs now seen)

module _ {V : Type 0} (setting : Setting V) where
  resolved-Carried :
      (prune_logs : List String) (now : ℕ) (prefix : Prefix)
      → All
          (Carried setting.env.pickle)
          (resolved setting prune_logs (gathered setting now prefix).0 prefix).consolidated
  unfolding resolved gathered repointed
  resolved-Carried prune_logs now prefix =
      let P = Carried setting.env.pickle in
      let found_all =
        collect_live-All P setting.env.pickle
          (λ log res read. read_records-Carried setting.env.pickle log read)
          (setting.before_read prefix.sources) (snapshot_of setting prefix).seen now in
      resolve_spills-All (spillage setting) P _ _ (λ rec rel c. tt)
        (ours-All P (rec_size setting.env (spill_size prefix)) setting.size_limit (target setting)
          prune_logs _ found_all)

  abbrev prune_logs_of : List String → Prefix → List String
  prune_logs_of prune prefix = prune_set setting prune (snapshot_of setting prefix)

  abbrev winners : ℕ → Prefix → List (Kept V)
  winners now prefix = (gathered setting now prefix).0

  -- Under the laws of pickle, with or without a size limit, let a pass read the own log, let
  -- no other process write the own log behind the rewrite, and let the pass succeed. The own
  -- log then scans, without a tear, to exactly the records that the resolution of spill files
  -- left, in their order, and it is gone if there are none.
  pub consolidate_prefix-Stored :
      (prune : List String) (now mono : ℕ) (prefix after : Prefix)
      → IsPickle setting.env.pickle
      → includes (gathered setting now prefix).1 (target setting) ≡ false
      → ((sources : Dict String Source)
          → get str_dec (target setting) (setting.before_prune sources)
            ≡ get str_dec (target setting) sources)
      → consolidate_prefix setting prune now mono prefix ≡ some after
      → Stored setting.env.pickle
          (get str_dec (target setting) after.sources)
          (resolved setting (prune_logs_of prune prefix) (winners now prefix) prefix).consolidated
  unfolding consolidate_prefix
  consolidate_prefix-Stored prune now mono prefix after laws sees calm h =
      let shot = snapshot_of setting prefix in
      let pl = prune_logs_of prune prefix in
      let keep = winners now prefix in
      let unread = (gathered setting now prefix).1 in
      let own = target setting in
      let (written, done, same) =
        rewrite_steps setting prune pl unread shot keep (setting.before_read prefix.sources) now
          mono prefix (rw (sees, consolidate_prefix) at h) in
      let res = resolved setting pl keep prefix in
      let guard = own-Unprunable own (keep_sources setting unread shot res) pl _ shot.seen in
      let there : get str_dec own after.sources ≡ get str_dec own written =
        ap (λ (q : Prefix). get str_dec own q.sources) (sym same)
        ∙ (sources-collect_garbage setting prune pl unread shot keep res written now mono prefix own
              guard
            ∙ calm written) in
      subst (λ o. Stored setting.env.pickle o res.consolidated) (sym there)
        (write_consolidated-Stored setting.env.pickle laws own setting.written_at res.consolidated
          (setting.before_read prefix.sources) (resolved-Carried pl now prefix) done)

  Mem-resolved :
      (prune_logs : List String) (keep : List (Kept V)) (prefix : Prefix)
      → setting.size_limit ≡ none
      → All
          (λ (pair : Kept V).
            (str_eq pair.1 (target setting) || includes prune_logs pair.1) ≡ true
            → pair.0.spill ≡ none
            → Mem pair.0 (resolved setting prune_logs keep prefix).consolidated)
          keep
  unfolding resolved ours trim_pairs
  Mem-resolved prune_logs keep prefix unlimited =
      let sizes = rec_size setting.env (spill_size prefix) in
      let own = target setting in
      let recs = (resolved setting prune_logs keep prefix).consolidated in
      let P : Record V → Type 0 = λ rec. Mem rec recs in
      let Q : Kept V → Type 0 = λ pair. pair.0.spill ≡ none → P pair.0 in
      let each : All Q (ours sizes setting.size_limit own prune_logs keep) =
        All-resolve_spills (spillage setting) P
          (record { pool = prefix.pool; legacy = prefix.legacy })
          (ours sizes setting.size_limit own prune_logs keep) (All-Mem recs) in
      let untrimmed : All Q (ours sizes none own prune_logs keep) =
        subst (λ limit. All Q (ours sizes limit own prune_logs keep)) unlimited each in
      keep_if-All Q (λ (pair : Kept V). str_eq pair.1 own || includes prune_logs pair.1) keep
        (All-sorted_by (λ (pair : Kept V). pair.0.store_time) Q _ untrimmed)

  -- A pass loses no live record that it folds. Under the laws of pickle and without a size
  -- limit, let a pass read the own log, let no other process write the own log behind the
  -- rewrite, and let the pass succeed. Of every live winner over the logs that were read, if
  -- the winner is in the own log or in a log that is to be pruned, and if it has no spill
  -- file, the own log afterwards has it in its scan.
  pub consolidate_prefix-HeldIn :
      (prune : List String) (now mono : ℕ) (prefix after : Prefix)
      → IsPickle setting.env.pickle
      → setting.size_limit ≡ none
      → includes (gathered setting now prefix).1 (target setting) ≡ false
      → ((sources : Dict String Source)
          → get str_dec (target setting) (setting.before_prune sources)
            ≡ get str_dec (target setting) sources)
      → consolidate_prefix setting prune now mono prefix ≡ some after
      → All
          (λ (pair : Kept V).
            (str_eq pair.1 (target setting) || includes (prune_logs_of prune prefix) pair.1) ≡ true
            → pair.0.spill ≡ none
            → HeldIn setting.env.pickle (get str_dec (target setting) after.sources) pair.0)
          (winners now prefix)
  consolidate_prefix-HeldIn prune now mono prefix after laws unlimited sees calm h =
      let pl = prune_logs_of prune prefix in
      let keep = winners now prefix in
      let recs = (resolved setting pl keep prefix).consolidated in
      let log = get str_dec (target setting) after.sources in
      let stored : Stored setting.env.pickle log recs =
        consolidate_prefix-Stored prune now mono prefix after laws sees calm h in
      All-map _ _ keep
        (λ pair held eligible inline.
          Stored-HeldIn setting.env.pickle log recs pair.0 stored (held eligible inline))
        (Mem-resolved pl keep prefix unlimited)
