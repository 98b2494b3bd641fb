-- ===== src/Log/Consolidate/Pass/Pool.antt =====
-- emboss/_log_cache.py: the pool behind a consolidation pass.
use emboss.Prelude.{
  ℕ, ◌≡◌, refl, sym, ap, ◌∙◌, String, true, false, Option, none, some, List, [], ◌∷◌, All, All-map,
  All-zip, includes-append_left, is_some, str_eq, eq_iff, includes, arith,
}
use mathlib.Core.Path.{subst}
use mathlib.Core.Option.{some-injective}
use emboss.Prelude.Dict.{Dict}
use emboss.Log.Record.{Record}
use emboss.Log.Consolidate.{Source, Snapshot, Kept}
use emboss.Log.Consolidate.Adopts.{Backed}
use emboss.Log.Consolidate.Backed.{resolve_spills-Backed}
use emboss.Log.Consolidate.Spared.{get-sweep_shared_spills}
use emboss.Log.Consolidate.Spills.{Disk, Resolved}
use emboss.Log.Consolidate.Pass.{
  Prefix, Setting, target, spillage, prune_set, resolved, collect_garbage, kept_spills, add_spill,
  spills_of, gathered, snapshot_of, consolidate_prefix,
}
use emboss.Log.Consolidate.Pass.Peers.{rewrite_steps}

add_spill-head :
    (spill : Option String) (rels : List String) (rel : String)
    → spill ≡ some rel
    → str_eq rel "" ≡ false
    → includes (add_spill spill rels) rel ≡ true
unfolding add_spill
add_spill-head none rels rel e n = absurd (ground (arith, e))
add_spill-head (some r) rels rel e n =
    let same : r ≡ rel = some-injective _ _ e in
    let path : str_eq r "" ≡ false = subst (λ q. str_eq q "" ≡ false) (sym same) n in
    rw (path, add_spill, (eq_iff rel r).1 (sym same)) refl

add_spill-tail :
    (spill : Option String) (rels : List String) (rel : String)
    → includes rels rel ≡ true
    → includes (add_spill spill rels) rel ≡ true
unfolding add_spill
add_spill-tail none rels rel h = h
add_spill-tail (some r) rels rel h = ground (arith, h)

module _ {V : Type 0} where
  -- The path of the record's spill file is one of the paths.
  abbrev NamedIn : List String → Record V → Type 0
  NamedIn rels rec =
      (rel : String) → rec.spill ≡ some rel → str_eq rel "" ≡ false → includes rels rel ≡ true

  spills_of-NamedIn : (recs : List (Record V)) → All (NamedIn (spills_of recs)) recs
  unfolding spills_of
  spills_of-NamedIn [] = tt
  spills_of-NamedIn (rec ∷ recs) = (
    (λ rel e n. add_spill-head rec.spill (spills_of recs) rel e n),
    All-map (NamedIn (spills_of recs)) _ recs
        (λ r h rel e n. add_spill-tail rec.spill (spills_of recs) rel (h rel e n))
        (spills_of-NamedIn recs),
  )

module _ {V : Type 0} (setting : Setting V) where
  -- The disk as the pass leaves it.
  abbrev pub disk_of : Prefix → Disk
  disk_of prefix = record { pool = prefix.pool; legacy = prefix.legacy }

  collect_garbage-Backed :
      (prune prune_logs unread : List String) (shot : Snapshot) (keep : List (Kept V))
      (res : Resolved V) (written : Dict String Source) (now mono : ℕ) (prefix : Prefix)
      → All (Backed (spillage setting) res.disk) res.consolidated
      → All
          (Backed (spillage setting) (
            disk_of (
              collect_garbage setting prune prune_logs unread shot keep res written now mono
                prefix)))
          res.consolidated
  unfolding collect_garbage kept_spills
  collect_garbage-Backed prune prune_logs unread shot keep res written now mono prefix h =
      let spills = kept_spills setting prune_logs res.consolidated keep in
      All-zip (NamedIn (spills_of res.consolidated)) (Backed (spillage setting) res.disk) _
        res.consolidated
        (λ rec named backed rel e n i.
          ap is_some (
            get-sweep_shared_spills setting.can_unlink now spills unread res.disk.pool rel
              (includes-append_left (spills_of res.consolidated) _ rel (named rel e n)))
          ∙ backed rel e n i)
        (spills_of-NamedIn res.consolidated) h

  -- If a pass reads the own log and succeeds, then every pool file that is named by a record
  -- which the resolution of spill files left is in the pool when the sweeps are over.
  pub consolidate_prefix-Backed :
      (prune : List String) (now mono : ℕ) (prefix after : Prefix)
      → includes (gathered setting now prefix).1 (target setting) ≡ false
      → consolidate_prefix setting prune now mono prefix ≡ some after
      → All
          (Backed (spillage setting) (disk_of after))
          (resolved setting
            (prune_set setting prune (snapshot_of setting prefix))
            (gathered setting now prefix).0
            prefix).consolidated
  unfolding consolidate_prefix resolved
  consolidate_prefix-Backed prune now mono prefix after sees h =
      let shot = snapshot_of setting prefix in
      let pl = prune_set setting prune shot in
      let keep = (gathered setting now prefix).0 in
      let unread = (gathered setting now prefix).1 in
      let (written, done, same) =
        rewrite_steps setting prune pl unread shot keep (setting.before_read prefix.sources) now
          mono prefix (rw (sees, consolidate_prefix) at h) in
      let res = resolved setting pl keep prefix in
      subst (λ (q : Prefix). All (Backed (spillage setting) (disk_of q)) res.consolidated) same
        (collect_garbage-Backed prune pl unread shot keep res written now mono prefix (
          resolve_spills-Backed (spillage setting)
            (record { pool = prefix.pool; legacy = prefix.legacy }) _))
