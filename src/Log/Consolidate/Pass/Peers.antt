-- ===== src/Log/Consolidate/Pass/Peers.antt =====
-- emboss/_log_cache.py: the logs of other writers in a consolidation pass.
use emboss.Prelude.{
  ℕ, ◌≡◌, ◌≢◌, sym, ap, ◌∙◌, inl, inr, String, false, Bool-cases, Option-cases, Option, some, List,
  [], ◌∷◌, All, includes, arith,
}
use mathlib.Core.Option.{some-injective}
use emboss.Prelude.Dict.{Dict, get, str_dec}
use emboss.Log.Record.{Record, Pickle}
use emboss.Log.Frame.{write_frames}
use emboss.Log.Consolidate.{Source, identity, Snapshot, Kept}
use emboss.Log.Consolidate.Spills.{Resolved}
use emboss.Log.Consolidate.Prune.{write_consolidated, is_prunable, same_identity}
use emboss.Log.Consolidate.Spared.{Unprunable, get-prune_sources, get-put_other, get-remove_other}
use emboss.Log.Consolidate.Pass.{
  Prefix, Setting, target, prune_set, rewrite, resolved, collect_garbage, keep_sources, gathered,
  snapshot_of, consolidate_prefix,
}

get-write_consolidated :
    {V : Type 0} (p : Pickle V) (own : String) (mtime : ℕ) (recs : List (Record V))
    (sources : Dict String Source) {written : Dict String Source} (name : String)
    → name ≢ own
    → write_consolidated p own mtime recs sources ≡ some written
    → get str_dec name written ≡ get str_dec name sources
unfolding write_consolidated
get-write_consolidated p own mtime [] sources name ne h =
    ap (get str_dec name) (sym (some-injective _ _ h)) ∙ get-remove_other name own sources ne
get-write_consolidated p own mtime (rec ∷ recs) sources name ne h =
    elim (Option-cases (write_frames p (rec ∷ recs))) [
      | inl over ↦ absurd (ground (arith, over, h))
      | inr (out, packed) ↦
          ap (get str_dec name) (sym (some-injective _ _ (rw (packed, write_consolidated) at h)))
          ∙ get-put_other name own _ sources ne
    ]

outside-Unprunable :
    (own : String) (keep prune_logs : List String) (now : Option Source) (name : String)
    (seen : Dict String (ℕ × ℕ))
    → includes prune_logs name ≡ false
    → Unprunable own keep prune_logs now name seen
unfolding is_prunable
outside-Unprunable own keep prune_logs now name [] h = tt
outside-Unprunable own keep prune_logs now name (item ∷ seen) h =
    ((λ e. rw h (ground arith)), outside-Unprunable own keep prune_logs now name seen h)

changed-Unprunable :
    (own : String) (keep prune_logs : List String) (src : Source) (name : String)
    (seen : Dict String (ℕ × ℕ))
    → All
        (λ (item : String × (ℕ × ℕ)). item.0 ≡ name → same_identity (identity src) item.1 ≡ false)
        seen
    → Unprunable own keep prune_logs (some src) name seen
unfolding is_prunable
changed-Unprunable own keep prune_logs src name [] h = tt
changed-Unprunable own keep prune_logs src name (item ∷ seen) h =
    ((λ e. rw (h.0 e) (ground arith)), changed-Unprunable own keep prune_logs src name seen h.1)

module _ {V : Type 0} (setting : Setting V) where
  pub rewrite_steps :
      (prune prune_logs unread : List String) (shot : Snapshot) (keep : List (Kept V))
      (files : Dict String Source) (now mono : ℕ) (prefix : Prefix) {after : Prefix}
      → rewrite setting prune prune_logs unread shot keep files now mono prefix ≡ some after
      → (written : Dict String Source) × (write_consolidated setting.env.pickle
            (target setting)
            setting.written_at
            (resolved setting prune_logs keep prefix).consolidated
            files
          ≡ some written)
        × (collect_garbage setting prune prune_logs unread shot keep
              (resolved setting prune_logs keep prefix)
              written
              now
              mono
              prefix
            ≡ after)
  unfolding rewrite
  rewrite_steps prune prune_logs unread shot keep files now mono prefix h =
      elim (Option-cases (
        write_consolidated setting.env.pickle (target setting) setting.written_at
          (resolved setting prune_logs keep prefix).consolidated files)) [
            | inl over ↦ absurd (ground (arith, over, h))
            | inr (written, done) ↦ (written, done, some-injective _ _ (rw (done, rewrite) at h))
          ]

  pub sources-collect_garbage :
      (prune prune_logs unread : List String) (shot : Snapshot) (keep : List (Kept V))
      (res : Resolved V) (written : Dict String Source) (now mono : ℕ) (prefix : Prefix)
      (name : String)
      → Unprunable
          (target setting)
          (keep_sources setting unread shot res)
          prune_logs
          (get str_dec name (setting.before_prune written))
          name
          shot.seen
      → get str_dec name
          (collect_garbage setting prune prune_logs unread shot keep res written now mono
            prefix).sources
        ≡ get str_dec name (setting.before_prune written)
  unfolding collect_garbage
  sources-collect_garbage prune prune_logs unread shot keep res written now mono prefix name h =
      get-prune_sources (target setting) (keep_sources setting unread shot res) prune_logs name
        shot.seen (setting.before_prune written) h

  -- If another process has left a log with a size or time that differs from the snapshot,
  -- whenever the second `stat` comes, then the part of a pass behind the reads, if it
  -- succeeds, leaves the log as that process left it, also a log that is to be pruned.
  pub rewrite-changed :
      (prune prune_logs unread : List String) (shot : Snapshot) (keep : List (Kept V))
      (files : Dict String Source) (now mono : ℕ) (prefix after : Prefix) (name : String)
      (src : Source)
      → ((sources : Dict String Source)
          → get str_dec name (setting.before_prune sources) ≡ some src)
      → All
          (λ (item : String × (ℕ × ℕ)). item.0 ≡ name → same_identity (identity src) item.1 ≡ false)
          shot.seen
      → rewrite setting prune prune_logs unread shot keep files now mono prefix ≡ some after
      → get str_dec name after.sources ≡ some src
  rewrite-changed prune prune_logs unread shot keep files now mono prefix after name src late
        differs h =
      let (written, done, same) =
        rewrite_steps prune prune_logs unread shot keep files now mono prefix h in
      let res = resolved setting prune_logs keep prefix in
      let guard =
        changed-Unprunable (target setting) (keep_sources setting unread shot res) prune_logs src
          name shot.seen differs in
      ap (λ (p : Prefix). get str_dec name p.sources) (sym same)
      ∙ (sources-collect_garbage prune prune_logs unread shot keep res written now mono prefix name
            (rw (late written) guard)
          ∙ late written)

  -- If a pass succeeds, a log that is neither the own one nor to be pruned, and that other
  -- processes leave alone meanwhile, is as it was before the pass.
  pub consolidate_prefix-peer :
      (prune : List String) (now mono : ℕ) (prefix after : Prefix) (name : String)
      → name ≢ target setting
      → includes (prune_set setting prune (snapshot_of setting prefix)) name ≡ false
      → ((sources : Dict String Source)
          → get str_dec name (setting.before_read sources) ≡ get str_dec name sources)
      → ((sources : Dict String Source)
          → get str_dec name (setting.before_prune sources) ≡ get str_dec name sources)
      → consolidate_prefix setting prune now mono prefix ≡ some after
      → get str_dec name after.sources ≡ get str_dec name prefix.sources
  unfolding consolidate_prefix
  consolidate_prefix-peer prune now mono prefix after name other outside calm calm_late h =
      let shot = snapshot_of setting prefix in
      let pl = prune_set setting prune shot in
      let keep = (gathered setting now prefix).0 in
      let unread = (gathered setting now prefix).1 in
      let files = setting.before_read prefix.sources in
      elim (Bool-cases (includes unread (target setting))) [
        | inl blind ↦
            ap (λ (p : Prefix). get str_dec name p.sources)
              (sym (some-injective _ _ (rw (blind, consolidate_prefix) at h)))
            ∙ calm prefix.sources
        | inr sees ↦
            let (written, done, same) =
              rewrite_steps prune pl unread shot keep files now mono prefix
                (rw (sees, consolidate_prefix) at h) in
            let res = resolved setting pl keep prefix in
            let guard =
              outside-Unprunable (target setting) (keep_sources setting unread shot res) pl _ name
                shot.seen outside in
            ap (λ (p : Prefix). get str_dec name p.sources) (sym same)
            ∙ (sources-collect_garbage prune pl unread shot keep res written now mono prefix name
                  guard
                ∙ (calm_late written
                    ∙ (get-write_consolidated setting.env.pickle (target setting) setting.written_at
                          res.consolidated files name other done
                        ∙ calm prefix.sources)))
      ]
