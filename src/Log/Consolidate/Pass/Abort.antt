-- ===== src/Log/Consolidate/Pass/Abort.antt =====
-- emboss/_log_cache.py: a consolidation pass and the own log.
use emboss.Prelude.{
  ℕ, ◌≡◌, refl, sym, ap, ◌∙◌, inl, inr, String, Bool, true, ◌||◌, Bool-cases, Option-cases, none,
  some, List, [], ◌∷◌, str_eq, eq_iff, includes, includes-append_left, includes-append_right, arith,
}
use mathlib.Core.Logic.{◌⊎◌, if_pos, if_neg}
use mathlib.Core.Option.{some-injective}
use emboss.Prelude.Dict.{Dict, get, str_dec}
use emboss.Log.Record.{Pickle}
use emboss.Log.Shard.{by_name, insert_log, name_before}
use emboss.Log.Consolidate.{
  Source, identity, snapshot_sources, Kept, read_source, note_records, collect,
  collect_live_across_logs,
}
use emboss.Log.Consolidate.Pass.{Prefix, Setting, target, gathered, snapshot_of, consolidate_prefix}

names : {A : Type 0} → Dict String A → List String
names [] = []
names ((name, x) ∷ d) = name ∷ names d

names-insert_log :
    {A : Type 0} (x : String × A) (d : Dict String A) (name : String)
    → (str_eq name x.0 || includes (names d) name) ≡ true
    → includes (names (insert_log x d)) name ≡ true
unfolding insert_log names
names-insert_log x [] name h = h
names-insert_log x (y ∷ d) name h = elim (Bool-cases (name_before x.0 y.0)) [
  | inl before ↦ rw (before, insert_log) h
  | inr behind ↦ rw (behind, insert_log) (ground (arith, h, names-insert_log x d name))
]

names-by_name :
    {A : Type 0} (d : Dict String A) (name : String)
    → includes (names d) name ≡ true
    → includes (names (by_name d)) name ≡ true
unfolding by_name names
names-by_name [] name h = h
names-by_name (x ∷ d) name h =
    names-insert_log x (by_name d) name (ground (arith, h, names-by_name d name))

-- A log is in the snapshot, or it is among those that `stat` refused.
snapshot_sources-unstat :
    (is_conflict_log : String → Bool) (name : String) (sources : Dict String Source) (src : Source)
    → get str_dec name sources ≡ some src
    → identity src ≡ none
    → includes (snapshot_sources is_conflict_log sources).unstat name ≡ true
unfolding snapshot_sources get
snapshot_sources-unstat is_conflict_log name [] src there h = cc
snapshot_sources-unstat is_conflict_log name ((n, s) ∷ sources) src there h =
    elim (str_dec n name) [
      | yes same ↦
          let it : s ≡ src =
            some-injective _ _
              (rw (if_pos (str_dec n name) same (some s) (get str_dec name sources)) at there) in
          let blind : identity s ≡ none = ap identity it ∙ h in
          let at_head : str_eq name n ≡ true = (eq_iff name n).1 (sym same) in
          rw (snapshot_sources, blind, at_head) refl
      | no other ↦
          let rest =
            snapshot_sources-unstat is_conflict_log name sources src
              (sym (if_neg (str_dec n name) other (some s) (get str_dec name sources)) ∙ there) h in
          elim (Option-cases (identity s)) [
            | inl blind ↦ rw (snapshot_sources, blind) (ground (arith, rest))
            | inr (id, seen) ↦ rw (snapshot_sources, seen) rest
          ]
    ]

names-snapshot_sources :
    (is_conflict_log : String → Bool) (name : String) (sources : Dict String Source) (src : Source)
    (id : ℕ × ℕ)
    → get str_dec name sources ≡ some src
    → identity src ≡ some id
    → includes (names (snapshot_sources is_conflict_log sources).seen) name ≡ true
unfolding snapshot_sources get names
names-snapshot_sources is_conflict_log name [] src id there h = cc
names-snapshot_sources is_conflict_log name ((n, s) ∷ sources) src id there h =
    elim (str_dec n name) [
      | yes same ↦
          let it : s ≡ src =
            some-injective _ _
              (rw (if_pos (str_dec n name) same (some s) (get str_dec name sources)) at there) in
          let seen : identity s ≡ some id = ap identity it ∙ h in
          let at_head : str_eq name n ≡ true = (eq_iff name n).1 (sym same) in
          rw (snapshot_sources, seen, at_head) refl
      | no other ↦
          let rest =
            names-snapshot_sources is_conflict_log name sources src id
              (sym (if_neg (str_dec n name) other (some s) (get str_dec name sources)) ∙ there) h in
          elim (Option-cases (identity s)) [
            | inl blind ↦ rw (snapshot_sources, blind) rest
            | inr (other_id, seen) ↦ rw (snapshot_sources, seen) (ground (arith, rest))
          ]
    ]

collect-unread :
    {V : Type 0} (p : Pickle V) (files : Dict String Source) (name : String)
    (seen : List (String × (ℕ × ℕ))) (latest : Dict String (Kept V))
    → includes (names seen) name ≡ true
    → read_source p (get str_dec name files) ≡ none
    → includes (collect p files seen latest).1 name ≡ true
unfolding collect names
collect-unread p files name [] latest there h = cc
collect-unread p files name ((n, id) ∷ seen) latest there h = elim (Bool-cases (str_eq name n)) [
  | inl same ↦
      let lost : read_source p (get str_dec n files) ≡ none = rw⁻¹ ((eq_iff name n).0 same) h in
      rw (collect, lost, same) refl
  | inr other ↦
      let there_later : includes (names seen) name ≡ true = rw (other) at there in
      elim (Option-cases (read_source p (get str_dec n files))) [
        | inl lost ↦
            rw (collect, lost)
              (ground (arith, collect-unread p files name seen latest there_later h))
        | inr (recs, read) ↦
            rw (collect, read)
              (collect-unread p files name seen (note_records n latest recs) there_later h)
      ]
]

module _ {V : Type 0} (setting : Setting V) where
  -- The log that the pass is to rewrite is one that `stat` or the read refuses.
  abbrev pub IsBlind : Prefix → Source → Type 0
  IsBlind prefix src =
      (identity src ≡ none)
      ⊎ (read_source setting.env.pickle
            (get str_dec (target setting) (setting.before_read prefix.sources))
          ≡ none)

  own_unread :
      (now : ℕ) (prefix : Prefix) (src : Source)
      → get str_dec (target setting) prefix.sources ≡ some src
      → IsBlind prefix src
      → includes (gathered setting now prefix).1 (target setting) ≡ true
  unfolding gathered snapshot_of collect_live_across_logs
  own_unread now prefix src there blind =
      let own = target setting in
      let shot = snapshot_of setting prefix in
      let files = setting.before_read prefix.sources in
      let unreadable = (collect setting.env.pickle files (by_name shot.seen) []).1 in
      elim (Option-cases (identity src)) [
        | inl unstat ↦
            includes-append_right unreadable shot.unstat own
              (snapshot_sources-unstat setting.is_conflict_log own prefix.sources src there unstat)
        | inr (id, seen) ↦ elim blind [
          | inl unstat ↦ absurd (ground (arith, seen, unstat))
          | inr lost ↦ includes-append_left unreadable shot.unstat own (
              collect-unread setting.env.pickle files own (by_name shot.seen) []
                (names-by_name shot.seen own (
                  names-snapshot_sources setting.is_conflict_log own prefix.sources src id there
                    seen))
                lost)
        ]
      ]

  -- If the own log is there but `stat` refuses it, or the read does, then a pass ends with
  -- every file as the other processes left it, and changes only the time of the last pass.
  pub consolidate_prefix-blind :
      (prune : List String) (now mono : ℕ) (prefix : Prefix) (src : Source)
      → get str_dec (target setting) prefix.sources ≡ some src
      → IsBlind prefix src
      → consolidate_prefix setting prune now mono prefix
        ≡ some (record prefix {
          sources = setting.before_read prefix.sources;
          consolidated_at = some mono;
        })
  unfolding consolidate_prefix
  consolidate_prefix-blind prune now mono prefix src there blind =
      rw (consolidate_prefix, own_unread now prefix src there blind) refl
