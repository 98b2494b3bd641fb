-- ===== src/Log/Consolidate/Trigger.antt =====
-- emboss/_log_cache.py: the whole of `LogCache.set` in one prefix: its append and what the append may
-- set off, a compaction of the own log or a consolidation pass. The spill file of a large value, if
-- there is one, is in the pool already. Every log answers `stat`, as in Shard, and the log that an
-- append or a compaction writes gets the time `written_at`.
use emboss.Prelude.{
  ℕ, ◌-◌, ◌<◌, ◌≤◌, ◌≡◌, refl, sym, ap, String, Bool, true, false, not, ◌&&◌, ◌||◌, Option, none,
  some, List, [], ◌∷◌, length, keep_if, ltb, leb, str_eq, is_some, if◌then◌else◌, arith,
}
use mathlib.Core.Path.{subst}
use emboss.Prelude.Dict.{Dict, get, str_dec}
use emboss.Log.Record.{Bytes, Py, IsPickle}
use emboss.Log.Index.{live}
use emboss.Log.Shard.{
  LogFile, Shard, found, current_sig, sig_matches, last_check, set_record, serve_record, set_append,
  get_value,
}
use emboss.Log.Shard.OwnWrites.{own_bytes, get_value-set_append}
use emboss.Log.Compact.{compact_prefix}
use emboss.Log.Consolidate.{Source}
use emboss.Log.Consolidate.Paths.{with_suffix}
use emboss.Log.Consolidate.Pass.{Prefix, Setting, spill_size, target, writer_id, consolidate_prefix}

unfoldable pub files : Dict String Source → Dict String LogFile
files [] = []
files ((name, src) ∷ sources) = (name, src.file) ∷ files sources

-- A prefix as the reads and the appends see it.
unfoldable pub shard_of : Prefix → Shard
shard_of prefix = record {
  logs = files prefix.sources;
  index = prefix.index;
  sig = prefix.sig;
  checked = prefix.checked;
}

old_time : Option Source → ℕ → ℕ
old_time none time = time
old_time (some src) time = src.mtime

-- The logs after a write to the own one.
unfoldable pub stamped : String → ℕ → Dict String Source → Dict String LogFile → Dict String Source
unfolding old_time
stamped own time old [] = []
stamped own time old ((name, file) ∷ logs) =
    (
      name,
      record {
        file = file;
        mtime = if str_eq name own then time else old_time (get str_dec name old) time;
        statable = true;
      },
    )
    ∷ stamped own time old logs

canonical_logs : (String → Bool) → Option (List (String × ℕ)) → ℕ
canonical_logs is_conflict_log none = 0
canonical_logs is_conflict_log (some sig) =
    length (keep_if (λ item. not (is_conflict_log item.0)) sig)

unfoldable pub cooled_down : ℕ → Option ℕ → ℕ → Bool
cooled_down cooldown none mono = true
cooled_down cooldown (some last_pass) mono = ltb cooldown (mono - last_pass)

module _ {V : Type 0} (setting : Setting V) where
  -- The prefix with what a write has made of its logs and of the index.
  unfoldable pub with_shard : Shard → Prefix → Prefix
  unfolding stamped
  with_shard shard prefix = record prefix {
    sources = stamped (target setting) setting.written_at prefix.sources shard.logs;
    index = shard.index;
    sig = shard.sig;
    checked = shard.checked;
  }

  -- Whether `_ensure_index` builds the index anew.
  unfoldable pub rebuilds : Shard → ℕ → Bool
  rebuilds shard mono = elim shard.index [
    | none ↦ true
    | some index ↦
        not (
          ltb 0 setting.env.index_ttl
          && ltb (mono - last_check shard.checked) setting.env.index_ttl)
        && not (sig_matches shard.sig (current_sig shard.logs))
  ]

  -- `prefix in self._needs_migration`: a build arms it if the own legacy directory is there.
  unfoldable pub flagged : Prefix → ℕ → Bool
  unfolding shard_of rebuilds
  flagged prefix mono =
      prefix.needs_migration
      || (rebuilds (shard_of prefix) mono
          && is_some (get str_dec (with_suffix ".spill" (writer_id setting)) prefix.namespaces))

  unfoldable pub compact : ℕ → Prefix → Option Prefix
  unfolding shard_of with_shard
  compact now prefix =
      elim (compact_prefix setting.env (spill_size prefix) setting.size_limit (shard_of prefix)
        now) [ none ↦ none | some shard ↦ some (with_shard shard prefix) ]

  -- What `set` does behind its append, which left a log of `log_size` bytes.
  unfoldable pub set_off : ℕ → ℕ → ℕ → ℕ → ℕ → Prefix → Option Prefix
  unfolding canonical_logs cooled_down compact
  set_off max_log_bytes cooldown log_size mono now prefix =
      let cooled = cooled_down cooldown prefix.consolidated_at mono in
      if ltb max_log_bytes log_size
      then (if leb (canonical_logs setting.is_conflict_log prefix.sig) 1 && cooled
          then consolidate_prefix setting [] now mono prefix
          else compact now prefix)
      else if prefix.needs_migration && cooled
      then consolidate_prefix setting [] now mono prefix
      else some prefix

  -- `set`: `mono` and `now` when it begins, `mono'` and `now'` behind the append; `none` is a frame
  -- that cannot be packed, or an own log that a compaction cannot read.
  unfoldable pub set :
      ℕ → ℕ → Prefix → String → Py V → Option ℕ → ℕ → ℕ → Option String → ℕ → ℕ → Option Prefix
  unfolding shard_of with_shard flagged set_off
  set max_log_bytes cooldown prefix key value expire mono now spill mono' now' =
      elim (set_append setting.env (shard_of prefix) key value expire mono now spill) [
        | none ↦ none
        | some (shard, size) ↦
            set_off max_log_bytes cooldown size mono' now'
              (with_shard shard (record prefix { needs_migration = flagged prefix mono }))
      ]

files-stamped :
    (own : String) (time : ℕ) (old : Dict String Source) (logs : Dict String LogFile)
    → files (stamped own time old logs) ≡ logs
unfolding files stamped
files-stamped own time old [] = refl
files-stamped own time old ((name, file) ∷ logs) =
    ap (λ rest. (name, file) ∷ rest) (files-stamped own time old logs)

module _ {V : Type 0} (setting : Setting V) where
  shard_of-with_shard :
      (shard : Shard) (prefix : Prefix) → shard_of (with_shard setting shard prefix) ≡ shard
  unfolding shard_of with_shard
  shard_of-with_shard shard prefix =
      ap (λ (logs : Dict String LogFile). record shard { logs = logs })
        (files-stamped (target setting) setting.written_at prefix.sources shard.logs)

  set_off-quiet :
      (max_log_bytes cooldown size mono now : ℕ) (prefix : Prefix)
      → size ≤ max_log_bytes
      → (prefix.needs_migration && cooled_down cooldown prefix.consolidated_at mono) ≡ false
      → set_off setting max_log_bytes cooldown size mono now prefix ≡ some prefix
  unfolding set_off
  set_off-quiet max_log_bytes cooldown size mono now prefix small quiet =
      let within : ltb max_log_bytes size ≡ false = ground (arith, small) in
      rw (set_off, within, quiet) refl

  -- Under the laws of pickle, from any state of a prefix whose own log is absent or readable:
  -- if the append of `set` leaves the own log within `max_log_bytes`, and no migration is
  -- both pending and past the cooldown, then `set` succeeds, and a `get` of the key, while
  -- the record is live, less than `index_ttl` after the last check of the index and with the
  -- spill file of the record (if it has one) holding the value, returns the value and leaves
  -- the state as it is. Of a `set` that sets off a compaction or a pass nothing is said.
  pub get_value-set_quiet :
      (max_log_bytes cooldown : ℕ) (prefix : Prefix) (key : String) (value : Py V)
      (expire : Option ℕ) (mono now : ℕ) (spill : Option String) (mono' now' later time : ℕ)
      (shard : Shard) (size : ℕ) (old : Bytes)
      → IsPickle setting.env.pickle
      → own_bytes (get str_dec setting.env.log_name (files prefix.sources)) ≡ some old
      → set_append setting.env (shard_of prefix) key value expire mono now spill
        ≡ some (shard, size)
      → size ≤ max_log_bytes
      → (flagged setting prefix mono && cooled_down cooldown prefix.consolidated_at mono') ≡ false
      → live (set_record {V = V} key value expire now spill) time ≡ true
      → serve_record setting.env (set_record key value expire now spill) ≡ found value
      → 0 < setting.env.index_ttl
      → later - last_check shard.checked < setting.env.index_ttl
      → (after : Prefix) × (set setting max_log_bytes cooldown prefix key value expire mono now
            spill mono' now'
          ≡ some after)
        × (get_value setting.env (shard_of after) key later time ≡ (shard_of after, some value))
  unfolding shard_of with_shard set flagged
  get_value-set_quiet max_log_bytes cooldown prefix key value expire mono now spill mono' now' later
        time shard size old laws own done small quiet alive served ttl soon =
      let armed : Prefix = record prefix { needs_migration = flagged setting prefix mono } in
      let after = with_shard setting shard armed in
      let same = shard_of-with_shard shard armed in
      let answer =
        get_value-set_append setting.env (shard_of prefix) key value expire mono now spill shard
          size later time old laws own done alive served ttl soon in
      (
        after,
        rw (set, done) (set_off-quiet max_log_bytes cooldown size mono' now' after small quiet),
        subst (λ s. get_value setting.env s key later time ≡ (s, some value)) (sym same) answer,
      )
