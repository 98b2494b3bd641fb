-- ===== src/Log/Consolidate/Prune.antt =====
-- emboss/_log_cache.py: `_write_consolidated`, `_prune_consolidated_sources`,
-- `_sweep_shared_spills`, `_sweep_legacy_namespaces` and `_spill_delete`. Lock files are left out.
use emboss.Prelude.{
  ℕ, ◌-◌, String, Bool, true, false, not, ◌&&◌, ◌||◌, Option, none, some, List, [], ◌∷◌, length,
  keep_if, leb, ◌==◌, str_eq, includes, if◌then◌else◌,
}
use Prim.Native.String.{◌++◌}
use text.Mathlib.Text.{starts_with}
use emboss.Prelude.Dict.{Dict, get, put, remove, str_dec}
use emboss.Log.Record.{Record, Pickle}
use emboss.Log.Frame.{write_frames}
use emboss.Log.Shard.{readable}
use emboss.Log.Consolidate.{Source, identity}
use emboss.Log.Consolidate.Paths.{removesuffix}
use emboss.Log.Consolidate.Spills.{Stat, fault, stat_of, LegacyFile}

-- `_write_consolidated`; `none` is a frame that cannot be packed.
unfoldable pub write_consolidated :
    {V : Type 0}
    → Pickle V
    → String
    → ℕ
    → List (Record V)
    → Dict String Source
    → Option (Dict String Source)
write_consolidated p target mtime [] sources = some (remove str_dec target sources)
write_consolidated p target mtime (rec ∷ recs) sources = elim (write_frames p (rec ∷ recs)) [
  | none ↦ none
  | some out ↦
      some (
        put str_dec target (record { file = readable out; mtime = mtime; statable = true }) sources)
]

unfoldable pub same_identity : Option (ℕ × ℕ) → ℕ × ℕ → Bool
same_identity none id = false
same_identity (some now) id = now.0 == id.0 && now.1 == id.1

-- Where no `continue` of the loop is taken, `now` being the file at its second `stat`.
unfoldable pub is_prunable :
    String → List String → List String → Option Source → String → ℕ × ℕ → Bool
unfolding same_identity identity
is_prunable target keep_sources prune_logs now name id =
    if str_eq name target || includes keep_sources name || not (includes prune_logs name)
    then false
    else elim now [ none ↦ false | some src ↦ same_identity (identity src) id ]

unfoldable pub prune_sources :
    String
    → List String
    → List String
    → Dict String (ℕ × ℕ)
    → Dict String Source
    → Dict String Source × List String
unfolding is_prunable
prune_sources target keep_sources prune_logs [] sources = (sources, [])
prune_sources target keep_sources prune_logs ((name, id) ∷ seen) sources =
    let gone = is_prunable target keep_sources prune_logs (get str_dec name sources) name id in
    let (left, pruned) =
      prune_sources target keep_sources prune_logs seen
        (if gone then remove str_dec name sources else sources) in
    (left, if gone then removesuffix name ".log" ∷ pruned else pruned)

-- `_SHARED_SPILL_GRACE_S`
abbrev pub grace : ℕ
grace = 3600

-- Past the grace window; false where `stat` raises.
unfoldable pub is_old : ℕ → Stat → Bool
is_old now fault = false
is_old now (stat_of size time) = leb grace (now - time)

in_namespace : String → String → Bool
in_namespace dir rel = starts_with rel (dir ++ "/")

-- `can_unlink` tells of a path whether `unlink` does not raise.
module _ (can_unlink : String → Bool) (now : ℕ) where
  unfoldable pub swept : List String → String × Stat → Bool
  unfolding is_old
  swept kept_spills (rel, stat) =
      not (includes kept_spills rel) && is_old now stat && can_unlink rel

  -- The `*.val` files of the pool; the temporary ones, which no record names, are apart.
  unfoldable pub sweep_shared_spills :
      List String → List String → Dict String Stat → Dict String Stat
  unfolding swept
  sweep_shared_spills kept_spills [] pool = keep_if (λ file. not (swept kept_spills file)) pool
  sweep_shared_spills kept_spills (name ∷ unread) pool = pool

  unfoldable pub sweep_temporaries : Dict String Stat → Dict String Stat
  unfolding swept
  sweep_temporaries temporaries = keep_if (λ file. not (swept [] file)) temporaries

  goes : List String → String → String × LegacyFile → Bool
  unfolding swept in_namespace
  goes kept_spills dir (rel, file) = in_namespace dir rel && swept kept_spills (rel, file.stat)

  -- One namespace, by the path of its directory: its files, and whether the directory stays.
  unfoldable pub sweep_namespace :
      List String → String → Stat → Dict String LegacyFile → Dict String LegacyFile × Bool
  unfolding goes
  sweep_namespace kept_spills dir fault files = (files, true)
  sweep_namespace kept_spills dir (stat_of size time) files =
      let left = keep_if (λ file. not (goes kept_spills dir file)) files in
      let remaining =
        length (keep_if (λ (file : String × LegacyFile). in_namespace dir file.0) left) in
      (left, not (remaining == 0 && is_old now (stat_of size time) && can_unlink dir))

  -- The namespaces of the writers in scope whose adoptions did not fail.
  unfoldable pub sweep_legacy_from :
      String
      → List String
      → List String
      → List String
      → Dict String Stat
      → Dict String LegacyFile
      → Dict String Stat × Dict String LegacyFile
  unfolding sweep_namespace
  sweep_legacy_from prefix kept_spills failed_adoptions in_scope [] files = ([], files)
  sweep_legacy_from prefix kept_spills failed_adoptions in_scope ((name, stat) ∷ dirs) files =
      let owner = removesuffix name ".spill" in
      let in_turn = includes in_scope owner && not (includes failed_adoptions owner) in
      let (left, stays) =
        if in_turn
        then sweep_namespace kept_spills (prefix ++ "/" ++ name) stat files
        else (files, true) in
      let (rest, last) = sweep_legacy_from prefix kept_spills failed_adoptions in_scope dirs left in
      (if stays then (name, stat) ∷ rest else rest, last)

  unfoldable pub sweep_legacy_namespaces :
      String
      → List String
      → List String
      → List String
      → List String
      → Dict String Stat
      → Dict String LegacyFile
      → Dict String Stat × Dict String LegacyFile
  unfolding sweep_legacy_from
  sweep_legacy_namespaces prefix kept_spills failed_adoptions in_scope [] dirs files =
      sweep_legacy_from prefix kept_spills failed_adoptions in_scope dirs files
  sweep_legacy_namespaces prefix kept_spills failed_adoptions in_scope (name ∷ unread) dirs files =
      (dirs, files)

module _ (can_unlink : String → Bool) where
  -- `shutil.rmtree(..., ignore_errors=True)` of a namespace
  unfoldable pub remove_namespace :
      String
      → String
      → Dict String Stat × Dict String LegacyFile
      → Dict String Stat × Dict String LegacyFile
  unfolding in_namespace
  remove_namespace prefix name (dirs, files) =
      let dir = prefix ++ "/" ++ name in
      let left =
        keep_if (λ (file : String × LegacyFile). not (in_namespace dir file.0 && can_unlink file.0))
          files in
      let remaining =
        length (keep_if (λ (file : String × LegacyFile). in_namespace dir file.0) left) in
      (if remaining == 0 && can_unlink dir then remove str_dec name dirs else dirs, left)
