-- ===== src/Log/Consolidate/Spills.antt =====
-- emboss/_log_cache.py: `_pool_adopt`, `_resolve_spills` and `_defer_failed_adoption`.
-- The shared pool and the legacy files of a prefix are dicts by path; messages are left out.
use emboss.Prelude.{
  ℕ, String, Bool, false, Option, none, some, List, [], ◌∷◌, ◌++◌, length, ◌==◌, str_eq,
  if◌then◌else◌,
}
use emboss.Prelude.Dict.{Dict, get, put, str_dec}
use emboss.Log.Record.{Bytes, null, plain, Record}
use emboss.Log.Consolidate.{Kept}
use emboss.Log.Consolidate.Paths.{ends_with, removesuffix, is_shared_spill, pool_path, namespace_of}

-- What `stat` says of a file that is there: an error, or its size and the later of its two times.
pub data Stat : Type 0 where
  fault : Stat
  stat_of : ℕ → ℕ → Stat

-- `content` is `none` where reading raises.
pub record LegacyFile : Type 0 where
  pub content : Option Bytes
  pub stat : Stat

-- How linking or else copying a legacy file to its temporary name ends.
pub data Copied : Type 0 where
  copied vanished raised : Copied

pub data Adopted : Type 0 where
  adopted : String → Adopted
  gone failed : Adopted

pub record Disk : Type 0 where
  pub pool : Dict String Stat
  pub legacy : Dict String LegacyFile

-- What the pass relies on: the content hash, the copies of legacy files, the clock at a write.
pub record Spillage : Type 0 where
  pub prefix : String
  pub target : String
  pub sha256 : Bytes → String
  pub copy_of : String → Copied
  pub written_at : ℕ

-- `_resolve_spills` so far.
pub record Resolved (V : Type 0) : Type 0 where
  pub disk : Disk
  pub consolidated : List (Record V)
  pub failed_adoptions : List String
  pub absent_sources : List String

unfoldable pub is_size : Option Stat → ℕ → Bool
is_size (some (stat_of size time)) n = size == n
is_size _ n = false

module _ (env : Spillage) where
  unfoldable pub copy_in : Copied → String → ℕ → Disk → Disk × Adopted
  copy_in copied rel size disk =
      (record disk { pool = put str_dec rel (stat_of size env.written_at) disk.pool }, adopted rel)
  copy_in vanished rel size disk = (disk, gone)
  copy_in raised rel size disk = (disk, failed)

  -- A legacy file whose bytes are read; an existing pool file is trusted if its size fits.
  unfoldable pub pool_adopt : String → Disk → Disk × Adopted
  unfolding is_size copy_in pool_path
  pool_adopt legacy_rel disk = elim (get str_dec legacy_rel disk.legacy) [
    | none ↦ (disk, gone)
    | some file ↦ elim file.content [
      | none ↦ (disk, failed)
      | some bytes ↦
          let rel = pool_path env.prefix (env.sha256 bytes) in
          if is_size (get str_dec rel disk.pool) (length bytes)
          then (disk, adopted rel)
          else copy_in (env.copy_of legacy_rel) rel (length bytes) disk
    ]
  ]

  module _ {V : Type 0} where
    unfoldable pub keep_record : Record V → Resolved V → Resolved V
    keep_record rec acc = record acc { consolidated = acc.consolidated ++ rec ∷ [] }

    unfoldable pub drop_absent : String → Resolved V → Resolved V
    drop_absent src acc = record acc { absent_sources = src ∷ acc.absent_sources }

    unfoldable pub defer_failed_adoption : Record V → String → String → Resolved V → Resolved V
    unfolding ends_with removesuffix namespace_of keep_record
    defer_failed_adoption rec rel src acc =
        let namespace = namespace_of rel in
        let noted : Resolved V =
          if ends_with namespace ".spill"
          then record acc {
            failed_adoptions = removesuffix namespace ".spill" ∷ acc.failed_adoptions;
          }
          else acc in
        if str_eq src env.target
        then keep_record rec noted
        else record noted { failed_adoptions = removesuffix src ".log" ∷ noted.failed_adoptions }

    -- `rec._replace(spill=new_rel, value=None)`
    unfoldable pub repointed : Record V → String → Record V
    repointed rec rel = record rec { spill = some rel; value = plain null }

    unfoldable pub resolve_shared : Record V → String → String → Resolved V → Resolved V
    unfolding keep_record drop_absent
    resolve_shared rec rel src acc = elim (get str_dec rel acc.disk.pool) [
      | none ↦ drop_absent src acc
      | some stat ↦ keep_record rec acc
    ]

    unfoldable pub resolve_adopted : Adopted → Record V → String → String → Resolved V → Resolved V
    unfolding keep_record drop_absent repointed
    resolve_adopted failed rec rel src acc = defer_failed_adoption rec rel src acc
    resolve_adopted gone rec rel src acc = drop_absent src acc
    resolve_adopted (adopted new_rel) rec rel src acc = keep_record (repointed rec new_rel) acc

    unfoldable pub resolve_legacy : Record V → String → String → Resolved V → Resolved V
    unfolding pool_adopt resolve_adopted
    resolve_legacy rec rel src acc =
        let (disk, outcome) = pool_adopt rel acc.disk in
        resolve_adopted outcome rec rel src (record acc { disk = disk })

    -- The body of the loop, by `rec.spill`.
    unfoldable pub resolve_at : Option String → Record V → String → Resolved V → Resolved V
    unfolding keep_record resolve_shared resolve_legacy is_shared_spill
    resolve_at none rec src acc = keep_record rec acc
    resolve_at (some rel) rec src acc =
        if str_eq rel ""
        then keep_record rec acc
        else if is_shared_spill env.prefix rel
        then resolve_shared rec rel src acc
        else resolve_legacy rec rel src acc

    unfoldable pub resolve_spill : Resolved V → Kept V → Resolved V
    unfolding resolve_at
    resolve_spill acc (rec, src) = resolve_at rec.spill rec src acc

    unfoldable pub resolve_from : Resolved V → List (Kept V) → Resolved V
    unfolding resolve_spill
    resolve_from acc [] = acc
    resolve_from acc (pair ∷ pairs) = resolve_from (resolve_spill acc pair) pairs

    unfoldable pub resolve_spills : Disk → List (Kept V) → Resolved V
    unfolding resolve_from
    resolve_spills disk pairs =
        resolve_from
          (record { disk = disk; consolidated = []; failed_adoptions = []; absent_sources = [] })
          pairs
