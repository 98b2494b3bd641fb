-- ===== src/Transfer.antt =====
-- emboss/_transfer.py: `transfer`. A cache is the interface of Cached; a `set` that answers `False`
-- is one that is not done here. Exceptions of the two caches are left out.
pub mod Copied
use emboss.Prelude.{
  ℕ, zero, ◌+◌, String, Bool, true, false, not, ◌&&◌, Option, none, some, List, [], ◌∷◌, ◌==◌,
  if◌then◌else◌,
}
use emboss.Cached.{Cache}

-- Both caches, `count` and `skipped`.
pub record Progress (S D : Type 0) : Type 0 where
  pub source : S
  pub destination : D
  pub count : ℕ
  pub skipped : ℕ

abbrev pub start : {S D : Type 0} → S → D → Progress S D
start s d = record { source = s; destination = d; count = 0; skipped = 0 }

module _ {S D V : Type 0} (from : Cache S V) (to : Cache D V) where
  -- The body of the loop.
  unfoldable pub copy_key : String → Progress S D → Progress S D
  copy_key key at =
      let (source, value) = from.get key at.source in
      elim value [
        | none ↦ record at { source = source; skipped = at.skipped + 1 }
        | some v ↦
            let (destination, done) = to.set key v at.destination in
            if done
            then record at { source = source; destination = destination; count = at.count + 1 }
            else record at { source = source; destination = destination; skipped = at.skipped + 1 }
      ]

  unfoldable pub copy_keys : List String → Progress S D → Progress S D
  unfolding copy_key
  copy_keys [] at = at
  copy_keys (key ∷ keys) at = copy_keys keys (copy_key key at)

  -- `keys` is what the source yields, `clear` is `source.clear()`.
  unfoldable pub transfer : List String → (S → S) → Bool → S → D → Progress S D
  unfolding copy_keys
  transfer keys clear clear_source s d =
      let done = copy_keys keys (start s d) in
      if clear_source && done.skipped == 0 then record done { source = clear done.source } else done
