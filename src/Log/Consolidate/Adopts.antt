-- ===== src/Log/Consolidate/Adopts.antt =====
-- emboss/_log_cache.py: the pool behind `_pool_adopt`.
use emboss.Prelude.{
  ℕ, ◌≡◌, refl, ap, ◌∙◌, inl, inr, String, true, false, Bool-cases, Option-cases, Option, none,
  some, length, is_some, str_eq,
}
use mathlib.Core.Path.{subst}
use mathlib.Core.Logic.{ite, if_pos}
use emboss.Prelude.Dict.{Dict, get, put, str_dec, get-put}
use emboss.Log.Record.{Record}
use emboss.Log.Consolidate.Paths.{is_shared_spill, pool_path}
use emboss.Log.Consolidate.Spills.{
  Stat, stat_of, Copied, copied, vanished, raised, Adopted, adopted, Disk, Spillage, is_size,
  copy_in, pool_adopt,
}

is_some-put :
    {A : Type 0} (j k : String) (a : A) (d : Dict String A)
    → is_some (get str_dec j d) ≡ true
    → is_some (get str_dec j (put str_dec k a d)) ≡ true
is_some-put j k a d h = rw (get-put str_dec j k a d) (ite_some (str_dec k j))
  where
    ite_some : (t : Dec (k ≡ j)) → is_some (ite t (some a) (get str_dec j d)) ≡ true
    ite_some (yes e) = refl
    ite_some (no e) = h

is_some-put_self :
    {A : Type 0} (k : String) (a : A) (d : Dict String A)
    → is_some (get str_dec k (put str_dec k a d)) ≡ true
is_some-put_self k a d =
    rw (get-put str_dec k k a d ∙ if_pos (str_dec k k) refl (some a) (get str_dec k d)) refl

module _ {V : Type 0} (env : Spillage) where
  -- The pool file that the record names, if it names one, is there.
  abbrev pub Backed : Disk → Record V → Type 0
  Backed disk rec =
      (rel : String)
      → rec.spill ≡ some rel
      → str_eq rel "" ≡ false
      → is_shared_spill env.prefix rel ≡ true
      → is_some (get str_dec rel disk.pool) ≡ true

-- Every pool file of the one disk is one of the other.
abbrev pub Grows : Disk → Disk → Type 0
Grows d e =
    (rel : String)
    → is_some (get str_dec rel d.pool) ≡ true
    → is_some (get str_dec rel e.pool) ≡ true

-- An adopted path is in the pool.
abbrev pub Adopts : Disk → Adopted → Type 0
Adopts disk outcome =
    (rel : String) → outcome ≡ adopted rel → is_some (get str_dec rel disk.pool) ≡ true

adopted_injective : {x y : String} → adopted x ≡ adopted y → x ≡ y
adopted_injective h = ap path h
  where
    path : Adopted → String
    path (adopted rel) = rel
    path _ = ""

is_size-is_some : (o : Option Stat) (n : ℕ) → is_size o n ≡ true → is_some o ≡ true
unfolding is_size
is_size-is_some none n h = h
is_size-is_some (some stat) n h = refl

module _ (env : Spillage) where
  copy_in-Grows :
      (c : Copied) (rel : String) (size : ℕ) (disk : Disk)
      → Grows disk (copy_in env c rel size disk).0
  unfolding copy_in
  copy_in-Grows copied rel size disk r h = is_some-put r rel _ disk.pool h
  copy_in-Grows vanished rel size disk r h = h
  copy_in-Grows raised rel size disk r h = h

  copy_in-Adopts :
      (c : Copied) (rel : String) (size : ℕ) (disk : Disk)
      → Adopts (copy_in env c rel size disk).0 (copy_in env c rel size disk).1
  unfolding copy_in
  copy_in-Adopts copied rel size disk r e =
      subst
        (λ q.
          is_some (get str_dec q (put str_dec rel (stat_of size env.written_at) disk.pool)) ≡ true)
        (adopted_injective e) (is_some-put_self rel _ disk.pool)
  copy_in-Adopts vanished rel size disk r e = cc
  copy_in-Adopts raised rel size disk r e = cc

  pub pool_adopt_lem :
      (rel : String) (disk : Disk)
      → Grows disk (pool_adopt env rel disk).0
        × Adopts (pool_adopt env rel disk).0 (pool_adopt env rel disk).1
  unfolding pool_adopt
  pool_adopt_lem rel disk = elim (Option-cases (get str_dec rel disk.legacy)) [
    | inl absent ↦ rw (pool_adopt, absent) ((λ r h. h), (λ r e. cc))
    | inr (file, there) ↦ elim (Option-cases file.content) [
      | inl unreadable ↦ rw (pool_adopt, there, unreadable) ((λ r h. h), (λ r e. cc))
      | inr (bytes, read) ↦
          let new_rel = pool_path env.prefix (env.sha256 bytes) in
          elim (Bool-cases (is_size (get str_dec new_rel disk.pool) (length bytes))) [
            | inl fits ↦
                rw (pool_adopt, there, read, fits)
                  (
                    (λ r h. h),
                    (λ r e.
                        subst (λ q. is_some (get str_dec q disk.pool) ≡ true) (adopted_injective e)
                          (is_size-is_some _ (length bytes) fits)),
                  )
            | inr other ↦
                rw (pool_adopt, there, read, other)
                  (
                    copy_in-Grows (env.copy_of rel) new_rel (length bytes) disk,
                    copy_in-Adopts (env.copy_of rel) new_rel (length bytes) disk,
                  )
          ]
    ]
  ]
