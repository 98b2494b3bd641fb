-- ===== src/Log/Consolidate/Resolves.antt =====
-- emboss/_log_cache.py: what `_resolve_spills` makes of the list of its records.
use emboss.Prelude.{
  ◌≡◌, refl, sym, ◌∙◌, inl, inr, ◌⊎◌, String, Bool-cases, Option-cases, Option, none, some, List,
  [], ◌∷◌, ◌++◌, append-nil, All, All-append, All-append_parts, str_eq, arith,
}
use mathlib.Core.Path.{subst}
use emboss.Prelude.Dict.{get, str_dec}
use emboss.Log.Record.{Record}
use emboss.Log.Consolidate.{Kept}
use emboss.Log.Consolidate.Paths.{is_shared_spill, ends_with, namespace_of}
use emboss.Log.Consolidate.Spills.{
  Adopted, adopted, gone, failed, Disk, Spillage, Resolved, pool_adopt, keep_record, drop_absent,
  defer_failed_adoption, repointed, resolve_shared, resolve_adopted, resolve_legacy, resolve_at,
  resolve_spill, resolve_from, resolve_spills,
}

module _ {V : Type 0} (env : Spillage) where
  -- A step adds to the list: nothing, the record, or the record with another path.
  record Adds (rec : Record V) (acc next : Resolved V) : Type 0 where
    more : List (Record V)
    appends : next.consolidated ≡ acc.consolidated ++ more
    forms : All (λ (r : Record V). (r ≡ rec) ⊎ ((rel : String) × (r ≡ repointed env rec rel))) more

  Adds-nothing :
      (rec : Record V) (acc next : Resolved V)
      → next.consolidated ≡ acc.consolidated
      → Adds rec acc next
  Adds-nothing rec acc next e = record {
    more = [];
    appends = e ∙ sym (append-nil acc.consolidated);
    forms = tt;
  }

  Adds-record :
      (rec : Record V) (acc next : Resolved V)
      → next.consolidated ≡ acc.consolidated ++ rec ∷ []
      → Adds rec acc next
  Adds-record rec acc next e = record { more = rec ∷ []; appends = e; forms = (inl refl, tt) }

  defer-Adds :
      (rec : Record V) (rel src : String) (acc : Resolved V)
      → Adds rec acc (defer_failed_adoption env rec rel src acc)
  unfolding defer_failed_adoption keep_record
  defer-Adds rec rel src acc = elim (Bool-cases (ends_with (namespace_of rel) ".spill")) [
    | inl named ↦ elim (Bool-cases (str_eq src env.target)) [
      | inl own ↦ Adds-record rec acc _ (rw (defer_failed_adoption, named, own) refl)
      | inr other ↦ Adds-nothing rec acc _ (rw (defer_failed_adoption, named, other) refl)
    ]
    | inr unnamed ↦ elim (Bool-cases (str_eq src env.target)) [
      | inl own ↦ Adds-record rec acc _ (rw (defer_failed_adoption, unnamed, own) refl)
      | inr other ↦ Adds-nothing rec acc _ (rw (defer_failed_adoption, unnamed, other) refl)
    ]
  ]

  resolve_adopted-Adds :
      (outcome : Adopted) (rec : Record V) (rel src : String) (acc : Resolved V)
      → Adds rec acc (resolve_adopted env outcome rec rel src acc)
  unfolding resolve_adopted drop_absent keep_record
  resolve_adopted-Adds failed rec rel src acc = defer-Adds rec rel src acc
  resolve_adopted-Adds gone rec rel src acc = Adds-nothing rec acc _ refl
  resolve_adopted-Adds (adopted new_rel) rec rel src acc = record {
    more = repointed env rec new_rel ∷ [];
    appends = refl;
    forms = (inr (new_rel, refl), tt);
  }

  resolve_legacy-Adds :
      (rec : Record V) (rel src : String) (acc : Resolved V)
      → Adds rec acc (resolve_legacy env rec rel src acc)
  unfolding resolve_legacy
  resolve_legacy-Adds rec rel src acc =
      let adds =
        resolve_adopted-Adds (pool_adopt env rel acc.disk).1 rec rel src
          (record acc { disk = (pool_adopt env rel acc.disk).0 }) in
      record { more = adds.more; appends = adds.appends; forms = adds.forms }

  resolve_at-Adds :
      (spill : Option String) (rec : Record V) (src : String) (acc : Resolved V)
      → Adds rec acc (resolve_at env spill rec src acc)
  unfolding resolve_at keep_record drop_absent resolve_legacy
  resolve_at-Adds none rec src acc = Adds-record rec acc _ refl
  resolve_at-Adds (some rel) rec src acc = elim (Bool-cases (str_eq rel "")) [
    | inl empty ↦ Adds-record rec acc _ (rw (resolve_at, empty) refl)
    | inr path ↦ elim (Bool-cases (is_shared_spill env.prefix rel)) [
      | inl shared ↦ elim (Option-cases (get str_dec rel acc.disk.pool)) [
        | inl absent ↦
            Adds-nothing rec acc _ (rw (resolve_at, path, shared, resolve_shared, absent) refl)
        | inr (stat, there) ↦
            Adds-record rec acc _ (rw (resolve_at, path, shared, resolve_shared, there) refl)
      ]
      | inr legacy ↦ rw (resolve_at, path, legacy) (resolve_legacy-Adds rec rel src acc)
    ]
  ]

  module _ {κ} (P : Record V → Type κ) where
    Adds-All :
        (rec : Record V) (acc next : Resolved V)
        → Adds rec acc next
        → ((rel : String) → P rec → P (repointed env rec rel))
        → P rec
        → All P acc.consolidated
        → All P next.consolidated
    Adds-All rec acc next adds moves p h =
        subst (All P) (sym adds.appends)
          (All-append P acc.consolidated adds.more h (formed adds.more adds.forms))
      where
        formed :
            (rs : List (Record V))
            → All (λ (r : Record V). (r ≡ rec) ⊎ ((rel : String) × (r ≡ repointed env rec rel))) rs
            → All P rs
        formed [] h = tt
        formed (r ∷ rs) ((inl e, hs)) = (subst P (sym e) p, formed rs hs)
        formed (r ∷ rs) ((inr (rel, e), hs)) = (subst P (sym e) (moves rel p), formed rs hs)

    resolve_from-All :
        ((rec : Record V) (rel : String) → P rec → P (repointed env rec rel))
        → (acc : Resolved V) (pairs : List (Kept V)) → All (λ (pair : Kept V). P pair.0) pairs
        → All P acc.consolidated
        → All P (resolve_from env acc pairs).consolidated
    unfolding resolve_from resolve_spill
    resolve_from-All moves acc [] h k = k
    resolve_from-All moves acc ((rec, src) ∷ pairs) h k =
        resolve_from-All moves (resolve_spill env acc (rec, src)) pairs h.1
          (Adds-All rec acc _ (resolve_at-Adds rec.spill rec src acc) (moves rec) h.0 k)

    inline_kept :
        (spill : Option String) (rec : Record V) (src : String) (acc : Resolved V)
        → spill ≡ none
        → All P (resolve_at env spill rec src acc).consolidated
        → P rec
    unfolding resolve_at keep_record
    inline_kept none rec src acc e h = (All-append_parts P acc.consolidated (rec ∷ []) h).1.0
    inline_kept (some rel) rec src acc e h = absurd (ground (arith, e))

    -- What holds of all records of the result holds of what it began with, and of the records
    -- without a spill file.
    All-resolve_from :
        (acc : Resolved V) (pairs : List (Kept V))
        → All P (resolve_from env acc pairs).consolidated
        → All P acc.consolidated × All (λ (pair : Kept V). pair.0.spill ≡ none → P pair.0) pairs
    unfolding resolve_from resolve_spill
    All-resolve_from acc [] h = (h, tt)
    All-resolve_from acc ((rec, src) ∷ pairs) h =
        let (next, rest) = All-resolve_from (resolve_spill env acc (rec, src)) pairs h in
        let adds = resolve_at-Adds rec.spill rec src acc in
        (
          (All-append_parts P acc.consolidated adds.more (subst (All P) adds.appends next)).0,
          ((λ inline. inline_kept rec.spill rec src acc inline next), rest),
        )

    pub resolve_spills-All :
        (disk : Disk) (pairs : List (Kept V))
        → ((rec : Record V) (rel : String) → P rec → P (repointed env rec rel))
        → All (λ (pair : Kept V). P pair.0) pairs
        → All P (resolve_spills env disk pairs).consolidated
    unfolding resolve_spills
    resolve_spills-All disk pairs moves h = resolve_from-All moves _ pairs h tt

    pub All-resolve_spills :
        (disk : Disk) (pairs : List (Kept V))
        → All P (resolve_spills env disk pairs).consolidated
        → All (λ (pair : Kept V). pair.0.spill ≡ none → P pair.0) pairs
    unfolding resolve_spills
    All-resolve_spills disk pairs h = (All-resolve_from _ pairs h).1
