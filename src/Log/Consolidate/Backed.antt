-- ===== src/Log/Consolidate/Backed.antt =====
-- emboss/_log_cache.py: the records that `_resolve_spills` hands to the rewrite.
use emboss.Prelude.{
  ◌≡◌, refl, sym, ap, ◌∙◌, inl, inr, String, true, false, Bool-cases, Option-cases, Option, none,
  some, List, [], ◌∷◌, All, All-snoc, All-map, is_some, str_eq, arith,
}
use mathlib.Core.Bool.{true≢false}
use mathlib.Core.Path.{subst}
use mathlib.Core.Option.{some-injective}
use emboss.Prelude.Dict.{get, str_dec}
use emboss.Log.Record.{Record}
use emboss.Log.Consolidate.{Kept}
use emboss.Log.Consolidate.Paths.{is_shared_spill, ends_with, namespace_of}
use emboss.Log.Consolidate.Spills.{
  Adopted, adopted, gone, failed, Disk, Spillage, Resolved, pool_adopt, keep_record, drop_absent,
  defer_failed_adoption, repointed, resolve_shared, resolve_adopted, resolve_legacy, resolve_at,
  resolve_spill, resolve_from, resolve_spills,
}
use emboss.Log.Consolidate.Adopts.{Backed, Grows, Adopts, pool_adopt_lem}

module _ {V : Type 0} (env : Spillage) where
  abbrev AllBacked : Resolved V → Type 0
  AllBacked acc = All (Backed env acc.disk) acc.consolidated

  keep_record-AllBacked :
      (rec : Record V) (acc : Resolved V)
      → Backed env acc.disk rec
      → AllBacked acc
      → AllBacked (keep_record env rec acc)
  unfolding keep_record
  keep_record-AllBacked rec acc b h = All-snoc (Backed env acc.disk) acc.consolidated rec h b

  Backed-Grows :
      (d e : Disk) (recs : List (Record V))
      → Grows d e
      → All (Backed env d) recs
      → All (Backed env e) recs
  Backed-Grows d e recs g =
      All-map (Backed env d) (Backed env e) recs (λ rec b rel s n i. g rel (b rel s n i))

  defer-AllBacked :
      (rec : Record V) (rel src : String) (acc : Resolved V)
      → Backed env acc.disk rec
      → AllBacked acc
      → AllBacked (defer_failed_adoption env rec rel src acc)
  unfolding defer_failed_adoption
  defer-AllBacked rec rel src acc b h = elim (Bool-cases (ends_with (namespace_of rel) ".spill")) [
    | inl named ↦ elim (Bool-cases (str_eq src env.target)) [
      | inl own ↦ rw (defer_failed_adoption, named, own) (keep_record-AllBacked rec acc b h)
      | inr other ↦ rw (defer_failed_adoption, named, other) h
    ]
    | inr unnamed ↦ elim (Bool-cases (str_eq src env.target)) [
      | inl own ↦ rw (defer_failed_adoption, unnamed, own) (keep_record-AllBacked rec acc b h)
      | inr other ↦ rw (defer_failed_adoption, unnamed, other) h
    ]
  ]

  resolve_adopted-AllBacked :
      (outcome : Adopted) (rec : Record V) (rel src : String) (acc : Resolved V)
      → rec.spill ≡ some rel
      → is_shared_spill env.prefix rel ≡ false
      → Adopts acc.disk outcome
      → AllBacked acc
      → AllBacked (resolve_adopted env outcome rec rel src acc)
  unfolding resolve_adopted drop_absent repointed
  resolve_adopted-AllBacked failed rec rel src acc named apart adopts h =
      defer-AllBacked rec rel src acc
        (λ r e n i. absurd (
          true≢false (
            sym i
            ∙ subst (λ q. is_shared_spill env.prefix q ≡ false) (some-injective _ _ (sym named ∙ e))
                apart)))
        h
  resolve_adopted-AllBacked gone rec rel src acc named apart adopts h = h
  resolve_adopted-AllBacked (adopted new_rel) rec rel src acc named apart adopts h =
      keep_record-AllBacked (repointed env rec new_rel) acc
        (λ r e n i.
          subst (λ q. is_some (get str_dec q acc.disk.pool) ≡ true) (some-injective _ _ e)
            (adopts new_rel refl))
        h

  resolve_legacy-AllBacked :
      (rec : Record V) (rel src : String) (acc : Resolved V)
      → rec.spill ≡ some rel
      → is_shared_spill env.prefix rel ≡ false
      → AllBacked acc
      → AllBacked (resolve_legacy env rec rel src acc)
  unfolding resolve_legacy
  resolve_legacy-AllBacked rec rel src acc named apart h =
      let (grows, adopts) = pool_adopt_lem env rel acc.disk in
      let disk = (pool_adopt env rel acc.disk).0 in
      resolve_adopted-AllBacked (pool_adopt env rel acc.disk).1 rec rel src
        (record acc { disk = disk }) named apart adopts
        (Backed-Grows acc.disk disk acc.consolidated grows h)

  resolve_shared-AllBacked :
      (rec : Record V) (rel src : String) (acc : Resolved V)
      → rec.spill ≡ some rel
      → AllBacked acc
      → AllBacked (resolve_shared env rec rel src acc)
  unfolding resolve_shared drop_absent
  resolve_shared-AllBacked rec rel src acc named h =
      elim (Option-cases (get str_dec rel acc.disk.pool)) [
        | inl absent ↦ rw (resolve_shared, absent) h
        | inr (stat, there) ↦
            let backed : Backed env acc.disk rec = λ r e n i.
              subst (λ q. is_some (get str_dec q acc.disk.pool) ≡ true)
                (some-injective _ _ (sym named ∙ e)) (ap is_some there) in
            rw (resolve_shared, there) (keep_record-AllBacked rec acc backed h)
      ]

  resolve_at-AllBacked :
      (spill : Option String) (rec : Record V) (src : String) (acc : Resolved V)
      → rec.spill ≡ spill
      → AllBacked acc
      → AllBacked (resolve_at env spill rec src acc)
  unfolding resolve_at
  resolve_at-AllBacked none rec src acc named h =
      keep_record-AllBacked rec acc (λ r e n i. absurd (ground (arith, named, e))) h
  resolve_at-AllBacked (some rel) rec src acc named h = elim (Bool-cases (str_eq rel "")) [
    | inl empty ↦
        let backed : Backed env acc.disk rec = λ r e n i. absurd (
          true≢false (
            sym empty ∙ subst (λ q. str_eq q "" ≡ false) (some-injective _ _ (sym e ∙ named)) n)) in
        rw (resolve_at, empty) (keep_record-AllBacked rec acc backed h)
    | inr path ↦ elim (Bool-cases (is_shared_spill env.prefix rel)) [
      | inl shared ↦
          rw (resolve_at, path, shared) (resolve_shared-AllBacked rec rel src acc named h)
      | inr legacy ↦
          rw (resolve_at, path, legacy) (resolve_legacy-AllBacked rec rel src acc named legacy h)
    ]
  ]

  resolve_spill-AllBacked :
      (acc : Resolved V) (rec : Record V) (src : String)
      → AllBacked acc
      → AllBacked (resolve_spill env acc (rec, src))
  unfolding resolve_spill
  resolve_spill-AllBacked acc rec src = resolve_at-AllBacked rec.spill rec src acc refl

  resolve_from-AllBacked :
      (acc : Resolved V) (pairs : List (Kept V))
      → AllBacked acc
      → AllBacked (resolve_from env acc pairs)
  unfolding resolve_from
  resolve_from-AllBacked acc [] h = h
  resolve_from-AllBacked acc ((rec, src) ∷ pairs) h =
      resolve_from-AllBacked (resolve_spill env acc (rec, src)) pairs
        (resolve_spill-AllBacked acc rec src h)

  pub resolve_spills-Backed :
      (disk : Disk) (pairs : List (Kept V))
      → All
          (Backed env (resolve_spills env disk pairs).disk)
          (resolve_spills env disk pairs).consolidated
  unfolding resolve_spills
  resolve_spills-Backed disk pairs = resolve_from-AllBacked _ pairs tt
