-- ===== src/Log/Consolidate/Pass/Stored.antt =====
-- emboss/_log_cache.py: the own log behind the rewrite of a consolidation pass.
use emboss.Prelude.{
  ℕ, ◌≡◌, refl, sym, ap, ◌∙◌, inl, inr, String, true, Option-cases, Option, none, some, List, [],
  ◌∷◌, All, arith,
}
use mathlib.Core.Path.{subst}
use mathlib.Core.Logic.{if_pos}
use mathlib.Core.Option.{some-injective}
use mathlib.Core.List.{Mem, not-mem-nil}
use emboss.Prelude.Dict.{Dict, get, str_dec, get-put_self, get-remove}
use emboss.Log.Record.{Bytes, Record, Pickle, IsPickle}
use emboss.Log.Frame.{write_frames}
use emboss.Log.Frame.Laws.{Carried}
use emboss.Log.Scan.{ScanResult, read_records}
use emboss.Log.Scan.Recovery.{read_records-write_frames}
use emboss.Log.Shard.{readable}
use emboss.Log.Consolidate.{Source}
use emboss.Log.Consolidate.Prune.{write_consolidated}

module _ {V : Type 0} (p : Pickle V) where
  -- A log that scans, without a tear, to exactly the records; no log, if there are none.
  abbrev pub Stored : Option Source → List (Record V) → Type 0
  Stored log [] = log ≡ none
  Stored log (rec ∷ recs) =
      (src : Source) × (out : Bytes) × (res : ScanResult V) × (log ≡ some src)
      × (src.file ≡ readable out)
      × (read_records p out ≡ some res)
      × (res.records ≡ rec ∷ recs)
      × (res.tear_at ≡ none)

  -- A log with the record in its scan.
  abbrev pub HeldIn : Option Source → Record V → Type 0
  HeldIn log rec =
      (src : Source) × (out : Bytes) × (res : ScanResult V) × (log ≡ some src)
      × (src.file ≡ readable out)
      × (read_records p out ≡ some res)
      × Mem rec res.records

  pub Stored-HeldIn :
      (log : Option Source) (recs : List (Record V)) (rec : Record V)
      → Stored log recs
      → Mem rec recs
      → HeldIn log rec
  Stored-HeldIn log [] rec h m = absurd (not-mem-nil m)
  Stored-HeldIn log (r ∷ recs) rec (src, out, res, there, file, reads, same, whole) m =
      (src, out, res, there, file, reads, subst (Mem rec) (sym same) m)

  pub write_consolidated-Stored :
      IsPickle p
      → (own : String) (mtime : ℕ) (recs : List (Record V)) (sources : Dict String Source)
        {written : Dict String Source}
      → All (Carried p) recs
      → write_consolidated p own mtime recs sources ≡ some written
      → Stored (get str_dec own written) recs
  unfolding write_consolidated
  write_consolidated-Stored laws own mtime [] sources c h =
      ap (get str_dec own) (sym (some-injective _ _ h))
      ∙ (get-remove str_dec own own sources
          ∙ if_pos (str_dec own own) refl none (get str_dec own sources))
  write_consolidated-Stored laws own mtime (rec ∷ recs) sources c h =
      elim (Option-cases (write_frames p (rec ∷ recs))) [
        | inl over ↦ absurd (ground (arith, over, h))
        | inr (out, packed) ↦
            let file : Source = record { file = readable out; mtime = mtime; statable = true } in
            let (res, reads, same, whole, n) =
              read_records-write_frames p laws (rec ∷ recs) c packed in
            let there =
              ap (get str_dec own) (sym (some-injective _ _ (rw (packed, write_consolidated) at h)))
              ∙ get-put_self str_dec own file sources in
            (file, out, res, there, refl, reads, same, whole)
      ]
