-- ===== src/Log/Scan/Locations.antt =====
-- emboss/_log_cache.py: the spans that `_read_records` notes, as `_read_verified` re-reads them.
use emboss.Prelude.{
  ℕ, zero, suc, ◌+◌, ◌-◌, ◌≡◌, inl, inr, some, List, [], ◌∷◌, ◌++◌, ltb, length, slice, Bool-cases,
  Option-cases,
}
use mathlib.Core.Path.{subst}
use mathlib.Core.Option.{some-injective}
use emboss.Log.Record.{Bytes, Record, Pickle}
use emboss.Log.Frame.{header_size, parse_frame}
use emboss.Log.Frame.Laws.{parse_frame-slice}
use emboss.Log.Scan.{ScanResult, no_records, push, mark_tear, resync, read_loop, read_records}

module _ {V : Type 0} (p : Pickle V) where
  -- The records and the spans go in step, and re-reading a span gives its record, whole.
  abbrev pub Located : Bytes → List (Record V) → List (ℕ × ℕ) → Type 0
  Located log [] [] = Unit
  Located log (rec ∷ recs) ((start, end) ∷ spans) =
      (parse_frame p (slice log start end) 0 ≡ some (rec, end - start)) × Located log recs spans
  Located log _ _ = ⊥

  Located-snoc :
      (log : Bytes) (recs : List (Record V)) (spans : List (ℕ × ℕ)) (rec : Record V) (pos end : ℕ)
      → Located log recs spans
      → parse_frame p log pos ≡ some (rec, end)
      → Located log (recs ++ rec ∷ []) (spans ++ (pos, end) ∷ [])
  Located-snoc log [] [] rec pos end l h = (parse_frame-slice p log pos h, tt)
  Located-snoc log [] (s ∷ spans) rec pos end l h = absurd l
  Located-snoc log (r ∷ recs) [] rec pos end l h = absurd l
  Located-snoc log (r ∷ recs) ((start, stop) ∷ spans) rec pos end l h =
      (l.0, Located-snoc log recs spans rec pos end l.1 h)

  abbrev IsLocated : Bytes → ScanResult V → Type 0
  IsLocated log res = Located log res.records res.spans

  read_loop-Located :
      (fuel : ℕ) (log : Bytes) (pos : ℕ) (acc : ScanResult V) {res : ScanResult V}
      → IsLocated log acc
      → read_loop p fuel log pos acc ≡ some res
      → IsLocated log res
  unfolding read_loop push mark_tear
  read_loop-Located zero log pos acc l h = cc
  read_loop-Located (suc fuel) log pos acc {res} l h =
      elim (Bool-cases (ltb (length log) (pos + header_size))) [
        | inl done ↦ subst (IsLocated log) (some-injective _ _ (rw done at h)) l
        | inr more ↦ elim (Option-cases (parse_frame p log pos)) [
          | inr ((rec, end), parsed) ↦
              read_loop-Located fuel log end (push acc rec pos end)
                (Located-snoc log acc.records acc.spans rec pos end l parsed)
                (rw (more, parsed) at h)
          | inl torn ↦ elim (Option-cases (resync p log pos)) [
            | inl lost ↦
                subst (IsLocated log)
                  (some-injective (mark_tear acc pos) res (rw (more, torn, lost) at h)) l
            | inr (nxt, found) ↦
                read_loop-Located fuel log nxt (mark_tear acc pos) l (rw (more, torn, found) at h)
          ]
        ]
      ]

  -- Of any log, damaged or not: the records and the spans of a scan go in step, and the bytes
  -- of each span, read alone, parse to its record over their whole length.
  pub read_records-Located :
      (log : Bytes) {res : ScanResult V}
      → read_records p log ≡ some res
      → Located log res.records res.spans
  unfolding read_records
  read_records-Located log h = read_loop-Located (length log + 1) log 0 no_records tt h
