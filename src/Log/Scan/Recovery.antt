-- ===== src/Log/Scan/Recovery.antt =====
-- emboss/_log_cache.py: `_read_records` on logs that begin with frames written by `_frame`.
use emboss.Prelude.{
  ℕ, zero, suc, ◌+◌, ◌-◌, ◌≤◌, ◌<◌, ◌≡◌, refl, sym, ◌∙◌, ap, inl, inr, none, some, List, [], ◌∷◌,
  ◌++◌, arith, ltb, lt→ltb, le→ltb, length, Bool-cases, Option-cases, All, append_assoc, append-nil,
  length-append,
}
use mathlib.Core.Option.{some-injective}
use native.Mathlib.Nat.{zero-add}
use emboss.Log.Record.{Bytes, Record, Pickle, IsPickle}
use emboss.Log.Frame.{header_size, frame, parse_frame, write_frames}
use emboss.Log.Frame.Laws.{Carried, parse_frame-frame, frame-size}
use emboss.Log.Scan.{ScanResult, no_records, push, mark_tear, resync, read_loop, read_records}
use emboss.Log.Scan.Laws.{read_records_total}

module _ {V : Type 0} (p : Pickle V) where
  write_frames_parts :
      (rec : Record V) (recs : List (Record V)) {bs : Bytes}
      → write_frames p (rec ∷ recs) ≡ some bs
      → (b : Bytes) × (c : Bytes) × (frame p rec ≡ some b)
        × (write_frames p recs ≡ some c)
        × (bs ≡ b ++ c)
  unfolding write_frames
  write_frames_parts rec recs h = elim (Option-cases (frame p rec)) [
    | inl over ↦ absurd (ground arith)
    | inr (b, eb) ↦ elim (Option-cases (write_frames p recs)) [
      | inl over ↦ absurd (ground arith)
      | inr (c, ec) ↦ (b, c, eb, ec, ground arith)
    ]
  ]

  -- How far the loop is after the frames of `recs`.
  record After (acc acc' : ScanResult V) (recs : List (Record V)) : Type 0 where
    records : acc'.records ≡ acc.records ++ recs
    tear_at : acc'.tear_at ≡ none
    recovered : acc'.recovered ≡ acc.recovered

  After-push :
      {acc acc' : ScanResult V} {rec : Record V} {recs : List (Record V)} (pos end : ℕ)
      → acc.tear_at ≡ none
      → After (push acc rec pos end) acc' recs
      → After acc acc' (rec ∷ recs)
  unfolding push
  After-push {acc} {acc'} {rec} {recs} pos end clean after = record {
    records = after.records ∙ append_assoc acc.records (rec ∷ []) recs;
    tear_at = after.tear_at;
    recovered = after.recovered ∙ (rw clean);
  }

  unchanged :
      (acc acc' : ScanResult V) {res : ScanResult V}
      → some acc' ≡ some res
      → acc'.records ≡ acc.records
      → res.records ≡ acc.records ++ []
  unchanged acc acc' h same =
      rw append-nil (ap (λ (s : ScanResult V). s.records) (sym (some-injective _ _ h)) ∙ same)

  length-write_frames :
      (recs : List (Record V)) {bs : Bytes}
      → write_frames p recs ≡ some bs
      → length recs ≤ length bs
  length-write_frames [] w = omega arith
  length-write_frames (rec ∷ recs) {bs} w =
      let (b, cs, eb, ec, split) = write_frames_parts rec recs w in
      omega (
        arith,
        ap length split,
        length-append b cs,
        frame-size p rec eb,
        length-write_frames recs ec,
      )

  -- The scan only ever adds records to those that it has.
  read_loop-extends :
      (fuel : ℕ) (log : Bytes) (pos : ℕ) (acc : ScanResult V) {res : ScanResult V}
      → read_loop p fuel log pos acc ≡ some res
      → (later : List (Record V)) × (res.records ≡ acc.records ++ later)
  unfolding read_loop push mark_tear
  read_loop-extends zero log pos acc h = cc
  read_loop-extends (suc fuel) log pos acc {res} h =
      elim (Bool-cases (ltb (length log) (pos + header_size))) [
        | inl done ↦ ([], unchanged acc acc (rw done at h) refl)
        | inr more ↦ elim (Option-cases (parse_frame p log pos)) [
          | inr ((rec, end), parsed) ↦
              let (later, e) =
                read_loop-extends fuel log end (push acc rec pos end) {res = res}
                  (rw (more, parsed) at h) in
              (rec ∷ later, e ∙ append_assoc acc.records (rec ∷ []) later)
          | inl torn ↦ elim (Option-cases (resync p log pos)) [
            | inl lost ↦ ([], unchanged acc (mark_tear acc pos) (rw (more, torn, lost) at h) refl)
            | inr (nxt, found) ↦
                read_loop-extends fuel log nxt (mark_tear acc pos) (rw (more, torn, found) at h)
          ]
        ]
      ]

  module _ (laws : IsPickle p) where
    read_loop-frames :
        (recs : List (Record V)) (bs pre rest log : Bytes) (pos fuel : ℕ) (acc : ScanResult V)
        → All (Carried p) recs
        → write_frames p recs ≡ some bs
        → log ≡ pre ++ (bs ++ rest)
        → pos ≡ length pre
        → acc.tear_at ≡ none
        → (acc' : ScanResult V) × After acc acc' recs
          × (read_loop p (length recs + fuel) log pos acc
              ≡ read_loop p fuel log (pos + length bs) acc')
    unfolding read_loop push write_frames
    read_loop-frames [] bs pre rest log pos fuel acc c w e at clean =
        let empty : bs ≡ [] = ground arith in
        let same : pos + length bs ≡ pos = omega (arith, ap length empty) in
        (
          acc,
          record { records = rw append-nil; tear_at = clean; recovered = refl },
          rw (zero-add, same),
        )
    read_loop-frames (rec ∷ recs) bs pre rest log pos fuel acc c w e at clean =
        let (b, cs, eb, ec, split) = write_frames_parts rec recs w in
        let acc1 : ScanResult V = push acc rec pos (pos + length b) in
        let whole : log ≡ pre ++ (b ++ (cs ++ rest)) = rw (e, split, append_assoc b cs rest) in
        let whole1 : log ≡ (pre ++ b) ++ (cs ++ rest) =
          rw (whole, append_assoc pre b (cs ++ rest)) in
        let size : length bs ≡ length b + length cs =
          omega (arith, ap length split, length-append b cs) in
        let (acc', after, go) =
          read_loop-frames recs cs (pre ++ b) rest log (pos + length b) fuel acc1 c.1 ec whole1
            (omega (arith, length-append pre b)) clean in
        let parsed : parse_frame p log pos ≡ some (rec, pos + length b) =
          rw whole (parse_frame-frame p laws rec pre b (cs ++ rest) pos c.0 eb at) in
        let room : pos + header_size ≤ length log = omega (
          arith,
          ap length whole,
          length-append pre (b ++ (cs ++ rest)),
          length-append b (cs ++ rest),
          frame-size p rec eb,
        ) in
        let fuel1 : suc (length recs) + fuel ≡ suc (length recs + fuel) = omega arith in
        let end : pos + length bs ≡ pos + length b + length cs = omega arith in
        (
          acc',
          After-push pos (pos + length b) clean after,
          rw (fuel1, le→ltb (length log) (pos + header_size) room, parsed, end) go,
        )

    -- Under the laws of pickle, a scan of what the rewriting loop wrote for a list of
    -- records, each of them plain or carried as the salvage found it, returns exactly these
    -- records in order, with no tear and nothing recovered.
    pub read_records-write_frames :
        (recs : List (Record V)) {log : Bytes}
        → All (Carried p) recs
        → write_frames p recs ≡ some log
        → (res : ScanResult V) × (read_records p log ≡ some res)
          × (res.records ≡ recs)
          × (res.tear_at ≡ none)
          × (res.recovered ≡ 0)
    unfolding read_records read_loop
    read_records-write_frames recs {log} c w =
        let f : ℕ = length log - length recs in
        let fuel : length log + 1 ≡ length recs + suc f =
          omega (arith, length-write_frames recs w) in
        let (acc', after, go) =
          read_loop-frames recs log [] [] log 0 (suc f) no_records c w (rw append-nil) refl refl in
        let past : length log < 0 + length log + header_size = omega arith in
        (
          acc',
          rw (fuel, go, lt→ltb (length log) (0 + length log + header_size) past),
          after.records,
          after.tear_at,
          after.recovered,
        )

    -- Under the laws of pickle, whatever bytes stand behind written frames, torn or not, a
    -- scan of the whole returns a result whose records begin with the records of these
    -- frames.
    pub read_records-append :
        (recs : List (Record V)) (junk : Bytes) {bs : Bytes}
        → All (Carried p) recs
        → write_frames p recs ≡ some bs
        → (res : ScanResult V) × (read_records p (bs ++ junk) ≡ some res)
          × ((later : List (Record V)) × (res.records ≡ recs ++ later))
    unfolding read_records
    read_records-append recs junk {bs} c w =
        let log = bs ++ junk in
        let (res, total) = read_records_total p log in
        let f : ℕ = length log + 1 - length recs in
        let fuel : length log + 1 ≡ length recs + f =
          omega (arith, length-write_frames recs w, length-append bs junk) in
        let (acc', after, go) =
          read_loop-frames recs bs [] junk log 0 f no_records c w refl refl refl in
        let (later, e) =
          read_loop-extends f log (0 + length bs) acc' {res = res} (sym go ∙ rw (← fuel) total) in
        (res, total, (later, e ∙ rw after.records))
