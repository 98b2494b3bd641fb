-- ===== src/Log/Scan/Laws.antt =====
-- emboss/_log_cache.py: the fuel of the scan in `_read_records`, and the progress of `_resync`.
use emboss.Prelude.{
  ℕ, zero, suc, ◌+◌, ◌≤◌, ◌<◌, ◌≡◌, true, inl, inr, some, [], ◌∷◌, arith, ltb, length, drop,
  Bool-cases, Option-cases, is_some,
}
use emboss.Log.Record.{Bytes, Record, Pickle}
use emboss.Log.Frame.{header_size, parse_frame}
use emboss.Log.Frame.Laws.{parse_frame_parts}
use emboss.Log.Scan.{
  ScanResult, no_records, push, mark_tear, resync_from, resync, read_loop, read_records,
}

module _ {V : Type 0} (p : Pickle V) where
  resync_from-lt :
      (log : Bytes) (after : ℕ) (tail : Bytes) (idx : ℕ) {nxt : ℕ}
      → resync_from p log after tail idx ≡ some nxt
      → (after < nxt) × (is_some (parse_frame p log nxt) ≡ true)
  unfolding resync_from
  resync_from-lt log after [] idx {nxt} h = cc
  resync_from-lt log after (x ∷ tail) idx {nxt} h =
      ground (arith, resync_from-lt log after tail (idx + 1) {nxt = nxt})

  -- A resync lands on a frame that parses, strictly past the torn one.
  pub resync_lem :
      (log : Bytes) (after : ℕ) {nxt : ℕ}
      → resync p log after ≡ some nxt
      → (after < nxt) × (is_some (parse_frame p log nxt) ≡ true)
  unfolding resync
  resync_lem log after h =
      resync_from-lt log after (drop (after + header_size + 1) log) (after + header_size + 1) h

  -- A frame that parses lies inside the log.
  parse_frame-le :
      (log : Bytes) (pos : ℕ) {rec : Record V} {end : ℕ}
      → parse_frame p log pos ≡ some (rec, end)
      → (pos + header_size ≤ end) × (end ≤ length log)
  parse_frame-le log pos h =
      let (len, header, e, fits, decoded) = parse_frame_parts p log pos h in omega arith

  resync-le : (log : Bytes) (after : ℕ) {nxt : ℕ} → resync p log after ≡ some nxt → nxt ≤ length log
  resync-le log after {nxt} h = elim (Option-cases (parse_frame p log nxt)) [
    | inl torn ↦ absurd (ground (arith, resync_lem log after h))
    | inr ((rec, end), parsed) ↦ omega (arith, parse_frame-le log nxt parsed)
  ]

  -- Enough fuel: from a position in the log, one more round than bytes are left.
  read_loop_total :
      (fuel : ℕ) (log : Bytes) (pos : ℕ) (acc : ScanResult V)
      → pos ≤ length log
      → length log < pos + fuel
      → (res : ScanResult V) × (read_loop p fuel log pos acc ≡ some res)
  unfolding read_loop
  read_loop_total zero log pos acc inside h = absurd (omega arith)
  read_loop_total (suc fuel) log pos acc inside h =
      elim (Bool-cases (ltb (length log) (pos + header_size))) [
        | inl done ↦ (acc, rw done)
        | inr more ↦ elim (Option-cases (parse_frame p log pos)) [
          | inr ((rec, end), parsed) ↦
              let bounds = parse_frame-le log pos parsed in
              let (res, e) =
                read_loop_total fuel log end (push acc rec pos end) bounds.1 (omega arith) in
              (res, rw (more, parsed) e)
          | inl torn ↦ elim (Option-cases (resync p log pos)) [
            | inl lost ↦ (mark_tear acc pos, rw (more, torn, lost))
            | inr (nxt, found) ↦
                let (res, e) =
                  read_loop_total fuel log nxt (mark_tear acc pos) (resync-le log pos found)
                    (omega (arith, resync_lem log pos found)) in
                (res, rw (more, torn, found) e)
          ]
        ]
      ]

  -- The scan of any bytes ends with a result: the length of the log is fuel enough.
  pub read_records_total : (log : Bytes) → (res : ScanResult V) × (read_records p log ≡ some res)
  unfolding read_records
  read_records_total log =
      read_loop_total (length log + 1) log 0 no_records (omega arith) (omega arith)
