-- ===== src/Log/Frame/Laws.antt =====
-- emboss/_log_cache.py: `_frame` and `_parse_frame`, one frame in its log.
use emboss.Prelude.{
  ℕ, ◌+◌, ◌-◌, ◌≤◌, ◌≡◌, refl, ap, none, some, ◌++◌, arith, length, drop, slice, length-append,
  length-take, length-drop, take-length, drop-append, slice-append, slice-slice, le→ltb,
  Option-cases, inl, inr, append_assoc,
}
use emboss.Log.Record.{
  Bytes, Content, plain, opaque, Record, Pickle, IsPickle, as_tuple, record_from-as_tuple,
}
use emboss.Log.Frame.{
  header_size, pack, unpack, content_blob, blob_of, frame, salvage_opaque, decode_blob, parse_frame,
}

pub unpack-pack : (n : ℕ) {h : Bytes} → pack n ≡ some h → (unpack h ≡ n) × (length h ≡ header_size)
unfolding pack unpack
unpack-pack n e = ground arith

module _ {V : Type 0} (p : Pickle V) where
  -- An opaque record carries the blob that it was salvaged from, which does not load strictly.
  abbrev pub CarriedAs : Record V → Content V → Type 0
  CarriedAs rec (plain value) = Unit
  CarriedAs rec (opaque blob missing) =
      (p.load blob ≡ none)
      × (salvage_opaque p blob ≡ some (record rec { value = opaque blob missing }))

  abbrev pub Carried : Record V → Type 0
  Carried rec = CarriedAs rec rec.value

  -- A parse that succeeds, taken apart.
  pub parse_frame_parts :
      (log : Bytes) (pos : ℕ) {rec : Record V} {end : ℕ}
      → parse_frame p log pos ≡ some (rec, end)
      → (len : ℕ) × (unpack (slice log pos (pos + header_size)) ≡ len)
        × (end ≡ pos + header_size + len)
        × (end ≤ length log)
        × (decode_blob p (slice log (pos + header_size) end) len ≡ some rec)
  unfolding parse_frame
  parse_frame_parts log pos {rec} {end} h =
      (unpack (slice log pos (pos + header_size)), refl, ground arith, ground arith, ground arith)

  pub parse_frame_intro :
      (log : Bytes) (pos len end : ℕ) {rec : Record V}
      → unpack (slice log pos (pos + header_size)) ≡ len
      → end ≡ pos + header_size + len
      → end ≤ length log
      → decode_blob p (slice log (pos + header_size) end) len ≡ some rec
      → parse_frame p log pos ≡ some (rec, end)
  unfolding parse_frame
  parse_frame_intro log pos len end header e fits decoded =
      rw (le→ltb (length log) (pos + header_size) (omega arith), header, ← e)
        (rw (le→ltb (length log) end fits, decoded))

  -- Re-reading exactly the bytes of a frame parses the same record, and consumes them all.
  pub parse_frame-slice :
      (log : Bytes) (pos : ℕ) {rec : Record V} {end : ℕ}
      → parse_frame p log pos ≡ some (rec, end)
      → parse_frame p (slice log pos end) 0 ≡ some (rec, end - pos)
  parse_frame-slice log pos {rec} {end} h =
      let (len, header, e, fits, decoded) = parse_frame_parts log pos h in
      parse_frame_intro (slice log pos end) 0 len (end - pos)
        (rw
          (slice-slice log pos end 0 (0 + header_size) pos (pos + header_size) (omega arith)
            (omega arith) (omega arith) (omega arith))
          header)
        (omega arith) (omega (arith, length-take (end - pos) (drop pos log), length-drop pos log))
        (rw
          (slice-slice log pos end (0 + header_size) (end - pos) (pos + header_size) end
            (omega arith) (omega arith) (omega arith) (omega arith))
          decoded)

  frame_parts :
      (rec : Record V) {bs : Bytes}
      → frame p rec ≡ some bs
      → (h : Bytes) × (pack (length (blob_of p rec)) ≡ some h) × (bs ≡ h ++ blob_of p rec)
  unfolding frame
  frame_parts rec written = elim (Option-cases (pack (length (blob_of p rec)))) [
    | inl over ↦ absurd (ground arith)
    | inr (h, packed) ↦ (h, packed, ground arith)
  ]

  pub frame-size : (rec : Record V) {bs : Bytes} → frame p rec ≡ some bs → header_size ≤ length bs
  frame-size rec written =
      let (h, packed, e) = frame_parts rec written in
      omega (
        arith,
        ap length e,
        (unpack-pack (length (blob_of p rec)) packed).1,
        length-append h (blob_of p rec),
      )

  module _ (laws : IsPickle p) where
    decode_blob_content :
        (rec : Record V) (content : Content V)
        → CarriedAs rec content
        → decode_blob p (content_blob p rec content) (length (content_blob p rec content))
          ≡ some (record rec { value = content })
    unfolding decode_blob content_blob
    decode_blob_content rec (plain value) c =
        ground (arith, laws.load-dumps (as_tuple rec value), record_from-as_tuple rec value)
    decode_blob_content rec (opaque blob missing) c = ground arith

    -- Under the laws of pickle, the frame of a record, which is plain or carried as the
    -- salvage found it, parses back to the record and to the end of the frame, whatever
    -- bytes stand before and behind it.
    pub parse_frame-frame :
        (rec : Record V) (pre bs rest : Bytes) (pos : ℕ)
        → Carried rec
        → frame p rec ≡ some bs
        → pos ≡ length pre
        → parse_frame p (pre ++ (bs ++ rest)) pos ≡ some (rec, pos + length bs)
    parse_frame-frame rec pre bs rest pos c written at =
        let (h, packed, e) = frame_parts rec written in
        let (header, size) = unpack-pack (length (blob_of p rec)) packed in
        let blob = blob_of p rec in
        let total : length bs ≡ header_size + length blob =
          omega (arith, ap length e, length-append h blob) in
        let split : bs ++ rest ≡ h ++ (blob ++ rest) = rw e (append_assoc h blob rest) in
        parse_frame_intro (pre ++ (bs ++ rest)) pos (length blob) (pos + length bs)
          (rw
            (
              slice-append pre (bs ++ rest) 0 header_size pos (pos + header_size) (omega arith)
                  (omega arith),
              split,
              take-length header_size h (blob ++ rest) (omega arith),
            )
            header)
          (omega arith) (omega (arith, length-append pre (bs ++ rest), length-append bs rest))
          (rw
            (
              slice-append pre (bs ++ rest) header_size (length bs) (pos + header_size)
                  (pos + length bs) (omega arith) (omega arith),
              split,
              drop-append h (blob ++ rest) header_size 0 (omega arith),
              take-length (length bs - header_size) blob rest (omega arith),
            )
            (decode_blob_content rec rec.value c))
