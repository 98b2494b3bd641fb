-- ===== src/Log/Compact/Rewrite.antt =====
-- emboss/_log_cache.py: the scan of a log that `_compact_prefix` has written.
use emboss.Prelude.{
  ℕ, zero, suc, ◌+◌, ◌≡◌, ap, sym, ◌∙◌, String, Bool, true, false, not, inl, inr, Bool-cases,
  Option-cases, Option, none, some, List, [], ◌∷◌, ◌++◌, arith, length, slice, All, ltb, ◌==◌,
  if◌then◌else◌,
}
use mathlib.Core.Path.{subst}
use mathlib.Core.Option.{some-injective}
use emboss.Prelude.Dict.{get, str_dec, get-put_self}
use emboss.Log.Record.{
  Bytes, Py, tup, atom, Obj, Content, plain, opaque, Record, Pickle, IsPickle, valid_envelope,
  envelope, record_from,
}
use emboss.Log.Frame.{
  header_size, parse_frame, decode_blob, salvage_opaque, salvaged, write_frames, no_names,
}
use emboss.Log.Frame.Laws.{Carried, CarriedAs, parse_frame_parts}
use emboss.Log.Scan.{ScanResult, no_records, push, mark_tear, resync, read_loop, read_records}
use emboss.Log.Scan.Recovery.{read_records-write_frames}
use emboss.Log.Shard.{readable, Env, Shard}
use emboss.Log.Compact.{kept, compact_prefix}
use emboss.Log.Compact.Kept.{kept-All}

module _ {V : Type 0} (p : Pickle V) where
  envelope-value :
      (obj : Obj V) (content : Py V → Content V) {rec : Record V}
      → envelope obj content ≡ some rec
      → (value : Py V) × (rec.value ≡ content value)
  unfolding envelope
  envelope-value (tup (a ∷ b ∷ c ∷ d ∷ e ∷ f ∷ [])) content h =
      (b, ap (λ (r : Record V). r.value) (sym (some-injective _ _ h)))
  envelope-value (atom x) content h = cc
  envelope-value (tup ([])) content h = cc
  envelope-value (tup (a ∷ [])) content h = cc
  envelope-value (tup (a ∷ b ∷ [])) content h = cc
  envelope-value (tup (a ∷ b ∷ c ∷ [])) content h = cc
  envelope-value (tup (a ∷ b ∷ c ∷ d ∷ [])) content h = cc
  envelope-value (tup (a ∷ b ∷ c ∷ d ∷ e ∷ [])) content h = cc
  envelope-value (tup (a ∷ b ∷ c ∷ d ∷ e ∷ f ∷ g ∷ xs)) content h = cc

  Carried-as : (rec : Record V) (c : Content V) → rec.value ≡ c → CarriedAs p rec c → Carried p rec
  Carried-as rec c e h = subst (CarriedAs p rec) (sym e) h

  unless :
      {A : Type 0} (b : Bool) {x : Option A} {a : A} → (if b then none else x) ≡ some a → x ≡ some a
  unless true h = cc
  unless false h = h

  whenever :
      {A : Type 0} (b : Bool) {x : Option A} {a : A} → (if b then x else none) ≡ some a → x ≡ some a
  whenever true h = h
  whenever false h = cc

  salvaged-value :
      (blob : Bytes) (obj : Obj V) (consumed : ℕ) (missing : List String) {rec : Record V}
      → salvaged p blob obj consumed missing ≡ some rec
      → rec.value ≡ opaque blob missing
  unfolding salvaged
  salvaged-value blob obj consumed missing h =
      (envelope-value obj (λ _. opaque blob missing)
        (unless (not (valid_envelope obj))
          (unless (no_names p missing) (unless (not (consumed == length blob)) h)))).1

  salvage_opaque-Carried :
      (blob : Bytes) {rec : Record V}
      → p.load blob ≡ none
      → salvage_opaque p blob ≡ some rec
      → Carried p rec
  unfolding salvage_opaque
  salvage_opaque-Carried blob {rec} unloaded h = elim (Option-cases (p.salvage_load blob)) [
    | inl lost ↦ absurd (ground (arith, lost, h))
    | inr ((obj, consumed, missing), loaded) ↦
        let value = salvaged-value blob obj consumed missing (rw (loaded, salvage_opaque) at h) in
        Carried-as rec (opaque blob missing) value
          (unloaded, h ∙ ap (λ (c : Content V). some (record rec { value = c })) value)
  ]

  decode_blob-Carried :
      (blob : Bytes) (len : ℕ) {rec : Record V} → decode_blob p blob len ≡ some rec → Carried p rec
  unfolding decode_blob
  decode_blob-Carried blob len {rec} h = elim (Option-cases (p.load blob)) [
    | inl unloaded ↦ salvage_opaque-Carried blob unloaded (rw (unloaded, decode_blob) at h)
    | inr ((obj, consumed), loaded) ↦
        let whole = unless (not (consumed == len)) (rw (loaded, decode_blob) at h) in
        let valid : (if valid_envelope obj then envelope obj plain else none) ≡ some rec =
          unfold record_from in whole in
        let (value, e) = envelope-value obj plain (whenever (valid_envelope obj) valid) in
        Carried-as rec (plain value) e tt
  ]

  parse_frame-Carried :
      (log : Bytes) (pos : ℕ) {rec : Record V} {end : ℕ}
      → parse_frame p log pos ≡ some (rec, end)
      → Carried p rec
  parse_frame-Carried log pos h =
      let (len, size, stop, within, decoded) = parse_frame_parts p log pos h in
      decode_blob-Carried (slice log (pos + header_size) _) len decoded

  All-snoc :
      (recs : List (Record V)) (rec : Record V)
      → All (Carried p) recs
      → Carried p rec
      → All (Carried p) (recs ++ rec ∷ [])
  All-snoc [] rec h c = (c, tt)
  All-snoc (r ∷ recs) rec h c = (h.0, All-snoc recs rec h.1 c)

  read_loop-Carried :
      (fuel : ℕ) (log : Bytes) (pos : ℕ) (acc : ScanResult V) {res : ScanResult V}
      → All (Carried p) acc.records
      → read_loop p fuel log pos acc ≡ some res
      → All (Carried p) res.records
  unfolding read_loop push mark_tear
  read_loop-Carried zero log pos acc l h = cc
  read_loop-Carried (suc fuel) log pos acc {res} l h =
      elim (Bool-cases (ltb (length log) (pos + header_size))) [
        | inl done ↦
            subst (λ (r : ScanResult V). All (Carried p) r.records)
              (some-injective acc res (rw done at h)) l
        | inr more ↦ elim (Option-cases (parse_frame p log pos)) [
          | inr ((rec, end), parsed) ↦
              read_loop-Carried fuel log end (push acc rec pos end)
                (All-snoc acc.records rec l (parse_frame-Carried log pos parsed))
                (rw (more, parsed) at h)
          | inl torn ↦ elim (Option-cases (resync p log pos)) [
            | inl lost ↦
                subst (λ (r : ScanResult V). All (Carried p) r.records)
                  (some-injective (mark_tear acc pos) res (rw (more, torn, lost) at h)) l
            | inr (nxt, found) ↦
                read_loop-Carried fuel log nxt (mark_tear acc pos) l (rw (more, torn, found) at h)
          ]
        ]
      ]

  -- The records of a scan can be written again: they are plain or carry their blobs.
  pub read_records-Carried :
      (log : Bytes) {res : ScanResult V}
      → read_records p log ≡ some res
      → All (Carried p) res.records
  unfolding read_records
  read_records-Carried log h = read_loop-Carried (length log + 1) log 0 no_records tt h

module _ {V : Type 0} (env : Env V) (spill_size : String → ℕ) where
  compacted :
      (limit : Option ℕ) (shard : Shard) (now : ℕ) {after : Shard} {bytes : Bytes}
      {scan : ScanResult V}
      → get str_dec env.log_name shard.logs ≡ some (readable bytes)
      → read_records env.pickle bytes ≡ some scan
      → compact_prefix env spill_size limit shard now ≡ some after
      → (out : Bytes) × (write_frames env.pickle (kept env spill_size limit now scan.records)
          ≡ some out)
        × (get str_dec env.log_name after.logs ≡ some (readable out))
  unfolding compact_prefix
  compacted limit shard now {after} {bytes} {scan} own scanned done =
      elim (Option-cases (write_frames env.pickle (kept env spill_size limit now scan.records))) [
        | inl over ↦ absurd (ground (arith, own, scanned, over, done))
        | inr (out, written) ↦
            let same = some-injective _ _ (rw (own, compact_prefix, scanned, written) at done) in
            (
              out,
              written,
              subst (λ (s : Shard). get str_dec env.log_name s.logs ≡ some (readable out)) same
                  (get-put_self str_dec env.log_name (readable out) shard.logs),
            )
      ]

  -- Under the laws of pickle, with or without a size limit: if a compaction of a prefix with
  -- a readable own log succeeds, then the own log afterwards holds bytes whose scan has no
  -- tear and gives exactly the records that were kept of the scan of the old log, in the
  -- order in which they were kept, those whose value cannot be decoded here included.
  pub compact_prefix-kept :
      (limit : Option ℕ) (shard : Shard) (now : ℕ) (after : Shard) (bytes : Bytes)
      (scan : ScanResult V)
      → IsPickle env.pickle
      → get str_dec env.log_name shard.logs ≡ some (readable bytes)
      → read_records env.pickle bytes ≡ some scan
      → compact_prefix env spill_size limit shard now ≡ some after
      → (out : Bytes) × (res : ScanResult V) × (get str_dec env.log_name after.logs
          ≡ some (readable out))
        × (read_records env.pickle out ≡ some res)
        × (res.records ≡ kept env spill_size limit now scan.records)
        × (res.tear_at ≡ none)
  compact_prefix-kept limit shard now after bytes scan laws own scanned done =
      let (out, written, there) = compacted limit shard now own scanned done in
      let carried =
        kept-All (Carried env.pickle) env spill_size limit now scan.records
          (read_records-Carried env.pickle bytes scanned) in
      let (res, reads, same, whole, none_recovered) =
        read_records-write_frames env.pickle laws (kept env spill_size limit now scan.records)
          carried written in
      (out, res, there, reads, same, whole)
