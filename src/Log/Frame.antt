-- ===== src/Log/Frame.antt =====
-- emboss/_log_cache.py: `_frame`, `_salvage_opaque` and `_parse_frame`.
pub mod Laws
use emboss.Prelude.{
  ℕ, ◌+◌, ◌*◌, ◌/◌, ◌%◌, ◌<◌, ◌≡◌, Bool, true, false, Option, none, some, List, [], ◌∷◌, ◌++◌,
  String, ltb, ◌==◌, not, length, slice, if◌then◌else◌,
}
use mathlib.Core.Option
use emboss.Log.Record.{
  Bytes, Obj, Content, plain, opaque, Record, Pickle, valid_envelope, envelope, record_from,
  as_tuple,
}

-- `_HEADER.size`
abbrev pub header_size : ℕ
header_size = 4

-- `_HEADER.pack`: four bytes, the highest first; `struct.error` past 32 bits.
unfoldable pub pack : ℕ → Option Bytes
pack n =
    if ltb n 4294967296
    then some (n / 16777216 % 256 ∷ n / 65536 % 256 ∷ n / 256 % 256 ∷ n % 256 ∷ [])
    else none

-- `_HEADER.unpack` of four bytes
unfoldable pub unpack : Bytes → ℕ
unpack (a ∷ b ∷ c ∷ d ∷ []) = a * 16777216 + b * 65536 + c * 256 + d
unpack _ = 0

module _ {V : Type 0} (p : Pickle V) where
  -- The blob that the frame of a record carries.
  unfoldable pub content_blob : Record V → Content V → Bytes
  content_blob rec (opaque blob missing) = blob
  content_blob rec (plain value) = p.dumps (as_tuple rec value)

  abbrev pub blob_of : Record V → Bytes
  blob_of rec = content_blob rec rec.value

  unfoldable pub frame : Record V → Option Bytes
  unfolding content_blob pack
  frame rec = let blob = blob_of rec in Option.map (λ header. header ++ blob) (pack (length blob))

  -- `not missing`
  unfoldable pub no_names : List String → Bool
  no_names [] = true
  no_names (x ∷ xs) = false

  unfoldable pub salvaged : Bytes → Obj V → ℕ → List String → Option (Record V)
  unfolding no_names
  salvaged blob obj consumed missing =
      if not (consumed == length blob)
      then none
      else if no_names missing
      then none
      else if not (valid_envelope obj)
      then none
      else envelope obj (λ _. opaque blob missing)

  unfoldable pub salvage_opaque : Bytes → Option (Record V)
  unfolding salvaged
  salvage_opaque blob = elim (p.salvage_load blob) [
    | none ↦ none
    | some (obj, consumed, missing) ↦ salvaged blob obj consumed missing
  ]

  -- A record with the end of its frame.
  abbrev pub ending : ℕ → Option (Record V) → Option (Record V × ℕ)
  ending end none = none
  ending end (some rec) = some (rec, end)

  -- What a blob of the announced length decodes to: strictly, or salvaged if the load raises.
  unfoldable pub decode_blob : Bytes → ℕ → Option (Record V)
  decode_blob blob len = elim (p.load blob) [
    | none ↦ salvage_opaque blob
    | some (obj, consumed) ↦ if not (consumed == len) then none else record_from obj
  ]

  unfoldable pub parse_frame : Bytes → ℕ → Option (Record V × ℕ)
  parse_frame log pos =
      if ltb (length log) (pos + header_size)
      then none
      else let len = unpack (slice log pos (pos + header_size)) in
        let blob_start = pos + header_size in
        let blob_end = blob_start + len in
        if ltb (length log) blob_end
        then none
        else ending blob_end (decode_blob (slice log blob_start blob_end) len)

  abbrev joined : Option Bytes → Option Bytes → Option Bytes
  joined none rest = none
  joined (some bs) none = none
  joined (some bs) (some cs) = some (bs ++ cs)

  -- `for rec in keep: out.write(_frame(rec))`, into an empty file
  unfoldable pub write_frames : List (Record V) → Option Bytes
  unfolding frame
  write_frames [] = some []
  write_frames (rec ∷ recs) = joined (frame rec) (write_frames recs)
