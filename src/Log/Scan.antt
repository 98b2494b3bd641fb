-- ===== src/Log/Scan.antt =====
-- emboss/_log_cache.py: `_resync` and `_read_records`, the scan of a whole log.
pub mod Laws
pub mod Recovery
pub mod Locations
pub mod Resync
use emboss.Prelude.{
  ℕ, zero, suc, ◌+◌, ◌-◌, Bool, ◌&&◌, Option, none, some, List, [], ◌∷◌, ◌++◌, ltb, ◌==◌, length,
  drop, is_some, if◌then◌else◌,
}
use emboss.Log.Record.{Bytes, Record, Pickle}
use emboss.Log.Frame.{header_size, parse_frame}

-- `_PROTO`
abbrev pub proto : ℕ
proto = 0x80

pub record ScanResult (V : Type 0) : Type 0 where
  pub records : List (Record V)
  pub spans : List (ℕ × ℕ)
  pub tear_at : Option ℕ
  pub recovered : ℕ

-- `if tear_at is not None: recovered += 1`
abbrev pub count_recovered : Option ℕ → ℕ → ℕ
count_recovered none n = n
count_recovered (some _) n = n + 1

-- `if tear_at is None: tear_at = pos`
abbrev pub first_tear : Option ℕ → ℕ → Option ℕ
first_tear none pos = some pos
first_tear (some t) pos = some t

module _ {V : Type 0} where
  abbrev pub no_records : ScanResult V
  no_records = record { records = []; spans = []; tear_at = none; recovered = 0 }

  -- The body of the loop for a parsed frame.
  unfoldable pub push : ScanResult V → Record V → ℕ → ℕ → ScanResult V
  push acc rec pos end = record acc {
    records = acc.records ++ rec ∷ [];
    spans = acc.spans ++ (pos, end) ∷ [];
    recovered = count_recovered acc.tear_at acc.recovered;
  }

  unfoldable pub mark_tear : ScanResult V → ℕ → ScanResult V
  mark_tear acc pos = record acc { tear_at = first_tear acc.tear_at pos }

module _ {V : Type 0} (p : Pickle V) where
  -- The loop of `_resync`: `tail` is the log from `idx` on, and every PROTO byte in it is tried.
  unfoldable pub resync_from : Bytes → ℕ → Bytes → ℕ → Option ℕ
  resync_from log after [] idx = none
  resync_from log after (x ∷ tail) idx =
      let rest = resync_from log after tail (idx + 1) in
      let frame_start = idx - header_size in
      if x == proto && (ltb after frame_start && is_some (parse_frame p log frame_start))
      then some frame_start
      else rest

  unfoldable pub resync : Bytes → ℕ → Option ℕ
  unfolding resync_from
  resync log after =
      let search_from = after + header_size + 1 in
      resync_from log after (drop search_from log) search_from

  -- The `while` of `_read_records`; `none` means that the fuel ran out.
  unfoldable pub read_loop : ℕ → Bytes → ℕ → ScanResult V → Option (ScanResult V)
  read_loop zero log pos acc = none
  read_loop (suc fuel) log pos acc =
      let step : Option (ScanResult V) = elim (parse_frame p log pos) [
        | some (rec, end) ↦ read_loop fuel log end (push acc rec pos end)
        | none ↦ elim (resync log pos) [
          | none ↦ some (mark_tear acc pos)
          | some nxt ↦ read_loop fuel log nxt (mark_tear acc pos)
        ]
      ] in
      if ltb (length log) (pos + header_size) then some acc else step

  -- Every round moves forward by a byte at least, so the length is fuel enough.
  unfoldable pub read_records : Bytes → Option (ScanResult V)
  unfolding read_loop
  read_records log = read_loop (length log + 1) log 0 no_records
