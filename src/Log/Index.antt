-- ===== src/Log/Index.antt =====
-- emboss/_log_cache.py: `_PackedIndex` and the build of `_ensure_index`.
-- A digest is the number that its 16 bytes spell, so that the order of bytes is the order of
-- numbers. The packed array is the list of the entries that its 30-byte slots hold;
-- that their fields are too narrow for some entry, which raises, is left out.
pub mod Search
pub mod Merge
pub mod Lookup
use emboss.Prelude.{
  ℕ, zero, suc, ◌+◌, ◌-◌, ◌/◌, String, Bool, true, false, ◌&&◌, not, Option, none, some, List, [],
  ◌∷◌, ◌++◌, ltb, leb, length, get_elem?, keep_if, map, if◌then◌else◌,
}
use native.Mathlib.Decide.{ℕ_discrete}
use emboss.Prelude.Dict.{Dict, get, put}
use emboss.Prelude.Sort.{sorted_by}
use emboss.Log.Record.{Record}
use emboss.Log.Scan.{ScanResult}

-- `(log name, offset, length)` of a frame
pub record Location : Type 0 where
  pub log_name : String
  pub offset : ℕ
  pub len : ℕ

pub record Entry : Type 0 where
  pub digest : ℕ
  pub log_id : ℕ
  pub len : ℕ
  pub offset : ℕ

-- A value of the overlay: `_DELETED`, or the location of an own write.
pub data Slot : Type 0 where
  deleted_token : Slot
  written : Location → Slot

pub record PackedIndex : Type 0 where
  pub logs : List String
  pub entries : List Entry
  pub overlay : Dict ℕ Slot

-- The binary search of `lookup` for the entry with `digest` in `[lo, hi)`.
unfoldable pub bisect : ℕ → List Entry → ℕ → ℕ → ℕ → Option Entry
bisect zero entries digest lo hi = none
bisect (suc fuel) entries digest lo hi =
    let mid = (lo + hi) / 2 in
    let right = bisect fuel entries digest (mid + 1) hi in
    let left = bisect fuel entries digest lo mid in
    let probe : Option Entry = elim (get_elem? entries mid) [
      | none ↦ none
      | some cur ↦
          if ltb cur.digest digest then right else if ltb digest cur.digest then left else some cur
    ] in
    if ltb lo hi then probe else none

location_of : List String → Entry → Option Location
location_of logs entry = elim (get_elem? logs entry.log_id) [
  | none ↦ none
  | some name ↦ some (record { log_name = name; offset = entry.offset; len = entry.len })
]

unfoldable pub packed_lookup : List String → Option Entry → Option Location
unfolding location_of
packed_lookup logs none = none
packed_lookup logs (some entry) = location_of logs entry

unfoldable pub lookup : PackedIndex → ℕ → Option Location
unfolding bisect packed_lookup
lookup index digest = elim (get ℕ_discrete digest index.overlay) [
  | some deleted_token ↦ none
  | some (written location) ↦ some location
  | none ↦
      packed_lookup index.logs
        (bisect (length index.entries + 1) index.entries digest 0 (length index.entries))
]

-- `_live`, of a record that is there
unfoldable pub live : {V : Type 0} → Record V → ℕ → Bool
live rec now = not rec.deleted && elim rec.expire_time [ none ↦ true | some t ↦ leb now t ]

-- `(store_time, live, log id, offset, length)`
pub record Merged : Type 0 where
  pub store_time : ℕ
  pub is_live : Bool
  pub log_id : ℕ
  pub offset : ℕ
  pub len : ℕ

module _ {V : Type 0} (digest_of : String → ℕ) (now : ℕ) where
  -- One round of the merge: an older record of the digest leaves the winner in place.
  unfoldable pub merge_record : Dict ℕ Merged → ℕ → Record V → ℕ → ℕ → Dict ℕ Merged
  unfolding live
  merge_record merge log_id rec start end =
      let digest = digest_of rec.key in
      let merged =
        put ℕ_discrete digest
          (record {
            store_time = rec.store_time;
            is_live = live rec now;
            log_id = log_id;
            offset = start;
            len = end - start;
          })
          merge in
      elim (get ℕ_discrete digest merge) [
        | none ↦ merged
        | some prev ↦ if ltb rec.store_time prev.store_time then merge else merged
      ]

  -- `zip(scan.records, scan.spans, strict=True)`
  unfoldable pub merge_log : Dict ℕ Merged → ℕ → List (Record V) → List (ℕ × ℕ) → Dict ℕ Merged
  unfolding merge_record
  merge_log merge log_id (rec ∷ recs) ((start, end) ∷ spans) =
      merge_log (merge_record merge log_id rec start end) log_id recs spans
  merge_log merge log_id _ _ = merge

  -- The readable logs, in the order of their names.
  unfoldable pub merge_logs : Dict ℕ Merged → ℕ → List (String × ScanResult V) → Dict ℕ Merged
  unfolding merge_log
  merge_logs merge log_id [] = merge
  merge_logs merge log_id ((name, scan) ∷ logs) =
      merge_logs (merge_log merge log_id scan.records scan.spans) (log_id + 1) logs

entry_of : ℕ × Merged → Entry
entry_of (digest, m) = record { digest = digest; log_id = m.log_id; len = m.len; offset = m.offset }

-- The live winners, sorted by digest.
unfoldable pub pack_entries : Dict ℕ Merged → List Entry
unfolding entry_of
pack_entries merge = map entry_of (
    keep_if (λ (item : ℕ × Merged). item.1.is_live)
      (sorted_by (λ (item : ℕ × Merged). item.0) merge))

unfoldable pub build_index :
    {V : Type 0} → (String → ℕ) → ℕ → List (String × ScanResult V) → PackedIndex
unfolding merge_logs pack_entries
build_index digest_of now logs = record {
  logs = map (λ l. l.0) logs;
  entries = pack_entries (merge_logs digest_of now [] 0 logs);
  overlay = [];
}
