-- ===== src/Log/Shard.antt =====
-- emboss/_log_cache.py: one prefix of a `LogCache`, its reads and its appends: `_ensure_index`,
-- `_read_verified`, `_shard_get`, `get`, `_append`, `_fold_own_append`, `delete`, and `set` up to
-- its append; Consolidate/Trigger has the rest of `set` and the flag for legacy layouts. Lock files and
-- warnings are left out.
-- A prefix is its `*.log` files by name and what the process holds in memory.
pub mod OwnWrites
use emboss.Prelude.{
  ℕ, zero, suc, ◌+◌, ◌-◌, ◌<◌, String, Bool, true, false, not, ◌&&◌, ◌||◌, Option, none, some, List,
  [], ◌∷◌, ◌++◌, length, slice, ltb, leb, ◌==◌, str_eq, is_some, if◌then◌else◌,
}
use Prim.Native.Nat.{Ordering}
use Prim.Native.String
use native.Mathlib.Decide.{ℕ_discrete}
use emboss.Prelude.Dict.{Dict, get, put, str_dec}
use emboss.Log.Record.{Bytes, Py, null, Content, plain, opaque, Record, Pickle}
use emboss.Log.Frame.{frame, parse_frame}
use emboss.Log.Scan.{ScanResult, read_records}
use emboss.Log.Index.{
  Location, Slot, deleted_token, written, PackedIndex, lookup, live, build_index,
}

-- A log: its bytes, or its size where reading raises `OSError`.
pub data LogFile : Type 0 where
  readable : Bytes → LogFile
  unreadable : ℕ → LogFile

-- What loading a spill file does.
pub data SpillFile (V : Type 0) : Type 0 where
  holds : Py V → SpillFile V
  absent io_fault undecodable : SpillFile V

-- The environment and the settings of the instance.
pub record Env (V : Type 0) : Type 0 where
  pub pickle : Pickle V
  pub digest_of : String → ℕ
  pub spill_file : String → SpillFile V
  pub log_name : String
  pub index_ttl : ℕ

pub record Shard : Type 0 where
  pub logs : Dict String LogFile
  pub index : Option PackedIndex
  pub sig : Option (List (String × ℕ))
  pub checked : Option ℕ

pub data Outcome (V : Type 0) : Type 0 where
  found : Py V → Outcome V
  missing stale : Outcome V

unfoldable pub log_size : LogFile → ℕ
log_size (readable bytes) = length bytes
log_size (unreadable size) = size

unfoldable pub current_sig : Dict String LogFile → List (String × ℕ)
unfolding log_size
current_sig [] = []
current_sig ((name, file) ∷ logs) = (name, log_size file) ∷ current_sig logs

-- Every name of the one has the same size in the other.
sizes_in : List (String × ℕ) → List (String × ℕ) → Bool
sizes_in [] ys = true
sizes_in ((name, size) ∷ xs) ys =
    let rest = sizes_in xs ys in
    elim (get str_dec name ys) [ none ↦ false | some found_size ↦ size == found_size && rest ]

-- `==` of two dicts
unfoldable pub same_sig : List (String × ℕ) → List (String × ℕ) → Bool
unfolding sizes_in
same_sig xs ys = length xs == length ys && sizes_in xs ys

unfoldable pub name_before : String → String → Bool
name_before a b = elim (String.compare a b) [ Ordering.lt ↦ true | _ ↦ false ]

unfoldable pub insert_log : {A : Type 0} → String × A → Dict String A → Dict String A
unfolding name_before
insert_log x [] = x ∷ []
insert_log x (y ∷ ys) = if name_before x.0 y.0 then x ∷ y ∷ ys else y ∷ insert_log x ys

-- `sorted(pdir.glob("*.log"))`
unfoldable pub by_name : {A : Type 0} → Dict String A → Dict String A
unfolding insert_log
by_name [] = []
by_name (x ∷ xs) = insert_log x (by_name xs)

abbrev pub sig_matches : Option (List (String × ℕ)) → List (String × ℕ) → Bool
sig_matches none sig = false
sig_matches (some old) sig = same_sig old sig

-- The bytes that a read at a location gets; `none` is a read that raises.
read_at : Option LogFile → ℕ → ℕ → Option Bytes
read_at none offset len = none
read_at (some (unreadable size)) offset len = none
read_at (some (readable bytes)) offset len = some (slice bytes offset (offset + len))

-- `open(path, "ab")` makes the log if it is not there.
appended : Option LogFile → Bytes → LogFile
appended none bytes = readable bytes
appended (some (readable old)) bytes = readable (old ++ bytes)
appended (some (unreadable size)) bytes = unreadable (size + length bytes)

-- `self._checked.get(prefix, 0.0)`
abbrev pub last_check : Option ℕ → ℕ
last_check none = 0
last_check (some t) = t

-- `float(now + expire) if expire else None`
unfoldable pub expiry : ℕ → Option ℕ → Option ℕ
expiry now none = none
expiry now (some expire) = if expire == 0 then none else some (now + expire)

module _ {V : Type 0} where
  inline_content : Py V → Option String → Content V
  inline_content value none = plain value
  inline_content value (some rel) = plain null

  -- The record that `set` writes: the value inline, or the path of its spill file.
  unfoldable pub set_record : String → Py V → Option ℕ → ℕ → Option String → Record V
  unfolding expiry inline_content
  set_record key value expire now spill = record {
    key = key;
    value = inline_content value spill;
    expire_time = expiry now expire;
    store_time = now;
    deleted = false;
    spill = spill;
  }

  tombstone : String → ℕ → Record V
  tombstone key now = record {
    key = key;
    value = plain null;
    expire_time = none;
    store_time = now;
    deleted = true;
    spill = none;
  }

module _ {V : Type 0} (env : Env V) where
  -- The logs that could be read, with their scans.
  unfoldable pub scan_logs : Dict String LogFile → List (String × ScanResult V)
  scan_logs [] = []
  scan_logs ((name, unreadable size) ∷ logs) = scan_logs logs
  scan_logs ((name, readable bytes) ∷ logs) = elim (read_records env.pickle bytes) [
    | none ↦ scan_logs logs
    | some scan ↦ (name, scan) ∷ scan_logs logs
  ]

  -- `mono` is `time.monotonic()` and `now` is `time.time()`.
  unfoldable pub rebuild : Shard → ℕ → ℕ → Shard × PackedIndex
  unfolding scan_logs current_sig by_name
  rebuild shard mono now =
      let index = build_index env.digest_of now (scan_logs (by_name shard.logs)) in
      (
        record shard {
          index = some index;
          sig = some (current_sig shard.logs);
          checked = some mono;
        },
        index,
      )

  unfoldable pub ensure_index : Shard → ℕ → ℕ → Shard × PackedIndex
  unfolding rebuild current_sig
  ensure_index shard mono now = elim shard.index [
    | none ↦ rebuild shard mono now
    | some index ↦
        if ltb 0 env.index_ttl && ltb (mono - last_check shard.checked) env.index_ttl
        then (shard, index)
        else if sig_matches shard.sig (current_sig shard.logs)
        then (record shard { checked = some mono }, index)
        else rebuild shard mono now
  ]

  -- `none` is `_STALE`.
  unfoldable pub read_verified : Shard → String → Location → Option (Record V)
  unfolding read_at
  read_verified shard key location =
      elim (read_at (get str_dec location.log_name shard.logs) location.offset location.len) [
        | none ↦ none
        | some bytes ↦ elim (parse_frame env.pickle bytes 0) [
          | none ↦ none
          | some (rec, end) ↦
              if not (end == location.len) || not (str_eq rec.key key) then none else some rec
        ]
      ]

  served_content : Content V → Outcome V
  served_content (opaque blob names) = missing
  served_content (plain value) = found value

  served_spill : SpillFile V → Outcome V
  served_spill (holds value) = found value
  served_spill _ = missing

  -- `if not rec.spill`, which the empty path passes too
  unfoldable pub serve_record : Record V → Outcome V
  unfolding served_content served_spill
  serve_record rec = elim rec.spill [
    | none ↦ served_content rec.value
    | some rel ↦
        if str_eq rel "" then served_content rec.value else served_spill (env.spill_file rel)
  ]

  unfoldable pub serve_at : Shard → String → ℕ → Option Location → Outcome V
  serve_at shard key now none = missing
  serve_at shard key now (some location) = elim (read_verified shard key location) [
    | none ↦ stale
    | some rec ↦ if not (live rec now) then missing else serve_record rec
  ]

  unfoldable pub shard_get : Shard → String → ℕ → ℕ → Shard × Outcome V
  shard_get shard key mono now =
      let (shard', index) = ensure_index shard mono now in
      (shard', serve_at shard' key now (lookup index (env.digest_of key)))

  -- `get`: `none` is the default. A stale location drops the index and tries once more.
  unfoldable pub get_value : Shard → String → ℕ → ℕ → Shard × Option (Py V)
  get_value shard key mono now =
      let (shard1, first) = shard_get shard key mono now in
      elim first [
        | found value ↦ (shard1, some value)
        | missing ↦ (shard1, none)
        | stale ↦
            let dropped = record shard1 { index = none; sig = none; checked = none } in
            let (shard2, second) = shard_get dropped key mono now in
            (shard2, elim second [ found value ↦ some value | missing ↦ none | stale ↦ none ])
      ]

  -- The new logs, the offset of the frame and the size of the log; `none` if the frame cannot be
  -- packed.
  unfoldable pub append : Dict String LogFile → Record V → Option (Dict String LogFile × ℕ × ℕ)
  unfolding frame appended log_size
  append logs rec = elim (frame env.pickle rec) [
    | none ↦ none
    | some bytes ↦
        let file = appended (get str_dec env.log_name logs) bytes in
        let size = log_size file in
        some (put str_dec env.log_name file logs, size - length bytes, size)
  ]

  own_slot : Record V → ℕ → ℕ → Slot
  own_slot rec offset len =
      if rec.deleted
      then deleted_token
      else written (record { log_name = env.log_name; offset = offset; len = len })

  unfoldable pub fold_own_append : Option PackedIndex → Record V → ℕ → ℕ → Option PackedIndex
  unfolding own_slot
  fold_own_append none rec offset len = none
  fold_own_append (some index) rec offset len = some (record index {
    overlay = put ℕ_discrete (env.digest_of rec.key) (own_slot rec offset len) index.overlay;
  })

  -- `self._sig.setdefault(prefix, {})[log name] = log_size`
  note_size : Option (List (String × ℕ)) → ℕ → Option (List (String × ℕ))
  note_size none size = some ((env.log_name, size) ∷ [])
  note_size (some sig) size = some (put str_dec env.log_name size sig)

  -- The append of `set` and `delete`, folded into the index and the signature.
  unfoldable pub append_record : Shard → Record V → Option (Shard × ℕ)
  unfolding append fold_own_append note_size
  append_record shard rec = elim (append shard.logs rec) [
    | none ↦ none
    | some (logs, offset, size) ↦ some (
      record shard {
        logs = logs;
        index = fold_own_append shard.index rec offset (size - offset);
        sig = note_size shard.sig size;
      },
      size,
    )
  ]

  -- `set` up to and with the append, `spill` the path of the spill file if there is one.
  unfoldable pub set_append :
      Shard → String → Py V → Option ℕ → ℕ → ℕ → Option String → Option (Shard × ℕ)
  set_append shard key value expire mono now spill =
      append_record (ensure_index shard mono now).0 (set_record key value expire now spill)

  deletable : Shard → String → ℕ → Option Location → Bool
  deletable shard key now none = false
  deletable shard key now (some location) = elim (read_verified shard key location) [
    | none ↦ false
    | some rec ↦ live rec now
  ]

  -- `none` if the tombstone cannot be packed.
  unfoldable pub delete : Shard → String → ℕ → ℕ → Option (Shard × Bool)
  unfolding tombstone deletable
  delete shard key mono now =
      let (shard', index) = ensure_index shard mono now in
      if deletable shard' key now (lookup index (env.digest_of key))
      then (elim (append_record shard' (tombstone key now)) [
        | none ↦ none
        | some (after, size) ↦ some (after, true)
      ])
      else some (shard', false)
