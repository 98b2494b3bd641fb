-- ===== src/Sqlite.antt =====
-- emboss/_sqlite_cache.py: `SqliteCache`.
-- The table is the list of its rows in the order of their rowids, a row named by its key, which the
-- unique index makes as good as its rowid; `size` and `count` are the two rows of `Settings`,
-- changed only by the triggers. The directory of spilled values is a dict from file names to blobs.
pub mod Rows
pub mod Evict
mod Found
pub mod Limit
pub mod Reads
pub mod Reach
pub mod Views
use emboss.Prelude.{
  ℕ, zero, suc, ◌+◌, ◌-◌, ◌*◌, String, Bool, true, false, not, ◌&&◌, Option, none, some, List, [],
  ◌∷◌, ◌++◌, length, take, keep_if, sum_by, ltb, leb, ◌==◌, str_eq, if◌then◌else◌,
}
use emboss.Prelude.Dict.{Dict, get, put, remove, str_dec}
use emboss.Prelude.Sort.{sorted_by}

abbrev pub Blob : Type 0
Blob = List ℕ

-- `mode`, `filename` and `value`: inline in the table, or in a file.
pub data Stored : Type 0 where
  inline : Blob → Stored
  spilled : String → Stored

pub record Row : Type 0 where
  pub key : String
  pub store_time : ℕ
  pub access_time : ℕ
  pub expire_time : Option ℕ
  pub size : ℕ
  pub stored : Stored

pub record Table : Type 0 where
  pub rows : List Row
  pub size : ℕ
  pub count : ℕ

pub data Policy : Type 0 where
  least_recently_stored least_recently_used : Policy

-- The settings, and `pickle` for values.
pub record Config (V : Type 0) : Type 0 where
  pub size_limit : Option ℕ
  pub eviction_policy : Policy
  pub min_file_size : ℕ
  pub dumps : V → Blob
  pub loads : Blob → Option V

pub record Db : Type 0 where
  pub table : Table
  pub store : Dict String Blob

-- `_ATIME_RESOLUTION_S` and `_CULL_BATCH`
abbrev pub atime_resolution : ℕ
atime_resolution = 60

abbrev pub cull_batch : ℕ
cull_batch = 64

abbrev pub has_key : String → Row → Bool
has_key key row = str_eq row.key key

-- `SELECT ... WHERE key = ?`
unfoldable pub find_row : String → List Row → Option Row
find_row key [] = none
find_row key (row ∷ rows) = if has_key key row then some row else find_row key rows

-- `DELETE ... WHERE p`, with the two delete triggers run for each row
unfoldable pub delete_where : (Row → Bool) → Table → Table
delete_where p t = record {
  rows = keep_if (λ row. not (p row)) t.rows;
  size = t.size - sum_by (λ row. row.size) (keep_if p t.rows);
  count = t.count - length (keep_if p t.rows);
}

unfoldable pub replace_row : Row → List Row → List Row
replace_row new [] = []
replace_row new (row ∷ rows) =
    if has_key new.key row then new ∷ rows else row ∷ replace_row new rows

-- `INSERT ... ON CONFLICT(key) DO UPDATE`, with the insert triggers or the update trigger
unfoldable pub upsert : Row → Table → Table
unfolding find_row replace_row
upsert new t = elim (find_row new.key t.rows) [
  | none ↦ record { rows = t.rows ++ new ∷ []; size = t.size + new.size; count = t.count + 1 }
  | some old ↦ record t { rows = replace_row new t.rows; size = t.size + new.size - old.size }
]

filename_of : Stored → Option String
filename_of (inline blob) = none
filename_of (spilled name) = some name

-- `_remove_spill`: a file that is not there is passed over, and so is an empty name.
unfoldable pub remove_spill : Option String → Dict String Blob → Dict String Blob
remove_spill none store = store
remove_spill (some name) store = if str_eq name "" then store else remove str_dec name store

unfoldable pub delete_row : Row → Db → Db
unfolding delete_where remove_spill filename_of
delete_row row db = record {
  table = delete_where (has_key row.key) db.table;
  store = remove_spill (filename_of row.stored) db.store;
}

-- `ORDER BY store_time` or `ORDER BY access_time`
unfoldable pub order_time : Policy → Row → ℕ
order_time least_recently_stored row = row.store_time
order_time least_recently_used row = row.access_time

-- The inner loop of `_cull`, over the rows of one batch. `size <= low_water` is `10 * size <=
-- 9 * size_limit`: the tenth is kept exact.
unfoldable pub cull_rows : ℕ → List Row → ℕ → Db → ℕ × Db
cull_rows limit [] size db = (size, db)
cull_rows limit (row ∷ rows) size db =
    let db' = delete_row row db in
    let size' = size - row.size in
    let rest = cull_rows limit rows size' db' in
    if leb (10 * size') (9 * limit) then (size', db') else rest

unfoldable pub is_empty : List Row → Bool
is_empty [] = true
is_empty (row ∷ rows) = false

-- The outer loop of `_cull`.
unfoldable pub cull_loop : ℕ → Policy → ℕ → ℕ → Db → Db
unfolding is_empty
cull_loop zero policy limit size db = db
cull_loop (suc fuel) policy limit size db =
    let rows = take cull_batch (sorted_by (order_time policy) db.table.rows) in
    let next = cull_rows limit rows size db in
    let again = cull_loop fuel policy limit next.0 next.1 in
    if leb (10 * size) (9 * limit) then db else if is_empty rows then db else again

-- Every batch deletes a row, so one round more than there are rows is enough.
unfoldable pub cull : Policy → ℕ → Db → Db
cull policy limit db =
    if leb db.table.size limit
    then db
    else cull_loop (length db.table.rows + 1) policy limit db.table.size db

unfoldable pub cull_if : Policy → Option ℕ → Db → Db
cull_if policy none db = db
cull_if policy (some limit) db = cull policy limit db

-- `if old is not None and old[0] and old[0] != filename`
unfoldable pub drop_old_spill : Option Row → Option String → Db → Db
unfolding filename_of
drop_old_spill none filename db = db
drop_old_spill (some old) filename db = elim (filename_of old.stored) [
  | none ↦ db
  | some name ↦ elim filename [
    | none ↦ record db { store = remove_spill (some name) db.store }
    | some fresh ↦
        if str_eq name fresh then db else record db { store = remove_spill (some name) db.store }
  ]
]

-- The outcome of `get`: the default value, the value, or an exception of the read of the value.
pub data Got (V : Type 0) : Type 0 where
  fallback : Got V
  hit : V → Got V
  unreadable : Got V

unfoldable pub got_of : {V : Type 0} → Option V → Got V
got_of none = unreadable
got_of (some v) = hit v

-- `now + expire if expire else None`
unfoldable pub expiry : ℕ → Option ℕ → Option ℕ
expiry now none = none
expiry now (some n) = if n == 0 then none else some (now + n)

-- `expire_time is not None and expire_time < now`
unfoldable pub is_expired : Row → ℕ → Bool
is_expired row now = elim row.expire_time [ none ↦ false | some t ↦ ltb t now ]

unfoldable pub delete_rows : List Row → Db → Db
delete_rows [] db = db
delete_rows (row ∷ rows) db = delete_rows rows (delete_row row db)

unfoldable pub expire : Db → ℕ → Db × ℕ
unfolding delete_rows is_expired
expire db cutoff =
    let rows = keep_if (λ row. is_expired row cutoff) db.table.rows in
    (delete_rows rows db, length rows)

unfoldable pub delete : Db → String → Db × Bool
delete db key = elim (find_row key db.table.rows) [
  | none ↦ (db, false)
  | some row ↦ (delete_row row db, true)
]

unfoldable pub clear : Db → Db × ℕ
clear db = (record { table = delete_where (λ _. true) db.table; store = [] }, db.table.count)

-- `__contains__`
unfoldable pub contains : Db → String → ℕ → Bool
contains db key now = elim (find_row key db.table.rows) [
  | none ↦ false
  | some row ↦ elim row.expire_time [ none ↦ true | some t ↦ leb now t ]
]

module _ {V : Type 0} (cfg : Config V) where
  -- `set`, `name` the fresh name that a spilled value gets.
  unfoldable pub set : Db → String → V → Option ℕ → ℕ → String → Db
  unfolding expiry drop_old_spill cull_if filename_of
  set db key value expire now name =
      let blob = cfg.dumps value in
      let size = length blob in
      let spill = leb cfg.min_file_size size in
      let store = if spill then put str_dec name blob db.store else db.store in
      let stored = if spill then spilled name else inline blob in
      let row : Row = record {
        key = key;
        store_time = now;
        access_time = now;
        expire_time = expiry now expire;
        size = size;
        stored = stored;
      } in
      let old = find_row key db.table.rows in
      let written : Db = record { table = upsert row db.table; store = store } in
      cull_if cfg.eviction_policy cfg.size_limit (drop_old_spill old (filename_of stored) written)

  -- The value of a row; `none` where the file is not there or the blob does not load.
  unfoldable pub load_row : Dict String Blob → Stored → Option V
  load_row store (inline blob) = cfg.loads blob
  load_row store (spilled name) = elim (get str_dec name store) [
    | none ↦ none
    | some blob ↦ cfg.loads blob
  ]

  unfoldable pub touched : Row → ℕ → Table → Table
  unfolding replace_row
  touched row now t = elim cfg.eviction_policy [
    | least_recently_stored ↦ t
    | least_recently_used ↦
        if ltb atime_resolution (now - row.access_time)
        then record t { rows = replace_row (record row { access_time = now }) t.rows }
        else t
  ]

  unfoldable pub get_value : Db → String → ℕ → Db × Got V
  unfolding touched got_of
  get_value db key now = elim (find_row key db.table.rows) [
    | none ↦ (db, fallback)
    | some row ↦
        if is_expired row now
        then (delete_row row db, fallback)
        else (record db { table = touched row now db.table }, got_of (load_row db.store row.stored))
  ]
