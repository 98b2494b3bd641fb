-- ===== src/Sqlite/Reach.antt =====
-- emboss/_sqlite_cache.py: the databases that any order of calls of `SqliteCache` leads to.
use emboss.Prelude.{
  ℕ, ◌-◌, ◌≤◌, ◌≡◌, refl, sym, String, true, inl, inr, Bool-cases, Option-cases, Option, some, List,
  [], ◌∷◌, arith, keep_if, ltb,
}
use mathlib.Core.Path.{subst}
use emboss.Sqlite.{
  Row, Table, Db, Config, Policy, least_recently_stored, least_recently_used, find_row,
  delete_where, delete_row, delete_rows, replace_row, is_expired, atime_resolution, touched, set,
  get_value, expire, delete, clear,
}
use emboss.Sqlite.Rows.{
  row_size, IsConsistent, delete_where-IsConsistent, sum-replace_row, length-replace_row,
  unique_replaced, find_row-key,
}
use emboss.Sqlite.Evict.{delete_row-IsConsistent}
use emboss.Sqlite.Limit.{set-IsConsistent, set-bounded}

-- The databases that calls lead to, from an empty one.
pub data Reachable {V : Type 0} (cfg : Config V) : Db → Type 0 where
  opened : Reachable cfg (record { table = record { rows = []; size = 0; count = 0 }; store = [] })
  after_set :
      (db : Db) (key : String) (value : V) (ttl : Option ℕ) (now : ℕ) (name : String)
      → Reachable cfg db
      → Reachable cfg (set cfg db key value ttl now name)
  after_get :
      (db : Db) (key : String) (now : ℕ)
      → Reachable cfg db
      → Reachable cfg (get_value cfg db key now).0
  after_delete : (db : Db) (key : String) → Reachable cfg db → Reachable cfg (delete db key).0
  after_expire : (db : Db) (cutoff : ℕ) → Reachable cfg db → Reachable cfg (expire db cutoff).0
  after_clear : (db : Db) → Reachable cfg db → Reachable cfg (clear db).0

touch-IsConsistent :
    (old new : Row) (t : Table)
    → find_row new.key t.rows ≡ some old
    → new.size ≡ old.size
    → IsConsistent t
    → IsConsistent (record t { rows = replace_row new t.rows })
touch-IsConsistent old new t there same c = record {
  size = omega (arith, c.size, sum-replace_row row_size new {old = old} t.rows there, same);
  count = omega (arith, c.count, length-replace_row new t.rows);
  unique = λ key. unique_replaced new old t.rows key there (c.unique key);
}

delete_row-size : (row : Row) (db : Db) → (delete_row row db).table.size ≤ db.table.size
unfolding delete_row delete_where
delete_row-size row db = omega arith

abbrev expired : Db → ℕ → List Row
expired db cutoff = keep_if (λ row. is_expired row cutoff) db.table.rows

delete_rows-size : (rows : List Row) (db : Db) → (delete_rows rows db).table.size ≤ db.table.size
unfolding delete_rows
delete_rows-size [] db = omega arith
delete_rows-size (row ∷ rows) db =
    omega (arith, delete_rows-size rows (delete_row row db), delete_row-size row db)

delete_rows-IsConsistent :
    (rows : List Row) (db : Db) → IsConsistent db.table → IsConsistent (delete_rows rows db).table
unfolding delete_rows
delete_rows-IsConsistent [] db c = c
delete_rows-IsConsistent (row ∷ rows) db c =
    delete_rows-IsConsistent rows (delete_row row db) (delete_row-IsConsistent row db c)

delete-IsConsistent :
    (db : Db) (key : String) → IsConsistent db.table → IsConsistent (delete db key).0.table
unfolding delete
delete-IsConsistent db key c = elim (Option-cases (find_row key db.table.rows)) [
  | inl absent ↦ rw (absent, delete) c
  | inr (row, there) ↦ rw (there, delete) (delete_row-IsConsistent row db c)
]

delete-size_le : (db : Db) (key : String) → (delete db key).0.table.size ≤ db.table.size
unfolding delete
delete-size_le db key = elim (Option-cases (find_row key db.table.rows)) [
  | inl absent ↦ rw (absent, delete) (omega arith)
  | inr (row, there) ↦ rw (there, delete) (delete_row-size row db)
]

module _ {V : Type 0} (cfg : Config V) where
  touched-IsConsistent :
      (row : Row) (now : ℕ) (t : Table)
      → find_row row.key t.rows ≡ some row
      → IsConsistent t
      → IsConsistent (touched cfg row now t)
  unfolding touched
  touched-IsConsistent row now t there c = go cfg.eviction_policy
    where
      go :
          (policy : Policy)
          → IsConsistent (touched (record cfg { eviction_policy = policy }) row now t)
      go least_recently_stored = c
      go least_recently_used = elim (Bool-cases (ltb atime_resolution (now - row.access_time))) [
        | inl old ↦
            rw old (touch-IsConsistent row (record row { access_time = now }) t there refl c)
        | inr recent ↦ rw recent c
      ]

  touched-size : (row : Row) (now : ℕ) (t : Table) → (touched cfg row now t).size ≡ t.size
  unfolding touched
  touched-size row now t = ground arith

  get_value-IsConsistent :
      (db : Db) (key : String) (now : ℕ)
      → IsConsistent db.table
      → IsConsistent (get_value cfg db key now).0.table
  unfolding get_value
  get_value-IsConsistent db key now c = elim (Option-cases (find_row key db.table.rows)) [
    | inl absent ↦ rw (absent, get_value) c
    | inr (row, there) ↦ elim (Bool-cases (is_expired row now)) [
      | inl late ↦ rw (there, get_value, late) (delete_row-IsConsistent row db c)
      | inr fresh ↦
          let named = find_row-key key {old = row} db.table.rows there in
          let here = subst (λ k. find_row k db.table.rows ≡ some row) (sym named) there in
          rw (there, get_value, fresh) (touched-IsConsistent row now db.table here c)
    ]
  ]

  get_value-size :
      (db : Db) (key : String) (now : ℕ) → (get_value cfg db key now).0.table.size ≤ db.table.size
  unfolding get_value
  get_value-size db key now = elim (Option-cases (find_row key db.table.rows)) [
    | inl absent ↦ rw (absent, get_value) (omega arith)
    | inr (row, there) ↦ elim (Bool-cases (is_expired row now)) [
      | inl late ↦ rw (there, get_value, late) (delete_row-size row db)
      | inr fresh ↦ rw (there, get_value, fresh) (omega (arith, touched-size row now db.table))
    ]
  ]

  -- In every database that any sequence of `set`, `get`, `delete`, `expire` and `clear` leads
  -- to from an empty one, the stored total is the sum of the sizes of the rows, the stored
  -- count is their number, and no key stands twice.
  pub Reachable-IsConsistent : (db : Db) → Reachable cfg db → IsConsistent db.table
  unfolding expire clear
  Reachable-IsConsistent _ opened = record {
    size = refl;
    count = refl;
    unique = λ key. omega arith;
  }
  Reachable-IsConsistent _ (after_set db key value ttl now name r) =
      set-IsConsistent cfg db key value ttl now name (Reachable-IsConsistent db r)
  Reachable-IsConsistent _ (after_get db key now r) =
      get_value-IsConsistent db key now (Reachable-IsConsistent db r)
  Reachable-IsConsistent _ (after_delete db key r) =
      delete-IsConsistent db key (Reachable-IsConsistent db r)
  Reachable-IsConsistent _ (after_expire db cutoff r) =
      delete_rows-IsConsistent (expired db cutoff) db (Reachable-IsConsistent db r)
  Reachable-IsConsistent _ (after_clear db r) =
      delete_where-IsConsistent (λ _. true) db.table (Reachable-IsConsistent db r)

  -- With a size limit, every database that any sequence of `set`, `get`, `delete`, `expire`
  -- and `clear` leads to from an empty one has a total size of at most the limit.
  pub Reachable-bounded :
      (limit : ℕ) (db : Db) → cfg.size_limit ≡ some limit → Reachable cfg db → db.table.size ≤ limit
  unfolding expire clear delete_where
  Reachable-bounded limit _ limited opened = omega arith
  Reachable-bounded limit _ limited (after_set db key value ttl now name r) =
      set-bounded cfg db key value ttl now name limit (Reachable-IsConsistent db r) limited
  Reachable-bounded limit _ limited (after_get db key now r) =
      omega (arith, Reachable-bounded limit db limited r, get_value-size db key now)
  Reachable-bounded limit _ limited (after_delete db key r) =
      omega (arith, Reachable-bounded limit db limited r, delete-size_le db key)
  Reachable-bounded limit _ limited (after_expire db cutoff r) =
      omega (arith, Reachable-bounded limit db limited r, delete_rows-size (expired db cutoff) db)
  Reachable-bounded limit _ limited (after_clear db r) =
      omega (arith, Reachable-bounded limit db limited r)
