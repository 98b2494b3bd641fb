-- ===== src/Sqlite/Reads.antt =====
-- emboss/_sqlite_cache.py: what `get`, `contains` and `expire` see of what the writes left.
use emboss.Prelude.{
  ℕ, ◌≡◌, ◌≢◌, ◌↔◌, refl, sym, ◌∙◌, String, Bool, true, false, inl, inr, Bool-cases, Option-cases,
  Option, none, some, arith, length, str_eq, eq_iff, if◌then◌else◌, leb, ltb,
}
use mathlib.Core.Logic.{if_neg}
use mathlib.Core.Bool.{true≢false}
use emboss.Prelude.Dict.{Dict, get, put, str_dec, get-put_self, get-remove}
use mathlib.Core.Path.{subst}
use emboss.Sqlite.{
  Blob, Policy, inline, spilled, Row, Table, Db, Config, fallback, hit, find_row, delete_where,
  delete_row, upsert, remove_spill, drop_old_spill, filename_of, cull_if, is_expired, expiry,
  load_row, got_of, set, get_value, expire, delete, contains,
}
use emboss.Sqlite.Rows.{find_row-key}
use emboss.Sqlite.Limit.{drop_old_spill-table}
use emboss.Sqlite.Found.{find-upsert, find-deleted}

-- The file that a write names stays while the file of the old row is removed.
drop_old_spill-get :
    (old : Option Row) (name : String) (db : Db)
    → get str_dec name (drop_old_spill old (some name) db).store ≡ get str_dec name db.store
unfolding drop_old_spill remove_spill filename_of
drop_old_spill-get none name db = refl
drop_old_spill-get (some old) name db = elim (Option-cases (filename_of old.stored)) [
  | inl none_old ↦ rw (none_old, drop_old_spill) refl
  | inr (file, is_file) ↦ elim (Bool-cases (str_eq file name)) [
    | inl same ↦ rw (is_file, drop_old_spill, same) refl
    | inr other ↦
        rw (is_file, drop_old_spill, other)
          (elim (Bool-cases (str_eq file "")) [
            | inl no_name ↦ rw (no_name, remove_spill) refl
            | inr named ↦
                let ne : file ≢ name = λ e. true≢false (sym ((eq_iff file name).1 e) ∙ other) in
                rw (named, remove_spill)
                  (get-remove str_dec name file db.store
                    ∙ if_neg (str_dec file name) ne none (get str_dec name db.store))
          ])
  ]
]

find-delete_row : (row : Row) (db : Db) → find_row row.key (delete_row row db).table.rows ≡ none
unfolding delete_row delete_where
find-delete_row row db = find-deleted row.key db.table.rows

find-delete : (db : Db) (key : String) → find_row key (delete db key).0.table.rows ≡ none
unfolding delete
find-delete db key = elim (Option-cases (find_row key db.table.rows)) [
  | inl absent ↦ rw (absent, delete) absent
  | inr (row, there) ↦
      let named = find_row-key key {old = row} db.table.rows there in
      rw (there, delete)
        (subst (λ k. find_row k (delete_row row db).table.rows ≡ none) named
          (find-delete_row row db))
]

cull_if-none :
    (policy : Policy) (limit : Option ℕ) (db : Db) → limit ≡ none → cull_if policy limit db ≡ db
unfolding cull_if
cull_if-none policy none db h = refl
cull_if-none policy (some n) db h = cc

late_lem :
    (row : Row) (now : ℕ)
    → is_expired row now ≡ true
    → (elim row.expire_time [ none ↦ true | some t ↦ leb now t ]) ≡ false
unfolding is_expired
late_lem row now h = ground arith

fresh_lem :
    (row : Row) (now : ℕ)
    → is_expired row now ≡ false
    → (elim row.expire_time [ none ↦ true | some t ↦ leb now t ]) ≡ false
    → ⊥
unfolding is_expired
fresh_lem row now h k = ground arith

module _ {V : Type 0} (cfg : Config V) where
  get_value-none :
      (db : Db) (key : String) (now : ℕ)
      → find_row key db.table.rows ≡ none
      → (get_value cfg db key now).1 ≡ fallback
  unfolding get_value
  get_value-none db key now absent = rw (absent, get_value) refl

  get_value-found :
      (db : Db) (key : String) (now : ℕ) (row : Row) (value : V)
      → find_row key db.table.rows ≡ some row
      → is_expired row now ≡ false
      → load_row cfg db.store row.stored ≡ some value
      → (get_value cfg db key now).1 ≡ hit value
  unfolding get_value got_of
  get_value-found db key now row value there fresh load = rw (there, get_value, fresh, load) refl

  -- In every database, a `get` after a `delete` of the key answers the default.
  pub get_value-deleted :
      (db : Db) (key : String) (now : ℕ) → (get_value cfg (delete db key).0 key now).1 ≡ fallback
  get_value-deleted db key now = get_value-none (delete db key).0 key now (find-delete db key)

  got_of-fallback : (o : Option V) → got_of o ≡ fallback → ⊥
  unfolding got_of
  got_of-fallback none h = cc
  got_of-fallback (some v) h = cc

  -- In every database and at every time, `contains` is false of a key exactly if `get` of it
  -- answers the default.
  pub contains-get_value :
      (db : Db) (key : String) (now : ℕ)
      → (contains db key now ≡ false) ↔ ((get_value cfg db key now).1 ≡ fallback)
  unfolding contains get_value
  contains-get_value db key now = elim (Option-cases (find_row key db.table.rows)) [
    | inl absent ↦ rw (absent, contains, get_value) ((λ _. refl), (λ _. refl))
    | inr (row, there) ↦ elim (Bool-cases (is_expired row now)) [
      | inl late ↦ rw (there, contains, get_value, late) ((λ _. refl), (λ _. late_lem row now late))
      | inr fresh ↦
          rw (there, contains, get_value, fresh)
            (
              (λ h. absurd (fresh_lem row now fresh h)),
              (λ h. absurd (got_of-fallback (load_row cfg db.store row.stored) h)),
            )
    ]
  ]

  spilled-loads :
      (store : Dict String Blob) (name : String) (blob : Blob)
      → get str_dec name store ≡ some blob
      → load_row cfg store (spilled name) ≡ cfg.loads blob
  unfolding load_row
  spilled-loads store name blob h = rw (load_row, h) refl

  load-written :
      (spill : Bool) (old : Option Row) (name : String) (blob : Blob) (t : Table)
      (store : Dict String Blob)
      → let stored = if spill then spilled name else inline blob in
        let kept = if spill then put str_dec name blob store else store in
        load_row cfg
          (drop_old_spill old (filename_of stored) (record { table = t; store = kept })).store
          stored
        ≡ cfg.loads blob
  unfolding load_row filename_of
  load-written true old name blob t store =
      let there =
        drop_old_spill-get old name (record { table = t; store = put str_dec name blob store })
        ∙ get-put_self str_dec name blob store in
      spilled-loads _ name blob there
  load-written false old name blob t store = refl

  get_value-written :
      (old : Option Row) (row : Row) (value : V) (t : Table) (store : Dict String Blob) (later : ℕ)
      → let db =
          drop_old_spill old
            (filename_of row.stored)
            (record { table = upsert row t; store = store }) in
        is_expired row later ≡ false
        → load_row cfg db.store row.stored ≡ some value
        → (get_value cfg db row.key later).1 ≡ hit value
  get_value-written old row value t store later fresh load =
      get_value-found _ row.key later row value (rw drop_old_spill-table (find-upsert row t)) fresh
        load

  -- Without a size limit, from any database: if the value loads from its dump and the row is
  -- not past its time to live at the later time, then a `get` after a `set` of the key hits
  -- the value that was set, inline or spilled.
  pub get_value-set :
      (db : Db) (key : String) (value : V) (expire : Option ℕ) (now later : ℕ) (name : String)
      → cfg.size_limit ≡ none
      → cfg.loads (cfg.dumps value) ≡ some value
      → (elim (expiry now expire) [ none ↦ false | some t ↦ ltb t later ]) ≡ false
      → (get_value cfg (set cfg db key value expire now name) key later).1 ≡ hit value
  unfolding set is_expired
  get_value-set db key value expire now later name unlimited loads fresh =
      subst (λ d. (get_value cfg d key later).1 ≡ hit value)
        (sym (cull_if-none cfg.eviction_policy cfg.size_limit _ unlimited))
        (get_value-written (find_row key db.table.rows) _ value db.table _ later fresh
          (load-written (leb cfg.min_file_size (length (cfg.dumps value))) _ name _ _ _ ∙ loads))
