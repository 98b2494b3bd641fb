-- ===== src/Sqlite/Found.antt =====
-- emboss/_sqlite_cache.py: which row a lookup finds behind a write, a delete and `expire`.
use emboss.Prelude.{
  ℕ, ◌≤◌, ◌≡◌, refl, ◌∙◌, String, Bool, false, not, ◌||◌, inl, inr, Bool-cases, Option-cases,
  Option, none, some, List, [], ◌∷◌, ◌++◌, arith, keep_if, sum_by, str_eq, eq_iff, eq_refl,
  if◌then◌else◌,
}
use mathlib.Core.Path.{subst}
use emboss.Sqlite.{
  Row, Table, Db, has_key, find_row, delete_where, delete_row, delete_rows, replace_row, upsert,
  is_expired, expire,
}
use emboss.Sqlite.Rows.{one_key, IsConsistent, find_row-none}

find-snoc :
    (new : Row) (rows : List Row)
    → find_row new.key rows ≡ none
    → find_row new.key (rows ++ new ∷ []) ≡ some new
unfolding find_row
find-snoc new [] h = rw (eq_refl new.key) refl
find-snoc new (row ∷ rows) h = ground (arith, find-snoc new rows)

find-replace_row :
    (new : Row) {old : Row} (rows : List Row)
    → find_row new.key rows ≡ some old
    → find_row new.key (replace_row new rows) ≡ some new
unfolding find_row replace_row
find-replace_row new [] h = cc
find-replace_row new {old} (row ∷ rows) h =
    ground (arith, eq_refl new.key, find-replace_row new {old = old} rows)

pub find-upsert : (new : Row) (t : Table) → find_row new.key (upsert new t).rows ≡ some new
unfolding upsert
find-upsert new t = elim (Option-cases (find_row new.key t.rows)) [
  | inl absent ↦ rw (absent, upsert) (find-snoc new t.rows absent)
  | inr (old, there) ↦ rw (there, upsert) (find-replace_row new {old = old} t.rows there)
]

pub find-deleted :
    (key : String) (rows : List Row) → find_row key (keep_if (λ r. not (has_key key r)) rows) ≡ none
unfolding find_row
find-deleted key [] = refl
find-deleted key (row ∷ rows) = ground (arith, find-deleted key rows)

find-kept :
    (key other : String) (rows : List Row)
    → str_eq other key ≡ false
    → find_row other (keep_if (λ r. not (has_key key r)) rows) ≡ find_row other rows
unfolding find_row
find-kept key other [] ne = refl
find-kept key other (r ∷ rows) ne =
    ground (arith, eq_iff r.key key, eq_iff r.key other, eq_refl key, find-kept key other rows)

-- Whether a list of rows has the key.
abbrev has_any : String → List Row → Bool
has_any key [] = false
has_any key (row ∷ rows) = has_key key row || has_any key rows

find-delete_rows :
    (key : String) (rows : List Row) (db : Db)
    → find_row key (delete_rows rows db).table.rows
      ≡ (if has_any key rows then none else find_row key db.table.rows)
unfolding delete_rows delete_row delete_where
find-delete_rows key [] db = refl
find-delete_rows key (row ∷ rows) db =
    let rest = find-delete_rows key rows (delete_row row db) in
    elim (Bool-cases (has_key key row)) [
      | inl same ↦
          let gone : find_row key (delete_row row db).table.rows ≡ none =
            subst (λ k. find_row k (delete_row row db).table.rows ≡ none)
              ((eq_iff row.key key).0 same) (find-deleted row.key db.table.rows) in
          rw (same, rest, gone) (ground arith)
      | inr other ↦
          let ne : str_eq key row.key ≡ false =
            ground (arith, eq_iff row.key key, eq_iff key row.key, eq_refl key, other) in
          rw (other, rest, find-kept row.key key db.table.rows ne) refl
    ]

abbrev pub live_row : ℕ → Option Row → Option Row
live_row cutoff none = none
live_row cutoff (some row) = if is_expired row cutoff then none else some row

any-absent :
    (key : String) (p : Row → Bool) (rows : List Row)
    → sum_by (one_key key) rows ≡ 0
    → has_any key (keep_if p rows) ≡ false
any-absent key p [] h = refl
any-absent key p (row ∷ rows) h = ground (arith, any-absent key p rows)

any-expired :
    (key : String) (cutoff : ℕ) (rows : List Row)
    → sum_by (one_key key) rows ≤ 1
    → (if has_any key (keep_if (λ row. is_expired row cutoff) rows)
        then none
        else find_row key rows)
      ≡ live_row cutoff (find_row key rows)
unfolding find_row
any-expired key cutoff [] le = refl
any-expired key cutoff (row ∷ rows) le = ground (
  arith,
  any-expired key cutoff rows,
  any-absent key (λ r. is_expired r cutoff) rows,
  find_row-none key rows,
)

-- In a consistent table, after `expire` the lookup of any key finds the row that it found
-- before, or nothing if that row's expiry is before the cutoff.
pub find-expire :
    (db : Db) (cutoff : ℕ) (key : String)
    → IsConsistent db.table
    → find_row key (expire db cutoff).0.table.rows ≡ live_row cutoff (find_row key db.table.rows)
unfolding expire
find-expire db cutoff key c =
    find-delete_rows key (keep_if (λ row. is_expired row cutoff) db.table.rows) db
    ∙ any-expired key cutoff db.table.rows (c.unique key)
