-- ===== src/Sqlite/Evict.antt =====
-- emboss/_sqlite_cache.py: `_cull` with its two loops, and the deletions of one row by its key.
use emboss.Prelude.{
  ℕ, zero, suc, ◌-◌, ◌*◌, ◌≤◌, ◌<◌, ◌≡◌, refl, ap, ◌∙◌, String, Bool, false, not, inl, inr,
  Bool-cases, some, List, [], ◌∷◌, arith, All, length, take, keep_if, sum_by, str_eq, eq_iff,
  eq_refl, leb,
}
use emboss.Sqlite.{Row, Db, has_key, find_row, delete_where, delete_row, cull_rows}
use emboss.Sqlite.Rows.{row_size, one_key, IsConsistent, delete_where-IsConsistent}

-- Each row is the one that its key finds.
abbrev pub Found : List Row → Row → Type 0
Found rows row = find_row row.key rows ≡ some row

sum-absent :
    (f : Row → ℕ) (key : String) (rows : List Row)
    → sum_by (one_key key) rows ≡ 0
    → sum_by f (keep_if (has_key key) rows) ≡ 0
sum-absent f key [] h = refl
sum-absent f key (row ∷ rows) h = ground (arith, sum-absent f key rows)

sum-present :
    (f : Row → ℕ) (key : String) {row : Row} (rows : List Row)
    → find_row key rows ≡ some row
    → sum_by (one_key key) rows ≤ 1
    → sum_by f (keep_if (has_key key) rows) ≡ f row
unfolding find_row
sum-present f key [] h le = cc
sum-present f key {row} (r ∷ rows) h le =
    ground (arith, sum-absent f key rows, sum-present f key {row = row} rows)

-- Under the unique index a delete by key takes exactly the size of the row away.
delete-size :
    (row : Row) (db : Db)
    → IsConsistent db.table
    → Found db.table.rows row
    → (delete_row row db).table.size ≡ db.table.size - row.size
unfolding delete_row delete_where
delete-size row db c here =
    ap (λ (n : ℕ). db.table.size - n)
      (sum-present row_size row.key {row = row} db.table.rows here (c.unique row.key))

length-keep : (p : Row → Bool) (rows : List Row) → length (keep_if p rows) ≤ length rows
length-keep p [] = omega arith
length-keep p (row ∷ rows) = ground (arith, length-keep p rows)

length-delete_le :
    (row : Row) (db : Db) → length (delete_row row db).table.rows ≤ length db.table.rows
unfolding delete_row delete_where
length-delete_le row db = length-keep (λ r. not (has_key row.key r)) db.table.rows

length-dropped :
    (key : String) {row : Row} (rows : List Row)
    → find_row key rows ≡ some row
    → length (keep_if (λ r. not (has_key key r)) rows) < length rows
unfolding find_row
length-dropped key [] h = cc
length-dropped key {row} (r ∷ rows) h =
    ground (arith, length-dropped key {row = row} rows, length-keep (λ x. not (has_key key x)) rows)

length-delete :
    (row : Row) (db : Db)
    → Found db.table.rows row
    → length (delete_row row db).table.rows < length db.table.rows
unfolding delete_row delete_where
length-delete row db here = length-dropped row.key {row = row} db.table.rows here

find-dropped :
    (key other : String) (rows : List Row)
    → str_eq other key ≡ false
    → find_row other (keep_if (λ r. not (has_key key r)) rows) ≡ find_row other rows
unfolding find_row
find-dropped key other [] ne = refl
find-dropped key other (r ∷ rows) ne =
    ground (arith, eq_iff r.key key, eq_iff r.key other, eq_refl key, find-dropped key other rows)

-- The rows of a batch that have another key than the one deleted are still there.
All-delete :
    (row : Row) (db : Db) (rows : List Row)
    → sum_by (one_key row.key) rows ≡ 0
    → All (Found db.table.rows) rows
    → All (Found (delete_row row db).table.rows) rows
unfolding delete_row delete_where
All-delete row db [] h k = tt
All-delete row db (r ∷ rows) h k = elim (Bool-cases (has_key row.key r)) [
  | inl same ↦ let one : one_key row.key r ≡ 1 = rw same in absurd (omega (arith, h, one))
  | inr other ↦ (
    find-dropped row.key r.key db.table.rows other ∙ k.0,
    All-delete row db rows (omega (arith, h)) k.1,
  )
]

All-skip :
    (row : Row) (rest rows : List Row)
    → sum_by (one_key row.key) rows ≡ 0
    → All (Found rest) rows
    → All (Found (row ∷ rest)) rows
unfolding find_row
All-skip row rest [] h k = tt
All-skip row rest (r ∷ rows) h k = (
  ground (arith, h, k.0, eq_iff row.key r.key, eq_refl row.key),
  All-skip row rest rows (omega (arith, h)) k.1,
)

-- In a consistent table every row is found under its key.
pub All-Found :
    (rows : List Row) → ((key : String) → sum_by (one_key key) rows ≤ 1) → All (Found rows) rows
unfolding find_row
All-Found [] u = tt
All-Found (row ∷ rows) u =
    let one : one_key row.key row ≡ 1 = rw (eq_refl row.key) in
    (
      rw (eq_refl row.key),
      All-skip row rows rows (omega (arith, u row.key, one))
          (All-Found rows (λ key. omega (arith, u key))),
    )

pub take-All {κ} : (P : Row → Type κ) (n : ℕ) (rows : List Row) → All P rows → All P (take n rows)
take-All P zero rows h = tt
take-All P (suc n) [] h = tt
take-All P (suc n) (r ∷ rows) h = (h.0, take-All P n rows h.1)

pub sum-take : (f : Row → ℕ) (n : ℕ) (rows : List Row) → sum_by f (take n rows) ≤ sum_by f rows
sum-take f zero rows = omega arith
sum-take f (suc n) [] = omega arith
sum-take f (suc n) (r ∷ rows) = omega (arith, sum-take f n rows)

pub delete_row-IsConsistent :
    (row : Row) (db : Db) → IsConsistent db.table → IsConsistent (delete_row row db).table
unfolding delete_row
delete_row-IsConsistent row db c = delete_where-IsConsistent (has_key row.key) db.table c

pub cull_rows-IsConsistent :
    (limit : ℕ) (rows : List Row) (size : ℕ) (db : Db)
    → IsConsistent db.table
    → IsConsistent (cull_rows limit rows size db).1.table
unfolding cull_rows
cull_rows-IsConsistent limit [] size db c = c
cull_rows-IsConsistent limit (row ∷ rows) size db c =
    let c' = delete_row-IsConsistent row db c in
    elim (Bool-cases (leb (10 * (size - row.size)) (9 * limit))) [
      | inl low ↦ rw low c'
      | inr high ↦
          rw high (cull_rows-IsConsistent limit rows (size - row.size) (delete_row row db) c')
    ]

length-cull_rows_le :
    (limit : ℕ) (rows : List Row) (size : ℕ) (db : Db)
    → length (cull_rows limit rows size db).1.table.rows ≤ length db.table.rows
unfolding cull_rows
length-cull_rows_le limit [] size db = omega arith
length-cull_rows_le limit (row ∷ rows) size db =
    let le = length-delete_le row db in
    let rest = length-cull_rows_le limit rows (size - row.size) (delete_row row db) in
    elim (Bool-cases (leb (10 * (size - row.size)) (9 * limit))) [
      | inl low ↦ rw low le
      | inr high ↦ rw high (omega (arith, le, rest))
    ]

pub length-cull_rows :
    (limit : ℕ) (row : Row) (rows : List Row) (size : ℕ) (db : Db)
    → Found db.table.rows row
    → length (cull_rows limit (row ∷ rows) size db).1.table.rows < length db.table.rows
unfolding cull_rows
length-cull_rows limit row rows size db here =
    let lt = length-delete row db here in
    let rest = length-cull_rows_le limit rows (size - row.size) (delete_row row db) in
    elim (Bool-cases (leb (10 * (size - row.size)) (9 * limit))) [
      | inl low ↦ rw low lt
      | inr high ↦ rw high (omega (arith, lt, rest))
    ]

-- The running total of the loop stays the size of the table.
pub cull_rows-size :
    (limit : ℕ) (rows : List Row) (size : ℕ) (db : Db)
    → IsConsistent db.table
    → size ≡ db.table.size
    → All (Found db.table.rows) rows
    → ((key : String) → sum_by (one_key key) rows ≤ 1)
    → (cull_rows limit rows size db).0 ≡ (cull_rows limit rows size db).1.table.size
unfolding cull_rows
cull_rows-size limit [] size db c e here once = e
cull_rows-size limit (row ∷ rows) size db c e here once =
    let c' = delete_row-IsConsistent row db c in
    let e' : size - row.size ≡ (delete_row row db).table.size =
      omega (arith, e, delete-size row db c here.0) in
    let one : one_key row.key row ≡ 1 = rw (eq_refl row.key) in
    let others = All-delete row db rows (omega (arith, once row.key, one)) here.1 in
    let rest =
      cull_rows-size limit rows (size - row.size) (delete_row row db) c' e' others
        (λ key. omega (arith, once key)) in
    elim (Bool-cases (leb (10 * (size - row.size)) (9 * limit))) [
      | inl low ↦ rw low e'
      | inr high ↦ rw high rest
    ]
