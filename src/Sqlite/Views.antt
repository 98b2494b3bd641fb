-- ===== src/Sqlite/Views.antt =====
-- emboss/_sqlite_cache.py: `volume`, `__len__` and `__iter__`.
use emboss.Prelude.{
  ℕ, ◌≤◌, ◌≡◌, refl, ◌∙◌, String, inl, inr, Option-cases, some, List, [], ◌∷◌, arith, map, length,
  sum_by, str_eq, is_some, if◌then◌else◌,
}
use emboss.Prelude.Sort.{sorted_by, sum-sorted_by}
use emboss.Sqlite.{Row, Db, find_row}
use emboss.Sqlite.Rows.{one_key, IsConsistent, find_row-none}

-- By the counters.
unfoldable pub volume : Db → ℕ
volume db = db.table.size

unfoldable pub count_rows : Db → ℕ
count_rows db = db.table.count

-- `SELECT key FROM Cache ORDER BY store_time`
unfoldable pub iter : Db → List String
iter db = map (λ row. row.key) (sorted_by (λ row. row.store_time) db.table.rows)

-- How often a key is listed.
abbrev pub occurrences : String → List String → ℕ
occurrences key names = sum_by (λ name. if str_eq name key then 1 else 0) names

length-keys : (rows : List Row) → length (map (λ row. row.key) rows) ≡ sum_by (λ _. 1) rows
length-keys [] = refl
length-keys (row ∷ rows) = omega (arith, length-keys rows)

length_lem : (rows : List Row) → sum_by (λ _. 1) rows ≡ length rows
length_lem [] = refl
length_lem (row ∷ rows) = omega (arith, length_lem rows)

occurrences-keys :
    (key : String) (rows : List Row)
    → occurrences key (map (λ row. row.key) rows) ≡ sum_by (one_key key) rows
occurrences-keys key [] = refl
occurrences-keys key (row ∷ rows) = omega (arith, occurrences-keys key rows)

find_row-le :
    (key : String) (rows : List Row) {row : Row}
    → find_row key rows ≡ some row
    → 1 ≤ sum_by (one_key key) rows
unfolding find_row
find_row-le key [] h = cc
find_row-le key (r ∷ rows) {row} h = ground (arith, find_row-le key rows {row = row})

-- In a consistent table, `__len__` is the number of keys that iteration lists, and iteration
-- lists every key that has a row once and no other key.
pub iter-count_rows :
    (db : Db) (key : String)
    → IsConsistent db.table
    → (length (iter db) ≡ count_rows db)
      × (occurrences key (iter db) ≡ (if is_some (find_row key db.table.rows) then 1 else 0))
unfolding iter count_rows
iter-count_rows db key c =
    let rows = db.table.rows in
    let sorted = sorted_by (λ (row : Row). row.store_time) rows in
    let listed = sum-sorted_by (λ (row : Row). row.store_time) (one_key key) rows in
    (
      omega (
        arith,
        length-keys sorted,
        sum-sorted_by (λ (row : Row). row.store_time) (λ _. 1) rows,
        length_lem rows,
        c.count,
      ),
      elim (Option-cases (find_row key rows)) [
        | inl absent ↦
            rw absent (occurrences-keys key sorted ∙ (listed ∙ find_row-none key rows absent))
        | inr (row, there) ↦
            let once : sum_by (one_key key) rows ≡ 1 =
              omega (arith, c.unique key, find_row-le key rows {row = row} there) in
            rw there (occurrences-keys key sorted ∙ (listed ∙ once))
      ],
    )
