-- ===== src/Sqlite/Rows.antt =====
-- emboss/_sqlite_cache.py: the table with its unique index, and the counters that triggers keep.
use emboss.Prelude.{
  ℕ, ◌+◌, ◌≤◌, ◌≡◌, refl, ap, String, Bool, not, inl, inr, Bool-cases, Option-cases, none, some,
  List, [], ◌∷◌, ◌++◌, arith, length, keep_if, sum_by, str_eq, eq_iff, if◌then◌else◌,
}
use mathlib.Core.Path.{subst}
use emboss.Sqlite.{Row, Table, has_key, find_row, delete_where, replace_row, upsert}

abbrev pub row_size : Row → ℕ
row_size row = row.size

abbrev pub one_key : String → Row → ℕ
one_key key row = if has_key key row then 1 else 0

pub record IsConsistent (t : Table) : Type 0 where
  pub size : t.size ≡ sum_by row_size t.rows
  pub count : t.count ≡ length t.rows
  pub unique : (key : String) → sum_by (one_key key) t.rows ≤ 1

-- A filter and its complement split every sum.
pub sum-keep_if :
    (f : Row → ℕ) (p : Row → Bool) (rows : List Row)
    → sum_by f (keep_if p rows) + sum_by f (keep_if (λ row. not (p row)) rows) ≡ sum_by f rows
sum-keep_if f p [] = refl
sum-keep_if f p (row ∷ rows) = ground (arith, sum-keep_if f p rows)

length-keep_if :
    (p : Row → Bool) (rows : List Row)
    → length (keep_if p rows) + length (keep_if (λ row. not (p row)) rows) ≡ length rows
length-keep_if p [] = refl
length-keep_if p (row ∷ rows) = ground (arith, length-keep_if p rows)

pub delete_where-IsConsistent :
    (p : Row → Bool) (t : Table) → IsConsistent t → IsConsistent (delete_where p t)
unfolding delete_where
delete_where-IsConsistent p t c = record {
  size = omega (arith, c.size, sum-keep_if row_size p t.rows);
  count = omega (arith, c.count, length-keep_if p t.rows);
  unique = λ key. omega (arith, c.unique key, sum-keep_if (one_key key) p t.rows);
}

sum-snoc :
    (f : Row → ℕ) (rows : List Row) (row : Row)
    → sum_by f (rows ++ row ∷ []) ≡ sum_by f rows + f row
sum-snoc f [] row = omega arith
sum-snoc f (r ∷ rows) row = omega (arith, sum-snoc f rows row)

length-snoc : (rows : List Row) (row : Row) → length (rows ++ row ∷ []) ≡ length rows + 1
length-snoc [] row = refl
length-snoc (r ∷ rows) row = omega (arith, length-snoc rows row)

-- Replacing a row exchanges its contribution to every sum.
pub sum-replace_row :
    (f : Row → ℕ) (new : Row) {old : Row} (rows : List Row)
    → find_row new.key rows ≡ some old
    → sum_by f (replace_row new rows) + f old ≡ sum_by f rows + f new
unfolding find_row replace_row
sum-replace_row f new [] h = cc
sum-replace_row f new {old} (row ∷ rows) h = ground (arith, sum-replace_row f new {old = old} rows)

pub length-replace_row : (new : Row) (rows : List Row) → length (replace_row new rows) ≡ length rows
unfolding replace_row
length-replace_row new [] = refl
length-replace_row new (row ∷ rows) = ground (arith, length-replace_row new rows)

pub find_row-key :
    (key : String) {old : Row} (rows : List Row) → find_row key rows ≡ some old → old.key ≡ key
unfolding find_row
find_row-key key [] h = cc
find_row-key key {old} (row ∷ rows) h =
    ground (arith, eq_iff row.key key, find_row-key key {old = old} rows)

pub find_row-none :
    (key : String) (rows : List Row) → find_row key rows ≡ none → sum_by (one_key key) rows ≡ 0
unfolding find_row
find_row-none key [] h = refl
find_row-none key (row ∷ rows) h = ground (arith, find_row-none key rows)

unique_snoc :
    (new : Row) (rows : List Row) (key : String)
    → find_row new.key rows ≡ none
    → sum_by (one_key key) rows ≤ 1
    → sum_by (one_key key) (rows ++ new ∷ []) ≤ 1
unique_snoc new rows key absent le = elim (Bool-cases (has_key key new)) [
  | inr other ↦
      let zero_new : one_key key new ≡ 0 = rw other in
      omega (arith, sum-snoc (one_key key) rows new)
  | inl same ↦
      let named : new.key ≡ key = (eq_iff new.key key).0 same in
      let none_old : sum_by (one_key key) rows ≡ 0 =
        find_row-none key rows (subst (λ k. find_row k rows ≡ none) named absent) in
      let one_new : one_key key new ≡ 1 = rw same in omega (arith, sum-snoc (one_key key) rows new)
]

pub unique_replaced :
    (new old : Row) (rows : List Row) (key : String)
    → find_row new.key rows ≡ some old
    → sum_by (one_key key) rows ≤ 1
    → sum_by (one_key key) (replace_row new rows) ≤ 1
unique_replaced new old rows key there le =
    let same : one_key key old ≡ one_key key new =
      ap (λ (k : String). if str_eq k key then 1 else 0)
        (find_row-key new.key {old = old} rows there) in
    omega (arith, sum-replace_row (one_key key) new {old = old} rows there)

pub upsert-IsConsistent : (new : Row) (t : Table) → IsConsistent t → IsConsistent (upsert new t)
unfolding upsert
upsert-IsConsistent new t c = elim (Option-cases (find_row new.key t.rows)) [
  | inl absent ↦
      rw (absent, upsert)
        (record {
          size = omega (arith, c.size, sum-snoc row_size t.rows new);
          count = omega (arith, c.count, length-snoc t.rows new);
          unique = λ key. unique_snoc new t.rows key absent (c.unique key);
        })
  | inr (old, there) ↦
      rw (there, upsert)
        (record {
          size = omega (arith, c.size, sum-replace_row row_size new {old = old} t.rows there);
          count = omega (arith, c.count, length-replace_row new t.rows);
          unique = λ key. unique_replaced new old t.rows key there (c.unique key);
        })
]
