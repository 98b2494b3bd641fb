-- ===== src/Sqlite/Limit.antt =====
-- emboss/_sqlite_cache.py: `set`, its `_cull`, the counters and the size limit.
use emboss.Prelude.{
  ℕ, zero, suc, ◌+◌, ◌*◌, ◌≤◌, ◌<◌, ◌≡◌, refl, ◌∙◌, String, inl, inr, Bool-cases, ◌⊎◌, Option, none,
  some, List, [], ◌∷◌, arith, All, length, take, sum_by, leb, leb→le,
}
use mathlib.Core.Path.{subst}
use emboss.Prelude.Sort.{sorted_by, sorted_by-All, sum-sorted_by}
use emboss.Sqlite.{
  Row, Db, Policy, Config, cull_rows, cull_loop, cull, cull_if, cull_batch, drop_old_spill,
  order_time, is_empty, set,
}
use emboss.Sqlite.Rows.{row_size, one_key, IsConsistent, upsert-IsConsistent}
use emboss.Sqlite.Evict.{
  Found, All-Found, take-All, sum-take, cull_rows-IsConsistent, length-cull_rows, cull_rows-size,
}

-- The batch of a round, and what the round needs of it.
abbrev batch : Policy → Db → List Row
batch policy db = take cull_batch (sorted_by (order_time policy) db.table.rows)

batch-Found :
    (policy : Policy) (db : Db)
    → IsConsistent db.table
    → All (Found db.table.rows) (batch policy db)
batch-Found policy db c =
    take-All (Found db.table.rows) cull_batch (sorted_by (order_time policy) db.table.rows) (
      sorted_by-All (order_time policy) (Found db.table.rows) db.table.rows
        (All-Found db.table.rows c.unique))

batch-once :
    (policy : Policy) (db : Db) (key : String)
    → IsConsistent db.table
    → sum_by (one_key key) (batch policy db) ≤ 1
batch-once policy db key c =
    let rows = db.table.rows in
    let le = sum-take (one_key key) cull_batch (sorted_by (order_time policy) rows) in
    omega (arith, le, sum-sorted_by (order_time policy) (one_key key) rows, c.unique key)

length_lem : (rows : List Row) → sum_by (λ _. 1) rows ≡ length rows
length_lem [] = refl
length_lem (row ∷ rows) = omega (arith, length_lem rows)

take_nil : (rows : List Row) → take cull_batch rows ≡ [] → length rows ≡ 0
take_nil [] h = refl
take_nil (row ∷ rows) h = cc

-- An empty batch is an empty table, whose size is 0.
batch_nil :
    (policy : Policy) (db : Db) → IsConsistent db.table → batch policy db ≡ [] → db.table.size ≡ 0
batch_nil policy db c h =
    let rows = db.table.rows in
    let sorted = sorted_by (order_time policy) rows in
    let n : length rows ≡ 0 = omega (
      arith,
      take_nil sorted h,
      length_lem sorted,
      length_lem rows,
      sum-sorted_by (order_time policy) (λ _. 1) rows,
    ) in
    c.size ∙ empty rows n
  where
    empty : (rows : List Row) → length rows ≡ 0 → sum_by row_size rows ≡ 0
    empty [] n = refl
    empty (row ∷ rows) n = absurd (omega (arith, n))

List-cases :
    (rows : List Row) → (rows ≡ []) ⊎ ((row : Row) × (rest : List Row) × (rows ≡ row ∷ rest))
List-cases [] = inl refl
List-cases (row ∷ rest) = inr (row, rest, refl)

pub cull_loop-IsConsistent :
    (fuel : ℕ) (policy : Policy) (limit size : ℕ) (db : Db)
    → IsConsistent db.table
    → IsConsistent (cull_loop fuel policy limit size db).table
unfolding cull_loop
cull_loop-IsConsistent zero policy limit size db c = c
cull_loop-IsConsistent (suc fuel) policy limit size db c =
    elim (Bool-cases (leb (10 * size) (9 * limit))) [
      | inl low ↦ rw low c
      | inr high ↦ elim (Bool-cases (is_empty (batch policy db))) [
        | inl done ↦ rw (high, done) c
        | inr more ↦
            let next = cull_rows limit (batch policy db) size db in
            let c' = cull_rows-IsConsistent limit (batch policy db) size db c in
            rw (high, more) (cull_loop-IsConsistent fuel policy limit next.0 next.1 c')
      ]
    ]

-- In a consistent table, eviction with more rounds than there are rows, started with the total
-- size, ends with a total of at most nine tenths of the limit.
pub cull_loop-bounded :
    (fuel : ℕ) (policy : Policy) (limit size : ℕ) (db : Db)
    → IsConsistent db.table
    → size ≡ db.table.size
    → length db.table.rows < fuel
    → 10 * (cull_loop fuel policy limit size db).table.size ≤ 9 * limit
unfolding cull_loop is_empty
cull_loop-bounded zero policy limit size db c e lt = absurd (omega (arith, lt))
cull_loop-bounded (suc fuel) policy limit size db c e lt =
    elim (Bool-cases (leb (10 * size) (9 * limit))) [
      | inl low ↦ let le = leb→le (10 * size) (9 * limit) low in rw low (omega (arith, e, le))
      | inr high ↦ elim (List-cases (batch policy db)) [
        | inl done ↦ rw (high, done) (omega (arith, batch_nil policy db c done))
        | inr (row, rest, split) ↦
            let here : All (Found db.table.rows) (row ∷ rest) =
              subst (All (Found db.table.rows)) split (batch-Found policy db c) in
            let once : (key : String) → sum_by (one_key key) (row ∷ rest) ≤ 1 = λ key.
              subst (λ rows. sum_by (one_key key) rows ≤ 1) split (batch-once policy db key c) in
            let next = cull_rows limit (row ∷ rest) size db in
            let c' = cull_rows-IsConsistent limit (row ∷ rest) size db c in
            let e' = cull_rows-size limit (row ∷ rest) size db c e here once in
            let less = length-cull_rows limit row rest size db here.0 in
            rw (high, split)
              (cull_loop-bounded fuel policy limit next.0 next.1 c' e' (omega (arith, less, lt)))
      ]
    ]

cull-IsConsistent :
    (policy : Policy) (limit : ℕ) (db : Db)
    → IsConsistent db.table
    → IsConsistent (cull policy limit db).table
unfolding cull
cull-IsConsistent policy limit db c = elim (Bool-cases (leb db.table.size limit)) [
  | inl low ↦ rw low c
  | inr high ↦
      rw high (cull_loop-IsConsistent (length db.table.rows + 1) policy limit db.table.size db c)
]

cull-bounded :
    (policy : Policy) (limit : ℕ) (db : Db)
    → IsConsistent db.table
    → (cull policy limit db).table.size ≤ limit
unfolding cull
cull-bounded policy limit db c = elim (Bool-cases (leb db.table.size limit)) [
  | inl low ↦ rw low (leb→le db.table.size limit low)
  | inr high ↦
      let le =
        cull_loop-bounded (length db.table.rows + 1) policy limit db.table.size db c refl
          (omega arith) in
      rw high (omega (arith, le))
]

pub drop_old_spill-table :
    (old : Option Row) (f : Option String) (db : Db) → (drop_old_spill old f db).table ≡ db.table
unfolding drop_old_spill
drop_old_spill-table none f db = refl
drop_old_spill-table (some old) f db = ground arith

cull_if-IsConsistent :
    (policy : Policy) (limit : Option ℕ) (db : Db)
    → IsConsistent db.table
    → IsConsistent (cull_if policy limit db).table
unfolding cull_if
cull_if-IsConsistent policy none db c = c
cull_if-IsConsistent policy (some limit) db c = cull-IsConsistent policy limit db c

module _ {V : Type 0} (cfg : Config V) where
  pub set-IsConsistent :
      (db : Db) (key : String) (value : V) (expire : Option ℕ) (now : ℕ) (name : String)
      → IsConsistent db.table
      → IsConsistent (set cfg db key value expire now name).table
  unfolding set
  set-IsConsistent db key value expire now name c =
      cull_if-IsConsistent cfg.eviction_policy cfg.size_limit _
        (rw drop_old_spill-table (upsert-IsConsistent _ db.table c))

  pub set-bounded :
      (db : Db) (key : String) (value : V) (expire : Option ℕ) (now : ℕ) (name : String) (limit : ℕ)
      → IsConsistent db.table
      → cfg.size_limit ≡ some limit
      → (set cfg db key value expire now name).table.size ≤ limit
  unfolding set cull_if
  set-bounded db key value expire now name limit c limited = rw limited (
      cull-bounded cfg.eviction_policy limit _
        (rw drop_old_spill-table (upsert-IsConsistent _ db.table c)))
