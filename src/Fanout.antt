-- ===== src/Fanout.antt =====
-- emboss/_fanout_cache.py: `FanoutCache`, a list of `SqliteCache` databases and the routing of keys.
-- `digest_of` is the number that the first eight bytes of the md5 of a key spell.
pub mod Routes
use emboss.Prelude.{
  ℕ, zero, suc, ◌+◌, ◌/◌, ◌%◌, String, Bool, true, false, Option, none, some, List, [], ◌∷◌, length,
  get_elem?, map, sum_by,
}
use mathlib.Core.Option
use emboss.Sqlite.{Row, Table, Db, Config, Got, fallback}
use emboss.Sqlite

abbrev pub set_at : {A : Type 0} → ℕ → A → List A → List A
set_at i x [] = []
set_at zero x (y ∷ ys) = x ∷ ys
set_at (suc i) x (y ∷ ys) = y ∷ set_at i x ys

-- The settings of each shard: the limit is split evenly, downwards.
unfoldable pub shard_config : {V : Type 0} → Config V → ℕ → Config V
shard_config cfg shards = record cfg {
  size_limit = Option.map (λ limit. limit / shards) cfg.size_limit;
}

module _ {V : Type 0} (cfg : Config V) (digest_of : String → ℕ) where
  -- `_shard`
  unfoldable pub shard_of : List Db → String → ℕ
  shard_of shards key = digest_of key % length shards

  unfoldable pub get_value : List Db → String → ℕ → List Db × Got V
  get_value shards key now = elim (get_elem? shards (shard_of shards key)) [
    | none ↦ (shards, fallback)
    | some db ↦
        let (db', got) = Sqlite.get_value (shard_config cfg (length shards)) db key now in
        (set_at (shard_of shards key) db' shards, got)
  ]

  unfoldable pub set : List Db → String → V → Option ℕ → ℕ → String → List Db
  set shards key value ttl now name = elim (get_elem? shards (shard_of shards key)) [
    | none ↦ shards
    | some db ↦
        set_at (shard_of shards key)
          (Sqlite.set (shard_config cfg (length shards)) db key value ttl now name) shards
  ]

  unfoldable pub delete : List Db → String → List Db × Bool
  delete shards key = elim (get_elem? shards (shard_of shards key)) [
    | none ↦ (shards, false)
    | some db ↦
        let (db', done) = Sqlite.delete db key in (set_at (shard_of shards key) db' shards, done)
  ]

  unfoldable pub contains : List Db → String → ℕ → Bool
  contains shards key now = elim (get_elem? shards (shard_of shards key)) [
    | none ↦ false
    | some db ↦ Sqlite.contains db key now
  ]

unfoldable pub clear : List Db → List Db × ℕ
clear shards = (map (λ db. (Sqlite.clear db).0) shards, sum_by (λ db. (Sqlite.clear db).1) shards)

unfoldable pub expire : List Db → ℕ → List Db × ℕ
expire shards now =
    (map (λ db. (Sqlite.expire db now).0) shards, sum_by (λ db. (Sqlite.expire db now).1) shards)

-- `volume` and `__len__`, by the counters of the shards
unfoldable pub volume : List Db → ℕ
volume shards = sum_by (λ db. db.table.size) shards

unfoldable pub count_all : List Db → ℕ
count_all shards = sum_by (λ db. db.table.count) shards
