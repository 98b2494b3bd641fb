-- ===== src/Fanout/Routes.antt =====
-- emboss/_fanout_cache.py: what the routing keeps apart, and the size of all shards together.
use emboss.Prelude.{
  ℕ, zero, suc, ◌*◌, ◌/◌, ◌%◌, ◌≤◌, ◌<◌, ◌≡◌, ◌≢◌, refl, ap, ◌∙◌, String, false, inl, inr,
  Option-cases, Option, none, some, List, [], ◌∷◌, arith, length, get_elem?, sum_by, All, ltb,
}
use mathlib.Core.Option
use mathlib.Core.Path.{subst}
use native.Mathlib.Nat.{mod-lt, mul-div-le}
use emboss.Sqlite.{Db, Config, Got, hit, fallback, expiry}
use emboss.Sqlite
use emboss.Sqlite.Reach.{Reachable, after_set, Reachable-bounded}
use emboss.Sqlite.Reads.{get_value-set}
use emboss.Fanout.{set_at, shard_config, shard_of, set, get_value, volume}

length-set_at : {A : Type 0} (i : ℕ) (x : A) (xs : List A) → length (set_at i x xs) ≡ length xs
length-set_at i x [] = refl
length-set_at zero x (y ∷ ys) = refl
length-set_at (suc i) x (y ∷ ys) = ap suc (length-set_at i x ys)

get_elem?-set_at :
    {A : Type 0} (i : ℕ) (x : A) (xs : List A) (y : A)
    → get_elem? xs i ≡ some y
    → get_elem? (set_at i x xs) i ≡ some x
get_elem?-set_at i x [] z h = cc
get_elem?-set_at zero x (y ∷ ys) z h = refl
get_elem?-set_at (suc i) x (y ∷ ys) z h = get_elem?-set_at i x ys z h

get_elem?-set_at_other :
    {A : Type 0} (i j : ℕ) (x : A) (xs : List A)
    → i ≢ j
    → get_elem? (set_at i x xs) j ≡ get_elem? xs j
get_elem?-set_at_other i j x [] ne = refl
get_elem?-set_at_other zero zero x (y ∷ ys) ne = absurd (ne refl)
get_elem?-set_at_other zero (suc j) x (y ∷ ys) ne = refl
get_elem?-set_at_other (suc i) zero x (y ∷ ys) ne = refl
get_elem?-set_at_other (suc i) (suc j) x (y ∷ ys) ne =
    get_elem?-set_at_other i j x ys (λ e. ne (ap suc e))

All-set_at :
    {A : Type 0} (P : A → Type 0) (i : ℕ) (x : A) (xs : List A)
    → P x
    → All P xs
    → All P (set_at i x xs)
All-set_at P i x [] h k = tt
All-set_at P zero x (y ∷ ys) h k = (h, k.1)
All-set_at P (suc i) x (y ∷ ys) h k = (k.0, All-set_at P i x ys h k.1)

All-get_elem? :
    {A : Type 0} (P : A → Type 0) (i : ℕ) (xs : List A) {x : A}
    → All P xs
    → get_elem? xs i ≡ some x
    → P x
All-get_elem? P i [] a h = cc
All-get_elem? P zero (x ∷ xs) a h = subst P (Option.some-injective _ _ h) a.0
All-get_elem? P (suc i) (x ∷ xs) a h = All-get_elem? P i xs a.1 h

le_trans : {a b c : ℕ} → a ≤ b → b ≤ c → a ≤ c
le_trans h k = omega (arith, h, k)

get_elem?-lt :
    {A : Type 0} (i : ℕ) (xs : List A) → i < length xs → (x : A) × (get_elem? xs i ≡ some x)
get_elem?-lt i [] h = absurd (omega (arith, h))
get_elem?-lt zero (x ∷ xs) h = (x, refl)
get_elem?-lt (suc i) (x ∷ xs) h = get_elem?-lt i xs (omega (arith, h))

-- `n` shards of at most `b` each.
sum-le :
    {A : Type 0} (f : A → ℕ) (b : ℕ) (xs : List A)
    → All (λ x. f x ≤ b) xs
    → sum_by f xs ≤ length xs * b
sum-le f b [] a = omega arith
sum-le f b (x ∷ xs) a = omega (arith, a.0, sum-le f b xs a.1)

module _ {V : Type 0} (cfg : Config V) (digest_of : String → ℕ) where
  -- Every shard is a database that calls under its share of the limit lead to.
  abbrev pub AllReachable : ℕ → List Db → Type 0
  AllReachable n shards = All (Reachable (shard_config cfg n)) shards

  -- A `set` keeps each shard a database that calls under its even share of the limit lead to.
  pub set-AllReachable :
      (shards : List Db) (key : String) (value : V) (ttl : Option ℕ) (now : ℕ) (name : String)
      → AllReachable (length shards) shards
      → AllReachable (length shards) (set cfg digest_of shards key value ttl now name)
  unfolding set
  set-AllReachable shards key value ttl now name all =
      elim (Option-cases (get_elem? shards (shard_of cfg digest_of shards key))) [
        | inl outside ↦ rw (outside, set) all
        | inr (db, there) ↦
            let old =
              All-get_elem? (Reachable (shard_config cfg (length shards))) _ shards all there in
            rw (there, set)
              (All-set_at (Reachable (shard_config cfg (length shards))) _ _ shards
                (after_set db key value ttl now name old) all)
      ]

  All-bounded :
      (n : ℕ) (dbs : List Db)
      → AllReachable n dbs
      → (b : ℕ) → (shard_config cfg n).size_limit ≡ some b
      → All (λ db. db.table.size ≤ b) dbs
  All-bounded n [] all b share = tt
  All-bounded n (db ∷ dbs) all b share =
      (Reachable-bounded (shard_config cfg n) b db share all.0, All-bounded n dbs all.1 b share)

  -- With a size limit, if each shard is a database that calls under its even share of the
  -- limit lead to, then all shards together hold at most the limit.
  pub volume-AllReachable :
      (shards : List Db) (limit : ℕ)
      → cfg.size_limit ≡ some limit
      → AllReachable (length shards) shards
      → volume shards ≤ limit
  unfolding volume shard_config
  volume-AllReachable shards limit limited all =
      let share = ap (Option.map (λ limit. limit / length shards)) limited in
      let each = All-bounded (length shards) shards all (limit / length shards) share in
      le_trans (sum-le (λ db. db.table.size) (limit / length shards) shards each)
        (mul-div-le limit (length shards))

  get_value_at :
      (shards : List Db) (key : String) (later : ℕ) (db : Db)
      → get_elem? shards (shard_of cfg digest_of shards key) ≡ some db
      → (get_value cfg digest_of shards key later).1
        ≡ (Sqlite.get_value (shard_config cfg (length shards)) db key later).1
  unfolding get_value
  get_value_at shards key later db there = rw (there, get_value) refl

  shard_of-set_at :
      (shards : List Db) (key : String) (db old : Db)
      → get_elem? shards (shard_of cfg digest_of shards key) ≡ some old
      → get_elem?
          (set_at (shard_of cfg digest_of shards key) db shards)
          (shard_of cfg digest_of (set_at (shard_of cfg digest_of shards key) db shards) key)
        ≡ some db
  unfolding shard_of
  shard_of-set_at shards key db old there =
      let i = digest_of key % length shards in
      rw (length-set_at i db shards) (get_elem?-set_at i db shards old there)

  shard_of-lt :
      (shards : List Db) (key : String)
      → 0 < length shards
      → shard_of cfg digest_of shards key < length shards
  unfolding shard_of
  shard_of-lt shards key some_shard = mod-lt (digest_of key) some_shard

  -- With a shard at least and without a size limit: if the value loads from its dump and the
  -- row is not past its time to live at the later time, then a `get` after a `set` of the key
  -- hits the value that was set, through the routing of both to the same shard.
  pub get_value-fanout_set :
      (shards : List Db) (key : String) (value : V) (ttl : Option ℕ) (now later : ℕ) (name : String)
      → 0 < length shards
      → cfg.size_limit ≡ none
      → cfg.loads (cfg.dumps value) ≡ some value
      → (elim (expiry now ttl) [ none ↦ false | some t ↦ ltb t later ]) ≡ false
      → (get_value cfg digest_of (set cfg digest_of shards key value ttl now name) key later).1
        ≡ hit value
  unfolding set shard_config
  get_value-fanout_set shards key value ttl now later name some_shard unlimited loads fresh =
      let i = shard_of cfg digest_of shards key in
      let (db, there) = get_elem?-lt i shards (shard_of-lt shards key some_shard) in
      let share = shard_config cfg (length shards) in
      let db' = Sqlite.set share db key value ttl now name in
      rw (there, set)
        (get_value_at (set_at i db' shards) key later db' (shard_of-set_at shards key db' db there)
          ∙ (ap (λ (n : ℕ). (Sqlite.get_value (shard_config cfg n) db' key later).1)
                (length-set_at i db' shards)
              ∙ get_value-set share db key value ttl now later name
                  (ap (Option.map (λ limit. limit / length shards)) unlimited) loads fresh))
