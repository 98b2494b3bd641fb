-- ===== src/Cached.antt =====
-- emboss/_cached.py: the cache-only switch and the calls of a function under `@cached`.
-- A world `W` is all that a call can change: the cache, the environment and whatever the wrapped
-- function touches, the writes of other processes while it runs included. A call here is the run of one thread:
-- the latch that `_compute` holds is apart in Latch. The log messages and the asyncio twin of
-- `_compute` are left out.
pub mod Anno
pub mod Backend
pub mod Codec
pub mod Latch
pub mod Memo
pub mod Stable
pub mod Tokens
use emboss.Prelude.{
  String, Bool, true, false, ◌||◌, Option, none, some, List, [], ◌∷◌, str_eq, if◌then◌else◌,
}

-- `cache.get(key, default=_MISSING)`, and `cache.set`, which answers whether it did not raise.
pub record Cache (W Raw : Type 0) : Type 0 where
  pub get : String → W → W × Option Raw
  pub set : String → Raw → W → W × Bool

-- What the decorator knows of the function: how its values are stored, with `none` for a stored
-- shape that no longer rehydrates; its body, with `none` for an exception; and the two sources of
-- the cache-only switch, the variable stripped and in lower case.
pub record Wrapped (W Raw R : Type 0) : Type 0 where
  pub encode : R → Raw
  pub decode : Raw → Option R
  pub func : W → W × Option R
  pub override : W → Option Bool
  pub variable : W → String

-- How a call ends: a value, `CacheMiss`, the `ValueError` of the switch, an exception of the
-- function, or one of `cache.set`.
pub data Reply (R : Type 0) : Type 0 where
  returned : R → Reply R
  cache_miss bad_switch func_raised store_raised : Reply R

one_of : List String → String → Bool
one_of [] value = false
one_of (x ∷ xs) value = str_eq x value || one_of xs value

-- `_cache_only_active`; `none` is the `ValueError`.
unfoldable pub cache_only_active : Option Bool → String → Option Bool
unfolding one_of
cache_only_active (some active) value = some active
cache_only_active none value =
    if one_of ("1" ∷ "true" ∷ "yes" ∷ []) value
    then some true
    else if one_of ("" ∷ "0" ∷ "false" ∷ "no" ∷ "off" ∷ []) value
    then some false
    else none

unfoldable pub decoded : {W Raw R : Type 0} → Wrapped W Raw R → Option Raw → Option R
decoded f none = none
decoded f (some raw) = f.decode raw

module _ {W Raw : Type 0} (cache : Cache W Raw) where
  -- The loop of `_lookup`: a hit is copied forward, and a failing copy is passed over.
  unfoldable pub lookup_accepted : String → List String → W → W × Option Raw
  lookup_accepted key [] w = (w, none)
  lookup_accepted key (accept_key ∷ accept_keys) w =
      let read = cache.get accept_key w in
      let skipped = lookup_accepted key accept_keys w in
      let tried : W × Option Raw = elim read.1 [
        | none ↦ lookup_accepted key accept_keys read.0
        | some raw ↦ ((cache.set key raw read.0).0, some raw)
      ] in
      if str_eq accept_key key then skipped else tried

  unfoldable pub lookup : String → List String → W → W × Option Raw
  lookup key accept_keys w =
      let read = cache.get key w in
      elim read.1 [ some raw ↦ (read.0, some raw) | none ↦ lookup_accepted key accept_keys read.0 ]

module _ {W Raw R : Type 0} (cache : Cache W Raw) (f : Wrapped W Raw R) where
  -- `none` is `_MISSING`, of an absent key or of a value that no longer rehydrates.
  unfoldable pub serve : String → List String → W → W × Option R
  unfolding decoded
  serve key accept_keys w = let read = lookup cache key accept_keys w in (read.0, decoded f read.1)

  unfoldable pub settle : String → List String → R → W → W × Reply R
  settle key accept_keys result w =
      let (w1, stored) = serve key accept_keys w in
      elim stored [
        | some value ↦ (w1, returned value)
        | none ↦
            let (w2, done) = cache.set key (f.encode result) w1 in
            (w2, if done then returned result else store_raised)
      ]

  -- The miss path with the function called: `settle` if it answers.
  unfoldable pub ran : String → List String → W × Option R → W × Reply R
  ran key accept_keys (w, none) = (w, func_raised)
  ran key accept_keys (w, some result) = settle key accept_keys result w

  unfoldable pub compute : String → List String → W → W × Reply R
  unfolding ran
  compute key accept_keys w =
      let (w1, served) = serve key accept_keys w in
      elim served [
        | some value ↦ (w1, returned value)
        | none ↦ elim (cache_only_active (f.override w1) (f.variable w1)) [
          | none ↦ (w1, bad_switch)
          | some true ↦ (w1, cache_miss)
          | some false ↦ ran key accept_keys (f.func w1)
        ]
      ]

  -- `wrapper`, at the keys of the arguments
  unfoldable pub call : String → List String → W → W × Reply R
  call key accept_keys w =
      let (w1, served) = serve key accept_keys w in
      elim served [ some value ↦ (w1, returned value) | none ↦ compute key accept_keys w1 ]
