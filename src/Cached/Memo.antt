-- ===== src/Cached/Memo.antt =====
-- emboss/_cached.py: what a call under `@cached` answers, and when the function runs.
use emboss.Prelude.{
  ◌≡◌, refl, ap, sym, ◌∙◌, String, true, false, inl, inr, Option-cases, Option, none, some, List,
  arith, if◌then◌else◌,
}
use emboss.Cached.{
  Cache, Wrapped, returned, cache_miss, store_raised, cache_only_active, serve, decoded, settle,
  ran, compute, call,
}
use emboss.Cached.Backend.{IsCache, first_hit, lookup-first_hit, first_hit-lookup}

module _ {W Raw R : Type 0} (cache : Cache W Raw) (f : Wrapped W Raw R)
    (view : W → String → Option Raw) (laws : IsCache cache view) (key : String)
    (accept_keys : List String) where
  -- The cache has a value for the call, and it still rehydrates, to `value`.
  pub record Holds (w : W) (value : R) : Type 0 where
    pub raw : Raw
    pub there : first_hit (view w) key accept_keys ≡ some raw
    pub decodes : f.decode raw ≡ some value

  -- The cache has nothing for the call that rehydrates.
  abbrev pub Lacks : W → Type 0
  Lacks w = decoded f (first_hit (view w) key accept_keys) ≡ none

  after_serve : W → W
  unfolding serve
  after_serve w = (serve cache f key accept_keys w).0

  pub serve_lem :
      (w : W) → (serve cache f key accept_keys w).1 ≡ decoded f (first_hit (view w) key accept_keys)
  unfolding serve
  serve_lem w = ap (decoded f) (lookup-first_hit cache view laws key accept_keys w)

  first_hit-serve :
      (w : W)
      → first_hit (view (serve cache f key accept_keys w).0) key accept_keys
        ≡ first_hit (view w) key accept_keys
  unfolding serve
  first_hit-serve w = first_hit-lookup cache view laws key accept_keys w

  pub serve-Holds :
      (w : W) (value : R) → Holds w value → (serve cache f key accept_keys w).1 ≡ some value
  unfolding decoded
  serve-Holds w value h = serve_lem w ∙ (ap (decoded f) h.there ∙ h.decodes)

  pub Holds-decoded :
      (w : W) (value : R)
      → decoded f (first_hit (view w) key accept_keys) ≡ some value
      → Holds w value
  unfolding decoded
  Holds-decoded w value h = elim (Option-cases (first_hit (view w) key accept_keys)) [
    | inl absent ↦ absurd (ground (arith, absent, h))
    | inr (raw, there) ↦ record {
      raw = raw;
      there = there;
      decodes = sym (ap (decoded f) there) ∙ h;
    }
  ]

  pub Holds-serve :
      (w : W) (value : R)
      → (serve cache f key accept_keys w).1 ≡ some value
      → Holds (serve cache f key accept_keys w).0 value
  Holds-serve w value h =
      Holds-decoded (serve cache f key accept_keys w).0 value
        (ap (decoded f) (first_hit-serve w) ∙ (sym (serve_lem w) ∙ h))

  Lacks-serve : (w : W) → Lacks w → Lacks (serve cache f key accept_keys w).0
  Lacks-serve w h = ap (decoded f) (first_hit-serve w) ∙ h

  -- Over a cache with the laws of `IsCache`, a call whose current key, or else the first
  -- accepted key with an entry, holds a value that decodes returns that value in the world
  -- that the lookup leaves, cache-only mode or not: the function has not run.
  pub call-Holds :
      (w : W) (value : R)
      → Holds w value
      → call cache f key accept_keys w ≡ ((serve cache f key accept_keys w).0, returned value)
  unfolding call
  call-Holds w value h = rw (call, serve-Holds w value h) refl

  pub call-Lacks :
      (w : W)
      → Lacks w
      → call cache f key accept_keys w
        ≡ compute cache f key accept_keys (serve cache f key accept_keys w).0
  unfolding call
  call-Lacks w h = rw (call, serve_lem w, h) refl

  -- Under cache-only mode a call without a stored value raises `CacheMiss`.
  compute-sealed :
      (w : W)
      → Lacks w
      → cache_only_active
          (f.override (serve cache f key accept_keys w).0)
          (f.variable (serve cache f key accept_keys w).0)
        ≡ some true
      → compute cache f key accept_keys w ≡ ((serve cache f key accept_keys w).0, cache_miss)
  unfolding compute
  compute-sealed w h active = rw (compute, serve_lem w, h, active) refl

  compute-open :
      (w : W)
      → Lacks w
      → cache_only_active
          (f.override (serve cache f key accept_keys w).0)
          (f.variable (serve cache f key accept_keys w).0)
        ≡ some false
      → compute cache f key accept_keys w
        ≡ ran cache f key accept_keys (f.func (serve cache f key accept_keys w).0)
  unfolding compute
  compute-open w h off = rw (compute, serve_lem w, h, off) refl

  pub settle-Holds :
      (result : R) (w : W) (value : R)
      → Holds w value
      → settle cache f key accept_keys result w
        ≡ ((serve cache f key accept_keys w).0, returned value)
  unfolding settle
  settle-Holds result w value h = rw (settle, serve-Holds w value h) refl

  pub settle-Lacks :
      (result : R) (w : W)
      → Lacks w
      → settle cache f key accept_keys result w ≡ (
        (cache.set key (f.encode result) (serve cache f key accept_keys w).0).0,
        (if (cache.set key (f.encode result) (serve cache f key accept_keys w).0).1
            then returned result
            else store_raised),
      )
  unfolding settle
  settle-Lacks result w h = rw (settle, serve_lem w, h) refl

  -- The world in which the function of a miss runs: the key has been looked up twice.
  abbrev pub at_run : W → W
  at_run w = (serve cache f key accept_keys (serve cache f key accept_keys w).0).0

  -- A miss outside cache-only mode runs the function and settles its result.
  call-ran :
      (w : W)
      → Lacks w
      → cache_only_active (f.override (at_run w)) (f.variable (at_run w)) ≡ some false
      → call cache f key accept_keys w ≡ ran cache f key accept_keys (f.func (at_run w))
  call-ran w lacks off =
      call-Lacks w lacks
      ∙ compute-open (serve cache f key accept_keys w).0 (Lacks-serve w lacks) off

  -- First write wins. Over a cache with the laws of `IsCache`, let a call find nothing that
  -- decodes while cache-only mode is off, and let the function answer in a world where the
  -- cache by then holds a value for the call. The call returns the held value, not the one it
  -- computed, and the cache still holds it afterwards.
  pub call-first_write :
      (w x : W) (result value : R)
      → Lacks w
      → cache_only_active (f.override (at_run w)) (f.variable (at_run w)) ≡ some false
      → f.func (at_run w) ≡ (x, some result)
      → Holds x value
      → ((call cache f key accept_keys w).1 ≡ returned value)
        × Holds (call cache f key accept_keys w).0 value
  unfolding ran
  call-first_write w x result value lacks off answers h =
      let e : call cache f key accept_keys w
          ≡ ((serve cache f key accept_keys x).0, returned value) =
        call-ran w lacks off
        ∙ (ap (ran cache f key accept_keys) answers ∙ settle-Holds result x value h) in
      rw e (refl, Holds-serve x value (serve-Holds x value h))

  -- Over a cache with the laws of `IsCache`, let a call find nothing that decodes while
  -- cache-only mode is off, let the function answer in a world where the cache still lacks
  -- the value, and let the store not raise. The call returns what the function answered and
  -- the current key then holds its encoding.
  pub call-stored :
      (w x : W) (result : R)
      → Lacks w
      → cache_only_active (f.override (at_run w)) (f.variable (at_run w)) ≡ some false
      → f.func (at_run w) ≡ (x, some result)
      → Lacks x
      → (cache.set key (f.encode result) (serve cache f key accept_keys x).0).1 ≡ true
      → ((call cache f key accept_keys w).1 ≡ returned result)
        × (view (call cache f key accept_keys w).0 key ≡ some (f.encode result))
  unfolding ran
  call-stored w x result lacks off answers lacks_x done =
      let e =
        call-ran w lacks off
        ∙ (ap (ran cache f key accept_keys) answers ∙ settle-Lacks result x lacks_x) in
      rw (e, done) (refl, laws.set-done key (f.encode result) _ done)

  -- Over a cache with the laws of `IsCache`, a call that finds nothing that decodes while
  -- cache-only mode is on raises `CacheMiss` in the world that its two lookups leave: the
  -- function has not run.
  pub call-sealed :
      (w : W)
      → Lacks w
      → cache_only_active (f.override (at_run w)) (f.variable (at_run w)) ≡ some true
      → call cache f key accept_keys w ≡ (at_run w, cache_miss)
  call-sealed w lacks active =
      call-Lacks w lacks
      ∙ compute-sealed (serve cache f key accept_keys w).0 (Lacks-serve w lacks) active
