-- ===== src/Cached/Stable.antt =====
-- emboss/_cached.py: two calls in a row with the same keys.
use emboss.Prelude.{
  ◌≡◌, refl, ap, ◌∙◌, String, true, false, inl, inr, Bool-cases, Option-cases, Option, none, some,
  List, if◌then◌else◌,
}
use mathlib.Core.Path.{subst}
use emboss.Cached.{
  Cache, Wrapped, Reply, returned, store_raised, cache_only_active, serve, settle, ran, compute,
  call,
}
use emboss.Cached.Backend.{IsCache, first_hit_here}
use emboss.Cached.Memo.{Holds, Holds-serve, call-Holds}

returned_injective : {R : Type 0} {x y : R} → returned x ≡ returned y → x ≡ y
returned_injective {R} {x} {y} h = ap (value_or x) h
  where
    value_or : R → Reply R → R
    value_or d (returned v) = v
    value_or d _ = d

module _ {W Raw R : Type 0} (cache : Cache W Raw) (f : Wrapped W Raw R)
    (view : W → String → Option Raw) (laws : IsCache cache view)
    (round_trip : (w : W) (r : R) → (f.func w).1 ≡ some r → f.decode (f.encode r) ≡ some r)
    (key : String) (accept_keys : List String) where
  abbrev Kept : W × Reply R → Type 0
  Kept out =
      (value : R) → out.1 ≡ returned value → Holds cache f view laws key accept_keys out.0 value

  served_Kept :
      (w : W) (value : R)
      → (serve cache f key accept_keys w).1 ≡ some value
      → Kept ((serve cache f key accept_keys w).0, returned value)
  served_Kept w value h v e =
      subst (Holds cache f view laws key accept_keys (serve cache f key accept_keys w).0)
        (returned_injective e) (Holds-serve cache f view laws key accept_keys w value h)

  stored_Kept :
      (result : R) (w : W)
      → f.decode (f.encode result) ≡ some result
      → Kept (
        (cache.set key (f.encode result) w).0,
        (if (cache.set key (f.encode result) w).1 then returned result else store_raised),
      )
  stored_Kept result w back = elim (Bool-cases (cache.set key (f.encode result) w).1) [
    | inr raised ↦ rw raised (λ v e. cc)
    | inl done ↦
        let there = laws.set-done key (f.encode result) w done in
        rw done (λ v e. record {
          raw = f.encode result;
          there = first_hit_here (view (cache.set key (f.encode result) w).0) key accept_keys there;
          decodes = back ∙ ap some (returned_injective e);
        })
  ]

  settle-Kept :
      (result : R) (w : W)
      → f.decode (f.encode result) ≡ some result
      → Kept (settle cache f key accept_keys result w)
  unfolding settle
  settle-Kept result w back = elim (Option-cases (serve cache f key accept_keys w).1) [
    | inl lacks ↦ rw (settle, lacks) (stored_Kept result (serve cache f key accept_keys w).0 back)
    | inr (value, h) ↦ rw (settle, h) (served_Kept w value h)
  ]

  ran-Kept :
      (out : W × Option R)
      → ((r : R) → out.1 ≡ some r → f.decode (f.encode r) ≡ some r)
      → Kept (ran cache f key accept_keys out)
  unfolding ran
  ran-Kept (w, none) back = λ v e. cc
  ran-Kept (w, some result) back = settle-Kept result w (back result refl)

  compute-Kept : (w : W) → Kept (compute cache f key accept_keys w)
  unfolding compute
  compute-Kept w = elim (Option-cases (serve cache f key accept_keys w).1) [
    | inr (value, h) ↦ rw (compute, h) (served_Kept w value h)
    | inl lacks ↦
        let w1 = (serve cache f key accept_keys w).0 in
        elim (Option-cases (cache_only_active (f.override w1) (f.variable w1))) [
          | inl bad ↦ rw (compute, lacks, bad) (λ v e. cc)
          | inr (true, on) ↦ rw (compute, lacks, on) (λ v e. cc)
          | inr (false, off) ↦ rw (compute, lacks, off) (ran-Kept (f.func w1) (round_trip w1))
        ]
  ]

  call-Kept : (w : W) → Kept (call cache f key accept_keys w)
  unfolding call
  call-Kept w = elim (Option-cases (serve cache f key accept_keys w).1) [
    | inr (value, h) ↦ rw (call, h) (served_Kept w value h)
    | inl lacks ↦ rw (call, lacks) (compute-Kept (serve cache f key accept_keys w).0)
  ]

  -- Over a cache that keeps the laws of `IsCache`, with values that decode to what they were
  -- encoded from: if a call returned a value, by a hit, a migration, a miss or a rival's
  -- write, then the next call with the same keys returns that value too, whatever the body of
  -- the function has become.
  pub call-call :
      (w : W) (value : R) (body : W → W × Option R)
      → (call cache f key accept_keys w).1 ≡ returned value
      → (call cache (record f { func = body }) key accept_keys (call cache f key accept_keys w).0).1
        ≡ returned value
  call-call w value body e =
      let h = call-Kept w value e in
      ap (λ (out : W × Reply R). out.1)
        (call-Holds cache (record f { func = body }) view laws key accept_keys _ value
          (record { raw = h.raw; there = h.there; decodes = h.decodes }))
