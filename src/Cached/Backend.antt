-- ===== src/Cached/Backend.antt =====
-- emboss/_cached.py, emboss/_protocol.py: what the wrapper relies on in a cache, and `_lookup`
-- against it. A dict is such a cache.
use emboss.Prelude.{
  ◌≡◌, refl, ap, sym, ◌⊎◌, ◌∙◌, String, true, false, inl, inr, Bool-cases, Option-cases, Option,
  none, some, List, [], ◌∷◌, str_eq, if◌then◌else◌,
}
use emboss.Cached.{Cache, lookup_accepted, lookup}

-- `view` is what each key holds. A read does not change it and answers it; a write that raises
-- leaves it, and one that does not sets the key.
pub record IsCache {W Raw : Type 0} (cache : Cache W Raw) (view : W → String → Option Raw)
    : Type 0 where
  pub view-get : (key : String) (w : W) → view (cache.get key w).0 ≡ view w
  pub get-view : (key : String) (w : W) → (cache.get key w).1 ≡ view w key
  pub set-done :
      (key : String) (raw : Raw) (w : W)
      → (cache.set key raw w).1 ≡ true
      → view (cache.set key raw w).0 key ≡ some raw
  pub set-other :
      (key other : String) (raw : Raw) (w : W)
      → str_eq other key ≡ false
      → view (cache.set key raw w).0 other ≡ view w other
  pub set-raised :
      (key : String) (raw : Raw) (w : W)
      → (cache.set key raw w).1 ≡ false
      → view (cache.set key raw w).0 ≡ view w

-- The value that a lookup stands for: under the key, else under the first accepted key that has one.
unfoldable pub first_accepted :
    {Raw : Type 0} → (String → Option Raw) → String → List String → Option Raw
first_accepted view key [] = none
first_accepted view key (accept_key ∷ accept_keys) =
    let rest = first_accepted view key accept_keys in
    if str_eq accept_key key
    then rest
    else elim (view accept_key) [ none ↦ rest | some raw ↦ some raw ]

unfoldable pub first_hit :
    {Raw : Type 0} → (String → Option Raw) → String → List String → Option Raw
unfolding first_accepted
first_hit view key accept_keys = elim (view key) [
  | none ↦ first_accepted view key accept_keys
  | some raw ↦ some raw
]

pub first_hit_here :
    {Raw : Type 0} (view : String → Option Raw) (key : String) (accept_keys : List String)
    {raw : Raw}
    → view key ≡ some raw
    → first_hit view key accept_keys ≡ some raw
unfolding first_hit
first_hit_here view key accept_keys there = rw (there, first_hit) refl

module _ {W Raw : Type 0} (cache : Cache W Raw) (view : W → String → Option Raw)
    (laws : IsCache cache view) where
  lookup_accepted-first_accepted :
      (key : String) (accept_keys : List String) (w : W)
      → (lookup_accepted cache key accept_keys w).1 ≡ first_accepted (view w) key accept_keys
  unfolding lookup_accepted first_accepted
  lookup_accepted-first_accepted key [] w = refl
  lookup_accepted-first_accepted key (accept_key ∷ accept_keys) w =
      elim (Bool-cases (str_eq accept_key key)) [
        | inl same ↦ rw same (lookup_accepted-first_accepted key accept_keys w)
        | inr other ↦
            let read = cache.get accept_key w in
            elim (Option-cases read.1) [
              | inl absent ↦
                  let empty : view w accept_key ≡ none =
                    sym (laws.get-view accept_key w) ∙ absent in
                  rw (other, absent, empty)
                    (lookup_accepted-first_accepted key accept_keys read.0
                      ∙ ap (λ v. first_accepted v key accept_keys) (laws.view-get accept_key w))
              | inr (raw, there) ↦
                  let held : view w accept_key ≡ some raw =
                    sym (laws.get-view accept_key w) ∙ there in
                  rw (other, there, held) refl
            ]
      ]

  -- What a lookup may have done to the cache: nothing, or its result stands under the key.
  abbrev Migrated : String → W → W × Option Raw → Type 0
  Migrated key w answer =
      (view answer.0 ≡ view w)
      ⊎ ((raw : Raw) × (answer.1 ≡ some raw) × (view answer.0 key ≡ some raw))

  lookup_accepted-Migrated :
      (key : String) (accept_keys : List String) (w : W)
      → Migrated key w (lookup_accepted cache key accept_keys w)
  unfolding lookup_accepted
  lookup_accepted-Migrated key [] w = inl refl
  lookup_accepted-Migrated key (accept_key ∷ accept_keys) w =
      elim (Bool-cases (str_eq accept_key key)) [
        | inl same ↦ rw same (lookup_accepted-Migrated key accept_keys w)
        | inr other ↦
            let read = cache.get accept_key w in
            elim (Option-cases read.1) [
              | inl absent ↦
                  rw (other, absent)
                    (elim (lookup_accepted-Migrated key accept_keys read.0) [
                      | inl kept ↦ inl (kept ∙ laws.view-get accept_key w)
                      | inr moved ↦ inr moved
                    ])
              | inr (raw, there) ↦
                  rw (other, there)
                    (elim (Bool-cases (cache.set key raw read.0).1) [
                      | inl done ↦ inr (raw, refl, laws.set-done key raw read.0 done)
                      | inr raised ↦
                          inl (laws.set-raised key raw read.0 raised ∙ laws.view-get accept_key w)
                    ])
            ]
      ]

  pub lookup-first_hit :
      (key : String) (accept_keys : List String) (w : W)
      → (lookup cache key accept_keys w).1 ≡ first_hit (view w) key accept_keys
  unfolding lookup first_hit
  lookup-first_hit key accept_keys w =
      let read = cache.get key w in
      elim (Option-cases read.1) [
        | inl absent ↦
            let empty : view w key ≡ none = sym (laws.get-view key w) ∙ absent in
            rw (absent, lookup, empty, first_hit)
              (lookup_accepted-first_accepted key accept_keys read.0
                ∙ ap (λ v. first_accepted v key accept_keys) (laws.view-get key w))
        | inr (raw, there) ↦
            let held : view w key ≡ some raw = sym (laws.get-view key w) ∙ there in
            rw (there, lookup, held, first_hit) refl
      ]

  lookup-Migrated :
      (key : String) (accept_keys : List String) (w : W)
      → Migrated key w (lookup cache key accept_keys w)
  unfolding lookup
  lookup-Migrated key accept_keys w =
      let read = cache.get key w in
      elim (Option-cases read.1) [
        | inl absent ↦
            rw (absent, lookup)
              (elim (lookup_accepted-Migrated key accept_keys read.0) [
                | inl kept ↦ inl (kept ∙ laws.view-get key w)
                | inr moved ↦ inr moved
              ])
        | inr (raw, there) ↦ rw (there, lookup) (inl (laws.view-get key w))
      ]

  -- A lookup, its copying forward included, leaves the value that the next one finds.
  pub first_hit-lookup :
      (key : String) (accept_keys : List String) (w : W)
      → first_hit (view (lookup cache key accept_keys w).0) key accept_keys
        ≡ first_hit (view w) key accept_keys
  first_hit-lookup key accept_keys w = elim (lookup-Migrated key accept_keys w) [
    | inl kept ↦ ap (λ v. first_hit v key accept_keys) kept
    | inr (raw, is_raw, there) ↦
        first_hit_here (view (lookup cache key accept_keys w).0) key accept_keys there
        ∙ (sym is_raw ∙ lookup-first_hit key accept_keys w)
  ]
