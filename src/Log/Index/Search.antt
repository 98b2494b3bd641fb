-- ===== src/Log/Index/Search.antt =====
-- emboss/_log_cache.py: the binary search of `_PackedIndex.lookup` and its specification.
use emboss.Prelude.{
  ℕ, zero, suc, ◌+◌, ◌/◌, ◌≤◌, ◌<◌, ◌≡◌, ◌≢◌, refl, sym, ap, ◌∙◌, inl, inr, Option, none, some,
  List, [], ◌∷◌, arith, All, ltb, ltb→lt, ltb→le, length, get_elem?, Bool-cases, if◌then◌else◌,
}
use mathlib.Core.Path.{subst}
use mathlib.Core.Option.{some-injective}
use emboss.Log.Index.{Entry, bisect}

-- Strictly ascending by digest.
abbrev pub IsPacked : List Entry → Type 0
IsPacked [] = Unit
IsPacked (e ∷ es) = All (λ f. e.digest < f.digest) es × IsPacked es

-- What the search promises: the entry with the digest, found by looking at each.
unfoldable pub find_entry : ℕ → List Entry → Option Entry
find_entry digest [] = none
find_entry digest (e ∷ es) =
    if ltb e.digest digest
    then find_entry digest es
    else if ltb digest e.digest
    then find_entry digest es
    else some e

All-get_elem? :
    (P : Entry → Type 0) (es : List Entry) (i : ℕ) {e : Entry}
    → All P es
    → get_elem? es i ≡ some e
    → P e
All-get_elem? P [] i a h = cc
All-get_elem? P (x ∷ es) zero a h = subst P (some-injective _ _ h) a.0
All-get_elem? P (x ∷ es) (suc i) a h = All-get_elem? P es i a.1 h

packed_lt :
    (es : List Entry) (i j : ℕ) {a b : Entry}
    → IsPacked es
    → i < j
    → get_elem? es i ≡ some a
    → get_elem? es j ≡ some b
    → a.digest < b.digest
packed_lt [] i j s lt ha hb = cc
packed_lt (x ∷ es) i zero s lt ha hb = absurd (omega arith)
packed_lt (x ∷ es) zero (suc j) {a} {b} s lt ha hb =
    ground (arith, All-get_elem? (λ f. x.digest < f.digest) es j {e = b} s.0 hb)
packed_lt (x ∷ es) (suc i) (suc j) s lt ha hb = packed_lt es i j s.1 (omega arith) ha hb

packed_le :
    (es : List Entry) (i j : ℕ) {a b : Entry}
    → IsPacked es
    → i ≤ j
    → get_elem? es i ≡ some a
    → get_elem? es j ≡ some b
    → a.digest ≤ b.digest
packed_le es i j {a} {b} s le ha hb = elim (Bool-cases (ltb i j)) [
  | inl lt ↦ omega (arith, packed_lt es i j {a = a} {b = b} s (ltb→lt i j lt) ha hb)
  | inr ge ↦
      let same : i ≡ j = omega (arith, ltb→le i j ge) in
      let one : a ≡ b = some-injective a b (sym (rw same at ha) ∙ hb) in
      omega (arith, ap (λ (e : Entry). e.digest) one)
]

find_entry_absent :
    (digest : ℕ) (es : List Entry)
    → ((i : ℕ) (e : Entry) → get_elem? es i ≡ some e → e.digest ≢ digest)
    → find_entry digest es ≡ none
unfolding find_entry
find_entry_absent digest [] h = refl
find_entry_absent digest (x ∷ es) h =
    ground (arith, h 0 x refl, find_entry_absent digest es (λ i e g. h (suc i) e g))

pub find_entry_hit :
    (es : List Entry) (i : ℕ) {e : Entry}
    → IsPacked es
    → get_elem? es i ≡ some e
    → find_entry e.digest es ≡ some e
unfolding find_entry
find_entry_hit [] i s h = cc
find_entry_hit (x ∷ es) zero {e} s h = ground arith
find_entry_hit (x ∷ es) (suc i) {e} s h = ground (
  arith,
  All-get_elem? (λ f. x.digest < f.digest) es i {e = e} s.0 h,
  find_entry_hit es i {e = e} s.1 h,
)

get_elem?_inside :
    (es : List Entry) (i : ℕ) → i < length es → (e : Entry) × (get_elem? es i ≡ some e)
get_elem?_inside [] i h = absurd (omega arith)
get_elem?_inside (x ∷ es) zero h = (x, refl)
get_elem?_inside (x ∷ es) (suc i) h = get_elem?_inside es i (omega arith)

outside : (es : List Entry) (i : ℕ) (e : Entry) → length es ≤ i → get_elem? es i ≡ some e → ⊥
outside [] i e h at = cc
outside (x ∷ es) zero e h at = omega arith
outside (x ∷ es) (suc i) e h at = outside es i e (omega arith) at

module _ (es : List Entry) (digest : ℕ) (packed : IsPacked es) where
  -- Outside `[lo, hi)` the search has excluded every entry.
  record Excluded (lo hi : ℕ) : Type 0 where
    below : (i : ℕ) (e : Entry) → i < lo → get_elem? es i ≡ some e → e.digest < digest
    above : (i : ℕ) (e : Entry) → hi ≤ i → get_elem? es i ≡ some e → digest < e.digest

  exhausted : (lo hi : ℕ) → hi ≤ lo → Excluded lo hi → find_entry digest es ≡ none
  exhausted lo hi le x = find_entry_absent digest es absent
    where
      absent : (i : ℕ) (e : Entry) → get_elem? es i ≡ some e → e.digest ≢ digest
      absent i e at = elim (Bool-cases (ltb i lo)) [
        | inl left ↦ omega (arith, x.below i e (ltb→lt i lo left) at)
        | inr right ↦ omega (arith, ltb→le i lo right, λ (h : hi ≤ i). x.above i e h at)
      ]

  bisect_range :
      (fuel lo hi : ℕ)
      → hi < lo + fuel
      → hi ≤ length es
      → Excluded lo hi
      → bisect fuel es digest lo hi ≡ find_entry digest es
  unfolding bisect
  bisect_range zero lo hi room inside x = sym (exhausted lo hi (omega arith) x)
  bisect_range (suc fuel) lo hi room inside x = elim (Bool-cases (ltb lo hi)) [
    | inr empty ↦ rw empty (sym (exhausted lo hi (ltb→le lo hi empty) x))
    | inl range ↦
        let lt = ltb→lt lo hi range in
        let mid = (lo + hi) / 2 in
        let (cur, at) = get_elem?_inside es mid (omega arith) in
        elim (Bool-cases (ltb cur.digest digest)) [
          | inl smaller ↦
              rw (range, at, smaller)
                (bisect_range fuel (mid + 1) hi (omega arith) inside (record {
                  below = λ i e h found. omega (
                    arith,
                    packed_le es i mid {a = e} {b = cur} packed (omega arith) found at,
                    ltb→lt cur.digest digest smaller,
                  );
                  above = x.above;
                }))
          | inr big ↦ elim (Bool-cases (ltb digest cur.digest)) [
            | inl larger ↦
                rw (range, at, big, larger)
                  (bisect_range fuel lo mid (omega arith) (omega arith) (record {
                    below = x.below;
                    above = λ i e h found. omega (
                      arith,
                      packed_le es mid i {a = cur} {b = e} packed h at found,
                      ltb→lt digest cur.digest larger,
                    );
                  }))
            | inr same ↦
                let e : digest ≡ cur.digest =
                  omega (arith, ltb→le cur.digest digest big, ltb→le digest cur.digest same) in
                rw (range, at, big, same) (sym (rw e (find_entry_hit es mid packed at)))
          ]
        ]
  ]

-- On entries that ascend strictly by digest, the binary search over all of them, with one round
-- more than there are entries, answers what looking at each entry answers.
pub bisect-find_entry :
    (es : List Entry) (digest : ℕ)
    → IsPacked es
    → bisect (length es + 1) es digest 0 (length es) ≡ find_entry digest es
bisect-find_entry es digest packed =
    bisect_range es digest packed (length es + 1) 0 (length es) (omega arith) (omega arith)
      (record {
        below = λ i e h at. absurd (omega arith);
        above = λ i e h at. absurd (outside es i e h at);
      })
