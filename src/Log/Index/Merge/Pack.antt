-- ===== src/Log/Index/Merge/Pack.antt =====
-- emboss/_log_cache.py: the packed entries of `_ensure_index` against the dict they come from.
use emboss.Prelude.{
  ℕ, ◌≤◌, ◌<◌, ◌≡◌, ◌≢◌, ◌⊎◌, refl, ◌∙◌, Bool, true, inl, inr, Option, none, some, List, [], ◌∷◌,
  arith, All, map, keep_if, Bool-cases, Option-cases, sum_by, if◌then◌else◌,
}
use mathlib.Core.Logic.{ite, if_pos, if_neg}
use mathlib.Core.Path.{subst}
use mathlib.Core.Option.{some-injective}
use native.Mathlib.Decide.{ℕ_discrete}
use emboss.Prelude.Dict.{Dict, get, put}
use emboss.Prelude.Sort.{
  sorted_by, Ascending, sorted_by-All, All-sorted_by, sorted_by-Ascending, sum-sorted_by,
}
use emboss.Log.Index.{Merged, Entry, entry_of, pack_entries}
use emboss.Log.Index.Search.{IsPacked, find_entry}

abbrev Item : Type 0
Item = ℕ × Merged

abbrev by_digest : Item → ℕ
by_digest item = item.0

abbrev one_if : ℕ → Item → ℕ
one_if d item = ite (ℕ_discrete item.0 d) 1 0

-- No digest stands twice.
abbrev pub IsDistinct : Dict ℕ Merged → Type 0
IsDistinct m = (d : ℕ) → sum_by (one_if d) m ≤ 1

count-put_ne :
    (d k : ℕ) (v : Merged) (m : Dict ℕ Merged)
    → d ≢ k
    → sum_by (one_if d) (put ℕ_discrete k v m) ≡ sum_by (one_if d) m
unfolding put
count-put_ne d k v [] ne = ground arith
count-put_ne d k v ((j, w) ∷ m) ne = ground (arith, count-put_ne d k v m ne)

count-put_self :
    (k : ℕ) (v : Merged) (m : Dict ℕ Merged)
    → sum_by (one_if k) m ≤ 1
    → sum_by (one_if k) (put ℕ_discrete k v m) ≤ 1
unfolding put
count-put_self k v [] le = ground arith
count-put_self k v ((j, w) ∷ m) le = ground (arith, count-put_self k v m)

pub put-IsDistinct :
    (k : ℕ) (v : Merged) (m : Dict ℕ Merged) → IsDistinct m → IsDistinct (put ℕ_discrete k v m)
put-IsDistinct k v m h d = elim (ℕ_discrete d k) [
  | yes same ↦ rw same (count-put_self k v m (h k))
  | no other ↦ rw (count-put_ne d k v m other) (h d)
]

strictly :
    (d : ℕ) (xs : List Item)
    → All (λ y. d ≤ by_digest y) xs
    → sum_by (one_if d) xs ≤ 0
    → All (λ y. d < by_digest y) xs
strictly d [] a h = tt
strictly d (x ∷ xs) a h = elim (ℕ_discrete x.0 d) [
  | yes same ↦ absurd (ground arith)
  | no other ↦ (omega arith, strictly d xs a.1 (ground arith))
]

abbrev is_live_item : Item → Bool
is_live_item item = item.1.is_live

above_kept :
    (d : ℕ) (xs : List Item)
    → All (λ y. d < by_digest y) xs
    → All (λ (f : Entry). d < f.digest) (map entry_of (keep_if is_live_item xs))
unfolding entry_of
above_kept d [] a = tt
above_kept d (x ∷ xs) a = elim (Bool-cases (is_live_item x)) [
  | inl live ↦ rw live (a.0, above_kept d xs a.1)
  | inr dead ↦ rw dead (above_kept d xs a.1)
]

IsDistinct-tail : (x : Item) (xs : List Item) → IsDistinct (x ∷ xs) → IsDistinct xs
IsDistinct-tail x xs h d = omega (arith, h d)

IsPacked-of :
    (xs : List Item)
    → Ascending by_digest xs
    → IsDistinct xs
    → IsPacked (map entry_of (keep_if is_live_item xs))
unfolding entry_of
IsPacked-of [] a h = tt
IsPacked-of (x ∷ xs) a h =
    let rest = IsPacked-of xs a.1 (IsDistinct-tail x xs h) in
    elim (Bool-cases (is_live_item x)) [
      | inr dead ↦ rw dead rest
      | inl live ↦
          let alone : sum_by (one_if x.0) xs ≤ 0 = ground (arith, h x.0) in
          rw live (above_kept x.0 xs (strictly x.0 xs a.0 alone), rest)
    ]

pub pack_entries-IsPacked : (m : Dict ℕ Merged) → IsDistinct m → IsPacked (pack_entries m)
unfolding pack_entries
pack_entries-IsPacked m h =
    IsPacked-of (sorted_by by_digest m) (sorted_by-Ascending by_digest m)
      (λ d. rw (sum-sorted_by by_digest (one_if d) m) (h d))

-- An item that shares its digest with `(d, v)` is that item.
abbrev Agrees : ℕ → Option Merged → Item → Type 0
Agrees d r item = item.0 ≡ d → r ≡ some item.1

others :
    (d : ℕ) (r : Option Merged) (m : Dict ℕ Merged) → sum_by (one_if d) m ≤ 0 → All (Agrees d r) m
others d r [] le = tt
others d r (x ∷ m) le = elim (ℕ_discrete x.0 d) [
  | yes same ↦ absurd (ground arith)
  | no other ↦ (λ same. absurd (other same), others d r m (ground arith))
]

get-Agrees :
    (d : ℕ) (m : Dict ℕ Merged) (r : Option Merged)
    → IsDistinct m
    → r ≡ get ℕ_discrete d m
    → All (Agrees d r) m
unfolding get
get-Agrees d [] r h e = tt
get-Agrees d ((k, v) ∷ m) r h e = elim (ℕ_discrete k d) [
  | yes same ↦ (λ _. e ∙ rw (if_pos _ same), others d r m (ground (arith, h d)))
  | no other ↦ (
    λ same. absurd (other same),
    get-Agrees d m r (IsDistinct-tail (k, v) m h) (e ∙ rw (if_neg _ other)),
  )
]

get_absent : (d : ℕ) (m : Dict ℕ Merged) → All (λ (x : Item). x.0 ≢ d) m → get ℕ_discrete d m ≡ none
unfolding get
get_absent d [] a = refl
get_absent d ((k, v) ∷ m) a = rw (if_neg _ a.0) (get_absent d m a.1)

-- What the packed array answers for a digest whose winner in the merge is known.
unfoldable pub packed_winner : ℕ → Option Merged → Option Entry
unfolding entry_of
packed_winner d none = none
packed_winner d (some v) = if v.is_live then some (entry_of (d, v)) else none

find_skip :
    (d : ℕ) (e : Entry) (es : List Entry) → e.digest ≢ d → find_entry d (e ∷ es) ≡ find_entry d es
unfolding find_entry
find_skip d e es ne = ground arith

find_here : (e : Entry) (es : List Entry) → find_entry e.digest (e ∷ es) ≡ some e
unfolding find_entry
find_here e es = ground arith

find_dead :
    (d : ℕ) (r : Option Merged) (xs : List Item)
    → All (Agrees d r) xs
    → packed_winner d r ≡ none
    → find_entry d (map entry_of (keep_if is_live_item xs)) ≡ none
unfolding entry_of packed_winner
find_dead d r [] a dead = unfold find_entry in refl
find_dead d r (x ∷ xs) a dead = elim (Bool-cases (is_live_item x)) [
  | inr gone ↦ rw gone (find_dead d r xs a.1 dead)
  | inl live ↦ elim (ℕ_discrete x.0 d) [
    | yes same ↦ absurd (ground (arith, a.0 same))
    | no other ↦ rw live (find_skip d (entry_of x) _ other ∙ find_dead d r xs a.1 dead)
  ]
]

find_live :
    (d : ℕ) (v : Merged) (xs : List Item)
    → All (Agrees d (some v)) xs
    → v.is_live ≡ true
    → (find_entry d (map entry_of (keep_if is_live_item xs)) ≡ some (entry_of (d, v)))
      ⊎ All (λ (x : Item). x.0 ≢ d) xs
unfolding entry_of
find_live d v [] a live = inr tt
find_live d v (x ∷ xs) a live = elim (ℕ_discrete x.0 d) [
  | yes same ↦
      let this : v ≡ x.1 = some-injective v x.1 (a.0 same) in
      let alive : is_live_item x ≡ true = rw (← this) live in
      inl (
        rw alive (
          subst
            (λ k.
              find_entry k (entry_of x ∷ map entry_of (keep_if is_live_item xs))
              ≡ some (entry_of (k, v)))
            same (rw this (find_here (entry_of x) _))))
  | no other ↦ elim (find_live d v xs a.1 live) [
    | inr absent ↦ inr (other, absent)
    | inl found ↦ elim (Bool-cases (is_live_item x)) [
      | inr gone ↦ inl (rw gone found)
      | inl there ↦ inl (rw there (find_skip d (entry_of x) _ other ∙ found))
    ]
  ]
]

-- The packed array answers for each digest with its winner, if that is live.
pub find_entry-pack_entries :
    (d : ℕ) (m : Dict ℕ Merged)
    → IsDistinct m
    → find_entry d (pack_entries m) ≡ packed_winner d (get ℕ_discrete d m)
unfolding pack_entries packed_winner
find_entry-pack_entries d m h =
    let sorted = sorted_by by_digest m in
    let agree =
      sorted_by-All by_digest (Agrees d (get ℕ_discrete d m)) m (get-Agrees d m _ h refl) in
    elim (Option-cases (get ℕ_discrete d m)) [
      | inl absent ↦ rw absent (find_dead d none sorted (rw absent at agree) refl)
      | inr (v, e) ↦
          let agree_v : All (Agrees d (some v)) sorted = rw e at agree in
          elim (Bool-cases v.is_live) [
            | inr dead ↦ rw (e, dead) (find_dead d (some v) sorted agree_v (rw dead))
            | inl live ↦ elim (find_live d v sorted agree_v live) [
              | inl found ↦ rw (e, live) found
              | inr absent ↦
                  absurd (ground (arith, get_absent d m (All-sorted_by by_digest _ m absent)))
            ]
          ]
    ]
