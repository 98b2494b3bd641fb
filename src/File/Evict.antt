-- ===== src/File/Evict.antt =====
-- emboss/_file_cache.py: the running total through `_evict`.
use emboss.Prelude.{
  ℕ, ◌+◌, ◌-◌, ◌*◌, ◌≤◌, ◌≡◌, refl, sym, Bool, true, false, not, ap, All-keep_if, inl, inr,
  Bool-cases, some, List, [], ◌∷◌, All, ◌∙◌, arith, leb, leb→le,
}
use mathlib.Core.Bool.{true≢false}
use mathlib.Core.Path.{subst}
use mathlib.Core.Option.{some-injective}
use emboss.File.Shared.{same_path_refl}
use emboss.File.{
  find, unlink, same_text, same_path, Path2, Entry, Files, insert_entry, older, oldest_first,
  scan_size, evict_from, evict,
}

scan_size-insert_entry :
    (e : Entry) (es : List Entry) → scan_size (insert_entry e es) ≡ e.size + scan_size es
unfolding scan_size insert_entry
scan_size-insert_entry e [] = refl
scan_size-insert_entry e (d ∷ ds) = elim (Bool-cases (older d e)) [
  | inl first ↦ rw first (omega (arith, scan_size-insert_entry e ds))
  | inr later ↦ rw later refl
]

scan_size-oldest_first : (es : List Entry) → scan_size (oldest_first es) ≡ scan_size es
unfolding scan_size oldest_first
scan_size-oldest_first [] = refl
scan_size-oldest_first (e ∷ es) =
    omega (arith, scan_size-insert_entry e (oldest_first es), scan_size-oldest_first es)

-- The file is none of those listed.
abbrev pub IsNew : Entry → List Entry → Type 0
IsNew e es = All (λ (d : Entry). same_path d.path e.path ≡ false) es

-- A path names one file.
abbrev pub IsDistinct : List Entry → Type 0
IsDistinct [] = Unit
IsDistinct (e ∷ es) = IsNew e es × IsDistinct es

-- The files of the one list are in the other.
abbrev Within : List Entry → List Entry → Type 0
Within files es = All (λ (e : Entry). find e.path files ≡ some e) es

same_text_sym : (xs ys : List ℕ) → same_text xs ys ≡ same_text ys xs
unfolding same_text
same_text_sym [] [] = refl
same_text_sym [] (y ∷ ys) = refl
same_text_sym (x ∷ xs) [] = refl
same_text_sym (x ∷ xs) (y ∷ ys) = ground (arith, same_text_sym xs ys)

same_path_sym : (p q : Path2) → same_path p q ≡ same_path q p
unfolding same_path
same_path_sym p q = rw (same_text_sym p.0 q.0, same_text_sym p.1 q.1) refl

All-insert_entry :
    (P : Entry → Type 0) (e : Entry) (es : List Entry) → P e → All P es → All P (insert_entry e es)
unfolding insert_entry
All-insert_entry P e [] p h = (p, tt)
All-insert_entry P e (d ∷ ds) p h = elim (Bool-cases (older d e)) [
  | inl first ↦ rw first (h.0, All-insert_entry P e ds p h.1)
  | inr later ↦ rw later (p, h)
]

All-oldest_first : (P : Entry → Type 0) (es : List Entry) → All P es → All P (oldest_first es)
unfolding oldest_first
All-oldest_first P [] h = tt
All-oldest_first P (e ∷ es) h =
    All-insert_entry P e (oldest_first es) h.0 (All-oldest_first P es h.1)

insert_entry-IsDistinct :
    (e : Entry) (es : List Entry) → IsNew e es → IsDistinct es → IsDistinct (insert_entry e es)
unfolding insert_entry
insert_entry-IsDistinct e [] new h = (tt, tt)
insert_entry-IsDistinct e (d ∷ ds) new h = elim (Bool-cases (older d e)) [
  | inl first ↦ rw first (
    All-insert_entry (λ (c : Entry). same_path c.path d.path ≡ false) e ds
        (same_path_sym e.path d.path ∙ new.0) h.0,
    insert_entry-IsDistinct e ds new.1 h.1,
  )
  | inr later ↦ rw later (new, h)
]

oldest_first-IsDistinct : (es : List Entry) → IsDistinct es → IsDistinct (oldest_first es)
unfolding oldest_first
oldest_first-IsDistinct [] h = tt
oldest_first-IsDistinct (e ∷ es) h =
    insert_entry-IsDistinct e (oldest_first es)
      (All-oldest_first (λ (d : Entry). same_path d.path e.path ≡ false) es h.0)
      (oldest_first-IsDistinct es h.1)

same_text-eq : (xs ys : List ℕ) → same_text xs ys ≡ true → xs ≡ ys
unfolding same_text
same_text-eq [] [] h = refl
same_text-eq [] (y ∷ ys) h = absurd (true≢false (sym h))
same_text-eq (x ∷ xs) [] h = absurd (true≢false (sym h))
same_text-eq (x ∷ xs) (y ∷ ys) h =
    let here : x ≡ y = ground (arith, h) in
    let rest = same_text-eq xs ys (ground (arith, h)) in rw (here, rest) refl

same_path-eq : (p q : Path2) → same_path p q ≡ true → p ≡ q
unfolding same_path
same_path-eq (a, b) (c, d) h =
    let first = same_text-eq a c (ground (arith, h)) in
    let second = same_text-eq b d (ground (arith, h)) in rw (first, second) refl

pub unlink_none : (path : Path2) → unlink path [] ≡ []
unfolding unlink
unlink_none path = refl

pub unlink_gone :
    (path : Path2) (e : Entry) (es : List Entry)
    → same_path e.path path ≡ true
    → unlink path (e ∷ es) ≡ unlink path es
unfolding unlink
unlink_gone path e es h = ground (arith, h)

pub unlink_kept :
    (path : Path2) (e : Entry) (es : List Entry)
    → same_path e.path path ≡ false
    → unlink path (e ∷ es) ≡ e ∷ unlink path es
unfolding unlink
unlink_kept path e es h = ground (arith, h)

unlink-IsNew : (e : Entry) (es : List Entry) → IsNew e es → unlink e.path es ≡ es
unlink-IsNew e [] new = unlink_none e.path
unlink-IsNew e (d ∷ ds) new =
    unlink_kept e.path d ds new.0 ∙ ap (λ q. d ∷ q) (unlink-IsNew e ds new.1)

pub unlink-IsDistinct :
    (path : Path2) (es : List Entry) → IsDistinct es → IsDistinct (unlink path es)
unfolding unlink
unlink-IsDistinct path [] h = tt
unlink-IsDistinct path (e ∷ es) h = elim (Bool-cases (same_path e.path path)) [
  | inl goes ↦ subst IsDistinct (sym (unlink_gone path e es goes)) (unlink-IsDistinct path es h.1)
  | inr stays ↦ subst IsDistinct (sym (unlink_kept path e es stays)) (
    All-keep_if (λ (d : Entry). same_path d.path e.path ≡ false)
        (λ (d : Entry). not (same_path d.path path)) es h.0,
    unlink-IsDistinct path es h.1,
  )
]

find-unlink_other :
    (path other : Path2) (es : List Entry)
    → same_path other path ≡ false
    → find other (unlink path es) ≡ find other es
unfolding find
find-unlink_other path other [] ne = rw (unlink_none path) refl
find-unlink_other path other (e ∷ es) ne = elim (Bool-cases (same_path e.path path)) [
  | inl goes ↦
      let apart : same_path e.path other ≡ false =
        ap (λ p. same_path p other) (same_path-eq e.path path goes)
        ∙ (same_path_sym path other ∙ ne) in
      rw (unlink_gone path e es goes, apart) (find-unlink_other path other es ne)
  | inr stays ↦ rw (unlink_kept path e es stays, find-unlink_other path other es ne) refl
]

scan_size-unlink :
    (path : Path2) (e : Entry) (files : List Entry)
    → IsDistinct files
    → find path files ≡ some e
    → scan_size (unlink path files) + e.size ≡ scan_size files
unfolding find scan_size
scan_size-unlink path e [] h there = absurd (ground (arith, there))
scan_size-unlink path e (d ∷ ds) h there = elim (Bool-cases (same_path d.path path)) [
  | inl same ↦
      let it : d ≡ e = some-injective _ _ (rw same at there) in
      let size = ap (λ (q : Entry). q.size) it in
      let rest : unlink path ds ≡ ds =
        subst (λ p. unlink p ds ≡ ds) (same_path-eq d.path path same) (unlink-IsNew d ds h.0) in
      rw (unlink_gone path d ds same, rest) (omega (arith, size))
  | inr other ↦
      let rest = scan_size-unlink path e ds h.1 (rw other at there) in
      rw (unlink_kept path d ds other) (omega (arith, rest))
]

Within-cons :
    (x : Entry) (files es : List Entry) → IsNew x es → Within files es → Within (x ∷ files) es
unfolding find
Within-cons x files [] new h = tt
Within-cons x files (e ∷ es) new h =
    (rw (same_path_sym x.path e.path, new.0) h.0, Within-cons x files es new.1 h.1)

Within-self : (files : List Entry) → IsDistinct files → Within files files
unfolding find
Within-self [] h = tt
Within-self (e ∷ es) h =
    (rw (same_path_refl e.path) refl, Within-cons e es es h.0 (Within-self es h.1))

Within-unlink :
    (x : Entry) (files es : List Entry)
    → IsNew x es
    → Within files es
    → Within (unlink x.path files) es
Within-unlink x files [] new h = tt
Within-unlink x files (e ∷ es) new h =
    (find-unlink_other x.path e.path files new.0 ∙ h.0, Within-unlink x files es new.1 h.1)

module _ (removable : Path2 → Bool) where
  -- The loop counts the bytes of the files that it leaves, whether or not they can be unlinked.
  evict_from-scan_size :
      (limit : ℕ) (es : List Entry) (size : ℕ) (files : List Entry)
      → IsDistinct files
      → IsDistinct es
      → Within files es
      → size ≡ scan_size files
      → (evict_from removable limit es size files).0
        ≡ scan_size (evict_from removable limit es size files).1
  unfolding evict_from
  evict_from-scan_size limit [] size files h d w e = e
  evict_from-scan_size limit (x ∷ es) size files h d w e =
      elim (Bool-cases (leb (10 * size) (9 * limit))) [
        | inl low ↦ rw low e
        | inr high ↦ elim (Bool-cases (removable x.path)) [
          | inl goes ↦
              let less = scan_size-unlink x.path x files h w.0 in
              rw (high, goes)
                (evict_from-scan_size limit es (size - x.size) (unlink x.path files)
                  (unlink-IsDistinct x.path files h) d.1 (Within-unlink x files es d.0 w.1)
                  (omega (arith, less, e)))
          | inr stays ↦ rw (high, stays) (evict_from-scan_size limit es size files h d.1 w.1 e)
        ]
      ]

  module _ (all_removable : (p : Path2) → removable p ≡ true) where
    evict_from-le :
        (limit : ℕ) (es : List Entry) (size : ℕ) (files : List Entry)
        → size ≡ scan_size es
        → 10 * (evict_from removable limit es size files).0 ≤ 9 * limit
    unfolding evict_from scan_size
    evict_from-le limit [] size files e = omega (arith, e)
    evict_from-le limit (d ∷ es) size files e = elim (Bool-cases (leb (10 * size) (9 * limit))) [
      | inl low ↦ rw low (leb→le (10 * size) (9 * limit) low)
      | inr high ↦
          rw (high, all_removable d.path)
            (evict_from-le limit es (size - d.size) _ (omega (arith, e)))
    ]

    -- From any files of which no two have the same path, where every path can be unlinked:
    -- the files that eviction leaves have a total size of at most the limit, and the
    -- running total afterwards is that size.
    pub evict-le :
        (limit : ℕ) (fs : Files)
        → IsDistinct fs.entries
        → let after = evict removable limit fs in
          (scan_size after.entries ≤ limit) × (after.estimate ≡ some (scan_size after.entries, 0))
    unfolding evict
    evict-le limit fs distinct = elim (Bool-cases (leb (scan_size fs.entries) limit)) [
      | inl fits ↦ rw (evict, fits) (leb→le (scan_size fs.entries) limit fits, refl)
      | inr over ↦
          let sorted = oldest_first fs.entries in
          let total = scan_size fs.entries in
          let le =
            evict_from-le limit sorted total fs.entries (sym (scan_size-oldest_first fs.entries)) in
          let counted =
            evict_from-scan_size limit sorted total fs.entries distinct
              (oldest_first-IsDistinct fs.entries distinct)
              (All-oldest_first (λ (e : Entry). find e.path fs.entries ≡ some e) fs.entries
                (Within-self fs.entries distinct))
              refl in
          rw (evict, over) (omega (arith, le, counted), ap (λ n. some (n, 0)) counted)
    ]
