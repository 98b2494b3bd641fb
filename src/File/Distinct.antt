-- ===== src/File/Distinct.antt =====
-- emboss/_file_cache.py: that a path names one file, through the operations.
use emboss.Prelude.{
  ℕ, ◌+◌, ◌-◌, ◌*◌, ◌≡◌, refl, sym, Bool, inl, inr, Bool-cases, Option-cases, Option, none, some,
  List, [], ◌∷◌, length, leb, ltb, map, if◌then◌else◌,
}
use mathlib.Core.Path.{subst}
use emboss.File.{
  Key, Path2, Entry, Files, key_to_path, same_path, find, unlink, put, oldest_first, evict_from,
  evict, account_and_evict, scan_size, set_bytes, touch, delete, old_size_of,
}
use emboss.File.Evict.{IsNew, IsDistinct, unlink-IsDistinct, unlink_none, unlink_gone, unlink_kept}

IsNew-unlink : (e : Entry) (es : List Entry) → IsNew e (unlink e.path es)
IsNew-unlink e [] = subst (IsNew e) (sym (unlink_none e.path)) tt
IsNew-unlink e (d ∷ es) = elim (Bool-cases (same_path d.path e.path)) [
  | inl goes ↦ subst (IsNew e) (sym (unlink_gone e.path d es goes)) (IsNew-unlink e es)
  | inr stays ↦ subst (IsNew e) (sym (unlink_kept e.path d es stays)) (stays, IsNew-unlink e es)
]

put-IsDistinct : (e : Entry) (es : List Entry) → IsDistinct es → IsDistinct (put e es)
unfolding put
put-IsDistinct e es h = (IsNew-unlink e es, unlink-IsDistinct e.path es h)

module _ (removable : Path2 → Bool) where
  evict_from-IsDistinct :
      (limit : ℕ) (es : List Entry) (size : ℕ) (files : List Entry)
      → IsDistinct files
      → IsDistinct (evict_from removable limit es size files).1
  unfolding evict_from
  evict_from-IsDistinct limit [] size files h = h
  evict_from-IsDistinct limit (e ∷ es) size files h =
      elim (Bool-cases (leb (10 * size) (9 * limit))) [
        | inl low ↦ rw low h
        | inr high ↦ elim (Bool-cases (removable e.path)) [
          | inl goes ↦
              rw (high, goes)
                (evict_from-IsDistinct limit es (size - e.size) (unlink e.path files)
                  (unlink-IsDistinct e.path files h))
          | inr stays ↦ rw (high, stays) (evict_from-IsDistinct limit es size files h)
        ]
      ]

  evict-IsDistinct :
      (limit : ℕ) (fs : Files)
      → IsDistinct fs.entries
      → IsDistinct (evict removable limit fs).entries
  unfolding evict
  evict-IsDistinct limit fs h = elim (Bool-cases (leb (scan_size fs.entries) limit)) [
    | inl fits ↦ rw (evict, fits) h
    | inr over ↦
        rw (evict, over)
          (evict_from-IsDistinct limit (oldest_first fs.entries) (scan_size fs.entries) fs.entries
            h)
  ]

  account_and_evict-IsDistinct :
      (limit new_size old_size : ℕ) (fs : Files)
      → IsDistinct fs.entries
      → IsDistinct (account_and_evict removable limit new_size old_size fs).entries
  unfolding account_and_evict
  account_and_evict-IsDistinct limit new_size old_size fs h =
      let known : ℕ × ℕ = elim fs.estimate [ none ↦ (scan_size fs.entries, 0) | some est ↦ est ] in
      let noted : Files = record fs { estimate = some (known.0 + new_size, known.1 + old_size) } in
      elim (Bool-cases (ltb (limit + (known.1 + old_size)) (known.0 + new_size))) [
        | inl over ↦ rw (account_and_evict, over) (evict-IsDistinct limit noted h)
        | inr fits ↦ rw (account_and_evict, fits) h
      ]

  -- The writes of `set` keep that a path names one file.
  pub set_bytes-IsDistinct :
      (limit : Option ℕ) (fs : Files) (path : Path2) (bytes : List ℕ) (now : ℕ)
      → IsDistinct fs.entries
      → IsDistinct (set_bytes removable limit fs path bytes now).entries
  unfolding set_bytes
  set_bytes-IsDistinct none fs path bytes now h = put-IsDistinct _ fs.entries h
  set_bytes-IsDistinct (some n) fs path bytes now h =
      account_and_evict-IsDistinct n (length bytes) (old_size_of removable (find path fs.entries)) _
        (put-IsDistinct _ fs.entries h)

delete-IsDistinct :
    (md5 : List ℕ → List ℕ) (fs : Files) (key : Key)
    → IsDistinct fs.entries
    → IsDistinct (delete md5 fs key).0.entries
unfolding delete
delete-IsDistinct md5 fs key h = elim (Option-cases (find (key_to_path md5 key) fs.entries)) [
  | inl absent ↦ rw (delete, absent) h
  | inr (e, there) ↦ rw (delete, there) (unlink-IsDistinct (key_to_path md5 key) fs.entries h)
]

module _ (path : Path2) (now : ℕ) where
  abbrev marked : Entry → Entry
  marked d = if same_path d.path path then record d { mtime = now } else d

  path-marked : (d : Entry) → (marked d).path ≡ d.path
  path-marked d = elim (Bool-cases (same_path d.path path)) [
    | inl same ↦ rw same refl
    | inr other ↦ rw other refl
  ]

  map-IsNew : (e : Entry) (es : List Entry) → IsNew e es → IsNew (marked e) (map marked es)
  map-IsNew e [] h = tt
  map-IsNew e (d ∷ es) h = (rw (path-marked d, path-marked e) h.0, map-IsNew e es h.1)

  map-IsDistinct : (es : List Entry) → IsDistinct es → IsDistinct (map marked es)
  map-IsDistinct [] h = tt
  map-IsDistinct (e ∷ es) h = (map-IsNew e es h.0, map-IsDistinct es h.1)

-- So does the mark that `get` leaves.
touch-IsDistinct :
    (limit : Option ℕ) (path : Path2) (now : ℕ) (fs : Files)
    → IsDistinct fs.entries
    → IsDistinct (touch limit path now fs).entries
unfolding touch
touch-IsDistinct none path now fs h = h
touch-IsDistinct (some n) path now fs h = map-IsDistinct path now fs.entries h
