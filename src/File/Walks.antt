-- ===== src/File/Walks.antt =====
-- emboss/_file_cache.py: `clear`, `volume`, `__len__` and `__contains__`.
-- The directories that `clear` removes when they are empty are not modelled.
use emboss.Prelude.{
  ℕ, ◌+◌, ◌≡◌, refl, Bool, true, false, none, some, List, [], ◌∷◌, arith, inl, inr, Bool-cases,
  length, is_some, if◌then◌else◌,
}
use emboss.File.{Key, Path2, Entry, Files, key_to_path, find, scan_size, same_path}

-- The walk of `clear`: the files that stay, and the number of those removed.
unfoldable pub clear_entries : (Path2 → Bool) → List Entry → List Entry × ℕ
clear_entries removable [] = ([], 0)
clear_entries removable (e ∷ es) =
    let rest = clear_entries removable es in
    if removable e.path then (rest.0, rest.1 + 1) else (e ∷ rest.0, rest.1)

unfoldable pub clear : (Path2 → Bool) → Files → Files × ℕ
unfolding clear_entries
clear removable fs =
    let left = clear_entries removable fs.entries in
    (record { entries = left.0; estimate = some (0, 0) }, left.1)

unfoldable pub volume : Files → ℕ
volume fs = scan_size fs.entries

unfoldable pub count_files : Files → ℕ
count_files fs = length fs.entries

unfoldable pub contains : (List ℕ → List ℕ) → Files → Key → Bool
contains md5 fs key = is_some (find (key_to_path md5 key) fs.entries)

clear_entries-length :
    (removable : Path2 → Bool) (es : List Entry)
    → (clear_entries removable es).1 + length (clear_entries removable es).0 ≡ length es
unfolding clear_entries
clear_entries-length removable [] = refl
clear_entries-length removable (e ∷ es) = elim (Bool-cases (removable e.path)) [
  | inl goes ↦ rw goes (omega (arith, clear_entries-length removable es))
  | inr stays ↦ rw stays (omega (arith, clear_entries-length removable es))
]

-- A path whose files can be removed names none of the files that stay.
clear_entries-find :
    (removable : Path2 → Bool) (path : Path2) (es : List Entry)
    → ((p : Path2) → same_path p path ≡ true → removable p ≡ true)
    → find path (clear_entries removable es).0 ≡ none
unfolding clear_entries find
clear_entries-find removable path [] h = refl
clear_entries-find removable path (e ∷ es) h =
    let rest = clear_entries-find removable path es h in
    elim (Bool-cases (removable e.path)) [
      | inl goes ↦ rw goes rest
      | inr stays ↦ elim (Bool-cases (same_path e.path path)) [
        | inl same ↦ absurd (ground (arith, h e.path same, stays))
        | inr other ↦ rw (stays, other) rest
      ]
    ]

-- What `clear` counts and the files that stay make up the files there were; and a key whose
-- path can be unlinked is not contained afterwards.
pub clear-contains :
    (removable : Path2 → Bool) (md5 : List ℕ → List ℕ) (fs : Files) (key : Key)
    → ((p : Path2) → same_path p (key_to_path md5 key) ≡ true → removable p ≡ true)
    → ((clear removable fs).1 + count_files (clear removable fs).0 ≡ count_files fs)
      × (contains md5 (clear removable fs).0 key ≡ false)
unfolding clear count_files contains
clear-contains removable md5 fs key h = (
  clear_entries-length removable fs.entries,
  rw (clear_entries-find removable (key_to_path md5 key) fs.entries h) refl,
)
