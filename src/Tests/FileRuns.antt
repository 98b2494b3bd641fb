-- ===== src/Tests/FileRuns.antt =====
-- emboss/_file_cache.py: the theorems at keys that share a path, and at two files.
use emboss.Prelude.{ℕ, ◌≤◌, ◌≡◌, refl, true, none, some, List, [], ◌∷◌, ◌==◌, if◌then◌else◌}
use emboss.File.{
  Key, Files, Pickling, an_entry, Loaded, bare, broken, hit, key_to_path, scan_size, same_path, set,
  get_value, evict,
}
use emboss.File.Shared.{get_value-shared}
use emboss.File.Evict.{IsDistinct, evict-le}

-- The bytes of an entry are 1 and the value and the key; a file with another first byte holds a bare
-- value.
load_bytes : List ℕ → Loaded ℕ
load_bytes [] = broken
load_bytes (tag ∷ []) = broken
load_bytes (tag ∷ value ∷ key) = if tag == 1 then an_entry key value else bare value

pickling : Pickling ℕ
pickling = record { dump = λ key value. some (1 ∷ value ∷ key); load = load_bytes }

abbrev no_files : Files
no_files = record { entries = []; estimate = none }

abbrev two_files : Files
two_files = record {
  entries =
      record {
        path = (97 ∷ 98 ∷ [], 95 ∷ 99 ∷ []);
        mtime = 5;
        size = 20;
        content = some (1 ∷ 7 ∷ []);
      }
      ∷ record { path = (97 ∷ 99 ∷ [], 95 ∷ []); mtime = 3; size = 20; content = none }
      ∷ [];
  estimate = none;
}

-- `ab/c` and `ab_c`
abbrev slash : Key
slash = 97 ∷ 98 ∷ 47 ∷ 99 ∷ []

abbrev underscore : Key
underscore = 97 ∷ 98 ∷ 95 ∷ 99 ∷ []

key_to_path-slash : key_to_path (λ k. k) underscore ≡ key_to_path (λ k. k) slash
unfolding key_to_path
key_to_path-slash = refl

dump-7 : pickling.dump slash 7 ≡ some (1 ∷ 7 ∷ slash)
unfolding pickling
dump-7 = refl

load-7 : pickling.load (1 ∷ 7 ∷ slash) ≡ an_entry slash 7
unfolding pickling load_bytes
load-7 = refl

get_value-shared_example :
    (after : Files) × (set pickling (λ _. true) (λ k. k) none no_files slash 7 1 ≡ (after, true))
    × (get_value pickling (λ k. k) none after underscore 2 ≡ (after, hit 7))
get_value-shared_example =
    get_value-shared pickling (λ _. true) (λ k. k) no_files slash underscore 7 (1 ∷ 7 ∷ slash) 1 2
      key_to_path-slash dump-7 load-7

two_files-IsDistinct : IsDistinct two_files.entries
unfolding same_path
two_files-IsDistinct = ((refl, tt), (tt, tt))

evict-le_example :
    let after = evict (λ _. true) 30 two_files in
    (scan_size after.entries ≤ 30) × (after.estimate ≡ some (scan_size after.entries, 0))
evict-le_example = evict-le (λ _. true) (λ _. refl) 30 two_files two_files-IsDistinct
