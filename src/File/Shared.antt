-- ===== src/File/Shared.antt =====
-- emboss/_file_cache.py: `get` after `set` and `delete`, by the paths of the keys.
use emboss.Prelude.{
  ℕ, length, ap, ◌≡◌, refl, sym, Bool, true, Option, none, some, List, [], ◌∷◌, arith, inl, inr,
  Option-cases,
}
use mathlib.Core.Path.{subst}
use emboss.File.{
  Pickling, an_entry, hit, miss, set_bytes, got, touch, Key, Path2, Entry, Files, same_text,
  same_path, key_to_path, find, unlink, put, set, get_value, delete,
}

same_text_refl : (xs : List ℕ) → same_text xs xs ≡ true
unfolding same_text
same_text_refl [] = refl
same_text_refl (x ∷ xs) = ground (arith, same_text_refl xs)

pub same_path_refl : (p : Path2) → same_path p p ≡ true
unfolding same_path
same_path_refl p = rw (same_text_refl p.0, same_text_refl p.1) refl

find-unlink : (path : Path2) (es : List Entry) → find path (unlink path es) ≡ none
unfolding find unlink
find-unlink path [] = refl
find-unlink path (e ∷ es) = ground (arith, find-unlink path es)

find-put : (e : Entry) (es : List Entry) → find e.path (put e es) ≡ some e
unfolding find put
find-put e es = rw (same_path_refl e.path) refl

module _ {V : Type 0} (pickle : Pickling V) (removable : Path2 → Bool) (md5 : List ℕ → List ℕ) where
  get_value-absent :
      (limit : Option ℕ) (fs : Files) (key : Key) (later : ℕ)
      → find (key_to_path md5 key) fs.entries ≡ none
      → get_value pickle md5 limit fs key later ≡ (fs, miss)
  unfolding get_value
  get_value-absent limit fs key later absent = rw (absent, get_value) refl

  -- With or without a size limit, from any files: a `get` after a `delete` of the key is a
  -- miss.
  pub get_value-file_deleted :
      (limit : Option ℕ) (fs : Files) (key : Key) (later : ℕ)
      → (get_value pickle md5 limit (delete md5 fs key).0 key later).1 ≡ miss
  unfolding delete
  get_value-file_deleted limit fs key later =
      elim (Option-cases (find (key_to_path md5 key) fs.entries)) [
        | inl absent ↦
            rw (absent, delete) (ap (λ q. q.1) (get_value-absent limit fs key later absent))
        | inr (e, there) ↦
            rw (there, delete)
              (ap (λ q. q.1)
                (get_value-absent limit
                  (record { entries = unlink (key_to_path md5 key) fs.entries; estimate = none })
                  key later (find-unlink (key_to_path md5 key) fs.entries)))
      ]

  get_value-there :
      (fs : Files) (key loaded_key : Key) (value : V) (bytes : List ℕ) (later : ℕ) (e : Entry)
      → find (key_to_path md5 key) fs.entries ≡ some e
      → e.content ≡ some bytes
      → pickle.load bytes ≡ an_entry loaded_key value
      → get_value pickle md5 none fs key later ≡ (fs, hit value)
  unfolding get_value got touch
  get_value-there fs key loaded_key value bytes later e there content loaded =
      rw (get_value, there, content, got, loaded) refl

  -- Without a size limit, from any files, and for a key and a value that pickle dumps to
  -- bytes which load as that entry: `set` succeeds, and a `get` of any key with the same
  -- path, also of another key, then returns the value and leaves the files as they are.
  pub get_value-shared :
      (fs : Files) (key other : Key) (value : V) (bytes : List ℕ) (now later : ℕ)
      → key_to_path md5 other ≡ key_to_path md5 key
      → pickle.dump key value ≡ some bytes
      → pickle.load bytes ≡ an_entry key value
      → (after : Files) × (set pickle removable md5 none fs key value now ≡ (after, true))
        × (get_value pickle md5 none after other later ≡ (after, hit value))
  unfolding set set_bytes
  get_value-shared fs key other value bytes now later same dumped loaded =
      let e : Entry = record {
        path = key_to_path md5 key;
        mtime = now;
        size = length bytes;
        content = some bytes;
      } in
      let after : Files = record fs { entries = put e fs.entries } in
      (
        after,
        rw (set, dumped) refl,
        get_value-there after other key value bytes later e
            (subst (λ p. find p (put e fs.entries) ≡ some e) (sym same) (find-put e fs.entries))
            refl loaded,
      )
