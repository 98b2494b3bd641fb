-- ===== src/File.antt =====
-- emboss/_file_cache.py: `FileCache` for keys that are texts, as the list of their code points.
-- `md5` is the digest of the `repr` of a key in hexadecimal, `removable` tells whether unlinking a
-- path raises no `OSError`, and pickle is the record `Pickling`.
pub mod Shared
pub mod Evict
mod Distinct
pub mod Walks
use emboss.Prelude.{
  ℕ, zero, suc, ◌+◌, ◌-◌, ◌*◌, Bool, true, false, not, ◌&&◌, ◌||◌, Option, none, some, List, [],
  ◌∷◌, length, take, drop, map, keep_if, sum_by, ltb, leb, ◌==◌, if◌then◌else◌, ◌>>=◌,
}

abbrev pub Key : Type 0
Key = List ℕ

-- The directory and the name, without `.pkl`.
abbrev pub Path2 : Type 0
Path2 = List ℕ × List ℕ

-- What `pickle.load` does with the bytes of a file: it gives an `_Entry` with its key, or another
-- value, it raises `EOFError` or `UnpicklingError`, or it raises something else.
pub data Loaded (V : Type 0) : Type 0 where
  an_entry : Key → V → Loaded V
  bare : V → Loaded V
  broken failing : Loaded V

-- `pickle.dump` of an `_Entry`, with `none` where it or the write raises.
pub record Pickling (V : Type 0) : Type 0 where
  pub dump : Key → V → Option (List ℕ)
  pub load : List ℕ → Loaded V

-- `content` is the bytes of the file, `none` where reading them raises `OSError`.
pub record Entry : Type 0 where
  pub path : List ℕ × List ℕ
  pub mtime : ℕ
  pub size : ℕ
  pub content : Option (List ℕ)

pub data Got (V : Type 0) : Type 0 where
  hit : V → Got V
  miss raised : Got V

-- `_size` is `none`, or an integer as a difference: what was added less what was removed.
pub record Files : Type 0 where
  pub entries : List Entry
  pub estimate : Option (ℕ × ℕ)

unfoldable pub same_text : List ℕ → List ℕ → Bool
same_text [] [] = true
same_text (x ∷ xs) (y ∷ ys) = x == y && same_text xs ys
same_text _ _ = false

unfoldable pub same_path : Path2 → Path2 → Bool
unfolding same_text
same_path p q = same_text p.0 q.0 && same_text p.1 q.1

-- `/` and the zero character become `_`.
safe : List ℕ → List ℕ
safe rest = map (λ c. if c == 47 || c == 0 then 95 else c) rest

or_underscore : List ℕ → List ℕ
or_underscore [] = 95 ∷ []
or_underscore (c ∷ cs) = c ∷ cs

unfoldable pub key_to_path : (List ℕ → List ℕ) → Key → Path2
unfolding safe or_underscore
key_to_path md5 key =
    let text = if ltb (length key) 2 then md5 key else key in
    (take 2 text, safe (or_underscore (drop 2 text)))

text_before : List ℕ → List ℕ → Bool
text_before xs [] = false
text_before [] (y ∷ ys) = true
text_before (x ∷ xs) (y ∷ ys) = ltb x y || (x == y && text_before xs ys)

path_before : Path2 → Path2 → Bool
unfolding text_before same_text
path_before p q = text_before p.0 q.0 || (same_text p.0 q.0 && text_before p.1 q.1)

unfoldable pub find : Path2 → List Entry → Option Entry
unfolding same_path
find path [] = none
find path (e ∷ es) = if same_path e.path path then some e else find path es

unfoldable pub unlink : Path2 → List Entry → List Entry
unlink path es = keep_if (λ e. not (same_path e.path path)) es

-- `os.replace` of the temporary file
unfoldable pub put : Entry → List Entry → List Entry
unfolding unlink
put e es = e ∷ unlink e.path es

-- `sorted` on tuples of time, size and path
unfoldable pub older : Entry → Entry → Bool
unfolding path_before
older d e =
    ltb d.mtime e.mtime
    || (d.mtime == e.mtime
        && (ltb d.size e.size || (d.size == e.size && path_before d.path e.path)))

unfoldable pub insert_entry : Entry → List Entry → List Entry
unfolding older
insert_entry e [] = e ∷ []
insert_entry e (d ∷ ds) = if older d e then d ∷ insert_entry e ds else e ∷ d ∷ ds

unfoldable pub oldest_first : List Entry → List Entry
unfolding insert_entry
oldest_first [] = []
oldest_first (e ∷ es) = insert_entry e (oldest_first es)

unfoldable pub scan_size : List Entry → ℕ
scan_size es = sum_by (λ (e : Entry). e.size) es

module _ (removable : Path2 → Bool) where
  -- The loop of `_evict` over the sorted entries.
  unfoldable pub evict_from : ℕ → List Entry → ℕ → List Entry → ℕ × List Entry
  unfolding unlink
  evict_from limit [] size files = (size, files)
  evict_from limit (e ∷ es) size files =
      let gone = evict_from limit es (size - e.size) (unlink e.path files) in
      let stays = evict_from limit es size files in
      if leb (10 * size) (9 * limit)
      then (size, files)
      else if removable e.path
      then gone
      else stays

  unfoldable pub evict : ℕ → Files → Files
  unfolding scan_size oldest_first
  evict limit fs =
      let total = scan_size fs.entries in
      let left = evict_from limit (oldest_first fs.entries) total fs.entries in
      if leb total limit
      then record fs { estimate = some (total, 0) }
      else record { entries = left.1; estimate = some (left.0, 0) }

  -- `_account_and_evict`, with `delta` the new size less the old one
  unfoldable pub account_and_evict : ℕ → ℕ → ℕ → Files → Files
  account_and_evict limit new_size old_size fs =
      let known : ℕ × ℕ = elim fs.estimate [ none ↦ (scan_size fs.entries, 0) | some est ↦ est ] in
      let noted = record fs { estimate = some (known.0 + new_size, known.1 + old_size) } in
      if ltb (limit + (known.1 + old_size)) (known.0 + new_size) then evict limit noted else noted

  unfoldable pub old_size_of : Option Entry → ℕ
  old_size_of none = 0
  old_size_of (some e) = e.size

  -- What `set` does once the bytes are written: the replacement, then the eviction.
  unfoldable pub set_bytes : Option ℕ → Files → Path2 → List ℕ → ℕ → Files
  unfolding old_size_of
  set_bytes limit fs path bytes now =
      let old_size = old_size_of (find path fs.entries) in
      let written = record fs {
        entries =
            put (record { path = path; mtime = now; size = length bytes; content = some bytes })
              fs.entries;
      } in
      elim limit [ none ↦ written | some n ↦ account_and_evict n (length bytes) old_size written ]

unfoldable pub delete : (List ℕ → List ℕ) → Files → Key → Files × Bool
delete md5 fs key = elim (find (key_to_path md5 key) fs.entries) [
  | none ↦ (fs, false)
  | some e ↦ (record { entries = unlink (key_to_path md5 key) fs.entries; estimate = none }, true)
]

-- `os.utime` of a file, which marks it as used if there is a limit.
unfoldable pub touch : Option ℕ → Path2 → ℕ → Files → Files
touch none path now fs = fs
touch (some n) path now fs = record fs {
  entries = map (λ d. if same_path d.path path then record d { mtime = now } else d) fs.entries;
}

module _ {V : Type 0} where
  -- A read that raises `OSError`, and a file that is torn, are misses; what else `pickle.load`
  -- raises, `get` raises.
  unfoldable pub got : Pickling V → Option (List ℕ) → Got V
  got pickle none = miss
  got pickle (some bytes) = elim (pickle.load bytes) [
    | an_entry key value ↦ hit value
    | bare value ↦ hit value
    | broken ↦ miss
    | failing ↦ raised
  ]

  -- `set`; if it raises, the temporary file is unlinked and all is as before.
  unfoldable pub set :
      Pickling V
      → (Path2 → Bool)
      → (List ℕ → List ℕ)
      → Option ℕ
      → Files
      → Key
      → V
      → ℕ
      → Files × Bool
  set pickle removable md5 limit fs key value now = elim (pickle.dump key value) [
    | none ↦ (fs, false)
    | some bytes ↦ (set_bytes removable limit fs (key_to_path md5 key) bytes now, true)
  ]

  unfoldable pub get_value :
      Pickling V → (List ℕ → List ℕ) → Option ℕ → Files → Key → ℕ → Files × Got V
  unfolding got touch
  get_value pickle md5 limit fs key now = elim (find (key_to_path md5 key) fs.entries) [
    | none ↦ (fs, miss)
    | some e ↦ (touch limit e.path now fs, got pickle e.content)
  ]

  -- `__iter__`: the keys of the files that load as an `_Entry`; `none` is an exception of
  -- `pickle.load`.
  unfoldable pub iter_from : Pickling V → List Entry → Option (List Key)
  iter_from pickle [] = some []
  iter_from pickle (e ∷ es) =
      let rest = iter_from pickle es in
      elim e.content [
        | none ↦ rest
        | some bytes ↦ elim (pickle.load bytes) [
          | an_entry key value ↦ do keys ← rest; some (key ∷ keys)
          | bare value ↦ rest
          | broken ↦ rest
          | failing ↦ none
        ]
      ]

  unfoldable pub iter : Pickling V → Files → Option (List Key)
  unfolding iter_from
  iter pickle fs = iter_from pickle fs.entries
