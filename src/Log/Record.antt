-- ===== src/Log/Record.antt =====
-- emboss/_log_cache.py: `_Record`, `_OpaqueValue`, the envelope test, and what pickle is used for.
-- `pickle` stands behind the record `Pickle`: what `dumps`, a strict load and the salvaging load
-- answer. An object is an atom or a tuple of atoms, which is all that the envelope test looks at.
use emboss.Prelude.{
  ℕ, String, ◌≡◌, Bool, true, false, ◌&&◌, Option, none, some, List, [], ◌∷◌, not, length,
  if◌then◌else◌, arith,
}

abbrev pub Bytes : Type 0
Bytes = List ℕ

-- A Python object, as far as the envelope test tells objects apart.
pub data Py (V : Type 0) : Type 0 where
  null : Py V
  text : String → Py V
  number : ℕ → Py V
  flag : Bool → Py V
  other : V → Py V

-- What an unpickled frame may be: a tuple, or anything else.
pub data Obj (V : Type 0) : Type 0 where
  tup : List (Py V) → Obj V
  atom : Py V → Obj V

-- `value` of a record: an object, or an `_OpaqueValue` with the blob and the missing names.
pub data Content (V : Type 0) : Type 0 where
  plain : Py V → Content V
  opaque : Bytes → List String → Content V

pub record Record (V : Type 0) : Type 0 where
  pub key : String
  pub value : Content V
  pub expire_time : Option ℕ
  pub store_time : ℕ
  pub deleted : Bool
  pub spill : Option String

-- The part of `pickle` that the program calls. A load answers the object and the bytes consumed.
pub record Pickle (V : Type 0) : Type 0 where
  pub dumps : Obj V → Bytes
  pub load : Bytes → Option (Obj V × ℕ)
  -- the load by `_SalvageUnpickler`, with the names that it stubbed, sorted
  pub salvage_load : Bytes → Option (Obj V × ℕ × List String)

-- What the program relies on: a dump loads back, whole.
pub record IsPickle {V : Type 0} (p : Pickle V) : Type 0 where
  pub load-dumps : (o : Obj V) → p.load (p.dumps o) ≡ some (o, length (p.dumps o))

module _ {V : Type 0} where
  is_text : Py V → Bool
  is_text (text _) = true
  is_text _ = false

  -- `isinstance(x, (int, float))`, which holds of a `bool` too
  is_number : Py V → Bool
  is_number (number _) = true
  is_number (flag _) = true
  is_number _ = false

  is_flag : Py V → Bool
  is_flag (flag _) = true
  is_flag _ = false

  is_null : Py V → Bool
  is_null null = true
  is_null _ = false

  unfoldable pub valid_envelope : Obj V → Bool
  unfolding is_text is_number is_flag is_null
  valid_envelope (tup (key ∷ _ ∷ expire_time ∷ store_time ∷ deleted ∷ spill ∷ [])) =
      if not (is_text key)
      then false
      else if not (is_null expire_time) && not (is_number expire_time)
      then false
      else if not (is_number store_time)
      then false
      else if not (is_flag deleted)
      then false
      else if is_null spill
      then true
      else is_text spill
  valid_envelope _ = false

  as_text : Py V → String
  as_text (text s) = s
  as_text _ = ""

  as_number : Py V → ℕ
  as_number (number n) = n
  as_number (flag true) = 1
  as_number _ = 0

  as_flag : Py V → Bool
  as_flag (flag b) = b
  as_flag _ = false

  as_expire : Py V → Option ℕ
  unfolding as_number
  as_expire null = none
  as_expire x = some (as_number x)

  as_spill : Py V → Option String
  as_spill (text s) = some s
  as_spill _ = none

  -- The six fields by position, with `content` for the value. The envelope test has passed.
  unfoldable pub envelope : Obj V → (Py V → Content V) → Option (Record V)
  unfolding as_text as_number as_flag as_expire as_spill
  envelope (tup (key ∷ value ∷ expire_time ∷ store_time ∷ deleted ∷ spill ∷ [])) content =
      some (record {
        key = as_text key;
        value = content value;
        expire_time = as_expire expire_time;
        store_time = as_number store_time;
        deleted = as_flag deleted;
        spill = as_spill spill;
      })
  envelope _ content = none

  unfoldable pub record_from : Obj V → Option (Record V)
  unfolding valid_envelope envelope
  record_from obj = if valid_envelope obj then envelope obj plain else none

  unfoldable pub of_expire : Option ℕ → Py V
  of_expire none = null
  of_expire (some n) = number n

  unfoldable pub of_spill : Option String → Py V
  of_spill none = null
  of_spill (some s) = text s

  -- `tuple(rec)` of a record whose value is `value`
  unfoldable pub as_tuple : Record V → Py V → Obj V
  unfolding of_expire of_spill
  as_tuple rec value = tup (
      text rec.key
      ∷ value
      ∷ of_expire rec.expire_time
      ∷ number rec.store_time
      ∷ flag rec.deleted
      ∷ of_spill rec.spill
      ∷ [])

  -- Loading what a record was dumped as gives its fields back.
  pub record_from-as_tuple :
      (rec : Record V) (value : Py V)
      → record_from (as_tuple rec value) ≡ some (record rec { value = plain value })
  unfolding record_from as_tuple
  record_from-as_tuple rec value = ground arith
