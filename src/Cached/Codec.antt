-- ===== src/Cached/Codec.antt =====
-- emboss/_cached.py: `_encode` and `_decode`, the walks that take the models and dataclasses of a
-- result apart before it is stored and put them together on a hit.
-- A value is what the walks can tell of it. The classes themselves, pydantic's two methods and the
-- dataclass constructors, are the record `Classes`.
pub mod Calls
mod Members
pub mod Drift
pub mod Fits
pub mod Plain
pub mod RoundTrip
mod Walks
use emboss.Prelude.{
  ℕ, zero, suc, String, Bool, true, false, ◌&&◌, Option, none, some, List, [], ◌∷◌, length, ◌==◌,
  if◌then◌else◌, ◌>>=◌,
}
use emboss.Prelude.Dict.{Dict, get, str_dec}
use emboss.Cached.Anno.{
  Anno, absent, none_type, model, dataclass, union, tuple_of, list_of, tuple_of_any, dict_of,
  args_of, union_codec_members, wants_codec,
}

-- Models and dataclasses carry their class and their fields, and lists, tuples and dicts are of just
-- these types. `scalar` is a number, a text or another object of a type of the language itself
-- without parts, and `other` an object of any other type, which the walks hand on as it is: a member
-- of an `Enum`, a `Path`, a set. A key of a dict is a text, the only kind that the walks look at.
mutual
  pub data Value : Type 0 where
    none_value : Value
    scalar : ℕ → Value
    other : String → ℕ → Value
    list_value tuple_value : Items → Value
    dict_value : Fields → Value
    model_value data_value : String → Fields → Value

  pub data Items : Type 0 where
    no_item : Items
    item : Value → Items → Items

  pub data Fields : Type 0 where
    no_field : Fields
    field : String → Value → Fields → Fields

-- `issubclass`, the resolved hints of a dataclass (empty if they do not resolve), `model_dump`,
-- `model_validate` and the constructor of a dataclass, with `none` for their exception.
pub record Classes : Type 0 where
  pub extends : String → String → Bool
  pub hints : String → Dict String Anno
  pub model_dump : String → Fields → Fields
  pub model_validate : String → Fields → Option Value
  pub construct : String → Fields → Option Value

-- `hints.get(name)`
unfoldable pub hint_of : Dict String Anno → String → Anno
hint_of hints name = elim (get str_dec name hints) [ none ↦ absent | some a ↦ a ]

unfoldable pub size : Items → ℕ
size no_item = 0
size (item v rest) = suc (size rest)

abbrev pub is_class : Anno → Bool
is_class (model c) = true
is_class (dataclass c) = true
is_class _ = false

abbrev pub is_dict : Value → Bool
is_dict (dict_value fs) = true
is_dict _ = false

module _ (classes : Classes) where
  unfoldable pub runtime_matches : Value → Anno → Bool
  runtime_matches (model_value c fs) (model d) = classes.extends c d
  runtime_matches (data_value c fs) (dataclass d) = classes.extends c d
  runtime_matches (list_value xs) (list_of a) = true
  runtime_matches (tuple_value xs) (tuple_of args) = true
  runtime_matches (tuple_value xs) (tuple_of_any a) = true
  runtime_matches (dict_value fs) (dict_of k a) = true
  runtime_matches _ _ = false

  -- The loop over the members of a union in `_encode`; without a match the value is left alone.
  unfoldable pub first_match : Value → List Anno → Anno
  first_match v [] = absent
  first_match v (a ∷ rest) =
      if wants_codec a 0 && runtime_matches v a then a else first_match v rest

  -- The annotation that a value is walked through. A member of a union is never a union itself,
  -- since no value matches one.
  unfoldable pub chosen : Value → Anno → Anno
  chosen v (union args) = elim (union_codec_members (args_of args)) [
    | none ↦ absent
    | some members ↦ first_match v members
  ]
  chosen v a = a

  unfoldable mutual
    pub encode_at : Value → Anno → Value
    encode_at (model_value c fs) (model d) =
        if classes.extends c d then dict_value (classes.model_dump c fs) else model_value c fs
    encode_at (data_value c fs) (dataclass d) =
        if classes.extends c d
        then dict_value (encode_fields fs (classes.hints d))
        else data_value c fs
    encode_at (list_value xs) (list_of a) = list_value (encode_items xs a)
    encode_at (tuple_value xs) (tuple_of_any a) = tuple_value (encode_items xs a)
    encode_at (tuple_value xs) (tuple_of args) =
        let walked = encode_each xs (args_of args) in
        if length (args_of args) == size xs then tuple_value walked else tuple_value xs
    encode_at (dict_value fs) (dict_of k a) = dict_value (encode_values fs a)
    encode_at v _ = v

    pub encode_items : Items → Anno → Items
    encode_items no_item a = no_item
    encode_items (item v rest) a = item (encode_at v (chosen v a)) (encode_items rest a)

    pub encode_each : Items → List Anno → Items
    encode_each (item v rest) (a ∷ more) = item (encode_at v (chosen v a)) (encode_each rest more)
    encode_each _ _ = no_item

    pub encode_fields : Fields → Dict String Anno → Fields
    encode_fields no_field hints = no_field
    encode_fields (field name v rest) hints =
        field name (encode_at v (chosen v (hint_of hints name))) (encode_fields rest hints)

    pub encode_values : Fields → Anno → Fields
    encode_values no_field a = no_field
    encode_values (field key v rest) a = field key (encode_at v (chosen v a)) (encode_values rest a)

  unfoldable pub encode : Value → Anno → Value
  encode v a = encode_at v (chosen v a)

  -- The loop of `_decode` over the members of a union, with `at` for `_decode(value, arg)` and
  -- `drifted` for `drift is not None`.
  unfoldable pub decode_member : (Anno → Option Value) → Value → List Anno → Bool → Option Value
  decode_member at v [] drifted = if drifted then none else some v
  decode_member at v (a ∷ rest) drifted =
      let other = decode_member at v rest in
      if is_class a && is_dict v
      then elim (at a) [ some x ↦ some x | none ↦ other true ]
      else if wants_codec a 0 && runtime_matches v a
      then at a
      else other drifted

  unfoldable pub decode_with : (Anno → Option Value) → Value → Anno → Option Value
  decode_with at none_value a = some none_value
  decode_with at v (union args) = elim (union_codec_members (args_of args)) [
    | none ↦ some v
    | some members ↦ decode_member at v members false
  ]
  decode_with at v a = at a

  -- `none` is `_SchemaDrift`.
  unfoldable mutual
    pub decode_at : Value → Anno → Option Value
    decode_at (dict_value fs) (model d) = classes.model_validate d fs
    decode_at (dict_value fs) (dataclass d) = do
      kwargs ← decode_fields fs (classes.hints d)
      classes.construct d kwargs
    decode_at (list_value xs) (list_of a) = do walked ← decode_items xs a; some (list_value walked)
    decode_at (tuple_value xs) (tuple_of_any a) = do
      walked ← decode_items xs a
      some (tuple_value walked)
    decode_at (tuple_value xs) (tuple_of args) =
        let walked = decode_each xs (args_of args) in
        if length (args_of args) == size xs
        then elim walked [ none ↦ none | some ys ↦ some (tuple_value ys) ]
        else some (tuple_value xs)
    decode_at (dict_value fs) (dict_of k a) = do
      walked ← decode_values fs a
      some (dict_value walked)
    decode_at v _ = some v

    pub decode_items : Items → Anno → Option Items
    decode_items no_item a = some no_item
    decode_items (item v rest) a = do
      x ← decode_with (decode_at v) v a
      xs ← decode_items rest a
      some (item x xs)

    pub decode_each : Items → List Anno → Option Items
    decode_each (item v rest) (a ∷ more) = do
      x ← decode_with (decode_at v) v a
      xs ← decode_each rest more
      some (item x xs)
    decode_each _ _ = some no_item

    pub decode_fields : Fields → Dict String Anno → Option Fields
    decode_fields no_field hints = some no_field
    decode_fields (field name v rest) hints = do
      x ← decode_with (decode_at v) v (hint_of hints name)
      xs ← decode_fields rest hints
      some (field name x xs)

    pub decode_values : Fields → Anno → Option Fields
    decode_values no_field a = some no_field
    decode_values (field key v rest) a = do
      x ← decode_with (decode_at v) v a
      xs ← decode_values rest a
      some (field key x xs)

  unfoldable pub decode : Value → Anno → Option Value
  decode v a = decode_with (decode_at v) v a
