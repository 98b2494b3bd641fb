-- ===== src/Cached/Codec/Plain.antt =====
-- emboss/_cached.py: what of a value is left in its stored form.
use emboss.Prelude.{
  ◌≡◌, refl, String, Bool, true, false, ◌&&◌, Bool-cases, inl, inr, List, [], ◌∷◌, length, ◌==◌,
  if◌then◌else◌, arith,
}
use emboss.Prelude.Dict.{Dict}
use emboss.Cached.Anno.{Anno, model, dataclass, tuple_of, list_of, tuple_of_any, dict_of, args_of}
use emboss.Cached.Codec.{
  Value, none_value, scalar, other, list_value, tuple_value, dict_value, model_value, data_value,
  Items, no_item, item, Fields, no_field, field, Classes, chosen, size, hint_of, encode_at,
  encode_items, encode_each, encode_fields, encode_values,
}

-- Nothing at any depth but `None`, scalars, lists, tuples and dicts.
unfoldable mutual
  pub is_plain : Value → Bool
  is_plain none_value = true
  is_plain (scalar x) = true
  is_plain (other c x) = false
  is_plain (list_value xs) = plain_items xs
  is_plain (tuple_value xs) = plain_items xs
  is_plain (dict_value fs) = plain_fields fs
  is_plain (model_value c fs) = false
  is_plain (data_value c fs) = false

  pub plain_items : Items → Bool
  plain_items no_item = true
  plain_items (item v rest) = is_plain v && plain_items rest

  pub plain_fields : Fields → Bool
  plain_fields no_field = true
  plain_fields (field name v rest) = is_plain v && plain_fields rest

module _ (classes : Classes) where
  -- Every model and dataclass in the value stands where the annotation names its class or a base of
  -- it, and there is no object of another class.
  unfoldable mutual
    pub is_covered : Value → Anno → Bool
    is_covered (model_value c fs) (model d) = classes.extends c d
    is_covered (data_value c fs) (dataclass d) =
        classes.extends c d && covered_fields fs (classes.hints d)
    is_covered (list_value xs) (list_of a) = covered_items xs a
    is_covered (tuple_value xs) (tuple_of_any a) = covered_items xs a
    is_covered (tuple_value xs) (tuple_of args) =
        let each = covered_each xs (args_of args) in
        if length (args_of args) == size xs then each else plain_items xs
    is_covered (dict_value fs) (dict_of k a) = covered_values fs a
    is_covered v _ = is_plain v

    pub covered_items : Items → Anno → Bool
    covered_items no_item a = true
    covered_items (item v rest) a = is_covered v (chosen classes v a) && covered_items rest a

    pub covered_each : Items → List Anno → Bool
    covered_each (item v rest) (a ∷ more) =
        is_covered v (chosen classes v a) && covered_each rest more
    covered_each _ _ = true

    pub covered_fields : Fields → Dict String Anno → Bool
    covered_fields no_field hints = true
    covered_fields (field name v rest) hints =
        is_covered v (chosen classes v (hint_of hints name)) && covered_fields rest hints

    pub covered_values : Fields → Anno → Bool
    covered_values no_field a = true
    covered_values (field key v rest) a = is_covered v (chosen classes v a) && covered_values rest a

both : (a b : Bool) → (a && b) ≡ true → (a ≡ true) × (b ≡ true)
both a b h = (ground (arith, h), ground (arith, h))

module _ (classes : Classes)
    (dumps : (c : String) (fs : Fields) → plain_fields (classes.model_dump c fs) ≡ true) where
  mutual
    unfolding encode_at is_covered is_plain size

    encode_at-is_plain :
        (v : Value) (a : Anno)
        → is_covered classes v a ≡ true
        → is_plain (encode_at classes v a) ≡ true
    encode_at-is_plain (model_value c fs) (model d) h = rw h (dumps c fs)
    encode_at-is_plain (data_value c fs) (dataclass d) h =
        let (claimed, inner) =
          both (classes.extends c d) (covered_fields classes fs (classes.hints d)) h in
        rw claimed (fields_plain fs (classes.hints d) inner)
    encode_at-is_plain (list_value xs) (list_of a) h = items_plain xs a h
    encode_at-is_plain (tuple_value xs) (tuple_of_any a) h = items_plain xs a h
    encode_at-is_plain (tuple_value xs) (tuple_of args) h =
        elim (Bool-cases (length (args_of args) == size xs)) [
          | inl fit ↦ rw fit (each_plain xs (args_of args) (rw fit at h))
          | inr apart ↦ rw apart (rw apart at h)
        ]
    encode_at-is_plain (dict_value fs) (dict_of k a) h = values_plain fs a h
    encode_at-is_plain v a h = h

    items_plain :
        (xs : Items) (a : Anno)
        → covered_items classes xs a ≡ true
        → plain_items (encode_items classes xs a) ≡ true
    items_plain no_item a h = refl
    items_plain (item v rest) a h =
        let (here, others) =
          both (is_covered classes v (chosen classes v a)) (covered_items classes rest a) h in
        rw (encode_at-is_plain v (chosen classes v a) here) (items_plain rest a others)

    each_plain :
        (xs : Items) (annos : List Anno)
        → covered_each classes xs annos ≡ true
        → plain_items (encode_each classes xs annos) ≡ true
    each_plain no_item annos h = refl
    each_plain (item v rest) [] h = refl
    each_plain (item v rest) (a ∷ more) h =
        let (here, others) =
          both (is_covered classes v (chosen classes v a)) (covered_each classes rest more) h in
        rw (encode_at-is_plain v (chosen classes v a) here) (each_plain rest more others)

    fields_plain :
        (fs : Fields) (hints : Dict String Anno)
        → covered_fields classes fs hints ≡ true
        → plain_fields (encode_fields classes fs hints) ≡ true
    fields_plain no_field hints h = refl
    fields_plain (field name v rest) hints h =
        let (here, others) =
          both (is_covered classes v (chosen classes v (hint_of hints name)))
            (covered_fields classes rest hints) h in
        rw (encode_at-is_plain v (chosen classes v (hint_of hints name)) here)
          (fields_plain rest hints others)

    values_plain :
        (fs : Fields) (a : Anno)
        → covered_values classes fs a ≡ true
        → plain_fields (encode_values classes fs a) ≡ true
    values_plain no_field a h = refl
    values_plain (field key v rest) a h =
        let (here, others) =
          both (is_covered classes v (chosen classes v a)) (covered_values classes rest a) h in
        rw (encode_at-is_plain v (chosen classes v a) here) (values_plain rest a others)
