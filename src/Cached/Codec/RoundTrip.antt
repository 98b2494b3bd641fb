-- ===== src/Cached/Codec/RoundTrip.antt =====
-- emboss/_cached.py: the stored form of a value, read back.
use emboss.Prelude.{
  ◌≡◌, refl, sym, ◌∙◌, String, Bool, true, Bool-cases, inl, inr, some, List, [], ◌∷◌, length, ◌==◌,
  eq_iff, arith,
}
use mathlib.Core.Bool.{true≢false}
use emboss.Prelude.Dict.{Dict}
use emboss.Cached.Anno.{Anno, model, dataclass, tuple_of, list_of, tuple_of_any, dict_of, args_of}
use emboss.Cached.Codec.{
  Value, list_value, tuple_value, dict_value, model_value, data_value, Items, no_item, item, Fields,
  no_field, field, Classes, chosen, size, hint_of, encode_at, encode_items, encode_each,
  encode_fields, encode_values, encode, decode_at, decode_items, decode_each, decode_fields,
  decode_values, decode,
}
use emboss.Cached.Codec.Fits.{fits_at, items_fit, each_fits, fields_fit, values_fit, fits, Rebuilds}
use emboss.Cached.Codec.Walks.{
  zero_apart, suc_equal, all_three, size-encode_each, decode_with-chosen,
}

module _ (classes : Classes) (genuine : String → Fields → Bool)
    (laws : Rebuilds classes genuine) where
  mutual
    unfolding encode_at decode_at fits_at size

    decode-encode_at :
        (v : Value) (a : Anno)
        → fits_at classes genuine v a ≡ true
        → decode_at classes (encode_at classes v a) a ≡ some v
    decode-encode_at (model_value c fs) (model d) h = elim (Bool-cases (classes.extends c d)) [
      | inr apart ↦ rw apart refl
      | inl claimed ↦
          let at_class : c ≡ d = (eq_iff c d).0 (ground (arith, h, claimed)) in
          rw (claimed, sym at_class) (laws.validates c fs (ground (arith, h, claimed)))
    ]
    decode-encode_at (data_value c fs) (dataclass d) h = elim (Bool-cases (classes.extends c d)) [
      | inr apart ↦ rw apart refl
      | inl claimed ↦
          let at_class : c ≡ d = (eq_iff c d).0 (ground (arith, h, claimed)) in
          let made = laws.constructs c fs (ground (arith, h, claimed)) in
          rw (claimed, fields_back fs (classes.hints d) (ground (arith, h, claimed)), sym at_class)
            made
    ]
    decode-encode_at (dict_value fs) (model d) h = absurd (true≢false (sym h))
    decode-encode_at (dict_value fs) (dataclass d) h = absurd (true≢false (sym h))
    decode-encode_at (dict_value fs) (dict_of k a) h = rw (values_back fs a h) refl
    decode-encode_at (list_value xs) (list_of a) h = rw (items_back xs a h) refl
    decode-encode_at (tuple_value xs) (tuple_of_any a) h = rw (items_back xs a h) refl
    decode-encode_at (tuple_value xs) (tuple_of args) h =
        elim (Bool-cases (length (args_of args) == size xs)) [
          | inl fit ↦
              let n : (length (args_of args) == size (encode_each classes xs (args_of args)))
                  ≡ true =
                rw (size-encode_each classes xs (args_of args) fit) fit in
              rw (fit, n, each_back xs (args_of args) (ground (arith, h, fit)) fit) refl
          | inr apart ↦ rw (apart, apart) refl
        ]
    decode-encode_at v a h = refl

    items_back :
        (xs : Items) (a : Anno)
        → items_fit classes genuine xs a ≡ true
        → decode_items classes (encode_items classes xs a) a ≡ some xs
    items_back no_item a h = refl
    items_back (item v rest) a h =
        let (walk, free, others) = all_three _ _ _ h in
        let first =
          decode_with-chosen classes v a free (decode-encode_at v (chosen classes v a) walk) in
        rw (first, items_back rest a others) refl

    each_back :
        (xs : Items) (annos : List Anno)
        → each_fits classes genuine xs annos ≡ true
        → (length annos == size xs) ≡ true
        → decode_each classes (encode_each classes xs annos) annos ≡ some xs
    each_back no_item [] h n = refl
    each_back no_item (a ∷ more) h n = refl
    each_back (item v rest) [] h n = absurd (true≢false (sym n ∙ zero_apart (size rest)))
    each_back (item v rest) (a ∷ more) h n =
        let (walk, free, others) = all_three _ _ _ h in
        let first =
          decode_with-chosen classes v a free (decode-encode_at v (chosen classes v a) walk) in
        rw (first, each_back rest more others (suc_equal (length more) (size rest) n)) refl

    fields_back :
        (fs : Fields) (hints : Dict String Anno)
        → fields_fit classes genuine fs hints ≡ true
        → decode_fields classes (encode_fields classes fs hints) hints ≡ some fs
    fields_back no_field hints h = refl
    fields_back (field name v rest) hints h =
        let a = hint_of hints name in
        let (walk, free, others) = all_three _ _ _ h in
        let first =
          decode_with-chosen classes v a free (decode-encode_at v (chosen classes v a) walk) in
        rw (first, fields_back rest hints others) refl

    values_back :
        (fs : Fields) (a : Anno)
        → values_fit classes genuine fs a ≡ true
        → decode_values classes (encode_values classes fs a) a ≡ some fs
    values_back no_field a h = refl
    values_back (field key v rest) a h =
        let (walk, free, others) = all_three _ _ _ h in
        let first =
          decode_with-chosen classes v a free (decode-encode_at v (chosen classes v a) walk) in
        rw (first, values_back rest a others) refl

  -- With classes that make a value again from its dump or its fields: a value that fits the
  -- annotation, at any depth of lists, tuples, dicts, unions and dataclass fields, decodes
  -- from its encoding to itself.
  pub decode-encode :
      (v : Value) (a : Anno)
      → fits classes genuine v a ≡ true
      → decode classes (encode classes v a) a ≡ some v
  unfolding decode encode fits
  decode-encode v a h =
      decode_with-chosen classes v a (ground (arith, h))
        (decode-encode_at v (chosen classes v a) (ground (arith, h)))
