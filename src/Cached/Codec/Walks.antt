-- ===== src/Cached/Codec/Walks.antt =====
-- emboss/_cached.py: one value through a union and back.
use emboss.Prelude.{
  ℕ, suc, ◌≡◌, refl, ap, sym, ◌∙◌, Bool, true, false, not, ◌&&◌, Bool-cases, Option-cases, inl, inr,
  none, some, List, [], ◌∷◌, length, ◌==◌, if◌then◌else◌, arith,
}
use mathlib.Core.Bool.{true≢false}
use emboss.Cached.Anno.{
  Anno, Annos, absent, model, dataclass, union, tuple_of, list_of, tuple_of_any, dict_of, args_of,
  union_codec_members, distinct, all_shapes,
}
use emboss.Cached.Codec.{
  Value, none_value, list_value, tuple_value, dict_value, model_value, data_value, Items, no_item,
  item, Fields, Classes, is_class, is_dict, runtime_matches, first_match, chosen, size, encode_at,
  encode_each, encode_fields, decode_at, decode_member, decode_with,
}
use emboss.Cached.Codec.Members.{
  SameForm, same, lists, tuples, dicts, any_class, decode_member-form, decode_member-dict,
  decode_member-none, decode_at-absent, union_codec_members-distinct, first_match-runtime_matches,
}
use emboss.Cached.Codec.Fits.{unclaimed}

abbrev is_union : Anno → Bool
is_union (union args) = true
is_union _ = false

pub zero_apart : (n : ℕ) → (0 == suc n) ≡ false
zero_apart n = ground arith

pub suc_equal : (m n : ℕ) → (suc m == suc n) ≡ true → (m == n) ≡ true
suc_equal m n h = ground arith

pub all_three : (a b c : Bool) → (a && b && c) ≡ true → (a ≡ true) × (b ≡ true) × (c ≡ true)
all_three a b c h = (ground (arith, h), ground (arith, h), ground (arith, h))

module _ (classes : Classes) where
  -- A value whose stored form is not a class's dict keeps its form.
  encode_at-SameForm :
      (v : Value) (a : Anno) → is_class a ≡ false → SameForm v (encode_at classes v a)
  unfolding encode_at
  encode_at-SameForm (list_value xs) (list_of a) h = lists
  encode_at-SameForm (tuple_value xs) (tuple_of_any a) h = tuples
  encode_at-SameForm (tuple_value xs) (tuple_of args) h = tuple_form _ _
    where
      tuple_form :
          (b : Bool) (ys : Items)
          → SameForm (tuple_value xs) (if b then tuple_value ys else tuple_value xs)
      tuple_form true ys = tuples
      tuple_form false ys = same
  encode_at-SameForm (dict_value fs) (dict_of k a) h = dicts
  encode_at-SameForm (model_value c fs) (model d) h = cc
  encode_at-SameForm (data_value c fs) (dataclass d) h = cc
  encode_at-SameForm v _ h = same

  pub size-encode_each :
      (xs : Items) (annos : List Anno)
      → (length annos == size xs) ≡ true
      → size (encode_each classes xs annos) ≡ size xs
  unfolding encode_at size
  size-encode_each no_item annos h = refl
  size-encode_each (item v rest) [] h = absurd (true≢false (sym h ∙ zero_apart (size rest)))
  size-encode_each (item v rest) (a ∷ more) h =
      ap suc (size-encode_each rest more (suc_equal (length more) (size rest) h))

  decode_with-no_union :
      (e : Value) (a : Anno)
      → is_union a ≡ false
      → decode_with classes (decode_at classes e) e a ≡ decode_at classes e a
  unfolding decode_with decode_at
  decode_with-no_union none_value a h = refl
  decode_with-no_union e (union args) h = cc
  decode_with-no_union e a h = refl

  encode_at-class :
      (v : Value) (a : Anno)
      → (runtime_matches classes v a && is_class a) ≡ true
      → (fs : Fields) × (encode_at classes v a ≡ dict_value fs)
  unfolding encode_at runtime_matches
  encode_at-class (model_value c fs) (model d) h =
      let here : classes.extends c d ≡ true = ground (arith, h) in
      (classes.model_dump c fs, rw here refl)
  encode_at-class (data_value c fs) (dataclass d) h =
      let here : classes.extends c d ≡ true = ground (arith, h) in
      (encode_fields classes fs (classes.hints d), rw here refl)
  encode_at-class (list_value xs) (list_of a) h = absurd (true≢false (sym h))
  encode_at-class (tuple_value xs) (tuple_of args) h = absurd (true≢false (sym h))
  encode_at-class (tuple_value xs) (tuple_of_any a) h = absurd (true≢false (sym h))
  encode_at-class (dict_value fs) (dict_of k a) h = absurd (true≢false (sym h))
  encode_at-class v a h = absurd (true≢false (sym h))

  decode_member-members :
      (v : Value) (members : List Anno)
      → distinct (all_shapes members) ≡ true
      → not (is_dict v && any_class members) ≡ true
      → decode_at classes
          (encode_at classes v (first_match classes v members))
          (first_match classes v members)
        ≡ some v
      → decode_member classes
          (decode_at classes (encode_at classes v (first_match classes v members)))
          (encode_at classes v (first_match classes v members))
          members
          false
        ≡ some v
  decode_member-members v members d u h =
      let m = first_match classes v members in
      elim (Bool-cases (is_class m)) [
        | inl class ↦
            let stored =
              encode_at-class v m
                (rw (first_match-runtime_matches classes v members class) class) in
            decode_member-dict classes (decode_at classes (encode_at classes v m)) v v _ stored.0
              members stored.1 d class h
        | inr no_class ↦
            decode_member-form classes v (encode_at classes v m) members
              (encode_at-SameForm v m no_class) (ground (arith, u))
            ∙ h
      ]

  decode_with-union :
      (e : Value) (members : List Anno) (args : Annos)
      → union_codec_members (args_of args) ≡ some members
      → decode_with classes (decode_at classes e) e (union args)
        ≡ decode_member classes (decode_at classes e) e members false
  unfolding decode_with
  decode_with-union none_value members args h = sym (decode_member-none classes members)
  decode_with-union e members args h = rw (decode_with, h) refl

  decode_with-ambiguous :
      (e : Value) (args : Annos)
      → union_codec_members (args_of args) ≡ none
      → decode_with classes (decode_at classes e) e (union args) ≡ some e
  unfolding decode_with
  decode_with-ambiguous none_value args h = refl
  decode_with-ambiguous e args h = rw (decode_with, h) refl

  pub decode_with-chosen :
      (v : Value) (a : Anno)
      → unclaimed v a ≡ true
      → decode_at classes (encode_at classes v (chosen classes v a)) (chosen classes v a) ≡ some v
      → decode_with classes
          (decode_at classes (encode_at classes v (chosen classes v a)))
          (encode_at classes v (chosen classes v a))
          a
        ≡ some v
  unfolding chosen unclaimed
  decode_with-chosen v (union args) u h = elim (Option-cases (union_codec_members (args_of args))) [
    | inl ambiguous ↦
        let here : chosen classes v (union args) ≡ absent = rw (chosen, ambiguous) refl in
        let e = encode_at classes v absent in
        let back : decode_at classes e absent ≡ some v = rw here at h in
        rw here (decode_with-ambiguous e args ambiguous ∙ sym (decode_at-absent classes e) ∙ back)
    | inr (members, unambiguous) ↦
        let here : chosen classes v (union args) ≡ first_match classes v members =
          rw (chosen, unambiguous) refl in
        let e = encode_at classes v (first_match classes v members) in
        let back : decode_at classes e (first_match classes v members) ≡ some v = rw here at h in
        let free : not (is_dict v && any_class members) ≡ true = rw (unclaimed, unambiguous) at u in
        rw here (
          decode_with-union e members args unambiguous
          ∙ decode_member-members v members (union_codec_members-distinct _ members unambiguous)
              free back)
  ]
  decode_with-chosen v a u h = decode_with-no_union _ _ refl ∙ h
