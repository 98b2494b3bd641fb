-- ===== src/Cached/Codec/Drift.antt =====
-- emboss/_cached.py: a stored field dict and the class that reads it.
use emboss.Prelude.{
  ◌≡◌, refl, sym, ap, ◌∙◌, true, false, Bool-cases, Option-cases, inl, inr, Option, none, some,
  List, [], ◌∷◌, ◌++◌, if◌then◌else◌, arith,
}
use mathlib.Core.Bool.{true≢false}
use mathlib.Core.Option.{some-injective}
use emboss.Cached.Anno.{
  Shape, dict_shape, Anno, Annos, model, dataclass, union, dict_of, args_of, union_codec_members,
  holds_shape, distinct, stored_shapes, all_shapes,
}
use emboss.Cached.Codec.{
  Value, dict_value, Fields, Classes, is_class, decode_member, decode_at, decode_with, decode,
}
use emboss.Cached.Codec.Members.{
  claims_dict, claims_dict-class, alone, unclaimed_dict, class_holds, holds-append, distinct_tail,
  union_codec_members-distinct,
}

-- The first member that is a class
unfoldable pub class_member : List Anno → Option Anno
class_member [] = none
class_member (a ∷ members) = if is_class a then some a else class_member members

holds-append_free :
    (s : Shape) (ss ts : List Shape) → holds_shape s (ss ++ ts) ≡ false → holds_shape s ts ≡ false
holds-append_free s [] ts h = h
holds-append_free s (t ∷ ss) ts h = holds-append_free s ss ts (ground (arith, h))

class_member-holds :
    (members : List Anno) (m : Anno)
    → class_member members ≡ some m
    → holds_shape dict_shape (all_shapes members) ≡ true
unfolding class_member
class_member-holds [] m h = cc
class_member-holds (a ∷ members) m h = elim (Bool-cases (is_class a)) [
  | inl here ↦ class_holds a (all_shapes members) here
  | inr other ↦
      holds-append dict_shape (stored_shapes a) (all_shapes members)
        (class_member-holds members m (ground (arith, h, other)))
]

class_member-is_class :
    (members : List Anno) (m : Anno) → class_member members ≡ some m → is_class m ≡ true
unfolding class_member
class_member-is_class [] m h = cc
class_member-is_class (a ∷ members) m h = elim (Bool-cases (is_class a)) [
  | inl here ↦ let at_head : a ≡ m = some-injective _ _ (rw here at h) in rw⁻¹ at_head here
  | inr other ↦ class_member-is_class members m (rw other at h)
]

distinct-class :
    (a : Anno) (ts : List Shape)
    → is_class a ≡ true
    → distinct (stored_shapes a ++ ts) ≡ true
    → holds_shape dict_shape ts ≡ false
distinct-class (model c) ts h d = ground (arith, d)
distinct-class (dataclass c) ts h d = ground (arith, d)
distinct-class _ ts h d = cc

claims_dict-holds :
    (a : Anno) (ts : List Shape)
    → claims_dict a ≡ true
    → holds_shape dict_shape (stored_shapes a ++ ts) ≡ true
claims_dict-holds (dict_of k a) ts h = refl
claims_dict-holds (model c) ts h = refl
claims_dict-holds (dataclass c) ts h = refl
claims_dict-holds _ ts h = cc

claims_dict-free :
    (a : Anno) (ts : List Shape)
    → holds_shape dict_shape (stored_shapes a ++ ts) ≡ false
    → claims_dict a ≡ false
claims_dict-free a ts h = elim (Bool-cases (claims_dict a)) [
  | inl claims ↦ absurd (true≢false (sym (claims_dict-holds a ts claims) ∙ h))
  | inr free ↦ free
]

module _ (classes : Classes) where
  unclaimed_rest :
      (at : Anno → Option Value) (fs : Fields) (members : List Anno)
      → holds_shape dict_shape (all_shapes members) ≡ false
      → decode_member classes at (dict_value fs) members true ≡ none
  unfolding decode_member
  unclaimed_rest at fs [] h = refl
  unclaimed_rest at fs (a ∷ members) h =
      let no_claim : claims_dict a ≡ false = claims_dict-free a (all_shapes members) h in
      let rest =
        unclaimed_rest at fs members
          (holds-append_free dict_shape (stored_shapes a) (all_shapes members) h) in
      rw (claims_dict-class a no_claim, unclaimed_dict classes fs a no_claim) (ground (arith, rest))

  decode_member-class_member :
      (at : Anno → Option Value) (fs : Fields) (members : List Anno) (m : Anno)
      → distinct (all_shapes members) ≡ true
      → class_member members ≡ some m
      → decode_member classes at (dict_value fs) members false ≡ at m
  unfolding decode_member class_member
  decode_member-class_member at fs [] m d h = cc
  decode_member-class_member at fs (a ∷ members) m d h = elim (Bool-cases (is_class a)) [
    | inl here ↦
        let at_head : a ≡ m = some-injective _ _ (rw here at h) in
        let rest = unclaimed_rest at fs members (distinct-class a (all_shapes members) here d) in
        elim (Option-cases (at a)) [
          | inl drift ↦ rw (here, drift, rest) (sym drift ∙ ap at at_head)
          | inr (x, found) ↦ rw (here, found) (sym found ∙ ap at at_head)
        ]
    | inr other ↦
        let later : class_member members ≡ some m = rw other at h in
        let apart = alone a (all_shapes members) (class_member-holds members m later) d in
        let rest =
          decode_member-class_member at fs members m
            (distinct_tail (stored_shapes a) (all_shapes members) d) later in
        rw (other, unclaimed_dict classes fs a apart) (ground (arith, rest))
  ]

  class_alone :
      (fs : Fields) (m : Anno)
      → is_class m ≡ true
      → decode_with classes (decode_at classes (dict_value fs)) (dict_value fs) m
        ≡ decode_at classes (dict_value fs) m
  unfolding decode_with
  class_alone fs (model c) h = refl
  class_alone fs (dataclass c) h = refl
  class_alone fs _ h = cc

  -- In a union without ambiguity that has a class among its members, a stored dict is read by
  -- the first class alone: what decoding through that class gives, a value or drift, is what
  -- decoding through the union gives.
  pub decode-class_member :
      (fs : Fields) (args : Annos) (members : List Anno) (m : Anno)
      → union_codec_members (args_of args) ≡ some members
      → class_member members ≡ some m
      → decode classes (dict_value fs) (union args) ≡ decode classes (dict_value fs) m
  unfolding decode decode_with
  decode-class_member fs args members m clear h =
      let one =
        decode_member-class_member (decode_at classes (dict_value fs)) fs members m
          (union_codec_members-distinct _ members clear) h in
      rw (decode, decode_with, clear)
        (one ∙ sym (class_alone fs m (class_member-is_class members m h)))
