-- ===== src/Cached/Codec/Members.antt =====
-- emboss/_cached.py: the members of an unambiguous union, by the shapes of their stored values.
use emboss.Prelude.{
  ◌≡◌, refl, ap, sym, Bool, true, false, not, ◌&&◌, ◌||◌, Bool-cases, inl, inr, Option, some, List,
  [], ◌∷◌, ◌++◌, keep_if, arith,
}
use mathlib.Core.Option.{some-injective}
use emboss.Cached.Anno.{
  Shape, dict_shape, Anno, absent, none_type, model, dataclass, tuple_of, list_of, tuple_of_any,
  dict_of, holds_shape, distinct, stored_shapes, all_shapes, is_none_type, wants_codec,
  union_codec_members,
}
use emboss.Cached.Codec.{
  Value, none_value, list_value, tuple_value, dict_value, Items, Fields, Classes, is_class, is_dict,
  runtime_matches, first_match, decode_member, decode_at,
}

all_shapes-keep_if :
    (args : List Anno) → all_shapes (keep_if (λ a. not (is_none_type a)) args) ≡ all_shapes args
all_shapes-keep_if [] = refl
all_shapes-keep_if (none_type ∷ args) = all_shapes-keep_if args
all_shapes-keep_if (a ∷ args) = ap (λ ss. stored_shapes a ++ ss) (all_shapes-keep_if args)

pub distinct_tail : (ss ts : List Shape) → distinct (ss ++ ts) ≡ true → distinct ts ≡ true
distinct_tail [] ts h = h
distinct_tail (s ∷ ss) ts h = distinct_tail ss ts (ground arith)

pub holds-append :
    (s : Shape) (ss ts : List Shape) → holds_shape s ts ≡ true → holds_shape s (ss ++ ts) ≡ true
holds-append s [] ts h = h
holds-append s (t ∷ ss) ts h = ground (arith, holds-append s ss ts h)

pub class_holds :
    (a : Anno) (ts : List Shape)
    → is_class a ≡ true
    → holds_shape dict_shape (stored_shapes a ++ ts) ≡ true
class_holds (model c) ts h = refl
class_holds (dataclass c) ts h = refl
class_holds _ ts h = cc

abbrev pub any_class : List Anno → Bool
any_class [] = false
any_class (a ∷ members) = is_class a || any_class members

-- Two values that the tests of a union cannot tell apart.
pub data SameForm : Value → Value → Type 0 where
  same : {v : Value} → SameForm v v
  lists : {xs ys : Items} → SameForm (list_value xs) (list_value ys)
  tuples : {xs ys : Items} → SameForm (tuple_value xs) (tuple_value ys)
  dicts : {fs gs : Fields} → SameForm (dict_value fs) (dict_value gs)

-- A member that a stored dict can be claimed by.
abbrev pub claims_dict : Anno → Bool
claims_dict (dict_of k a) = true
claims_dict a = is_class a

pub claims_dict-class : (a : Anno) → claims_dict a ≡ false → is_class a ≡ false
claims_dict-class (dict_of k a) h = refl
claims_dict-class _ h = h

pub alone :
    (a : Anno) (ts : List Shape)
    → holds_shape dict_shape ts ≡ true
    → distinct (stored_shapes a ++ ts) ≡ true
    → claims_dict a ≡ false
alone (model c) ts h d = ground arith
alone (dataclass c) ts h d = ground arith
alone (dict_of k a) ts h d = ground arith
alone _ ts h d = refl

module _ (classes : Classes) where
  first_match-class :
      (v : Value) (members : List Anno)
      → is_class (first_match classes v members) ≡ true
      → holds_shape dict_shape (all_shapes members) ≡ true
  unfolding first_match
  first_match-class v [] h = cc
  first_match-class v (a ∷ members) h =
      elim (Bool-cases (wants_codec a 0 && runtime_matches classes v a)) [
        | inl here ↦ class_holds a (all_shapes members) (ground (arith, h, here))
        | inr not_here ↦
            holds-append dict_shape (stored_shapes a) (all_shapes members)
              (first_match-class v members (ground (arith, h, not_here)))
      ]

  pub first_match-runtime_matches :
      (v : Value) (members : List Anno)
      → is_class (first_match classes v members) ≡ true
      → runtime_matches classes v (first_match classes v members) ≡ true
  unfolding first_match
  first_match-runtime_matches v [] h = cc
  first_match-runtime_matches v (a ∷ members) h =
      ground (arith, first_match-runtime_matches v members)

  pub unclaimed_dict :
      (fs : Fields) (a : Anno)
      → claims_dict a ≡ false
      → runtime_matches classes (dict_value fs) a ≡ false
  unfolding runtime_matches
  unclaimed_dict fs (dict_of k a) h = cc
  unclaimed_dict fs _ h = refl

  -- The dict of a class member is read back through that member.
  decode_member-class :
      (at : Anno → Option Value) (v x : Value) (fs : Fields) (members : List Anno)
      → distinct (all_shapes members) ≡ true
      → is_class (first_match classes v members) ≡ true
      → at (first_match classes v members) ≡ some x
      → decode_member classes at (dict_value fs) members false ≡ some x
  unfolding first_match decode_member
  decode_member-class at v x fs [] d c h = cc
  decode_member-class at v x fs (a ∷ members) d c h =
      elim (Bool-cases (wants_codec a 0 && runtime_matches classes v a)) [
        | inl here ↦
            let class : is_class a ≡ true = ground (arith, c, here) in
            let found : at a ≡ some x = ground (arith, h, here) in rw (class, found) refl
        | inr not_here ↦
            let class : is_class (first_match classes v members) ≡ true =
              ground (arith, c, not_here) in
            let found : at (first_match classes v members) ≡ some x = ground (arith, h, not_here) in
            let apart = alone a (all_shapes members) (first_match-class v members class) d in
            let skip = unclaimed_dict fs a apart in
            let no_class : is_class a ≡ false = claims_dict-class a apart in
            let tail = distinct_tail (stored_shapes a) (all_shapes members) d in
            let rest = decode_member-class at v x fs members tail class found in
            rw (no_class, skip) (ground (arith, rest))
      ]

  SameForm-runtime_matches :
      {v e : Value}
      → SameForm v e
      → (a : Anno) → runtime_matches classes e a ≡ runtime_matches classes v a
  unfolding runtime_matches
  SameForm-runtime_matches same a = refl
  SameForm-runtime_matches lists (list_of a) = refl
  SameForm-runtime_matches lists _ = refl
  SameForm-runtime_matches tuples (tuple_of args) = refl
  SameForm-runtime_matches tuples (tuple_of_any a) = refl
  SameForm-runtime_matches tuples _ = refl
  SameForm-runtime_matches dicts (dict_of k a) = refl
  SameForm-runtime_matches dicts _ = refl

  SameForm-is_dict : {v e : Value} → SameForm v e → is_dict e ≡ is_dict v
  SameForm-is_dict same = refl
  SameForm-is_dict lists = refl
  SameForm-is_dict tuples = refl
  SameForm-is_dict dicts = refl

  pub decode_at-absent : (v : Value) → decode_at classes v absent ≡ some v
  unfolding decode_at
  decode_at-absent (list_value xs) = refl
  decode_at-absent _ = refl

  pub decode_member-form :
      (v e : Value) (members : List Anno)
      → SameForm v e
      → (is_dict v && any_class members) ≡ false
      → decode_member classes (decode_at classes e) e members false
        ≡ decode_at classes e (first_match classes v members)
  unfolding decode_member first_match
  decode_member-form v e [] form apart = sym (decode_at-absent e)
  decode_member-form v e (a ∷ members) form apart =
      let skip : is_class a && is_dict e ≡ false =
        rw (SameForm-is_dict form) (ground (arith, apart)) in
      let rest = decode_member-form v e members form (ground (arith, apart)) in
      rw (skip, SameForm-runtime_matches form a) (ground (arith, rest))

  pub decode_member-dict :
      (at : Anno → Option Value) (v x e : Value) (fs : Fields) (members : List Anno)
      → e ≡ dict_value fs
      → distinct (all_shapes members) ≡ true
      → is_class (first_match classes v members) ≡ true
      → at (first_match classes v members) ≡ some x
      → decode_member classes at e members false ≡ some x
  decode_member-dict at v x e fs members shape d c h =
      rw shape (decode_member-class at v x fs members d c h)

  pub decode_member-none :
      (members : List Anno)
      → decode_member classes (decode_at classes none_value) none_value members false
        ≡ some none_value
  unfolding decode_at
  decode_member-none members = decode_member-form none_value none_value members same refl

pub union_codec_members-distinct :
    (args members : List Anno)
    → union_codec_members args ≡ some members
    → distinct (all_shapes members) ≡ true
unfolding union_codec_members
union_codec_members-distinct args members h = elim (Bool-cases (distinct (all_shapes args))) [
  | inl unambiguous ↦
      let kept : keep_if (λ a. not (is_none_type a)) args ≡ members =
        some-injective _ _ (rw⁻¹ h (ground (arith, unambiguous))) in
      rw (sym kept, all_shapes-keep_if args) unambiguous
  | inr ambiguous ↦ ground (arith, h, ambiguous)
]
