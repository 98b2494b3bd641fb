-- ===== src/Cached/Anno.antt =====
-- emboss/_cached.py: the return annotations, as far as the codec reads them, and the gate that
-- decides which of them it encodes through.
-- An annotation is what `typing.get_origin` and `typing.get_args` say of it; the tests of a class
-- (`_is_basemodel_class`, `_codable_dataclass`) are constructors. Resolving quoted names is left to
-- `typing` and not modelled.
use emboss.Prelude.{
  ℕ, suc, String, Bool, true, false, not, ◌&&◌, ◌||◌, Option, none, some, List, [], ◌∷◌, ◌++◌, ltb,
  is_some, keep_if, if◌then◌else◌,
}

-- What a stored container can be.
pub data Shape : Type 0 where
  list_shape tuple_shape dict_shape : Shape

-- `absent` is a missing annotation or hint, `anything` is `Any` or `object`, `plain` any other class
-- or form, with the container that it is a subtype of; `list`, `tuple` and `dict` without arguments
-- are `plain`, and `tuple_of_any a` is `tuple[a, ...]`.
mutual
  pub data Anno : Type 0 where
    absent none_type anything : Anno
    model dataclass : String → Anno
    plain : Option Shape → Anno
    union tuple_of : Annos → Anno
    list_of tuple_of_any : Anno → Anno
    dict_of : Anno → Anno → Anno

  pub data Annos : Type 0 where
    no_anno : Annos
    add_anno : Anno → Annos → Annos

-- `typing.get_args`
abbrev pub args_of : Annos → List Anno
args_of no_anno = []
args_of (add_anno a rest) = a ∷ args_of rest

abbrev pub same_shape : Shape → Shape → Bool
same_shape list_shape list_shape = true
same_shape tuple_shape tuple_shape = true
same_shape dict_shape dict_shape = true
same_shape _ _ = false

abbrev pub holds_shape : Shape → List Shape → Bool
holds_shape s [] = false
holds_shape s (t ∷ ts) = same_shape s t || holds_shape s ts

-- `len(shapes) == len(set(shapes))`
abbrev pub distinct : List Shape → Bool
distinct [] = true
distinct (s ∷ ss) = not (holds_shape s ss) && distinct ss

abbrev pub member_shapes : Anno → List Shape
member_shapes (list_of a) = list_shape ∷ []
member_shapes (tuple_of args) = tuple_shape ∷ []
member_shapes (tuple_of_any a) = tuple_shape ∷ []
member_shapes (dict_of k a) = dict_shape ∷ []
member_shapes (plain (some s)) = s ∷ []
member_shapes _ = []

-- What the loop of `_union_codec_members` adds for one member.
abbrev pub stored_shapes : Anno → List Shape
stored_shapes (model c) = dict_shape ∷ []
stored_shapes (dataclass c) = dict_shape ∷ []
stored_shapes anything = list_shape ∷ tuple_shape ∷ dict_shape ∷ []
stored_shapes a = member_shapes a

abbrev pub all_shapes : List Anno → List Shape
all_shapes [] = []
all_shapes (a ∷ rest) = stored_shapes a ++ all_shapes rest

abbrev pub is_none_type : Anno → Bool
is_none_type none_type = true
is_none_type _ = false

-- `none` for an ambiguous union
unfoldable pub union_codec_members : List Anno → Option (List Anno)
union_codec_members args =
    if distinct (all_shapes args) then some (keep_if (λ a. not (is_none_type a)) args) else none

-- `NoneType`, the only argument that is no member, wants no codec.
unfoldable mutual
  pub wants_codec : Anno → ℕ → Bool
  wants_codec (model c) depth = not (ltb 8 depth)
  wants_codec (dataclass c) depth = not (ltb 8 depth)
  wants_codec (union args) depth =
      not (ltb 8 depth)
      && is_some (union_codec_members (args_of args))
      && any_wants args (suc depth)
  wants_codec (tuple_of args) depth = not (ltb 8 depth) && any_wants args (suc depth)
  wants_codec (list_of a) depth = not (ltb 8 depth) && wants_codec a (suc depth)
  wants_codec (tuple_of_any a) depth = not (ltb 8 depth) && wants_codec a (suc depth)
  wants_codec (dict_of k a) depth =
      not (ltb 8 depth) && (wants_codec k (suc depth) || wants_codec a (suc depth))
  wants_codec _ depth = false

  pub any_wants : Annos → ℕ → Bool
  any_wants no_anno depth = false
  any_wants (add_anno a rest) depth = wants_codec a depth || any_wants rest depth
