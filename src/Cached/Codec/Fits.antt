-- ===== src/Cached/Codec/Fits.antt =====
-- emboss/_cached.py: the values that the codec gives back as they were.
use emboss.Prelude.{
  ◌≡◌, String, Bool, true, false, not, ◌&&◌, ◌||◌, none, some, List, ◌∷◌, length, ◌==◌, str_eq,
}
use emboss.Prelude.Dict.{Dict}
use emboss.Cached.Anno.{
  Anno, model, dataclass, union, tuple_of, list_of, tuple_of_any, dict_of, args_of,
  union_codec_members,
}
use emboss.Cached.Codec.{
  Value, list_value, tuple_value, dict_value, model_value, data_value, Items, no_item, item, Fields,
  no_field, field, Classes, is_dict, chosen, size, hint_of,
}
use emboss.Cached.Codec.Members.{any_class}

-- A dict that stands in a union is no stored form of one of its classes.
unfoldable pub unclaimed : Value → Anno → Bool
unclaimed v (union args) = elim (union_codec_members (args_of args)) [
  | none ↦ true
  | some members ↦ not (is_dict v && any_class members)
]
unclaimed v a = true

module _ (classes : Classes) (genuine : String → Fields → Bool) where
  -- An instance stands where the annotation has its own class, and no bare dict where it has a
  -- class; the instance is one that the class can make again.
  unfoldable mutual
    pub fits_at : Value → Anno → Bool
    fits_at (model_value c fs) (model d) = (str_eq c d && genuine c fs) || not (classes.extends c d)
    fits_at (data_value c fs) (dataclass d) =
        (str_eq c d && genuine c fs && fields_fit fs (classes.hints d)) || not (classes.extends c d)
    fits_at (dict_value fs) (model d) = false
    fits_at (dict_value fs) (dataclass d) = false
    fits_at (dict_value fs) (dict_of k a) = values_fit fs a
    fits_at (list_value xs) (list_of a) = items_fit xs a
    fits_at (tuple_value xs) (tuple_of_any a) = items_fit xs a
    fits_at (tuple_value xs) (tuple_of args) =
        each_fits xs (args_of args) || not (length (args_of args) == size xs)
    fits_at v _ = true

    pub items_fit : Items → Anno → Bool
    items_fit no_item a = true
    items_fit (item v rest) a = fits_at v (chosen classes v a) && unclaimed v a && items_fit rest a

    pub each_fits : Items → List Anno → Bool
    each_fits (item v rest) (a ∷ more) =
        fits_at v (chosen classes v a) && unclaimed v a && each_fits rest more
    each_fits _ _ = true

    pub fields_fit : Fields → Dict String Anno → Bool
    fields_fit no_field hints = true
    fields_fit (field name v rest) hints =
        fits_at v (chosen classes v (hint_of hints name))
        && unclaimed v (hint_of hints name)
        && fields_fit rest hints

    pub values_fit : Fields → Anno → Bool
    values_fit no_field a = true
    values_fit (field key v rest) a =
        fits_at v (chosen classes v a) && unclaimed v a && values_fit rest a

  unfoldable pub fits : Value → Anno → Bool
  fits v a = fits_at v (chosen classes v a) && unclaimed v a

-- What the classes have to do: `isinstance` of the class itself, and a value made again from what
-- `model_dump` or the fields of it say.
pub record Rebuilds (classes : Classes) (genuine : String → Fields → Bool) : Type 0 where
  pub extends_self : (c : String) → classes.extends c c ≡ true
  pub validates :
      (c : String) (fs : Fields)
      → genuine c fs ≡ true
      → classes.model_validate c (classes.model_dump c fs) ≡ some (model_value c fs)
  pub constructs :
      (c : String) (fs : Fields)
      → genuine c fs ≡ true
      → classes.construct c fs ≡ some (data_value c fs)
