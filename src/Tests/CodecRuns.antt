-- ===== src/Tests/CodecRuns.antt =====
-- emboss/_cached.py: the theorems on the codec, at one model and one dataclass.
use emboss.Prelude.{
  ◌≡◌, ◌≢◌, refl, sym, ◌∙◌, String, Bool, true, false, none, some, [], ◌∷◌, str_eq, eq_refl, eq_iff,
}
use emboss.Prelude.Dict.{Dict, get, put, str_dec, get-put, get-put_self}
use emboss.Cached.{
  Cache, Wrapped, returned, call, serve, lookup, lookup_accepted, settle, ran, compute, decoded,
  cache_only_active,
}
use emboss.Cached.Anno.{
  Anno, Annos, no_anno, add_anno, none_type, model, dataclass, union, list_of, wants_codec,
  union_codec_members, args_of,
}
use emboss.Cached.Codec.{
  Value, scalar, list_value, dict_value, model_value, data_value, no_item, item, Fields, no_field,
  field, Classes, hint_of, chosen, first_match, runtime_matches, encode, decode, decode_at,
  decode_with, decode_member,
}
use emboss.Cached.Codec.Calls.{codec_anno, coded, call-coded}
use emboss.Cached.Codec.Drift.{class_member, decode-class_member}
use emboss.Cached.Codec.Fits.{fits, Rebuilds, fits_at, unclaimed}
use emboss.Cached.Codec.RoundTrip.{decode-encode}
use emboss.Cached.Backend.{IsCache}
use mathlib.Core.Bool.{true≢false}
use mathlib.Core.Logic.{if_neg}
use mathlib.Core.Option.{some-injective}

-- `Point` is a dataclass with a field that is a `Model` or `None`.
classes : Classes
classes = record {
  extends = str_eq;
  hints = λ c. ("m", union (add_anno (model "Model") (add_anno none_type no_anno))) ∷ [];
  model_dump = λ c fs. fs;
  model_validate = λ c fs. some (model_value c fs);
  construct = λ c fs. some (data_value c fs);
}

genuine : String → Fields → Bool
genuine c fs = true

classes-Rebuilds : Rebuilds classes genuine
unfolding classes genuine
classes-Rebuilds = record {
  extends_self = λ c. eq_refl c;
  validates = λ c fs g. refl;
  constructs = λ c fs g. refl;
}

abbrev a_model : Value
a_model = model_value "Model" (field "a" (scalar 1) no_field)

abbrev a_point : Value
a_point = data_value "Point" (field "m" a_model no_field)

abbrev a_list : Value
a_list = list_value (item a_point no_item)

abbrev points : Anno
points = list_of (dataclass "Point")

a_list-fits : fits classes genuine a_list points ≡ true
unfolding fits fits_at chosen unclaimed classes genuine hint_of get str_dec union_codec_members
    wants_codec first_match runtime_matches
a_list-fits = refl

decode-encode_example : decode classes (encode classes a_list points) points ≡ some a_list
decode-encode_example = decode-encode classes genuine classes-Rebuilds a_list points a_list-fits

-- A model that dumps to one number.
dumping : Classes
unfolding classes
dumping = record classes { model_dump = λ c fs. field "a" (scalar 1) no_field }

abbrev members : Annos
members = add_anno (list_of (model "Model")) (add_anno (model "Model") (add_anno none_type no_anno))

members-clear :
    union_codec_members (args_of members) ≡ some (list_of (model "Model") ∷ model "Model" ∷ [])
unfolding union_codec_members
members-clear = refl

members-class : class_member (list_of (model "Model") ∷ model "Model" ∷ []) ≡ some (model "Model")
unfolding class_member
members-class = refl

-- A class that has renamed its field since.
drifted : Classes
unfolding classes
drifted = record classes { model_validate = λ c fs. none }

decode-class_member_example :
    decode drifted (dict_value (field "a" (scalar 1) no_field)) (union members)
    ≡ decode drifted (dict_value (field "a" (scalar 1) no_field)) (model "Model")
decode-class_member_example =
    decode-class_member drifted (field "a" (scalar 1) no_field) members _ _ members-clear
      members-class

drifted_run : decode drifted (dict_value (field "a" (scalar 1) no_field)) (union members) ≡ none
unfolding decode decode_with decode_at decode_member drifted classes union_codec_members wants_codec
    runtime_matches
drifted_run = refl

abbrev Store : Type 0
Store = Dict String Value

value_cache : Cache Store Value
value_cache = record {
  get = λ key w. (w, get str_dec key w);
  set = λ key raw w. (put str_dec key raw w, true);
}

value_cache-IsCache : IsCache value_cache (λ w key. get str_dec key w)
unfolding value_cache
value_cache-IsCache = record {
  view-get = λ key w. refl;
  get-view = λ key w. refl;
  set-done = λ key raw w done. get-put_self str_dec key raw w;
  set-other = λ key other raw w ne.
      let apart : key ≢ other = λ e. true≢false (sym ((eq_iff other key).1 (sym e)) ∙ ne) in
      get-put str_dec other key raw w
      ∙ if_neg (str_dec key other) apart (some raw) (get str_dec other w);
  set-raised = λ key raw w raised. absurd (true≢false raised);
}

makes_points : Wrapped Store Value Value
makes_points = record {
  encode = λ v. v;
  decode = λ v. some v;
  func = λ w. (w, some a_list);
  override = λ w. some false;
  variable = λ w. "";
}

results_fit :
    (w : Store) (r : Value)
    → (makes_points.func w).1 ≡ some r
    → fits classes genuine r (codec_anno points) ≡ true
unfolding makes_points codec_anno wants_codec
results_fit w r e = rw (sym (some-injective _ _ e)) a_list-fits

first_call : (call value_cache (coded classes points makes_points) "k" [] []).1 ≡ returned a_list
unfolding value_cache makes_points coded call serve lookup lookup_accepted compute ran settle
    decoded cache_only_active get put str_dec
first_call = refl

call-coded_example :
    (call value_cache
      (record (coded classes points makes_points) { func = λ w. (w, none) })
      "k"
      []
      (call value_cache (coded classes points makes_points) "k" [] []).0).1
    ≡ returned a_list
call-coded_example =
    call-coded classes genuine classes-Rebuilds value_cache makes_points
      (λ w key. get str_dec key w) value_cache-IsCache points "k" [] [] a_list (λ w. (w, none))
      results_fit first_call
