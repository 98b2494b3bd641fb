-- ===== src/Tests/CachedRuns.antt =====
-- emboss/_cached.py: the theorems on the wrapper, over a cache that is a dict.
use emboss.Prelude.{
  ℕ, zero, suc, ◌+◌, ◌≡◌, ◌≢◌, refl, sym, ◌∙◌, String, Bool, true, false, Option, none, some, [],
  ◌∷◌, eq_iff,
}
use mathlib.Core.Bool.{true≢false}
use mathlib.Core.Logic.{if_neg}
use emboss.Prelude.Dict.{Dict, get, put, str_dec, get-put, get-put_self}
use emboss.Cached.{
  Cache, Wrapped, returned, cache_miss, lookup, lookup_accepted, serve, call, decoded,
  cache_only_active,
}
use emboss.Cached.Backend.{IsCache, first_hit}
use emboss.Cached.Memo.{Holds, Lacks, call-Holds, call-first_write, call-sealed}
use emboss.Cached.Stable.{call-call}
use emboss.Cached.Tokens.{parse_accept_token, cache_id, parse_accept_token-cache_id}

-- The stored values, and the number of runs of the function.
pub record World : Type 0 where
  pub store : Dict String ℕ
  pub runs : ℕ

pub dict_cache : Cache World ℕ
dict_cache = record {
  get = λ key w. (w, get str_dec key w.store);
  set = λ key raw w. (record w { store = put str_dec key raw w.store }, true);
}

pub view : World → String → Option ℕ
view w key = get str_dec key w.store

pub dict_cache-IsCache : IsCache dict_cache view
unfolding dict_cache view
dict_cache-IsCache = record {
  view-get = λ key w. refl;
  get-view = λ key w. refl;
  set-done = λ key raw w done. get-put_self str_dec key raw w.store;
  set-other = λ key other raw w ne.
      let apart : key ≢ other = λ e. true≢false (sym ((eq_iff other key).1 (sym e)) ∙ ne) in
      get-put str_dec other key raw w.store
      ∙ if_neg (str_dec key other) apart (some raw) (get str_dec other w.store);
  set-raised = λ key raw w raised. absurd (true≢false raised);
}

decode : ℕ → Option ℕ
decode zero = none
decode (suc n) = some n

-- The function answers 7; `rival` is what another process has stored meanwhile.
wrapped : Option Bool → Dict String ℕ → Wrapped World ℕ ℕ
unfolding decode
wrapped switch rival = record {
  encode = suc;
  decode = decode;
  func = λ w. (record { store = rival; runs = w.runs + 1 }, some 7);
  override = λ w. switch;
  variable = λ w. "";
}

abbrev empty : World
empty = record { store = []; runs = 0 }

abbrev warm : World
warm = record { store = ("old", 4) ∷ []; runs = 0 }

warm-Holds : Holds dict_cache (wrapped none []) view dict_cache-IsCache "new" ("old" ∷ []) warm 3
unfolding view wrapped first_hit get str_dec
warm-Holds = record { raw = 4; there = refl; decodes = refl }

call-Holds_example :
    call dict_cache (wrapped none []) "new" ("old" ∷ []) warm
    ≡ ((serve dict_cache (wrapped none []) "new" ("old" ∷ []) warm).0, returned 3)
call-Holds_example =
    call-Holds dict_cache (wrapped none []) view dict_cache-IsCache "new" ("old" ∷ []) warm 3
      warm-Holds

empty-Lacks :
    (switch : Option Bool) (rival : Dict String ℕ)
    → Lacks dict_cache (wrapped switch rival) view dict_cache-IsCache "new" ("old" ∷ []) empty
unfolding view wrapped first_hit get decoded
empty-Lacks switch rival = refl

call-sealed_example : call dict_cache (wrapped (some true) []) "new" ("old" ∷ []) empty ≡ (
  (serve dict_cache
      (wrapped (some true) [])
      "new"
      ("old" ∷ [])
      (serve dict_cache (wrapped (some true) []) "new" ("old" ∷ []) empty).0).0,
  cache_miss,
)
unfolding wrapped cache_only_active
call-sealed_example =
    call-sealed dict_cache (wrapped (some true) []) view dict_cache-IsCache "new" ("old" ∷ []) empty
      (empty-Lacks (some true) []) refl

abbrev ran_once : World
ran_once = record { store = []; runs = 1 }

ran_once-Lacks :
    Lacks dict_cache (wrapped (some false) []) view dict_cache-IsCache "new" ("old" ∷ []) ran_once
unfolding view wrapped first_hit get decoded
ran_once-Lacks = refl

abbrev beaten : World
beaten = record { store = ("new", 5) ∷ []; runs = 1 }

beaten-Holds :
    Holds dict_cache
      (wrapped (some false) (("new", 5) ∷ []))
      view
      dict_cache-IsCache
      "new"
      ("old" ∷ [])
      beaten
      4
unfolding view wrapped first_hit get str_dec
beaten-Holds = record { raw = 5; there = refl; decodes = refl }

call-first_write_example :
    ((call dict_cache (wrapped (some false) (("new", 5) ∷ [])) "new" ("old" ∷ []) empty).1
      ≡ returned 4)
    × Holds dict_cache
        (wrapped (some false) (("new", 5) ∷ []))
        view
        dict_cache-IsCache
        "new"
        ("old" ∷ [])
        (call dict_cache (wrapped (some false) (("new", 5) ∷ [])) "new" ("old" ∷ []) empty).0
        4
unfolding wrapped cache_only_active dict_cache serve get lookup lookup_accepted
call-first_write_example =
    call-first_write dict_cache (wrapped (some false) (("new", 5) ∷ [])) view dict_cache-IsCache
      "new" ("old" ∷ []) empty beaten 7 4 (empty-Lacks (some false) (("new", 5) ∷ [])) refl refl
      beaten-Holds

warm-returned : (call dict_cache (wrapped (some true) []) "new" ("old" ∷ []) warm).1 ≡ returned 3
unfolding wrapped dict_cache call serve decoded lookup lookup_accepted get put str_dec
warm-returned = refl

call-call_example :
    (call dict_cache
      (wrapped (some true) [])
      "new"
      ("old" ∷ [])
      (call dict_cache (wrapped (some true) []) "new" ("old" ∷ []) warm).0).1
    ≡ returned 3
unfolding wrapped
call-call_example =
    call-call dict_cache (wrapped (some true) []) view dict_cache-IsCache (λ w r h. refl) "new"
      ("old" ∷ []) warm 3 (λ w. (record { store = []; runs = w.runs + 1 }, some 7)) warm-returned

-- `f:0`
parse_accept_token-cache_id_example :
    parse_accept_token (cache_id (102 ∷ []) (48 ∷ [])) ≡ some (102 ∷ [], 48 ∷ [])
parse_accept_token-cache_id_example = parse_accept_token-cache_id 102 48 [] [] (refl, tt)
