-- ===== src/Tests/RouteRuns.antt =====
-- emboss/_fanout_cache.py, emboss/_transfer.py: the theorems at two shards and at two small dicts.
use emboss.Prelude.{
  ℕ, ◌+◌, ◌≡◌, ◌⊎◌, refl, String, true, some, List, [], ◌∷◌, arith, All, str_eq, if◌then◌else◌,
}
use emboss.Sqlite.{Db, hit}
use emboss.Fanout.{set, get_value}
use emboss.Fanout.Routes.{get_value-fanout_set}
use emboss.Transfer.{start, copy_keys, transfer}
use emboss.Transfer.Copied.{transfer-clear}
use emboss.Tests.SqliteRuns.{unlimited, fresh, loads-zeros, not_late}
use emboss.Tests.CachedRuns.{World, dict_cache, view, dict_cache-IsCache}

abbrev digest : String → ℕ
digest key = if str_eq key "a" then 4 else 7

abbrev two_shards : List Db
two_shards = fresh ∷ fresh ∷ []

get_value-fanout_set_example :
    (get_value unlimited digest
      (set unlimited digest two_shards "b" 15 (some 10) 1 "b.val")
      "b"
      11).1
    ≡ hit 15
get_value-fanout_set_example =
    get_value-fanout_set unlimited digest two_shards "b" 15 (some 10) 1 11 "b.val" (omega arith)
      refl loads-zeros not_late

abbrev full : World
full = record { store = ("a", 1) ∷ ("b", 2) ∷ []; runs = 0 }

abbrev target : World
target = record { store = ("b", 5) ∷ []; runs = 0 }

abbrev emptied : World → World
emptied w = record w { store = [] }

transfer-clear_example :
    let done = copy_keys dict_cache dict_cache ("a" ∷ "b" ∷ []) (start full target) in
    let out = transfer dict_cache dict_cache ("a" ∷ "b" ∷ []) emptied true full target in
    (out.count + out.skipped ≡ 2)
    × ((out ≡ done)
        ⊎ ((out ≡ record done { source = emptied done.source })
            × (out.count ≡ 2)
            × All (λ key. view out.destination key ≡ view full key) ("a" ∷ "b" ∷ [])))
transfer-clear_example =
    transfer-clear dict_cache dict_cache view view dict_cache-IsCache dict_cache-IsCache
      ("a" ∷ "b" ∷ []) emptied true full target
