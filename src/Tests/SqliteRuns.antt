-- ===== src/Tests/SqliteRuns.antt =====
-- emboss/_sqlite_cache.py: the theorems on `SqliteCache`, at a small concrete database.
use emboss.Prelude.{
  ℕ, zero, suc, ltb, ◌+◌, ◌*◌, ◌≤◌, ◌<◌, ◌≡◌, ◌↔◌, refl, String, true, false, Option, none, some,
  List, [], ◌∷◌, arith, length,
}
use emboss.Prelude.Dict.{put, str_dec}
use emboss.Sqlite.{
  Blob, inline, spilled, Row, Table, Db, Config, least_recently_stored, fallback, hit, find_row,
  upsert, cull_loop, cull, set, get_value, delete, expire, expiry, contains,
}
use emboss.Sqlite.Rows.{IsConsistent}
use emboss.Sqlite.Views.{iter, count_rows, occurrences, iter-count_rows}
use emboss.Prelude.{is_some, if◌then◌else◌}
use emboss.Sqlite.Limit.{cull_loop-bounded}
use emboss.Sqlite.Reads.{contains-get_value, get_value-set}
use emboss.Sqlite.Reach.{Reachable, opened, after_set, Reachable-IsConsistent, Reachable-bounded}

-- A value is a number, dumped as that many zeros.
unfoldable pub zeros : ℕ → Blob
zeros zero = []
zeros (suc n) = 0 ∷ zeros n

abbrev pub config : Config ℕ
config = record {
  size_limit = some 20;
  eviction_policy = least_recently_stored;
  min_file_size = 12;
  dumps = zeros;
  loads = λ blob. some (length blob);
}

abbrev pub unlimited : Config ℕ
unlimited = record config { size_limit = none }

abbrev pub fresh : Db
fresh = record { table = record { rows = []; size = 0; count = 0 }; store = [] }

-- The value of `a` is spilled to a file; with `b` the limit is passed, so `a` is evicted.
abbrev one_set : Db
one_set = set config fresh "a" 15 none 1 "a.val"

abbrev two_sets : Db
two_sets = set config one_set "b" 9 none 2 "b.val"

two_sets-Reachable : Reachable config two_sets
two_sets-Reachable =
    after_set one_set "b" 9 none 2 "b.val" (after_set fresh "a" 15 none 1 "a.val" opened)

two_sets-find : find_row "a" two_sets.table.rows ≡ none
unfolding zeros set find_row upsert cull put str_dec emboss.Sqlite.cull_if
    emboss.Sqlite.drop_old_spill cull_loop emboss.Prelude.Sort.sorted_by emboss.Sqlite.order_time
    emboss.Sqlite.cull_rows emboss.Sqlite.delete_row
two_sets-find = refl

Reachable-bounded_example : two_sets.table.size ≤ 20
Reachable-bounded_example = Reachable-bounded config 20 two_sets refl two_sets-Reachable

Reachable-IsConsistent_example : IsConsistent two_sets.table
Reachable-IsConsistent_example = Reachable-IsConsistent config two_sets two_sets-Reachable

pub loads-zeros : unlimited.loads (unlimited.dumps 15) ≡ some 15
unfolding zeros
loads-zeros = refl

pub not_late : (elim (expiry 1 (some 10)) [ none ↦ false | some t ↦ ltb t 11 ]) ≡ false
unfolding expiry
not_late = refl

get_value-set_example :
    (get_value unlimited (set unlimited fresh "a" 15 (some 10) 1 "a.val") "a" 11).1 ≡ hit 15
get_value-set_example =
    get_value-set unlimited fresh "a" 15 (some 10) 1 11 "a.val" refl loads-zeros not_late

contains-get_value_example :
    (contains two_sets "b" 5 ≡ false) ↔ ((get_value config two_sets "b" 5).1 ≡ fallback)
contains-get_value_example = contains-get_value config two_sets "b" 5

abbrev big : Db
big = record {
  table = record {
    rows =
        record {
          key = "a";
          store_time = 1;
          access_time = 1;
          expire_time = some 5;
          size = 15;
          stored = spilled "a.val";
        }
        ∷ [];
    size = 15;
    count = 1;
  };
  store = ("a.val", zeros 15) ∷ [];
}

big-IsConsistent : IsConsistent big.table
big-IsConsistent = record { size = refl; count = refl; unique = λ key. ground arith }

cull_loop-bounded_example : 10 * (cull_loop 2 least_recently_stored 10 15 big).table.size ≤ 9 * 10
cull_loop-bounded_example =
    cull_loop-bounded 2 least_recently_stored 10 15 big big-IsConsistent refl (omega arith)

iter-count_rows_example :
    (length (iter big) ≡ count_rows big)
    × (occurrences "a" (iter big) ≡ (if is_some (find_row "a" big.table.rows) then 1 else 0))
iter-count_rows_example = iter-count_rows big "a" big-IsConsistent
