-- ===== src/Tests/TriggerRuns.antt =====
-- emboss/_log_cache.py: a `set` into an empty prefix, and a `get` behind it.
use emboss.Prelude.{
  ℕ, ◌≡◌, ◌<◌, ◌≤◌, is_some, refl, String, true, false, Option, none, some, List, [], ◌∷◌, ◌++◌,
  arith, map, str_eq, if◌then◌else◌,
}
use emboss.Prelude.Dict.{get, put, str_dec}
use emboss.Log.Record.{Bytes, Py, number, Content, plain, Record}
use emboss.Log.Index.{build_index, live}
use emboss.Log.Shard.{
  LogFile, readable, absent, Env, Shard, set_append, get_value, delete, ensure_index, serve_record,
  found, set_record,
}
use emboss.Tests.Toy.{toy, toy-IsPickle}
use emboss.Tests.LogRuns.{env, a_shard, no_shard}
use emboss.Log.Consolidate.Spills.{copied}
use emboss.Log.Consolidate.Pass.{Prefix, Setting}
use emboss.Log.Consolidate.Trigger.{shard_of, files, flagged, rebuilds, set, get_value-set_quiet}

abbrev setting : Setting Unit
setting = record {
  env = env;
  name = "p";
  size_limit = none;
  is_conflict_log = λ name. false;
  sha256 = λ bytes. "h";
  copy_of = λ rel. copied;
  can_unlink = λ rel. true;
  written_at = 8;
  before_read = λ sources. sources;
  before_prune = λ sources. sources;
}

abbrev no_prefix : Prefix
no_prefix = record {
  sources = [];
  pool = [];
  temporaries = [];
  namespaces = [];
  legacy = [];
  index = none;
  sig = none;
  checked = none;
  needs_migration = false;
  consolidated_at = none;
}

set_append-a : set_append env no_shard "a" (number 7) none 100 5 none ≡ some (a_shard, 17)
unfolding toy set_append ensure_index set_record emboss.Log.Shard.append_record
    emboss.Log.Record.as_tuple put str_dec get build_index emboss.Prelude.Sort.sorted_by
set_append-a = refl

live-a : live (set_record {V = Unit} "a" (number 7) none 5 none) 9 ≡ true
unfolding live set_record
live-a = refl

serve_record-a : serve_record env (set_record "a" (number 7) none 5 none) ≡ found (number 7)
unfolding serve_record set_record
serve_record-a = refl

no_prefix-flagged : flagged setting no_prefix 100 ≡ false
unfolding flagged rebuilds get
no_prefix-flagged = refl

get_value-set_quiet_example :
    (after : Prefix) × (set setting 4096 60 no_prefix "a" (number 7) none 100 5 none 101 6
      ≡ some after)
    × (get_value env (shard_of after) "a" 120 9 ≡ (shard_of after, some (number 7)))
unfolding shard_of files get
get_value-set_quiet_example =
    get_value-set_quiet setting 4096 60 no_prefix "a" (number 7) none 100 5 none 101 6 120 9 a_shard
      17 [] toy-IsPickle refl set_append-a (omega arith) (rw no_prefix-flagged refl) live-a
      serve_record-a (omega arith) (omega arith)
