-- ===== src/Tests/LogRuns.antt =====
-- emboss/_log_cache.py: the theorems on logs, the index and a prefix, at concrete records.
use emboss.Prelude.{
  ℕ, ◌≡◌, ◌<◌, ◌≤◌, is_some, refl, String, true, false, none, some, List, [], ◌∷◌, ◌++◌, arith, map,
  str_eq, if◌then◌else◌,
}
use native.Mathlib.Decide.{ℕ_discrete}
use emboss.Prelude.Dict.{get, put, str_dec}
use emboss.Log.Record.{Bytes, Py, number, Content, plain, Record}
use emboss.Log.Frame.{frame, parse_frame, write_frames}
use emboss.Log.Scan.{ScanResult, read_records, resync}
use emboss.Log.Scan.Laws.{read_records_total}
use emboss.Log.Scan.Recovery.{read_records-write_frames, read_records-append}
use emboss.Log.Scan.Locations.{Located, read_records-Located}
use emboss.Log.Scan.Resync.{resync_first}
use emboss.Log.Index.{written, deleted_token, Entry, lookup, build_index, packed_lookup, live}
use emboss.Log.Index.Merge.{latest, events, packed_winner}
use emboss.Log.Index.Lookup.{lookup-build_index}
use emboss.Log.Shard.{
  LogFile, readable, absent, Env, Shard, set_append, get_value, delete, ensure_index, serve_record,
  found, set_record,
}
use emboss.Log.Shard.OwnWrites.{get_value-delete}
use emboss.Tests.Toy.{toy, toy-IsPickle}

abbrev pub a_rec : Record Unit
a_rec = record {
  key = "a";
  value = plain (number 7);
  expire_time = none;
  store_time = 5;
  deleted = false;
  spill = none;
}

abbrev pub b_rec : Record Unit
b_rec = record {
  key = "b";
  value = plain (number 9);
  expire_time = none;
  store_time = 6;
  deleted = false;
  spill = none;
}

abbrev pub a_frame : Bytes
a_frame = 0 ∷ 0 ∷ 0 ∷ 13 ∷ 0x80 ∷ 0 ∷ 6 ∷ 1 ∷ 98 ∷ 0 ∷ 2 ∷ 7 ∷ 0 ∷ 2 ∷ 5 ∷ 3 ∷ 0 ∷ []

abbrev pub b_frame : Bytes
b_frame = 0 ∷ 0 ∷ 0 ∷ 13 ∷ 0x80 ∷ 0 ∷ 6 ∷ 1 ∷ 99 ∷ 0 ∷ 2 ∷ 9 ∷ 0 ∷ 2 ∷ 6 ∷ 3 ∷ 0 ∷ []

frame-a_rec : frame toy a_rec ≡ some a_frame
unfolding toy frame emboss.Log.Record.as_tuple
frame-a_rec = refl

write_frames-ab : write_frames toy (a_rec ∷ b_rec ∷ []) ≡ some (a_frame ++ b_frame)
unfolding toy write_frames emboss.Log.Record.as_tuple
write_frames-ab = refl

read_records_total_example : (res : ScanResult Unit) × (read_records toy (9 ∷ a_frame) ≡ some res)
read_records_total_example = read_records_total toy (9 ∷ a_frame)

read_records-write_frames_example :
    (res : ScanResult Unit) × (read_records toy (a_frame ++ b_frame) ≡ some res)
    × (res.records ≡ a_rec ∷ b_rec ∷ [])
    × (res.tear_at ≡ none)
    × (res.recovered ≡ 0)
read_records-write_frames_example =
    read_records-write_frames toy toy-IsPickle (a_rec ∷ b_rec ∷ []) (tt, (tt, tt)) write_frames-ab

-- A torn frame behind two whole ones.
read_records-append_example :
    (res : ScanResult Unit) × (read_records toy ((a_frame ++ b_frame) ++ 0 ∷ 0 ∷ 0 ∷ 13 ∷ 0x80 ∷ [])
      ≡ some res)
    × ((later : List (Record Unit)) × (res.records ≡ (a_rec ∷ b_rec ∷ []) ++ later))
read_records-append_example =
    read_records-append toy toy-IsPickle (a_rec ∷ b_rec ∷ []) (0 ∷ 0 ∷ 0 ∷ 13 ∷ 0x80 ∷ [])
      (tt, (tt, tt)) write_frames-ab

abbrev torn : Bytes
torn = 0 ∷ 0 ∷ 0 ∷ 99 ∷ 0x80 ∷ 1 ∷ a_frame

abbrev torn_scan : ScanResult Unit
torn_scan = record { records = a_rec ∷ []; spans = (6, 23) ∷ []; tear_at = some 0; recovered = 1 }

read_records-torn : read_records toy torn ≡ some torn_scan
unfolding toy read_records parse_frame resync emboss.Log.Scan.push emboss.Log.Scan.mark_tear
    emboss.Log.Frame.unpack emboss.Log.Frame.decode_blob emboss.Log.Record.record_from
read_records-torn = refl

read_records-Located_example : Located toy torn torn_scan.records torn_scan.spans
read_records-Located_example = read_records-Located toy torn read_records-torn

parse_frame-torn : is_some (parse_frame toy torn 6) ≡ true
unfolding toy parse_frame emboss.Log.Frame.unpack emboss.Log.Frame.decode_blob
    emboss.Log.Record.record_from
parse_frame-torn = refl

resync_first_example :
    (nxt : ℕ) × (resync toy torn 0 ≡ some nxt)
    × (0 < nxt)
    × (nxt ≤ 6)
    × (is_some (parse_frame toy torn nxt) ≡ true)
resync_first_example = resync_first toy torn 0 6 (omega arith) refl parse_frame-torn

abbrev digest : String → ℕ
digest key = if str_eq key "a" then 1 else 2

-- `b` is written in both logs, the later one in the second.
abbrev two_logs : List (String × ScanResult Unit)
two_logs =
    (
      "n1.log",
      record {
        records = a_rec ∷ b_rec ∷ [];
        spans = (0, 17) ∷ (17, 34) ∷ [];
        tear_at = none;
        recovered = 0;
      },
    )
    ∷ (
      "n2.log",
      record {
        records = record b_rec { store_time = 8 } ∷ [];
        spans = (0, 17) ∷ [];
        tear_at = none;
        recovered = 0;
      },
    )
    ∷ []

lookup-build_index_example :
    lookup (build_index digest 9 two_logs) 2
    ≡ packed_lookup
        (map (λ l. l.0) two_logs)
        (packed_winner 2 (latest 2 none (events digest 9 0 two_logs)))
lookup-build_index_example = lookup-build_index digest 9 two_logs 2

abbrev packed : List Entry
packed =
    record { digest = 1; log_id = 0; len = 17; offset = 0 }
    ∷ record { digest = 4; log_id = 0; len = 17; offset = 17 }
    ∷ []

abbrev pub env : Env Unit
env = record {
  pickle = toy;
  digest_of = digest;
  spill_file = λ _. absent;
  log_name = "n1.log";
  index_ttl = 30;
}

abbrev pub no_shard : Shard
no_shard = record { logs = []; index = none; sig = none; checked = none }

abbrev pub a_shard : Shard
a_shard = record {
  logs = ("n1.log", readable a_frame) ∷ [];
  index = some (record {
    logs = [];
    entries = [];
    overlay = (1, written (record { log_name = "n1.log"; offset = 0; len = 17 })) ∷ [];
  });
  sig = some (("n1.log", 17) ∷ []);
  checked = some 100;
}

abbrev a_tombstone : Bytes
a_tombstone = 0 ∷ 0 ∷ 0 ∷ 12 ∷ 0x80 ∷ 0 ∷ 6 ∷ 1 ∷ 98 ∷ 0 ∷ 0 ∷ 0 ∷ 2 ∷ 6 ∷ 4 ∷ 0 ∷ []

abbrev deleted_shard : Shard
deleted_shard = record {
  logs = ("n1.log", readable (a_frame ++ a_tombstone)) ∷ [];
  index = some (record { logs = []; entries = []; overlay = (1, deleted_token) ∷ [] });
  sig = some (("n1.log", 33) ∷ []);
  checked = some 100;
}

delete-a : delete env a_shard "a" 105 6 ≡ some (deleted_shard, true)
unfolding toy delete ensure_index lookup emboss.Log.Shard.read_verified
    emboss.Log.Shard.append_record parse_frame emboss.Log.Record.as_tuple put get str_dec ℕ_discrete
    emboss.Log.Frame.unpack emboss.Log.Frame.decode_blob emboss.Log.Record.record_from live
delete-a = refl

get_value-delete_example : get_value env deleted_shard "a" 120 9 ≡ (deleted_shard, none)
unfolding get str_dec
get_value-delete_example =
    get_value-delete env a_shard "a" 105 6 deleted_shard 120 9 a_frame toy-IsPickle refl delete-a
      (omega arith) (omega arith)
