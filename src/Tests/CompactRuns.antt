-- ===== src/Tests/CompactRuns.antt =====
-- emboss/_log_cache.py: the theorems on compaction and on the full scans, at a log of two frames.
use emboss.Prelude.{
  ℕ, ◌+◌, ◌≤◌, ◌≡◌, ◌≢◌, refl, sym, ◌∙◌, eq_iff, str_eq, String, true, false, Option, none, some,
  List, [], ◌∷◌, ◌++◌, arith, length, sum_by,
}
use mathlib.Core.Bool.{true≢false}
use emboss.Prelude.Dict.{get, put, str_dec}
use emboss.Log.Record.{Bytes, Record}
use emboss.Log.Scan.{ScanResult, read_records, resync}
use emboss.Log.Frame.{parse_frame}
use emboss.Log.Shard.{readable, unreadable, Shard}
use emboss.Log.Compact.{kept, compact_prefix, rec_size, trim_to_limit, latest_records, clear_prefix}
use emboss.Log.Compact.Rewrite.{compact_prefix-kept}
use emboss.Log.Compact.Limit.{trim_to_limit-le}
use emboss.Log.Compact.Views.{latest_of, get-latest_records, clear_prefix-peer}
use emboss.Tests.Toy.{toy, toy-IsPickle}
use emboss.Tests.LogRuns.{a_rec, b_rec, a_frame, b_frame, env}

-- The second frame of `a` replaces the first.
abbrev twice : Shard
twice = record {
  logs = ("n1.log", readable (a_frame ++ b_frame ++ a_frame)) ∷ ("n2.log", unreadable 40) ∷ [];
  index = none;
  sig = none;
  checked = none;
}

abbrev once : Shard
once = record {
  logs = ("n1.log", readable (a_frame ++ b_frame)) ∷ ("n2.log", unreadable 40) ∷ [];
  index = none;
  sig = none;
  checked = none;
}

abbrev twice_scan : ScanResult Unit
twice_scan = record {
  records = a_rec ∷ b_rec ∷ a_rec ∷ [];
  spans = (0, 17) ∷ (17, 34) ∷ (34, 51) ∷ [];
  tear_at = none;
  recovered = 0;
}

twice-own : get str_dec "n1.log" twice.logs ≡ some (readable (a_frame ++ b_frame ++ a_frame))
unfolding get str_dec
twice-own = refl

read_records-twice : read_records toy (a_frame ++ b_frame ++ a_frame) ≡ some twice_scan
unfolding toy read_records parse_frame resync emboss.Log.Scan.push emboss.Log.Scan.mark_tear
    emboss.Log.Frame.unpack emboss.Log.Frame.decode_blob emboss.Log.Record.record_from
read_records-twice = refl

compact_prefix-twice : compact_prefix env (λ _. 0) none twice 9 ≡ some once
unfolding compact_prefix kept toy read_records parse_frame resync get put str_dec latest_records
    emboss.Log.Compact.live_values emboss.Log.Index.live emboss.Prelude.Sort.sorted_by
    emboss.Log.Frame.write_frames emboss.Log.Record.as_tuple emboss.Log.Scan.push
    emboss.Log.Scan.mark_tear emboss.Log.Frame.unpack emboss.Log.Frame.decode_blob
    emboss.Log.Record.record_from
compact_prefix-twice = refl

compact_prefix-kept_example :
    (out : Bytes) × (res : ScanResult Unit) × (get str_dec "n1.log" once.logs ≡ some (readable out))
    × (read_records toy out ≡ some res)
    × (res.records ≡ kept env (λ _. 0) none 9 twice_scan.records)
    × (res.tear_at ≡ none)
compact_prefix-kept_example =
    compact_prefix-kept env (λ _. 0) none twice 9 once (a_frame ++ b_frame ++ a_frame) twice_scan
      toy-IsPickle twice-own read_records-twice compact_prefix-twice

trim_to_limit-le_example :
    sum_by (rec_size env (λ _. 0)) (trim_to_limit env (λ _. 0) 5 (a_rec ∷ b_rec ∷ [])) ≤ 5
trim_to_limit-le_example = trim_to_limit-le env (λ _. 0) 5 (a_rec ∷ b_rec ∷ [])

get-latest_records_example :
    get str_dec "a" (latest_records [] (a_rec ∷ b_rec ∷ a_rec ∷ []))
    ≡ latest_of "a" (get str_dec "a" []) (a_rec ∷ b_rec ∷ a_rec ∷ [])
get-latest_records_example = get-latest_records "a" [] (a_rec ∷ b_rec ∷ a_rec ∷ [])

apart : (a b : String) → str_eq a b ≡ false → a ≢ b
apart a b ne e = absurd (true≢false (sym ((eq_iff a b).1 e) ∙ ne))

clear_prefix-peer_example :
    get str_dec "n2.log" (clear_prefix env (λ _. 0) twice 9).0.logs
    ≡ get str_dec "n2.log" twice.logs
clear_prefix-peer_example =
    clear_prefix-peer env (λ _. 0) twice 9 "n2.log" (apart "n1.log" "n2.log" refl)
