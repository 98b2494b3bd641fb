-- ===== src/Log/Index/Lookup.antt =====
-- emboss/_log_cache.py: `_PackedIndex.lookup` in an index that `_ensure_index` has just built.
use emboss.Prelude.{
  ℕ, ◌+◌, ◌≡◌, String, Bool-cases, Option-cases, inl, inr, none, List, [], ◌∷◌, arith, map, ltb,
}
use native.Mathlib.Decide.{ℕ_discrete}
use emboss.Prelude.Dict.{Dict, get}
use emboss.Log.Record.{Record}
use emboss.Log.Scan.{ScanResult}
use emboss.Log.Index.{
  Merged, merge_record, merge_log, merge_logs, pack_entries, build_index, lookup, packed_lookup,
}
use emboss.Log.Index.Search.{bisect-find_entry}
use emboss.Log.Index.Merge.{
  latest, events, get-merge_logs, packed_winner, pack_entries-IsPacked, find_entry-pack_entries,
  IsDistinct, put-IsDistinct,
}

module _ {V : Type 0} (digest_of : String → ℕ) (now : ℕ) where
  merge_record-IsDistinct :
      (m : Dict ℕ Merged) (log_id : ℕ) (rec : Record V) (start end : ℕ)
      → IsDistinct m
      → IsDistinct (merge_record digest_of now m log_id rec start end)
  unfolding merge_record
  merge_record-IsDistinct m log_id rec start end h =
      elim (Option-cases (get ℕ_discrete (digest_of rec.key) m)) [
        | inl absent ↦ rw (absent, merge_record) (put-IsDistinct (digest_of rec.key) _ m h)
        | inr (prev, e) ↦ elim (Bool-cases (ltb rec.store_time prev.store_time)) [
          | inl older ↦ rw (e, older, merge_record) h
          | inr newer ↦ rw (e, newer, merge_record) (put-IsDistinct (digest_of rec.key) _ m h)
        ]
      ]

  merge_log-IsDistinct :
      (m : Dict ℕ Merged) (log_id : ℕ) (recs : List (Record V)) (spans : List (ℕ × ℕ))
      → IsDistinct m
      → IsDistinct (merge_log digest_of now m log_id recs spans)
  unfolding merge_log
  merge_log-IsDistinct m log_id [] spans h = h
  merge_log-IsDistinct m log_id (rec ∷ recs) [] h = h
  merge_log-IsDistinct m log_id (rec ∷ recs) ((start, end) ∷ spans) h =
      merge_log-IsDistinct (merge_record digest_of now m log_id rec start end) log_id recs spans
        (merge_record-IsDistinct m log_id rec start end h)

  merge_logs-IsDistinct :
      (m : Dict ℕ Merged) (log_id : ℕ) (logs : List (String × ScanResult V))
      → IsDistinct m
      → IsDistinct (merge_logs digest_of now m log_id logs)
  unfolding merge_logs
  merge_logs-IsDistinct m log_id [] h = h
  merge_logs-IsDistinct m log_id ((name, scan) ∷ logs) h =
      merge_logs-IsDistinct (merge_log digest_of now m log_id scan.records scan.spans) (log_id + 1)
        logs (merge_log-IsDistinct m log_id scan.records scan.spans h)

  -- For all scanned logs and every digest, a lookup in the index built from them (merged,
  -- sorted, packed and searched by bisection) answers the location of the latest event of
  -- that digest over all logs, where ties go to the event read later, if that event is live,
  -- and none if there is no event of the digest or the latest is not live.
  pub lookup-build_index :
      (logs : List (String × ScanResult V)) (digest : ℕ)
      → lookup (build_index digest_of now logs) digest
        ≡ packed_lookup
            (map (λ l. l.0) logs)
            (packed_winner digest (latest digest none (events digest_of now 0 logs)))
  unfolding lookup build_index get
  lookup-build_index logs digest =
      let m = merge_logs digest_of now [] 0 logs in
      let distinct = merge_logs-IsDistinct [] 0 logs (λ d. omega arith) in
      rw (
        bisect-find_entry (pack_entries m) digest (pack_entries-IsPacked m distinct),
        find_entry-pack_entries digest m distinct,
        get-merge_logs digest_of now digest [] 0 logs,
      )
