-- ===== src/Log/Consolidate/Pass/Carried.antt =====
-- emboss/_log_cache.py: what the records of all scans have in common, through a pass.
use emboss.Prelude.{
  ℕ, ◌+◌, ◌≡◌, refl, inl, inr, String, Bool-cases, Option-cases, Option, none, some, List, [], ◌∷◌,
  map, sum_by, All, All-keep_if, ltb, leb, ◌||◌, str_eq, includes, arith,
}
use mathlib.Core.Path.{subst}
use mathlib.Core.Option.{some-injective}
use mathlib.Core.Logic.{if_pos, if_neg}
use emboss.Prelude.Dict.{Dict, get, put, str_dec}
use emboss.Prelude.Sort.{sorted_by-All}
use emboss.Log.Record.{Bytes, Record, Pickle}
use emboss.Log.Scan.{ScanResult, read_records}
use emboss.Log.Index.{live}
use emboss.Log.Shard.{LogFile, readable, unreadable, by_name}
use emboss.Log.Consolidate.{
  Source, Kept, note_kept, note_records, read_source, collect, collect_live_across_logs,
  insert_newest_pair, newest_pairs, trim_pairs_from, trim_pairs, ours,
}

put-All :
    {A : Type 0} (P : A → Type 0) (key : String) (a : A) (d : Dict String A)
    → P a
    → All (λ (item : String × A). P item.1) d
    → All (λ (item : String × A). P item.1) (put str_dec key a d)
unfolding put
put-All P key a [] h k = (h, tt)
put-All P key a ((j, b) ∷ d) h k = elim (str_dec j key) [
  | yes same ↦ rw (if_pos _ same) (h, k.1)
  | no other ↦ rw (if_neg _ other) (k.0, put-All P key a d h k.1)
]

values-All :
    {A : Type 0} (P : A → Type 0) (d : Dict String A)
    → All (λ (item : String × A). P item.1) d
    → All P (map (λ item. item.1) d)
values-All P [] h = tt
values-All P (item ∷ d) h = (h.0, values-All P d h.1)

module _ {V : Type 0} (P : Record V → Type 0) where
  abbrev pub AllKept : List (Kept V) → Type 0
  AllKept pairs = All (λ (pair : Kept V). P pair.0) pairs

  abbrev AllLatest : Dict String (Kept V) → Type 0
  AllLatest d = All (λ (item : String × Kept V). P item.1.0) d

  note_kept-All :
      (name : String) (d : Dict String (Kept V)) (rec : Record V)
      → P rec
      → AllLatest d
      → AllLatest (note_kept name d rec)
  unfolding note_kept
  note_kept-All name d rec h k = elim (Option-cases (get str_dec rec.key d)) [
    | inl absent ↦
        rw (absent, note_kept) (put-All (λ (q : Kept V). P q.0) rec.key (rec, name) d h k)
    | inr (cur, there) ↦ elim (Bool-cases (leb cur.0.store_time rec.store_time)) [
      | inl newer ↦
          rw (there, note_kept, newer) (put-All (λ (q : Kept V). P q.0) rec.key (rec, name) d h k)
      | inr older ↦ rw (there, note_kept, older) k
    ]
  ]

  note_records-All :
      (name : String) (d : Dict String (Kept V)) (recs : List (Record V))
      → All P recs
      → AllLatest d
      → AllLatest (note_records name d recs)
  unfolding note_records
  note_records-All name d [] h k = k
  note_records-All name d (rec ∷ recs) h k =
      note_records-All name (note_kept name d rec) recs h.1 (note_kept-All name d rec h.0 k)

  module _ (p : Pickle V)
      (scanned : (log : Bytes) (res : ScanResult V)
        → read_records p log ≡ some res
        → All P res.records) where
    read_file-All :
        (src : Source) (file : LogFile) (recs : List (Record V))
        → src.file ≡ file
        → read_source p (some src) ≡ some recs
        → All P recs
    unfolding read_source
    read_file-All src (unreadable size) recs e h = absurd (ground (arith, e, h))
    read_file-All src (readable bytes) recs e h = elim (Option-cases (read_records p bytes)) [
      | inl lost ↦ absurd (ground (arith, e, lost, h))
      | inr (res, read) ↦
          subst (All P) (some-injective _ _ (rw (read_source, e, read) at h))
            (scanned bytes res read)
    ]

    read_source-All :
        (o : Option Source) (recs : List (Record V)) → read_source p o ≡ some recs → All P recs
    unfolding read_source
    read_source-All none recs h = absurd (ground (arith, h))
    read_source-All (some src) recs h = read_file-All src src.file recs refl h

    collect-All :
        (files : Dict String Source) (seen : List (String × (ℕ × ℕ))) (d : Dict String (Kept V))
        → AllLatest d
        → AllLatest (collect p files seen d).0
    unfolding collect
    collect-All files [] d h = h
    collect-All files ((name, id) ∷ seen) d h =
        elim (Option-cases (read_source p (get str_dec name files))) [
          | inl lost ↦ rw (collect, lost) (collect-All files seen d h)
          | inr (recs, read) ↦
              rw (collect, read)
                (collect-All files seen (note_records name d recs)
                  (note_records-All name d recs (read_source-All _ recs read) h))
        ]

    pub collect_live-All :
        (files : Dict String Source) (seen : Dict String (ℕ × ℕ)) (now : ℕ)
        → AllKept (collect_live_across_logs p files seen now).0
    unfolding collect_live_across_logs
    collect_live-All files seen now =
        sorted_by-All (λ (pair : Kept V). pair.0.store_time) (λ (pair : Kept V). P pair.0) _
          (All-keep_if (λ (pair : Kept V). P pair.0) (λ (pair : Kept V). live pair.0 now) _
            (values-All (λ (pair : Kept V). P pair.0) _ (collect-All files (by_name seen) [] tt)))

  module _ (rec_size : Record V → ℕ) where
    insert_newest_pair-All :
        (pair : Kept V) (qs : List (Kept V))
        → P pair.0
        → AllKept qs
        → AllKept (insert_newest_pair rec_size pair qs)
    unfolding insert_newest_pair
    insert_newest_pair-All pair [] h k = (h, tt)
    insert_newest_pair-All pair (q ∷ qs) h k =
        elim (Bool-cases (ltb q.0.store_time pair.0.store_time)) [
          | inl newer ↦ rw newer (h, k)
          | inr older ↦ rw older (k.0, insert_newest_pair-All pair qs h k.1)
        ]

    newest_pairs-All :
        (acc pairs : List (Kept V))
        → AllKept acc
        → AllKept pairs
        → AllKept (newest_pairs rec_size acc pairs)
    unfolding newest_pairs
    newest_pairs-All acc [] h k = h
    newest_pairs-All acc (pair ∷ pairs) h k =
        newest_pairs-All (insert_newest_pair rec_size pair acc) pairs
          (insert_newest_pair-All pair acc k.0 h) k.1

    trim_pairs_from-All :
        (limit running : ℕ) (pairs : List (Kept V))
        → AllKept pairs
        → AllKept (trim_pairs_from rec_size limit running pairs)
    unfolding trim_pairs_from
    trim_pairs_from-All limit running [] h = tt
    trim_pairs_from-All limit running (pair ∷ pairs) h =
        elim (Bool-cases (ltb limit (running + rec_size pair.0))) [
          | inl over ↦ rw over tt
          | inr fits ↦
              rw fits (h.0, trim_pairs_from-All limit (running + rec_size pair.0) pairs h.1)
        ]

    trim_pairs-All :
        (limit : Option ℕ) (pairs : List (Kept V))
        → AllKept pairs
        → AllKept (trim_pairs rec_size limit pairs)
    unfolding trim_pairs
    trim_pairs-All none pairs h = h
    trim_pairs-All (some limit) pairs h =
        elim (Bool-cases (leb (sum_by (λ (pair : Kept V). rec_size pair.0) pairs) limit)) [
          | inl fits ↦ rw fits h
          | inr over ↦ rw over (
              trim_pairs_from-All limit 0 (newest_pairs rec_size [] pairs)
                (newest_pairs-All [] pairs tt h))
        ]

    pub ours-All :
        (limit : Option ℕ) (target : String) (prune_logs : List String) (keep : List (Kept V))
        → AllKept keep
        → AllKept (ours rec_size limit target prune_logs keep)
    unfolding ours
    ours-All limit target prune_logs keep h =
        sorted_by-All (λ (pair : Kept V). pair.0.store_time) (λ (pair : Kept V). P pair.0) _
          (trim_pairs-All limit _ (
            All-keep_if (λ (pair : Kept V). P pair.0)
              (λ (pair : Kept V). str_eq pair.1 target || includes prune_logs pair.1) keep h))
