-- ===== src/Log/Compact/Kept.antt =====
-- emboss/_log_cache.py: properties of all records of a scan, and those that a compaction keeps.
use emboss.Prelude.{
  ℕ, ◌+◌, String, Bool, true, false, inl, inr, Bool-cases, Option-cases, Option, none, some, List,
  [], ◌∷◌, All, sum_by, ltb, leb,
}
use mathlib.Core.Logic.{if_pos, if_neg}
use emboss.Prelude.Dict.{Dict, get, put, str_dec}
use emboss.Prelude.Sort.{sorted_by-All}
use emboss.Log.Record.{Record}
use emboss.Log.Index.{live}
use emboss.Log.Shard.{Env}
use emboss.Log.Compact.{
  note_latest, latest_records, live_values, newest_first, insert_newest, rec_size, trim_from,
  trim_to_limit, trim_if, kept,
}

-- What holds of every record holds of the ones kept.
module _ {κ} {V : Type 0} (P : Record V → Type κ) where
  abbrev AllItems : Dict String (Record V) → Type κ
  AllItems d = All (λ item. P item.1) d

  put-All :
      (key : String) (rec : Record V) (d : Dict String (Record V))
      → P rec
      → AllItems d
      → AllItems (put str_dec key rec d)
  unfolding put
  put-All key rec [] h k = (h, tt)
  put-All key rec ((j, r) ∷ d) h k = elim (str_dec j key) [
    | yes same ↦ rw (if_pos _ same) (h, k.1)
    | no other ↦ rw (if_neg _ other) (k.0, put-All key rec d h k.1)
  ]

  note_latest-All :
      (d : Dict String (Record V)) (rec : Record V)
      → P rec
      → AllItems d
      → AllItems (note_latest d rec)
  unfolding note_latest
  note_latest-All d rec h k = elim (Option-cases (get str_dec rec.key d)) [
    | inl absent ↦ rw (absent, note_latest) (put-All rec.key rec d h k)
    | inr (cur, there) ↦ elim (Bool-cases (leb cur.store_time rec.store_time)) [
      | inl newer ↦ rw (there, note_latest, newer) (put-All rec.key rec d h k)
      | inr older ↦ rw (there, note_latest, older) k
    ]
  ]

  latest_records-All :
      (d : Dict String (Record V)) (recs : List (Record V))
      → All P recs
      → AllItems d
      → AllItems (latest_records d recs)
  unfolding latest_records
  latest_records-All d [] h k = k
  latest_records-All d (rec ∷ recs) h k =
      latest_records-All (note_latest d rec) recs h.1 (note_latest-All d rec h.0 k)

  All-kept_one :
      (b : Bool) (rec : Record V) (rest : List (Record V))
      → P rec
      → All P rest
      → All P (elim b [ true ↦ rec ∷ rest | false ↦ rest ])
  All-kept_one true rec rest h k = (h, k)
  All-kept_one false rec rest h k = k

  live_values-All : (d : Dict String (Record V)) (now : ℕ) → AllItems d → All P (live_values d now)
  unfolding live_values
  live_values-All [] now k = tt
  live_values-All ((key, rec) ∷ d) now k =
      All-kept_one (live rec now) rec (live_values d now) k.0 (live_values-All d now k.1)

  insert_newest-All :
      (rec : Record V) (recs : List (Record V))
      → P rec
      → All P recs
      → All P (insert_newest rec recs)
  unfolding insert_newest
  insert_newest-All rec [] h k = (h, tt)
  insert_newest-All rec (r ∷ recs) h k = elim (Bool-cases (ltb r.store_time rec.store_time)) [
    | inl newer ↦ rw newer (h, k)
    | inr older ↦ rw older (k.0, insert_newest-All rec recs h k.1)
  ]

  newest_first-All :
      (acc recs : List (Record V)) → All P acc → All P recs → All P (newest_first acc recs)
  unfolding newest_first
  newest_first-All acc [] h k = h
  newest_first-All acc (rec ∷ recs) h k =
      newest_first-All (insert_newest rec acc) recs (insert_newest-All rec acc k.0 h) k.1

  module _ (env : Env V) (spill_size : String → ℕ) where
    trim_from-All :
        (limit running : ℕ) (recs : List (Record V))
        → All P recs
        → All P (trim_from env spill_size limit running recs)
    unfolding trim_from
    trim_from-All limit running [] h = tt
    trim_from-All limit running (rec ∷ recs) h =
        elim (Bool-cases (ltb limit (running + rec_size env spill_size rec))) [
          | inl over ↦ rw over tt
          | inr fits ↦
              rw fits (h.0, trim_from-All limit (running + rec_size env spill_size rec) recs h.1)
        ]

    trim_to_limit-All :
        (limit : ℕ) (recs : List (Record V))
        → All P recs
        → All P (trim_to_limit env spill_size limit recs)
    unfolding trim_to_limit
    trim_to_limit-All limit recs h =
        elim (Bool-cases (leb (sum_by (rec_size env spill_size) recs) limit)) [
          | inl fits ↦ rw fits h
          | inr over ↦
              rw over (trim_from-All limit 0 (newest_first [] recs) (newest_first-All [] recs tt h))
        ]

    trim_if-All :
        (limit : Option ℕ) (recs : List (Record V))
        → All P recs
        → All P (trim_if env spill_size limit recs)
    unfolding trim_if
    trim_if-All none recs h = h
    trim_if-All (some limit) recs h = trim_to_limit-All limit recs h

    pub kept-All :
        (limit : Option ℕ) (now : ℕ) (recs : List (Record V))
        → All P recs
        → All P (kept env spill_size limit now recs)
    unfolding kept
    kept-All limit now recs h =
        sorted_by-All (λ rec. rec.store_time) P _
          (trim_if-All limit _ (live_values-All _ now (latest_records-All [] recs h tt)))
