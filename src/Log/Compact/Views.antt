-- ===== src/Log/Compact/Views.antt =====
-- emboss/_log_cache.py: what `clear` leaves, and which record of a key the full scans find.
use emboss.Prelude.{
  ℕ, ◌≡◌, ◌≢◌, refl, ◌∙◌, String, inl, inr, Option-cases, Option, none, some, List, [], ◌∷◌, arith,
  leb, if◌then◌else◌,
}
use mathlib.Core.Logic.{if_neg, ite}
use emboss.Prelude.Dict.{Dict, get, str_dec, get-put, get-remove}
use emboss.Log.Record.{Record}
use emboss.Log.Scan.{read_records}
use emboss.Log.Shard.{readable, unreadable, Env, Shard}
use emboss.Log.Compact.{note_latest, latest_records, clear_prefix, dropped}

module _ {V : Type 0} where
  -- Of two records of a key the later stored one, and the later read one on a tie.
  unfoldable pub later : Option (Record V) → Record V → Option (Record V)
  later none rec = some rec
  later (some cur) rec = if leb cur.store_time rec.store_time then some rec else some cur

  -- The record of a key that is left when all are read, none before.
  unfoldable pub latest_of : String → Option (Record V) → List (Record V) → Option (Record V)
  unfolding later
  latest_of key acc [] = acc
  latest_of key acc (rec ∷ recs) =
      latest_of key (ite (str_dec rec.key key) (later acc rec) acc) recs

  get-note_latest :
      (key : String) (d : Dict String (Record V)) (rec : Record V)
      → get str_dec key (note_latest d rec)
        ≡ ite (str_dec rec.key key) (later (get str_dec key d) rec) (get str_dec key d)
  unfolding note_latest later
  get-note_latest key d rec = ground (arith, get-put str_dec key rec.key rec d)

  -- After the collection of the latest records, the dict holds for each key the latest of
  -- what it held before and the records of that key, where ties go to the record read later.
  pub get-latest_records :
      (key : String) (d : Dict String (Record V)) (recs : List (Record V))
      → get str_dec key (latest_records d recs) ≡ latest_of key (get str_dec key d) recs
  unfolding latest_records latest_of
  get-latest_records key d [] = refl
  get-latest_records key d (rec ∷ recs) =
      rw (get-latest_records key (note_latest d rec) recs, get-note_latest key d rec) refl

module _ {V : Type 0} (env : Env V) (spill_size : String → ℕ) where
  get-dropped :
      (shard : Shard) (name : String)
      → env.log_name ≢ name
      → get str_dec name (dropped env spill_size shard).logs ≡ get str_dec name shard.logs
  unfolding dropped
  get-dropped shard name other =
      get-remove str_dec name env.log_name shard.logs
      ∙ if_neg (str_dec env.log_name name) other none (get str_dec name shard.logs)

  -- `clear` leaves every log of another name than the own one as it was, in every case of the
  -- own log: absent, unreadable or scanned.
  pub clear_prefix-peer :
      (shard : Shard) (now : ℕ) (name : String)
      → env.log_name ≢ name
      → get str_dec name (clear_prefix env spill_size shard now).0.logs
        ≡ get str_dec name shard.logs
  unfolding clear_prefix
  clear_prefix-peer shard now name other =
      elim (Option-cases (get str_dec env.log_name shard.logs)) [
        | inl absent ↦ rw (absent, clear_prefix) (get-dropped shard name other)
        | inr (unreadable size, there) ↦ rw (there, clear_prefix) refl
        | inr (readable bytes, there) ↦ elim (Option-cases (read_records env.pickle bytes)) [
          | inl lost ↦ rw (there, clear_prefix, lost) (get-dropped shard name other)
          | inr (scan, scanned) ↦ rw (there, clear_prefix, scanned) (get-dropped shard name other)
        ]
      ]
