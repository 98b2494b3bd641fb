-- ===== src/Log/Shard/OwnWrites.antt =====
-- emboss/_log_cache.py: what `get` answers after `set` and `delete` of the same process.
use emboss.Prelude.{
  ℕ, ◌+◌, ◌-◌, ◌<◌, ◌≡◌, refl, sym, ◌∙◌, ◌⊎◌, String, true, false, inl, inr, Bool-cases,
  Option-cases, Option, none, some, [], ◌++◌, arith, length, slice, lt→ltb, take-length,
  drop-append, length-append, append-nil, eq_refl, ap, take, ◌==◌, if◌then◌else◌,
}
use native.Mathlib.Decide.{ℕ_discrete}
use native.Mathlib.Nat.{zero-add}
use mathlib.Core.Path.{subst}
use mathlib.Core.Option.{some-injective}
use emboss.Prelude.Dict.{Dict, get, put, get-put_self, str_dec}
use emboss.Log.Record.{Bytes, Py, Record, IsPickle}
use emboss.Log.Frame.{frame, parse_frame}
use emboss.Log.Frame.Laws.{Carried, parse_frame-frame}
use emboss.Log.Index.{PackedIndex, lookup, live}
use emboss.Log.Shard.{
  LogFile, readable, unreadable, Env, Shard, Outcome, found, missing, ensure_index, read_verified,
  serve_record, serve_at, shard_get, get_value, append, fold_own_append, append_record, set_record,
  set_append, delete, rebuild, tombstone, last_check, appended, log_size, read_at, own_slot,
}

-- The bytes that an append adds to: of an absent log none, of an unreadable one nothing is known.
abbrev pub own_bytes : Option LogFile → Option Bytes
own_bytes none = some []
own_bytes (some (readable bytes)) = some bytes
own_bytes (some (unreadable size)) = none

nat_refl : (n : ℕ) → (n == n) ≡ true
nat_refl n = ground arith

take_all : (bs : Bytes) → take (length bs) bs ≡ bs
take_all bs = rw append-nil at (take-length (length bs) bs [] refl)

module _ {V : Type 0} (env : Env V) where
  -- What an append leaves behind.
  record Appended (shard after : Shard) (rec : Record V) (old bs : Bytes) : Type 0 where
    framed : frame env.pickle rec ≡ some bs
    log : get str_dec env.log_name after.logs ≡ some (readable (old ++ bs))
    index : after.index ≡ fold_own_append env shard.index rec (length old) (length bs)
    checked : after.checked ≡ shard.checked

  appended_own :
      (file : Option LogFile) (old bs : Bytes)
      → own_bytes file ≡ some old
      → appended file bs ≡ readable (old ++ bs)
  unfolding appended
  appended_own none old bs own = ground arith
  appended_own (some (readable bytes)) old bs own = ground arith
  appended_own (some (unreadable size)) old bs own = cc

  append_own :
      (logs : Dict String LogFile) (rec : Record V) (old bs : Bytes)
      → frame env.pickle rec ≡ some bs
      → own_bytes (get str_dec env.log_name logs) ≡ some old
      → append env logs rec
        ≡ some (
          put str_dec env.log_name (readable (old ++ bs)) logs,
          length old,
          length old + length bs,
        )
  unfolding append log_size
  append_own logs rec old bs framed own =
      let size : length (old ++ bs) ≡ length old + length bs = length-append old bs in
      let start : length old + length bs - length bs ≡ length old = omega arith in
      rw (framed, append, appended_own _ old bs own, size, start)

  append_record_parts :
      (shard : Shard) (rec : Record V) {after : Shard} {size : ℕ} (old : Bytes)
      → append_record env shard rec ≡ some (after, size)
      → own_bytes (get str_dec env.log_name shard.logs) ≡ some old
      → (bs : Bytes) × Appended shard after rec old bs
  unfolding append_record
  append_record_parts shard rec {after} {size} old h own =
      elim (Option-cases (frame env.pickle rec)) [
        | inl over ↦ absurd (unfold append in ground arith)
        | inr (bs, framed) ↦
            let len : length old + length bs - length old ≡ length bs = omega arith in
            let same =
              some-injective _ _
                (rw (append_own shard.logs rec old bs framed own, append_record, len) at h) in
            let e : ◌≡◌ {A = Shard} _ after = ap (λ (x : Shard × ℕ). x.0) same in
            (
              bs,
              record {
                framed = framed;
                log =
                    subst
                      (λ (s : Shard). get str_dec env.log_name s.logs ≡ some (readable (old ++ bs)))
                      e (get-put_self str_dec env.log_name _ shard.logs);
                index = sym (ap (λ (s : Shard). s.index) e);
                checked = sym (ap (λ (s : Shard). s.checked) e);
              },
            )
      ]

  -- Reading the bytes that were just appended gives the record.
  read_verified-Appended :
      (shard after : Shard) (rec : Record V) (old bs : Bytes)
      → IsPickle env.pickle
      → Carried env.pickle rec
      → Appended shard after rec old bs
      → read_verified env after rec.key
          (record { log_name = env.log_name; offset = length old; len = length bs })
        ≡ some rec
  unfolding read_verified read_at
  read_verified-Appended shard after rec old bs laws carried a =
      let e : length old + length bs - length old ≡ length bs = omega arith in
      let parsed : parse_frame env.pickle bs 0 ≡ some (rec, length bs) =
        rw (append-nil, zero-add) at
          (parse_frame-frame env.pickle laws rec [] bs [] 0 carried a.framed refl) in
      let here : slice (old ++ bs) (length old) (length old + length bs) ≡ bs =
        rw (drop-append old bs (length old) 0 (omega arith), e) (take_all bs) in
      rw (a.log, read_verified, here, parsed, nat_refl (length bs), eq_refl)

  ensure_index-index :
      (shard : Shard) (mono now : ℕ)
      → (index : PackedIndex) × ((ensure_index env shard mono now).0.index ≡ some index)
  unfolding ensure_index rebuild
  ensure_index-index shard mono now = ((ensure_index env shard mono now).1, ground arith)

  logs-ensure_index :
      (shard : Shard) (mono now : ℕ) → (ensure_index env shard mono now).0.logs ≡ shard.logs
  unfolding ensure_index rebuild
  logs-ensure_index shard mono now = ground arith

  -- Within `index_ttl` of the last check the index in memory is used as it is.
  ensure_index_fresh :
      (shard : Shard) (mono now : ℕ) {index : PackedIndex}
      → shard.index ≡ some index
      → 0 < env.index_ttl
      → mono - last_check shard.checked < env.index_ttl
      → ensure_index env shard mono now ≡ (shard, index)
  unfolding ensure_index
  ensure_index_fresh shard mono now e ttl soon = rw (e, lt→ltb _ _ ttl, lt→ltb _ _ soon)

  -- Reading at a location that holds a live record of the key serves it.
  serve_at-Appended :
      (shard after : Shard) (rec : Record V) (old bs : Bytes) (now : ℕ)
      → IsPickle env.pickle
      → Carried env.pickle rec
      → Appended shard after rec old bs
      → live rec now ≡ true
      → serve_at env after rec.key now
          (some (record { log_name = env.log_name; offset = length old; len = length bs }))
        ≡ serve_record env rec
  unfolding serve_at
  serve_at-Appended shard after rec old bs now laws carried a alive =
      rw (read_verified-Appended shard after rec old bs laws carried a, serve_at, alive)

  -- What a fold leaves in the index for the digest of its record.
  lookup-fold_own_append :
      (index : PackedIndex) (rec : Record V) (offset len : ℕ)
      → (index' : PackedIndex) × (fold_own_append env (some index) rec offset len ≡ some index')
        × (lookup index' (env.digest_of rec.key) ≡ (
            if rec.deleted
            then none
            else some (record { log_name = env.log_name; offset = offset; len = len })))
  unfolding fold_own_append lookup own_slot
  lookup-fold_own_append index rec offset len = elim (Bool-cases rec.deleted) [
    | inl deleted ↦ (
      _,
      refl,
      rw (
        get-put_self ℕ_discrete (env.digest_of rec.key) (own_slot env rec offset len) index.overlay,
        lookup,
        deleted,
      ),
    )
    | inr kept ↦ (
      _,
      refl,
      rw (
        get-put_self ℕ_discrete (env.digest_of rec.key) (own_slot env rec offset len) index.overlay,
        lookup,
        kept,
      ),
    )
  ]

  delete_appended :
      (shard : Shard) (key : String) (mono now : ℕ) {after : Shard}
      → delete env shard key mono now ≡ some (after, true)
      → (size : ℕ) × (append_record env (ensure_index env shard mono now).0 (tombstone key now)
          ≡ some (after, size))
  unfolding delete
  delete_appended shard key mono now {after} done =
      elim (Option-cases
        (append_record env (ensure_index env shard mono now).0 (tombstone key now))) [
          | inl over ↦ absurd (ground arith)
          | inr ((s2, size), e) ↦ (size, ground arith)
        ]

  -- A `get` soon after an append, by the location that the fold left.
  module _ (shard after : Shard) (rec : Record V) (old bs : Bytes) (mono now : ℕ)
      (laws : IsPickle env.pickle) (carried : Carried env.pickle rec) {index : PackedIndex}
      (there : shard.index ≡ some index) (a : Appended shard after rec old bs)
      (ttl : 0 < env.index_ttl) (soon : mono - last_check after.checked < env.index_ttl) where
    shard_get-Appended :
        (outcome : Outcome V)
        → ((rec.deleted ≡ true) × (outcome ≡ missing))
          ⊎ ((live rec now ≡ true) × (serve_record env rec ≡ outcome))
        → shard_get env after rec.key mono now ≡ (after, outcome)
    unfolding shard_get
    shard_get-Appended outcome what =
        let (index', folded, located) = lookup-fold_own_append index rec (length old) (length bs) in
        let held : after.index ≡ some index' = a.index ∙ rw there folded in
        rw (ensure_index_fresh after mono now held ttl soon, located)
          (elim what [
            | inl (deleted, e) ↦ rw (deleted, e) (unfold serve_at in refl)
            | inr (alive, e) ↦
                let kept : rec.deleted ≡ false = unfold live in ground arith in
                rw (kept, serve_at-Appended shard after rec old bs now laws carried a alive, e)
          ])

    get_value_found :
        (value : Py V)
        → live rec now ≡ true
        → serve_record env rec ≡ found value
        → get_value env after rec.key mono now ≡ (after, some value)
    unfolding get_value
    get_value_found value alive served =
        let e = shard_get-Appended (found value) (inr (alive, served)) in
        let answer : Shard × Outcome V → Shard × Option (Py V) = λ x. (x.0, some value) in
        rw (e, get_value) (ap answer e)

    get_value_deleted : rec.deleted ≡ true → get_value env after rec.key mono now ≡ (after, none)
    unfolding get_value
    get_value_deleted deleted =
        let e = shard_get-Appended missing (inl (deleted, refl)) in
        let answer : Shard × Outcome V → Shard × Option (Py V) = λ x. (x.0, none) in
        rw (e, get_value) (ap answer e)

  Carried-set_record :
      (key : String) (value : Py V) (expire : Option ℕ) (now : ℕ) (spill : Option String)
      → Carried env.pickle (set_record key value expire now spill)
  unfolding set_record
  Carried-set_record key value expire now none = tt
  Carried-set_record key value expire now (some rel) = tt

  -- Under the laws of pickle, from any state of a prefix whose own log is absent or readable: if
  -- the part of `set` up to its append succeeds, then a `get` of the key, while the record is
  -- live, less than `index_ttl` after the last check of the index and with the spill file of the
  -- record (if it has one) holding the value, returns the value and leaves the state as it is.
  pub get_value-set_append :
      (shard : Shard) (key : String) (value : Py V) (expire : Option ℕ) (mono now : ℕ)
      → (spill : Option String) (after : Shard) (size mono' now' : ℕ) (old : Bytes)
      → IsPickle env.pickle
      → own_bytes (get str_dec env.log_name shard.logs) ≡ some old
      → set_append env shard key value expire mono now spill ≡ some (after, size)
      → live (set_record {V = V} key value expire now spill) now' ≡ true
      → serve_record env (set_record key value expire now spill) ≡ found value
      → 0 < env.index_ttl
      → mono' - last_check after.checked < env.index_ttl
      → get_value env after key mono' now' ≡ (after, some value)
  unfolding set_append set_record
  get_value-set_append shard key value expire mono now spill after size mono' now' old laws own done
        alive served ttl soon =
      let s1 : Shard = (ensure_index env shard mono now).0 in
      let rec : Record V = set_record key value expire now spill in
      let (index, there) = ensure_index-index shard mono now in
      let own1 : own_bytes (get str_dec env.log_name s1.logs) ≡ some old =
        rw (logs-ensure_index shard mono now) own in
      let (bs, a) = append_record_parts s1 rec old done own1 in
      get_value_found s1 after rec old bs mono' now' laws
        (Carried-set_record key value expire now spill) there a ttl soon value alive served

  -- Under the laws of pickle, from any state of a prefix whose own log is absent or readable:
  -- if `delete` answered true, then a `get` of the key less than `index_ttl` after the last
  -- check of the index is a miss that leaves the state as it is.
  pub get_value-delete :
      (shard : Shard) (key : String) (mono now : ℕ) (after : Shard) (mono' now' : ℕ) (old : Bytes)
      → IsPickle env.pickle
      → own_bytes (get str_dec env.log_name shard.logs) ≡ some old
      → delete env shard key mono now ≡ some (after, true)
      → 0 < env.index_ttl
      → mono' - last_check after.checked < env.index_ttl
      → get_value env after key mono' now' ≡ (after, none)
  unfolding delete
  get_value-delete shard key mono now after mono' now' old laws own done ttl soon =
      let s1 : Shard = (ensure_index env shard mono now).0 in
      let rec : Record V = tombstone key now in
      let (index, there) = ensure_index-index shard mono now in
      let own1 : own_bytes (get str_dec env.log_name s1.logs) ≡ some old =
        rw (logs-ensure_index shard mono now) own in
      let (size, wrote) = delete_appended shard key mono now done in
      let (bs, a) = append_record_parts s1 rec old wrote own1 in
      get_value_deleted s1 after rec old bs mono' now' laws tt there a ttl soon refl
