-- ===== src/Log/Index/Merge/Winner.antt =====
-- emboss/_log_cache.py: the merge of `_ensure_index` and its specification, the latest event.
use emboss.Prelude.{
  ℕ, ◌+◌, ◌-◌, ◌≤◌, ◌≡◌, refl, ◌∙◌, String, Option, none, some, List, [], ◌∷◌, ◌++◌, arith, ltb,
  ltb→lt, ltb→le, Bool-cases, inl, inr, ◌≢◌, All, if◌then◌else◌,
}
use mathlib.Core.Logic.{ite, if_pos, if_neg}
use native.Mathlib.Decide.{ℕ_discrete}
use emboss.Prelude.Dict.{Dict, get, get-put}
use emboss.Log.Record.{Record}
use emboss.Log.Scan.{ScanResult}
use emboss.Log.Index.{Merged, live, merge_record, merge_log, merge_logs}

-- A record as the merge sees it, with its digest.
abbrev pub Event : Type 0
Event = ℕ × Merged

-- Of two events of one digest the later stored wins, and the later read on a tie.
unfoldable pub newer : Option Merged → Merged → Option Merged
newer none e = some e
newer (some w) e = if ltb e.store_time w.store_time then some w else some e

unfoldable pub latest : ℕ → Option Merged → List Event → Option Merged
unfolding newer
latest digest acc [] = acc
latest digest acc ((k, e) ∷ es) = latest digest (ite (ℕ_discrete k digest) (newer acc e) acc) es

abbrev pub Beaten : ℕ → Option Merged → Event → Type 0
Beaten digest none event = event.0 ≡ digest → ⊥
Beaten digest (some w) event = event.0 ≡ digest → event.1.store_time ≤ w.store_time

abbrev Grows : Option Merged → Option Merged → Type 0
Grows none r = Unit
Grows (some a) none = ⊥
Grows (some a) (some b) = a.store_time ≤ b.store_time

Grows-refl : (r : Option Merged) → Grows r r
Grows-refl none = tt
Grows-refl (some w) = omega arith

Grows-trans : (a b c : Option Merged) → Grows a b → Grows b c → Grows a c
Grows-trans none b c h k = tt
Grows-trans (some x) none c h k = absurd h
Grows-trans (some x) (some y) none h k = absurd k
Grows-trans (some x) (some y) (some z) h k = omega arith

newer-some :
    (acc : Option Merged) (e : Merged)
    → (w : Merged) × (newer acc e ≡ some w) × (e.store_time ≤ w.store_time) × Grows acc (some w)
unfolding newer
newer-some none e = (e, refl, omega arith, tt)
newer-some (some v) e = elim (Bool-cases (ltb e.store_time v.store_time)) [
  | inl older ↦ (v, rw older, omega (arith, ltb→lt e.store_time v.store_time older), omega arith)
  | inr later ↦ (e, rw later, omega arith, ltb→le e.store_time v.store_time later)
]

latest-Grows :
    (digest : ℕ) (acc : Option Merged) (es : List Event) → Grows acc (latest digest acc es)
unfolding latest
latest-Grows digest acc [] = Grows-refl acc
latest-Grows digest acc ((k, e) ∷ es) = elim (ℕ_discrete k digest) [
  | no other ↦ rw (if_neg _ other) (latest-Grows digest acc es)
  | yes same ↦
      let (w, one, le, grows) = newer-some acc e in
      rw (if_pos _ same, one) (Grows-trans acc (some w) _ grows (latest-Grows digest (some w) es))
]

Beaten-other :
    (digest : ℕ) (r : Option Merged) (event : Event) → event.0 ≢ digest → Beaten digest r event
Beaten-other digest none event h = h
Beaten-other digest (some w) event h = λ same. absurd (h same)

Beaten-by :
    (digest : ℕ) (w : Merged) (r : Option Merged) (event : Event)
    → event.1.store_time ≤ w.store_time
    → Grows (some w) r
    → Beaten digest r event
Beaten-by digest w none event h g = absurd g
Beaten-by digest w (some v) event h g = λ _. omega arith

-- The winner is stored at the latest time among the events of its digest.
pub latest-le :
    (digest : ℕ) (acc : Option Merged) (es : List Event) (r : Option Merged)
    → r ≡ latest digest acc es
    → All (Beaten digest r) es
unfolding latest
latest-le digest acc [] r h = tt
latest-le digest acc ((k, e) ∷ es) r h = (
  elim (ℕ_discrete k digest) [
    | no other ↦ Beaten-other digest r (k, e) other
    | yes same ↦
        let (w, one, le, grows) = newer-some acc e in
        let next : r ≡ latest digest (some w) es = h ∙ rw (if_pos _ same, one) in
        Beaten-by digest w r (k, e) le (rw next (latest-Grows digest (some w) es))
  ],
  latest-le digest (ite (ℕ_discrete k digest) (newer acc e) acc) es r h,
)

latest-append :
    (digest : ℕ) (xs : List Event) (acc : Option Merged) (ys : List Event)
    → latest digest acc (xs ++ ys) ≡ latest digest (latest digest acc xs) ys
unfolding latest
latest-append digest [] acc ys = refl
latest-append digest (x ∷ xs) acc ys = latest-append digest xs _ ys

module _ {V : Type 0} (digest_of : String → ℕ) (now : ℕ) where
  unfoldable pub event_of : ℕ → Record V → ℕ → ℕ → Event
  event_of log_id rec start end = (
    digest_of rec.key,
    record {
      store_time = rec.store_time;
      is_live = live rec now;
      log_id = log_id;
      offset = start;
      len = end - start;
    },
  )

  log_events : ℕ → List (Record V) → List (ℕ × ℕ) → List Event
  unfolding event_of
  log_events log_id (rec ∷ recs) ((start, end) ∷ spans) =
      event_of log_id rec start end ∷ log_events log_id recs spans
  log_events log_id _ _ = []

  -- Every record of every log, in the order in which the merge meets them.
  unfoldable pub events : ℕ → List (String × ScanResult V) → List Event
  unfolding log_events
  events log_id [] = []
  events log_id ((name, scan) ∷ logs) =
      log_events log_id scan.records scan.spans ++ events (log_id + 1) logs

  get-merge_record :
      (digest : ℕ) (m : Dict ℕ Merged) (log_id : ℕ) (rec : Record V) (start end : ℕ)
      → get ℕ_discrete digest (merge_record digest_of now m log_id rec start end)
        ≡ ite
            (ℕ_discrete (event_of log_id rec start end).0 digest)
            (newer (get ℕ_discrete digest m) (event_of log_id rec start end).1)
            (get ℕ_discrete digest m)
  unfolding merge_record newer event_of
  get-merge_record digest m log_id rec start end =
      ground
        (arith, get-put ℕ_discrete digest (digest_of rec.key) (event_of log_id rec start end).1 m)

  get-merge_log :
      (digest : ℕ) (m : Dict ℕ Merged) (log_id : ℕ) (recs : List (Record V)) (spans : List (ℕ × ℕ))
      → get ℕ_discrete digest (merge_log digest_of now m log_id recs spans)
        ≡ latest digest (get ℕ_discrete digest m) (log_events log_id recs spans)
  unfolding merge_log latest log_events
  get-merge_log digest m log_id [] spans = refl
  get-merge_log digest m log_id (rec ∷ recs) [] = refl
  get-merge_log digest m log_id (rec ∷ recs) ((start, end) ∷ spans) = rw (
    get-merge_log digest (merge_record digest_of now m log_id rec start end) log_id recs spans,
    get-merge_record,
  )

  -- After the merge of the logs into a dict, the dict holds for each digest the latest of
  -- what it held before and the events of that digest in all logs, where ties go to the event
  -- read later.
  pub get-merge_logs :
      (digest : ℕ) (m : Dict ℕ Merged) (log_id : ℕ) (logs : List (String × ScanResult V))
      → get ℕ_discrete digest (merge_logs digest_of now m log_id logs)
        ≡ latest digest (get ℕ_discrete digest m) (events log_id logs)
  unfolding merge_logs latest events
  get-merge_logs digest m log_id [] = refl
  get-merge_logs digest m log_id ((name, scan) ∷ logs) = rw (
    get-merge_logs digest (merge_log digest_of now m log_id scan.records scan.spans) (log_id + 1)
        logs,
    get-merge_log,
    latest-append,
  )
