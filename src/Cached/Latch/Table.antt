-- ===== src/Cached/Latch/Table.antt =====
-- emboss/_cached.py: the table of the in-flight latch.
use emboss.Prelude.{
  ℕ, ◌+◌, ◌<◌, ◌≡◌, ◌↔◌, refl, sym, ap, ◌∙◌, inl, inr, String, Option-cases, none, some, List, ◌∷◌,
  get_elem?, sum_by, arith,
}
use mathlib.Core.Logic.{if_pos}
use emboss.Prelude.Dict.{get, str_dec}
use emboss.Cached.Latch.{
  Phase, running, waiting, leaving, Thread, Latch, enter, placed, Step, enters, acquires,
  interrupted, releases, leaves, Reach, start, step, holds_count, phase_count, enrolled, one,
}
use emboss.Cached.Latch.Refs.{
  sum_by-set_at, refs_of, Counted, sum_by-idle, refs_of-enter, refs_of-leave, enter-Positive,
  leave-Positive, enter-threads, leave-threads,
}

-- The counts of a thread by its phase.
enrolled-phase :
    (key : String) (t : Thread) (phase : Phase)
    → t.phase ≡ phase
    → enrolled key t ≡ holds_count key t.held + phase_count key phase
unfolding enrolled
enrolled-phase key t phase e = ap (λ p. holds_count key t.held + phase_count key p) e

module _ {s : Latch} (h : Counted s) where
  sum_at : String → List Thread → ℕ
  sum_at k threads = sum_by (enrolled k) threads

  leaving_counted :
      (i : ℕ) (t : Thread) (key : String)
      → get_elem? s.threads i ≡ some t
      → t.phase ≡ leaving key
      → 0 < refs_of (get str_dec key s.locks)
  unfolding enrolled phase_count one
  leaving_counted i t key at now =
      let changed = sum_by-set_at (enrolled key) i t (record t { phase = running }) s.threads at in
      let before = enrolled-phase key t (leaving key) now in
      let self : one key key ≡ 1 = if_pos (str_dec key key) refl 1 0 in
      let old = h.counts key in omega (arith, changed, before, self, old)

  pub Step-Counted : {s' : Latch} → Step s s' → Counted s'
  unfolding placed enrolled phase_count holds_count
  Step-Counted (enters i t key at now) = record {
    counts = λ k.
        let threads = enter-threads key s in
        let changed =
          sum_by-set_at (enrolled k) i t (record t { phase = waiting key (enter key s).1 })
            s.threads at in
        let before = enrolled-phase k t running now in
        let table = refs_of-enter key k s in
        let old = h.counts k in rw threads (omega (arith, changed, before, table, old));
    positive = enter-Positive key s h.positive;
  }
  Step-Counted (acquires i t key lock at now free) = record {
    counts = λ k.
        let changed =
          sum_by-set_at (enrolled k) i t (record { held = (key, lock) ∷ t.held; phase = running })
            s.threads at in
        let before = enrolled-phase k t (waiting key lock) now in
        let old = h.counts k in omega (arith, changed, before, old);
    positive = h.positive;
  }
  Step-Counted (interrupted i t key lock at now) = record {
    counts = λ k.
        let changed =
          sum_by-set_at (enrolled k) i t (record t { phase = leaving key }) s.threads at in
        let before = enrolled-phase k t (waiting key lock) now in
        let old = h.counts k in omega (arith, changed, before, old);
    positive = h.positive;
  }
  Step-Counted (releases i t key lock held at now top) = record {
    counts = λ k.
        let changed =
          sum_by-set_at (enrolled k) i t (record { held = held; phase = leaving key }) s.threads
            at in
        let before = enrolled-phase k t running now in
        let inner = ap (holds_count k) top in
        let old = h.counts k in omega (arith, changed, before, inner, old);
    positive = h.positive;
  }
  Step-Counted (leaves i t key at now) = record {
    counts = λ k.
        let threads = leave-threads key s in
        let changed = sum_by-set_at (enrolled k) i t (record t { phase = running }) s.threads at in
        let before = enrolled-phase k t (leaving key) now in
        let table = refs_of-leave key k s (leaving_counted i t key at now) in
        let old = h.counts k in rw threads (omega (arith, changed, before, table, old));
    positive = leave-Positive key s h.positive;
  }

pub Reach-Counted : {n : ℕ} {s : Latch} → Reach n s → Counted s
unfolding get
Reach-Counted {n} start = record {
  counts = λ k. sym (sum_by-idle k n);
  positive = λ k lock refs there. absurd (ground (arith, there));
}
Reach-Counted (step r st) = Step-Counted (Reach-Counted r) st

-- In every reachable state the references counted for a key are as many as the calls of `hold`
-- for it that have begun and not ended, in all threads, and the table has no entry for the key
-- exactly if there is no such call.
pub Reach-refs_of :
    {n : ℕ} {s : Latch} (key : String)
    → Reach n s
    → (refs_of (get str_dec key s.locks) ≡ sum_by (enrolled key) s.threads)
      × ((get str_dec key s.locks ≡ none) ↔ (sum_by (enrolled key) s.threads ≡ 0))
Reach-refs_of {n} {s} key r =
    let inv = Reach-Counted r in
    let count = inv.counts key in
    (
      count,
      (
        (λ absent. sym count ∙ ap refs_of absent),
        (λ nobody. elim (Option-cases (get str_dec key s.locks)) [
          | inl absent ↦ absent
          | inr ((lock, refs), there) ↦
              let some_refs = inv.positive key lock refs there in
              let here = ap refs_of there in absurd (omega (arith, count, nobody, some_refs, here))
        ]),
      ),
    )
