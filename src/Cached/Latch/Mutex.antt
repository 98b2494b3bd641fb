-- ===== src/Cached/Latch/Mutex.antt =====
-- emboss/_cached.py: two threads and one key in the in-flight latch.
use emboss.Prelude.{
  ℕ, zero, suc, ◌≡◌, ◌≢◌, ◌⊎◌, refl, sym, ap, ◌∙◌, inl, inr, String, true, false, Bool-cases, some,
  List, [], ◌∷◌, get_elem?, All, All-map, All-zip, ◌==◌, str_eq, eq_iff, arith,
}
use mathlib.Core.Bool.{true≢false}
use mathlib.Core.Path.{subst}
use mathlib.Core.Option.{some-injective}
use emboss.Prelude.Dict.{Dict, get, str_dec}
use emboss.Cached.Latch.{
  running, waiting, leaving, Thread, Latch, enter, leave, placed, Step, enters, acquires,
  interrupted, releases, leaves, idle_threads, Reach, start, step, enrolled, holds_lock, holds_key,
  is_free,
}
use emboss.Cached.Latch.Exclusive.{Exclusive, set_at-Exclusive}
use emboss.Cached.Latch.Refs.{Counted, refs_of, enter-threads, leave-threads}
use emboss.Cached.Latch.Table.{Reach-Counted, Step-Counted}
use emboss.Cached.Latch.Keyed.{
  lock_of, KeyedPhase, KeyedPair, Keyed, set_at-All, All-get_elem?, Keyed-Stays, enter-Stays,
  enter-lock, sum_by-zero, Gone, Keyed-leave,
}

-- The invariant.
pub record Held (s : Latch) : Type 0 where
  pub keyed : All (Keyed s.locks) s.threads
  pub exclusive : Exclusive s.threads

keeps_held :
    (t : Thread) (threads : List Thread) (i lock : ℕ)
    → holds_lock lock t.held ≡ true
    → (holds_lock lock t.held ≡ true) ⊎ (is_free lock i threads ≡ true)
keeps_held t threads i lock h = inl h

All-unless :
    (P Q : Thread → Type 0) (A : Type 0) (threads : List Thread)
    → (A → All P threads)
    → All (λ u. A → P u) threads
All-unless P Q A [] h = tt
All-unless P Q A (u ∷ threads) h = ((λ a. (h a).0), All-unless P Q A threads (λ a. (h a).1))

module _ {s : Latch} (c : Counted s) (h : Held s) where
  Step-Held : {s' : Latch} → Step s s' → Held s'
  unfolding placed holds_lock
  Step-Held (enters i t key at now) =
      let t' : Thread = record t { phase = waiting key (enter key s).1 } in
      let s1 = (enter key s).0 in
      let old : All (Keyed s.locks) s1.threads = rw (enter-threads key s) h.keyed in
      let stays : All (Keyed s1.locks) s1.threads =
        All-map (Keyed s.locks) (Keyed s1.locks) s1.threads
          (Keyed-Stays s.locks s1.locks (enter-Stays key s)) old in
      let at1 : get_elem? s1.threads i ≡ some t = rw (enter-threads key s) at in
      record {
        keyed =
            set_at-All (Keyed s1.locks) i t' s1.threads
              ((All-get_elem? (Keyed s1.locks) i t s1.threads stays at1).0, enter-lock key s) stays;
        exclusive =
            set_at-Exclusive i t t' s1.threads at1 (keeps_held t s1.threads i)
              (subst Exclusive (sym (enter-threads key s)) h.exclusive);
      }
  Step-Held (acquires i t key lock at now free) =
      let t' : Thread = record { held = (key, lock) ∷ t.held; phase = running } in
      let old = All-get_elem? (Keyed s.locks) i t s.threads h.keyed at in
      let waits : KeyedPhase s.locks (waiting key lock) = subst (KeyedPhase s.locks) now old.1 in
      record {
        keyed = set_at-All (Keyed s.locks) i t' s.threads ((waits, old.0), tt) h.keyed;
        exclusive =
            set_at-Exclusive i t t' s.threads at
              (λ l holds. elim (Bool-cases (l == lock)) [
                | inl same ↦
                    inr
                      (subst (λ q. is_free q i s.threads ≡ true) (sym (ground (arith, same))) free)
                | inr other ↦ inl (ground (arith, holds, other))
              ])
              h.exclusive;
      }
  Step-Held (interrupted i t key lock at now) =
      let t' : Thread = record t { phase = leaving key } in
      let old = All-get_elem? (Keyed s.locks) i t s.threads h.keyed at in
      record {
        keyed = set_at-All (Keyed s.locks) i t' s.threads (old.0, tt) h.keyed;
        exclusive = set_at-Exclusive i t t' s.threads at (keeps_held t s.threads i) h.exclusive;
      }
  Step-Held (releases i t key lock held at now top) =
      let t' : Thread = record { held = held; phase = leaving key } in
      let old = All-get_elem? (Keyed s.locks) i t s.threads h.keyed at in
      let pairs : All (KeyedPair s.locks) ((key, lock) ∷ held) =
        subst (All (KeyedPair s.locks)) top old.0 in
      record {
        keyed = set_at-All (Keyed s.locks) i t' s.threads (pairs.1, tt) h.keyed;
        exclusive =
            set_at-Exclusive i t t' s.threads at
              (λ l holds.
                inl (subst (λ q. holds_lock l q ≡ true) (sym top) (ground (arith, holds))))
              h.exclusive;
      }
  Step-Held (leaves i t key at now) =
      let t' : Thread = record t { phase = running } in
      let s1 = leave key s in
      let s2 = placed i t' s1 in
      let counted : Counted s2 = Step-Counted c (leaves i t key at now) in
      let old = All-get_elem? (Keyed s.locks) i t s.threads h.keyed at in
      let at1 : get_elem? s1.threads i ≡ some t = rw (leave-threads key s) at in
      let before : All (Keyed s.locks) s2.threads =
        set_at-All (Keyed s.locks) i t' s1.threads (old.0, tt) (rw (leave-threads key s) h.keyed) in
      let empty : All (λ u. Gone key s → enrolled key u ≡ 0) s2.threads =
        All-unless (λ u. enrolled key u ≡ 0) (λ u. Unit) (Gone key s) s2.threads
          (λ lost.
            sum_by-zero (enrolled key) s2.threads (sym (counted.counts key) ∙ ap refs_of lost)) in
      record {
        keyed =
            All-zip (λ u. Gone key s → enrolled key u ≡ 0) (Keyed s.locks) (Keyed s1.locks)
              s2.threads (Keyed-leave key s) empty before;
        exclusive =
            set_at-Exclusive i t t' s1.threads at1 (keeps_held t s1.threads i)
              (subst Exclusive (sym (leave-threads key s)) h.exclusive);
      }

idle_held :
    (n i lock : ℕ) (t : Thread)
    → get_elem? (idle_threads n) i ≡ some t
    → holds_lock lock t.held ≡ false
unfolding idle_threads holds_lock
idle_held zero i lock t h = absurd (ground (arith, h))
idle_held (suc n) zero lock t h =
    subst (λ (q : Thread). holds_lock lock q.held ≡ false) (some-injective _ _ h) refl
idle_held (suc n) (suc i) lock t h = idle_held n i lock t h

idle_Keyed : (n : ℕ) → All (Keyed []) (idle_threads n)
unfolding idle_threads
idle_Keyed zero = tt
idle_Keyed (suc n) = ((tt, tt), idle_Keyed n)

pub Reach-Held : {n : ℕ} {s : Latch} → Reach n s → Held s
Reach-Held {n} start = record {
  keyed = idle_Keyed n;
  exclusive = λ i j t u lock apart at there holds. idle_held n j lock u there;
}
Reach-Held (step r st) = Step-Held (Reach-Counted r) (Reach-Held r) st

holds_key-lock :
    (locks : Dict String (ℕ × ℕ)) (key : String) (held : List (String × ℕ))
    → All (KeyedPair locks) held
    → holds_key key held ≡ true
    → (lock : ℕ) × (lock_of (get str_dec key locks) ≡ some lock) × (holds_lock lock held ≡ true)
unfolding holds_key holds_lock
holds_key-lock locks key [] h holds = absurd (true≢false (sym holds))
holds_key-lock locks key ((k, l) ∷ held) h holds = elim (Bool-cases (str_eq key k)) [
  | inl same ↦
      let here : key ≡ k = (eq_iff key k).0 same in
      (l, ap (λ q. lock_of (get str_dec q locks)) here ∙ h.0, ground arith)
  | inr other ↦
      let (lock, there, holds_later) =
        holds_key-lock locks key held h.1 (ground (arith, holds, other)) in
      (lock, there, ground (arith, holds_later))
]

-- In every state that calls of `hold` by any number of threads lead to, interrupted waits and
-- nested calls included: if one thread holds the latch of a key, no other thread holds it.
pub Reach-holds_key :
    {n : ℕ} {s : Latch} (key : String) (i j : ℕ) (t u : Thread)
    → Reach n s
    → i ≢ j
    → get_elem? s.threads i ≡ some t
    → get_elem? s.threads j ≡ some u
    → holds_key key t.held ≡ true
    → holds_key key u.held ≡ false
Reach-holds_key {n} {s} key i j t u r apart at there holds =
    elim (Bool-cases (holds_key key u.held)) [
      | inr free ↦ free
      | inl both ↦
          let inv = Reach-Held r in
          let (l, tl, has_t) =
            holds_key-lock s.locks key t.held
              (All-get_elem? (Keyed s.locks) i t s.threads inv.keyed at).0 holds in
          let (m, um, has_u) =
            holds_key-lock s.locks key u.held
              (All-get_elem? (Keyed s.locks) j u s.threads inv.keyed there).0 both in
          let same : m ≡ l = some-injective _ _ (sym um ∙ tl) in
          let has : holds_lock l u.held ≡ true =
            subst (λ q. holds_lock q u.held ≡ true) same has_u in
          absurd (true≢false (sym has ∙ inv.exclusive i j t u l apart at there has_t))
    ]
