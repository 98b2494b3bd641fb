-- ===== src/Cached/Latch/Refs.antt =====
-- emboss/_cached.py: the references that the in-flight latch counts.
use emboss.Prelude.{
  ℕ, zero, suc, ◌+◌, ◌-◌, ◌<◌, ◌≡◌, refl, sym, ap, ◌∙◌, inl, inr, String, Bool-cases, Option-cases,
  Option, none, some, List, [], ◌∷◌, get_elem?, sum_by, ◌==◌, arith,
}
use mathlib.Core.Logic.{ite}
use mathlib.Core.Option.{some-injective}
use emboss.Prelude.Dict.{Dict, get, put, remove, str_dec, get-put, get-remove}
use emboss.Cached.Latch.{Thread, Latch, enter, leave, set_at, idle_threads, enrolled, one}

-- One thread changes.
pub sum_by-set_at :
    (f : Thread → ℕ) (i : ℕ) (old t : Thread) (threads : List Thread)
    → get_elem? threads i ≡ some old
    → sum_by f (set_at i t threads) + f old ≡ sum_by f threads + f t
unfolding set_at
sum_by-set_at f i old t [] h = absurd (ground (arith, h))
sum_by-set_at f zero old t (u ∷ threads) h =
    let same : f u ≡ f old = ap f (some-injective _ _ h) in omega (arith, same)
sum_by-set_at f (suc i) old t (u ∷ threads) h =
    let rest = sum_by-set_at f i old t threads h in omega (arith, rest)

abbrev pub refs_of : Option (ℕ × ℕ) → ℕ
refs_of none = 0
refs_of (some (lock, refs)) = refs

-- Each entry of the table counts the references, and none of them is zero.
pub record Counted (s : Latch) : Type 0 where
  pub counts : (key : String) → refs_of (get str_dec key s.locks) ≡ sum_by (enrolled key) s.threads
  pub positive :
      (key : String) (lock refs : ℕ) → get str_dec key s.locks ≡ some (lock, refs) → 0 < refs

pub sum_by-idle : (key : String) (n : ℕ) → sum_by (enrolled key) (idle_threads n) ≡ 0
unfolding idle_threads enrolled
sum_by-idle key zero = refl
sum_by-idle key (suc n) = omega (arith, sum_by-idle key n)

refs_of-put :
    (key k : String) (lock refs : ℕ) (locks : Dict String (ℕ × ℕ))
    → refs_of (get str_dec k (put str_dec key (lock, refs) locks))
      ≡ ite (str_dec key k) refs (refs_of (get str_dec k locks))
refs_of-put key k lock refs locks =
    ap refs_of (get-put str_dec k key (lock, refs) locks) ∙ inside (str_dec key k)
  where
    inside :
        (d : Dec (key ≡ k))
        → refs_of (ite d (some (lock, refs)) (get str_dec k locks))
          ≡ ite d refs (refs_of (get str_dec k locks))
    inside (yes e) = refl
    inside (no n) = refl

refs_of-remove :
    (key k : String) (locks : Dict String (ℕ × ℕ))
    → refs_of (get str_dec k (remove str_dec key locks))
      ≡ ite (str_dec key k) 0 (refs_of (get str_dec k locks))
refs_of-remove key k locks = ap refs_of (get-remove str_dec k key locks) ∙ inside (str_dec key k)
  where
    inside :
        (d : Dec (key ≡ k))
        → refs_of (ite d none (get str_dec k locks)) ≡ ite d 0 (refs_of (get str_dec k locks))
    inside (yes e) = refl
    inside (no n) = refl

bump :
    {key k : String} (d : Dec (key ≡ k)) (a r : ℕ)
    → (key ≡ k → a ≡ r + 1)
    → ite d a r ≡ r + ite d 1 0
bump (yes e) a r h = h e
bump (no n) a r h = omega arith

drop_one :
    {key k : String} (d : Dec (key ≡ k)) (a r : ℕ)
    → (key ≡ k → a + 1 ≡ r)
    → ite d a r + ite d 1 0 ≡ r
drop_one (yes e) a r h = h e
drop_one (no n) a r h = omega arith

module _ (key k : String) (s : Latch) where
  abbrev refs_at : String → ℕ
  refs_at q = refs_of (get str_dec q s.locks)

  pub refs_of-enter : refs_of (get str_dec k (enter key s).0.locks) ≡ refs_at k + one key k
  unfolding enter one
  refs_of-enter = elim (Option-cases (get str_dec key s.locks)) [
    | inl absent ↦
        rw (enter, absent)
          (refs_of-put key k s.next 1 s.locks
            ∙ bump (str_dec key k) 1 (refs_at k) (λ e.
              let here = ap refs_of absent in
              let moved = ap refs_at e in omega (arith, here, moved)))
    | inr ((lock, refs), there) ↦
        rw (enter, there)
          (refs_of-put key k lock (refs + 1) s.locks
            ∙ bump (str_dec key k) (refs + 1) (refs_at k) (λ e.
              let here = ap refs_of there in
              let moved = ap refs_at e in omega (arith, here, moved)))
  ]

  pub refs_of-leave :
      0 < refs_at key → refs_of (get str_dec k (leave key s).locks) + one key k ≡ refs_at k
  unfolding leave one
  refs_of-leave some_left = elim (Option-cases (get str_dec key s.locks)) [
    | inl absent ↦ absurd (let here = ap refs_of absent in omega (arith, here, some_left))
    | inr ((lock, refs), there) ↦
        let here : refs_at key ≡ refs = ap refs_of there in
        elim (Bool-cases (refs == 1)) [
          | inl last ↦
              rw (leave, there, last)
                (ap (λ q. q + one key k) (refs_of-remove key k s.locks)
                  ∙ drop_one (str_dec key k) 0 (refs_at k) (λ e.
                    let moved = ap refs_at e in
                    let only : refs ≡ 1 = ground (arith, last) in omega (arith, here, moved, only)))
          | inr more ↦
              rw (leave, there, more)
                (ap (λ q. q + one key k) (refs_of-put key k lock (refs - 1) s.locks)
                  ∙ drop_one (str_dec key k) (refs - 1) (refs_at k)
                      (λ e. let moved = ap refs_at e in omega (arith, here, moved, some_left)))
        ]
  ]

abbrev Positive : Dict String (ℕ × ℕ) → Type 0
Positive locks = (k : String) (lock refs : ℕ) → get str_dec k locks ≡ some (lock, refs) → 0 < refs

put-Positive :
    (key : String) (lock refs : ℕ) (locks : Dict String (ℕ × ℕ))
    → 0 < refs
    → Positive locks
    → Positive (put str_dec key (lock, refs) locks)
put-Positive key lock refs locks some_refs h k l r there =
    inside (str_dec key k) (sym (get-put str_dec k key (lock, refs) locks) ∙ there)
  where
    inside :
        (d : Dec (key ≡ k)) → ite d (some (lock, refs)) (get str_dec k locks) ≡ some (l, r) → 0 < r
    inside (yes e) found =
        let same : refs ≡ r = ap (λ (q : ℕ × ℕ). q.1) (some-injective _ _ found) in
        omega (arith, same, some_refs)
    inside (no n) found = h k l r found

remove-Positive :
    (key : String) (locks : Dict String (ℕ × ℕ))
    → Positive locks
    → Positive (remove str_dec key locks)
remove-Positive key locks h k l r there =
    inside (str_dec key k) (sym (get-remove str_dec k key locks) ∙ there)
  where
    inside : (d : Dec (key ≡ k)) → ite d none (get str_dec k locks) ≡ some (l, r) → 0 < r
    inside (yes e) found = absurd (ground (arith, found))
    inside (no n) found = h k l r found

pub enter-Positive : (key : String) (s : Latch) → Positive s.locks → Positive (enter key s).0.locks
unfolding enter
enter-Positive key s h = elim (Option-cases (get str_dec key s.locks)) [
  | inl absent ↦ rw (enter, absent) (put-Positive key s.next 1 s.locks (omega arith) h)
  | inr ((lock, refs), there) ↦
      rw (enter, there) (put-Positive key lock (refs + 1) s.locks (omega arith) h)
]

pub leave-Positive : (key : String) (s : Latch) → Positive s.locks → Positive (leave key s).locks
unfolding leave
leave-Positive key s h = elim (Option-cases (get str_dec key s.locks)) [
  | inl absent ↦ rw (leave, absent) h
  | inr ((lock, refs), there) ↦ elim (Bool-cases (refs == 1)) [
    | inl last ↦ rw (leave, there, last) (remove-Positive key s.locks h)
    | inr more ↦
        let some_refs = h key lock refs there in
        let others : 1 < refs = ground (arith, some_refs, more) in
        rw (leave, there, more) (put-Positive key lock (refs - 1) s.locks (omega (arith, others)) h)
  ]
]

pub enter-threads : (key : String) (s : Latch) → (enter key s).0.threads ≡ s.threads
unfolding enter
enter-threads key s = elim (Option-cases (get str_dec key s.locks)) [
  | inl absent ↦ rw (enter, absent) refl
  | inr (entry, there) ↦ rw (enter, there) refl
]

pub leave-threads : (key : String) (s : Latch) → (leave key s).threads ≡ s.threads
unfolding leave
leave-threads key s = elim (Option-cases (get str_dec key s.locks)) [
  | inl absent ↦ rw (leave, absent) refl
  | inr ((lock, refs), there) ↦ elim (Bool-cases (refs == 1)) [
    | inl last ↦ rw (leave, there, last) refl
    | inr more ↦ rw (leave, there, more) refl
  ]
]
