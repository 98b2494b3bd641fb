-- ===== src/Cached/Latch/Apart.antt =====
-- emboss/_cached.py: the locks of different keys in the in-flight latch.
use emboss.Prelude.{
  ℕ, suc, ◌+◌, ◌≤◌, ◌<◌, ◌≡◌, ◌⊎◌, refl, sym, ap, ◌∙◌, inl, inr, String, Bool-cases, Option-cases,
  some, ◌==◌, arith,
}
use mathlib.Core.Logic.{ite}
use mathlib.Core.Option.{some-injective}
use emboss.Prelude.Dict.{get, put, str_dec, get-put}
use emboss.Cached.Latch.{
  Latch, enter, leave, placed, Step, enters, acquires, interrupted, releases, leaves, Reach, start,
  step,
}
use emboss.Cached.Latch.Keyed.{lock_of, leave-lock}

-- No two keys share a lock, and the next one is new.
pub record Apart (s : Latch) : Type 0 where
  below : (k : String) (l : ℕ) → lock_of (get str_dec k s.locks) ≡ some l → l < s.next
  pub injective :
      (k k' : String) (l : ℕ)
      → lock_of (get str_dec k s.locks) ≡ some l
      → lock_of (get str_dec k' s.locks) ≡ some l
      → k ≡ k'

module _ (key : String) (s : Latch) where
  -- A lock of the table behind `enter` was there, or it is the new one.
  abbrev Entered : String → ℕ → Type 0
  Entered k l =
      (lock_of (get str_dec k s.locks) ≡ some l)
      ⊎ ((key ≡ k) × (l ≡ s.next) × ((enter key s).0.next ≡ suc s.next))

  enter-next : s.next ≤ (enter key s).0.next
  unfolding enter
  enter-next = elim (Option-cases (get str_dec key s.locks)) [
    | inl absent ↦ rw (enter, absent) (omega arith)
    | inr (entry, there) ↦ rw (enter, there) (omega arith)
  ]

  enter-Entered :
      (k : String) (l : ℕ) → lock_of (get str_dec k (enter key s).0.locks) ≡ some l → Entered k l
  unfolding enter
  enter-Entered k l h = elim (Option-cases (get str_dec key s.locks)) [
    | inl absent ↦
        let next : (enter key s).0.next ≡ suc s.next = rw (enter, absent) refl in
        let found : lock_of (get str_dec k (put str_dec key (s.next, 1) s.locks)) ≡ some l =
          rw (enter, absent) at h in
        fresh (str_dec key k) next
          (ap lock_of (sym (get-put str_dec k key (s.next, 1) s.locks)) ∙ found)
    | inr ((lock, refs), there) ↦
        let found : lock_of (get str_dec k (put str_dec key (lock, refs + 1) s.locks)) ≡ some l =
          rw (enter, there) at h in
        inl (
          kept (str_dec key k) lock refs there
            (ap lock_of (sym (get-put str_dec k key (lock, refs + 1) s.locks)) ∙ found))
  ]
    where
      fresh :
          (d : Dec (key ≡ k))
          → (enter key s).0.next ≡ suc s.next
          → lock_of (ite d (some (s.next, 1)) (get str_dec k s.locks)) ≡ some l
          → Entered k l
      fresh (yes e) next found = inr (e, sym (some-injective _ _ found), next)
      fresh (no n) next found = inl found

      kept :
          (d : Dec (key ≡ k)) (lock refs : ℕ)
          → get str_dec key s.locks ≡ some (lock, refs)
          → lock_of (ite d (some (lock, refs + 1)) (get str_dec k s.locks)) ≡ some l
          → lock_of (get str_dec k s.locks) ≡ some l
      kept (yes e) lock refs there found =
          sym (ap (λ q. lock_of (get str_dec q s.locks)) e) ∙ (ap lock_of there ∙ found)
      kept (no n) lock refs there found = found

  enter-Apart : Apart s → Apart (enter key s).0
  enter-Apart h = record {
    below = λ k l there. elim (enter-Entered k l there) [
      | inl old ↦
          let small = h.below k l old in let grows = enter-next in omega (arith, small, grows)
      | inr (e, new, next) ↦ omega (arith, new, next)
    ];
    injective = λ k k' l there there'. elim (enter-Entered k l there) [
      | inl old ↦ elim (enter-Entered k' l there') [
        | inl old' ↦ h.injective k k' l old old'
        | inr (e, new, next) ↦ let small = h.below k l old in absurd (omega (arith, new, small))
      ]
      | inr (e, new, next) ↦ elim (enter-Entered k' l there') [
        | inl old' ↦ let small = h.below k' l old' in absurd (omega (arith, new, small))
        | inr (e', new', next') ↦ sym e ∙ e'
      ]
    ];
  }

  leave-kept :
      (k : String) (l : ℕ)
      → lock_of (get str_dec k (leave key s).locks) ≡ some l
      → lock_of (get str_dec k s.locks) ≡ some l
  leave-kept k l h = elim (leave-lock key s k) [
    | inl same ↦ sym same ∙ h
    | inr (e, lost) ↦ absurd (
        ground (
          arith,
          sym (ap lock_of lost) ∙ (ap (λ q. lock_of (get str_dec q (leave key s).locks)) e ∙ h),
        ))
  ]

  leave-next : (leave key s).next ≡ s.next
  unfolding leave
  leave-next = elim (Option-cases (get str_dec key s.locks)) [
    | inl absent ↦ rw (leave, absent) refl
    | inr ((lock, refs), there) ↦ elim (Bool-cases (refs == 1)) [
      | inl last ↦ rw (leave, there, last) refl
      | inr more ↦ rw (leave, there, more) refl
    ]
  ]

  leave-Apart : Apart s → Apart (leave key s)
  leave-Apart h = record {
    below = λ k l there.
        let small = h.below k l (leave-kept k l there) in
        let same = leave-next in omega (arith, small, same);
    injective =
        λ k k' l there there'. h.injective k k' l (leave-kept k l there) (leave-kept k' l there');
  }

Step-Apart : {s s' : Latch} → Step s s' → Apart s → Apart s'
unfolding placed
Step-Apart {s} (enters i t key at now) h =
    let a = enter-Apart key s h in record { below = a.below; injective = a.injective }
Step-Apart (acquires i t key lock at now free) h = record {
  below = h.below;
  injective = h.injective;
}
Step-Apart (interrupted i t key lock at now) h = record { below = h.below; injective = h.injective }
Step-Apart (releases i t key lock held at now top) h = record {
  below = h.below;
  injective = h.injective;
}
Step-Apart {s} (leaves i t key at now) h =
    let a = leave-Apart key s h in record { below = a.below; injective = a.injective }

pub Reach-Apart : {n : ℕ} {s : Latch} → Reach n s → Apart s
unfolding get
Reach-Apart start = record {
  below = λ k l there. absurd (ground (arith, there));
  injective = λ k k' l there there'. absurd (ground (arith, there));
}
Reach-Apart (step r st) = Step-Apart st (Reach-Apart r)
