-- ===== src/Cached/Latch/Keyed.antt =====
-- emboss/_cached.py: the lock of a key in the in-flight latch.
use emboss.Prelude.{
  ℕ, zero, suc, ◌+◌, ◌-◌, ◌≡◌, ◌⊎◌, refl, sym, ap, ◌∙◌, inl, inr, String, Bool-cases, Option-cases,
  Option, none, some, List, [], ◌∷◌, get_elem?, sum_by, All, All-map, ◌==◌, arith,
}
use mathlib.Core.Path.{subst}
use mathlib.Core.Logic.{ite, if_pos, if_neg}
use mathlib.Core.Option.{some-injective}
use emboss.Prelude.Dict.{Dict, get, str_dec, get-put, get-put_self, get-remove}
use emboss.Cached.Latch.{
  Phase, running, waiting, leaving, Thread, Latch, enter, leave, set_at, holds_count, phase_count,
  enrolled, one,
}

abbrev pub lock_of : Option (ℕ × ℕ) → Option ℕ
lock_of none = none
lock_of (some (lock, refs)) = some lock

-- The table still has the lock of every key that the thread is inside of or waits for.
abbrev pub KeyedPhase : Dict String (ℕ × ℕ) → Phase → Type 0
KeyedPhase locks running = Unit
KeyedPhase locks (waiting key lock) = lock_of (get str_dec key locks) ≡ some lock
KeyedPhase locks (leaving key) = Unit

abbrev pub KeyedPair : Dict String (ℕ × ℕ) → String × ℕ → Type 0
KeyedPair locks (key, lock) = lock_of (get str_dec key locks) ≡ some lock

abbrev pub Keyed : Dict String (ℕ × ℕ) → Thread → Type 0
Keyed locks t = All (KeyedPair locks) t.held × KeyedPhase locks t.phase

pub set_at-All :
    (P : Thread → Type 0) (i : ℕ) (t : Thread) (threads : List Thread)
    → P t
    → All P threads
    → All P (set_at i t threads)
unfolding set_at
set_at-All P i t [] p h = tt
set_at-All P zero t (u ∷ threads) p h = (p, h.1)
set_at-All P (suc i) t (u ∷ threads) p h = (h.0, set_at-All P i t threads p h.1)

pub All-get_elem? :
    (P : Thread → Type 0) (i : ℕ) (t : Thread) (threads : List Thread)
    → All P threads
    → get_elem? threads i ≡ some t
    → P t
All-get_elem? P i t [] h at = absurd (ground (arith, at))
All-get_elem? P zero t (u ∷ threads) h at = subst P (some-injective _ _ at) h.0
All-get_elem? P (suc i) t (u ∷ threads) h at = All-get_elem? P i t threads h.1 at

-- Locks that stay, for the keys that count.
module _ (locks locks' : Dict String (ℕ × ℕ)) where
  abbrev Stays : String → Type 0
  Stays k =
      (lock : ℕ)
      → lock_of (get str_dec k locks) ≡ some lock
      → lock_of (get str_dec k locks') ≡ some lock

  pub Keyed-Stays : ((k : String) → Stays k) → (t : Thread) → Keyed locks t → Keyed locks' t
  Keyed-Stays stays t h = (
    All-map (KeyedPair locks) (KeyedPair locks') t.held (λ pair keyed. stays pair.0 pair.1 keyed)
        h.0,
    moved t.phase h.1,
  )
    where
      moved : (phase : Phase) → KeyedPhase locks phase → KeyedPhase locks' phase
      moved running k = tt
      moved (waiting key lock) k = stays key lock k
      moved (leaving key) k = tt

pub enter-Stays : (key : String) (s : Latch) (k : String) → Stays s.locks (enter key s).0.locks k
unfolding enter
enter-Stays key s k lock h = elim (Option-cases (get str_dec key s.locks)) [
  | inl absent ↦
      rw (enter, absent)
        (ap lock_of (get-put str_dec k key (s.next, 1) s.locks) ∙ fresh (str_dec key k) absent)
  | inr ((l, refs), there) ↦
      rw (enter, there)
        (ap lock_of (get-put str_dec k key (l, refs + 1) s.locks)
          ∙ kept (str_dec key k) l refs there)
]
  where
    fresh :
        (d : Dec (key ≡ k))
        → get str_dec key s.locks ≡ none
        → lock_of (ite d (some (s.next, 1)) (get str_dec k s.locks)) ≡ some lock
    fresh (yes e) absent =
        absurd (cc (ap (λ q. lock_of (get str_dec q s.locks)) e, ap lock_of absent, h))
    fresh (no n) absent = h

    kept :
        (d : Dec (key ≡ k)) (l refs : ℕ)
        → get str_dec key s.locks ≡ some (l, refs)
        → lock_of (ite d (some (l, refs + 1)) (get str_dec k s.locks)) ≡ some lock
    kept (yes e) l refs there =
        sym (ap lock_of there) ∙ (ap (λ q. lock_of (get str_dec q s.locks)) e ∙ h)
    kept (no n) l refs there = h

pub enter-lock :
    (key : String) (s : Latch)
    → lock_of (get str_dec key (enter key s).0.locks) ≡ some (enter key s).1
unfolding enter
enter-lock key s = elim (Option-cases (get str_dec key s.locks)) [
  | inl absent ↦ rw (enter, absent) (ap lock_of (get-put_self str_dec key (s.next, 1) s.locks))
  | inr ((l, refs), there) ↦
      rw (enter, there) (ap lock_of (get-put_self str_dec key (l, refs + 1) s.locks))
]

one_self : {k key : String} → key ≡ k → one k key ≡ 1
unfolding one
one_self {k} {key} e = if_pos (str_dec k key) (sym e) 1 0

pub sum_by-zero :
    (f : Thread → ℕ) (threads : List Thread) → sum_by f threads ≡ 0 → All (λ u. f u ≡ 0) threads
sum_by-zero f [] h = tt
sum_by-zero f (u ∷ threads) h = (omega (arith, h), sum_by-zero f threads (omega (arith, h)))

module _ (key : String) (s : Latch) where
  abbrev pub Gone : Type 0
  Gone = get str_dec key (leave key s).locks ≡ none

  pub leave-lock :
      (k : String)
      → (lock_of (get str_dec k (leave key s).locks) ≡ lock_of (get str_dec k s.locks))
        ⊎ ((key ≡ k) × Gone)
  unfolding leave
  leave-lock k = elim (Option-cases (get str_dec key s.locks)) [
    | inl absent ↦ rw (leave, absent) (inl refl)
    | inr ((lock, refs), there) ↦ elim (Bool-cases (refs == 1)) [
      | inl last ↦ elim (str_dec key k) [
        | yes e ↦
            rw (leave, there, last)
              (inr (
                e,
                get-remove str_dec key key s.locks
                    ∙ if_pos (str_dec key key) refl none (get str_dec key s.locks),
              ))
        | no n ↦
            rw (leave, there, last)
              (inl (
                ap lock_of (
                  get-remove str_dec k key s.locks
                  ∙ if_neg (str_dec key k) n none (get str_dec k s.locks))))
      ]
      | inr more ↦ elim (str_dec key k) [
        | yes e ↦
            rw (leave, there, more)
              (inl (
                ap lock_of (
                  get-put str_dec k key (lock, refs - 1) s.locks
                  ∙ if_pos (str_dec key k) e (some (lock, refs - 1)) (get str_dec k s.locks))
                ∙ (sym (ap lock_of there) ∙ ap (λ q. lock_of (get str_dec q s.locks)) e)))
        | no n ↦
            rw (leave, there, more)
              (inl (
                ap lock_of (
                  get-put str_dec k key (lock, refs - 1) s.locks
                  ∙ if_neg (str_dec key k) n (some (lock, refs - 1)) (get str_dec k s.locks))))
      ]
    ]
  ]

  pairs-leave :
      (held : List (String × ℕ))
      → All (KeyedPair s.locks) held
      → (Gone → holds_count key held ≡ 0)
      → All (KeyedPair (leave key s).locks) held
  unfolding holds_count
  pairs-leave [] h z = tt
  pairs-leave ((k, l) ∷ held) h z = (
    elim (leave-lock k) [
      | inl same ↦ same ∙ h.0
      | inr (e, lost) ↦
          let none_left = z lost in let here = one_self e in absurd (omega (arith, none_left, here))
    ],
    pairs-leave held h.1 (λ lost. let none_left = z lost in omega (arith, none_left)),
  )

  phase-leave :
      (phase : Phase)
      → KeyedPhase s.locks phase
      → (Gone → phase_count key phase ≡ 0)
      → KeyedPhase (leave key s).locks phase
  unfolding phase_count
  phase-leave running h z = tt
  phase-leave (waiting k lock) h z = elim (leave-lock k) [
    | inl same ↦ same ∙ h
    | inr (e, lost) ↦
        let none_left = z lost in let here = one_self e in absurd (omega (arith, none_left, here))
  ]
  phase-leave (leaving k) h z = tt

  pub Keyed-leave :
      (u : Thread) → (Gone → enrolled key u ≡ 0) → Keyed s.locks u → Keyed (leave key s).locks u
  unfolding enrolled
  Keyed-leave u z h = (
    pairs-leave u.held h.0 (λ lost. let none_left = z lost in omega (arith, none_left)),
    phase-leave u.phase h.1 (λ lost. let none_left = z lost in omega (arith, none_left)),
  )
