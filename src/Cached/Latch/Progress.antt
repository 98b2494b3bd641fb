-- ===== src/Cached/Latch/Progress.antt =====
-- emboss/_cached.py: the threads that wait in the in-flight latch.
use emboss.Prelude.{
  ℕ, zero, suc, ◌<◌, ◌≡◌, ◌⊎◌, refl, sym, ap, inl, inr, String, Bool, true, false, Bool-cases, some,
  List, [], ◌∷◌, get_elem?, All, ◌==◌, arith,
}
use mathlib.Core.Bool.{true≢false}
use mathlib.Core.Path.{subst}
use emboss.Prelude.Dict.{Dict, get, str_dec}
use emboss.Cached.Latch.{
  Phase, running, waiting, leaving, Thread, Latch, Step, enters, acquires, interrupted, releases,
  leaves, Reach, holds_lock, none_holds, is_free,
}
use emboss.Cached.Latch.Keyed.{lock_of, KeyedPair, KeyedPhase, Keyed, All-get_elem?}
use emboss.Cached.Latch.Mutex.{Held, Reach-Held}
use emboss.Cached.Latch.Apart.{Apart, Reach-Apart}

-- A step that brings a thread through `hold`: neither a new call nor an interrupt.
unfoldable pub moves : {s s' : Latch} → Step s s' → Bool
moves (enters i t key at now) = false
moves (acquires i t key lock at now free) = true
moves (interrupted i t key lock at now) = false
moves (releases i t key lock held at now top) = true
moves (leaves i t key at now) = true

abbrev pub Moves : Latch → Type 0
Moves s = (s' : Latch) × (st : Step s s') × (moves st ≡ true)

-- A call inside a key is for a key of smaller rank.
abbrev pub IsNested : (String → ℕ) → Latch → Type 0
IsNested rank s =
    (i : ℕ) (t : Thread) (key : String) (lock : ℕ)
    → get_elem? s.threads i ≡ some t
    → t.phase ≡ waiting key lock
    → All (λ (pair : String × ℕ). rank key < rank pair.0) t.held

abbrev Holder : ℕ → List Thread → Type 0
Holder lock threads =
    (j : ℕ) × (u : Thread) × (get_elem? threads j ≡ some u) × (holds_lock lock u.held ≡ true)

none_holds-Holder :
    (lock : ℕ) (threads : List Thread) → none_holds lock threads ≡ false → Holder lock threads
unfolding none_holds
none_holds-Holder lock [] h = absurd (true≢false h)
none_holds-Holder lock (t ∷ threads) h = elim (Bool-cases (holds_lock lock t.held)) [
  | inl holds ↦ (0, t, refl, holds)
  | inr free ↦
      let (j, u, there, holds) = none_holds-Holder lock threads (ground (arith, h, free)) in
      (suc j, u, there, holds)
]

is_free-Holder :
    (lock i : ℕ) (threads : List Thread) → is_free lock i threads ≡ false → Holder lock threads
unfolding is_free
is_free-Holder lock i [] h = absurd (true≢false h)
is_free-Holder lock zero (t ∷ threads) h =
    let (j, u, there, holds) = none_holds-Holder lock threads h in (suc j, u, there, holds)
is_free-Holder lock (suc i) (t ∷ threads) h = elim (Bool-cases (holds_lock lock t.held)) [
  | inl holds ↦ (0, t, refl, holds)
  | inr free ↦
      let (j, u, there, holds) = is_free-Holder lock i threads (ground (arith, h, free)) in
      (suc j, u, there, holds)
]

Phase-cases :
    (p : Phase)
    → (p ≡ running)
      ⊎ (((key : String) × (lock : ℕ) × (p ≡ waiting key lock))
          ⊎ ((key : String) × (p ≡ leaving key)))
Phase-cases running = inl refl
Phase-cases (waiting key lock) = inr (inl (key, lock, refl))
Phase-cases (leaving key) = inr (inr (key, refl))

-- The key of a held lock.
held_key :
    (locks : Dict String (ℕ × ℕ)) (Q : String × ℕ → Type 0) (lock : ℕ) (held : List (String × ℕ))
    → All (KeyedPair locks) held
    → All Q held
    → holds_lock lock held ≡ true
    → (key : String) × (lock_of (get str_dec key locks) ≡ some lock) × Q (key, lock)
unfolding holds_lock
held_key locks Q lock [] k q h = absurd (true≢false (sym h))
held_key locks Q lock ((key, l) ∷ held) k q h = elim (Bool-cases (lock == l)) [
  | inl same ↦
      let it : l ≡ lock = ground (arith, same) in
      (
        key,
        subst (λ m. lock_of (get str_dec key locks) ≡ some m) it k.0,
        subst (λ m. Q (key, m)) it q.0,
      )
  | inr other ↦ held_key locks Q lock held k.1 q.1 (ground (arith, h, other))
]

module _ (rank : String → ℕ) {s : Latch} (inv : Held s) (apart : Apart s)
    (nested : IsNested rank s) where
  released :
      (j : ℕ) (u : Thread) (lock : ℕ) (held : List (String × ℕ))
      → get_elem? s.threads j ≡ some u
      → u.phase ≡ running
      → u.held ≡ held
      → holds_lock lock held ≡ true
      → Moves s
  unfolding holds_lock moves
  released j u lock [] there now top h = absurd (true≢false (sym h))
  released j u lock ((k, l) ∷ held) there now top h = (_, releases j u k l held there now top, refl)

  progress :
      (r i : ℕ) (t : Thread) (key : String) (lock : ℕ)
      → get_elem? s.threads i ≡ some t
      → t.phase ≡ waiting key lock
      → rank key < r
      → Moves s
  unfolding moves
  progress zero i t key lock at now small = absurd (omega (arith, small))
  progress (suc r) i t key lock at now small = elim (Bool-cases (is_free lock i s.threads)) [
    | inl free ↦ (_, acquires i t key lock at now free, refl)
    | inr taken ↦
        let (j, u, there, holds) = is_free-Holder lock i s.threads taken in
        let keyed_t = All-get_elem? (Keyed s.locks) i t s.threads inv.keyed at in
        let keyed_u = All-get_elem? (Keyed s.locks) j u s.threads inv.keyed there in
        elim (Phase-cases u.phase) [
          | inl body ↦ released j u lock u.held there body refl holds
          | inr (inr (k, out)) ↦ (_, leaves j u k there out, refl)
          | inr (inl (k, l, waits)) ↦
              let (key', has, lower) =
                held_key s.locks (λ pair. rank k < rank pair.0) lock u.held keyed_u.0
                  (nested j u k l there waits) holds in
              let waited : lock_of (get str_dec key s.locks) ≡ some lock =
                subst (KeyedPhase s.locks) now keyed_t.1 in
              let same = ap rank (apart.injective key' key lock has waited) in
              progress r j u k l there waits (omega (arith, small, lower, same))
        ]
  ]

-- If calls inside a held key are for keys of smaller rank, in some ranking of the keys, then in
-- every reachable state in which a thread waits for a key a step is possible that is neither a
-- new call nor an interrupt: some thread can acquire its lock, release it, or give its
-- reference back.
pub Reach-Moves :
    {n : ℕ} {s : Latch} (rank : String → ℕ) (i : ℕ) (t : Thread) (key : String) (lock : ℕ)
    → Reach n s
    → IsNested rank s
    → get_elem? s.threads i ≡ some t
    → t.phase ≡ waiting key lock
    → Moves s
Reach-Moves rank i t key lock r nested at now =
    progress rank (Reach-Held r) (Reach-Apart r) nested (suc (rank key)) i t key lock at now
      (omega arith)
