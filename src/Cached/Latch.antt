-- ===== src/Cached/Latch.antt =====
-- emboss/_cached.py: `_InflightLatch`, as the steps that the threads of a process take.
-- A thread may hold several keys, the innermost first. What `threading.RLock` does is taken as
-- documented: a thread gets a lock that no other thread holds, one of its own included.
mod Apart
mod Exclusive
mod Keyed
pub mod Mutex
pub mod Progress
pub mod Refs
pub mod Table
use emboss.Prelude.{
  ℕ, zero, suc, ◌+◌, ◌-◌, ◌≡◌, String, Bool, true, false, not, ◌&&◌, ◌||◌, Option, none, some, List,
  [], ◌∷◌, get_elem?, sum_by, ◌==◌, str_eq, if◌then◌else◌,
}
use mathlib.Core.Logic.{ite}
use emboss.Prelude.Dict.{Dict, get, put, remove, str_dec}

-- Inside `hold` of a key: before the lock is acquired, or behind its release.
pub data Phase : Type 0 where
  running : Phase
  waiting : String → ℕ → Phase
  leaving : String → Phase

pub record Thread : Type 0 where
  pub held : List (String × ℕ)
  pub phase : Phase

-- `_locks`, a lock with the number of its references, and a number for the next `RLock`.
pub record Latch : Type 0 where
  pub locks : Dict String (ℕ × ℕ)
  pub next : ℕ
  pub threads : List Thread

-- The first block under the guard, with the lock that it got.
unfoldable pub enter : String → Latch → Latch × ℕ
enter key s = elim (get str_dec key s.locks) [
  | none ↦ (record s { locks = put str_dec key (s.next, 1) s.locks; next = suc s.next }, s.next)
  | some (lock, refs) ↦ (record s { locks = put str_dec key (lock, refs + 1) s.locks }, lock)
]

-- The last block under the guard. Without the key, where the source would raise, nothing changes.
unfoldable pub leave : String → Latch → Latch
leave key s = elim (get str_dec key s.locks) [
  | none ↦ s
  | some (lock, refs) ↦
      if refs == 1
      then record s { locks = remove str_dec key s.locks }
      else record s { locks = put str_dec key (lock, refs - 1) s.locks }
]

unfoldable pub holds_lock : ℕ → List (String × ℕ) → Bool
holds_lock lock [] = false
holds_lock lock ((key, l) ∷ held) = lock == l || holds_lock lock held

unfoldable pub holds_key : String → List (String × ℕ) → Bool
holds_key key [] = false
holds_key key ((k, l) ∷ held) = str_eq key k || holds_key key held

none_holds : ℕ → List Thread → Bool
unfolding holds_lock
none_holds lock [] = true
none_holds lock (t ∷ threads) = not (holds_lock lock t.held) && none_holds lock threads

-- No thread but the one at the position holds the lock.
unfoldable pub is_free : ℕ → ℕ → List Thread → Bool
unfolding none_holds holds_lock
is_free lock i [] = true
is_free lock zero (t ∷ threads) = none_holds lock threads
is_free lock (suc i) (t ∷ threads) = not (holds_lock lock t.held) && is_free lock i threads

unfoldable pub set_at : ℕ → Thread → List Thread → List Thread
set_at i t [] = []
set_at zero t (u ∷ threads) = t ∷ threads
set_at (suc i) t (u ∷ threads) = u ∷ set_at i t threads

unfoldable pub placed : ℕ → Thread → Latch → Latch
unfolding set_at
placed i t s = record s { threads = set_at i t s.threads }

-- `hold` of a key: `enters`, then `acquires`, the body, `releases` and `leaves`; an interrupt of the
-- wait goes to `leaves` at once.
pub data Step : Latch → Latch → Type 0 where
  enters :
      {s : Latch} (i : ℕ) (t : Thread) (key : String)
      → get_elem? s.threads i ≡ some t
      → t.phase ≡ running
      → Step s (placed i (record t { phase = waiting key (enter key s).1 }) (enter key s).0)
  acquires :
      {s : Latch} (i : ℕ) (t : Thread) (key : String) (lock : ℕ)
      → get_elem? s.threads i ≡ some t
      → t.phase ≡ waiting key lock
      → is_free lock i s.threads ≡ true
      → Step s (placed i (record { held = (key, lock) ∷ t.held; phase = running }) s)
  interrupted :
      {s : Latch} (i : ℕ) (t : Thread) (key : String) (lock : ℕ)
      → get_elem? s.threads i ≡ some t
      → t.phase ≡ waiting key lock
      → Step s (placed i (record t { phase = leaving key }) s)
  releases :
      {s : Latch} (i : ℕ) (t : Thread) (key : String) (lock : ℕ) (held : List (String × ℕ))
      → get_elem? s.threads i ≡ some t
      → t.phase ≡ running
      → t.held ≡ (key, lock) ∷ held
      → Step s (placed i (record { held = held; phase = leaving key }) s)
  leaves :
      {s : Latch} (i : ℕ) (t : Thread) (key : String)
      → get_elem? s.threads i ≡ some t
      → t.phase ≡ leaving key
      → Step s (placed i (record t { phase = running }) (leave key s))

abbrev pub idle : Thread
idle = record { held = []; phase = running }

unfoldable pub idle_threads : ℕ → List Thread
idle_threads zero = []
idle_threads (suc n) = idle ∷ idle_threads n

-- `reset`, with a number of threads.
pub data Reach (n : ℕ) : Latch → Type 0 where
  start : Reach n (record { locks = []; next = 0; threads = idle_threads n })
  step : {s s' : Latch} → Reach n s → Step s s' → Reach n s'

-- 1 if the keys are the same, else 0
unfoldable pub one : String → String → ℕ
one k key = ite (str_dec k key) 1 0

-- The references that a thread has taken and not given back.
unfoldable pub holds_count : String → List (String × ℕ) → ℕ
holds_count key [] = 0
holds_count key ((k, l) ∷ held) = one k key + holds_count key held

unfoldable pub phase_count : String → Phase → ℕ
phase_count key running = 0
phase_count key (waiting k lock) = one k key
phase_count key (leaving k) = one k key

unfoldable pub enrolled : String → Thread → ℕ
unfolding holds_count phase_count
enrolled key t = holds_count key t.held + phase_count key t.phase
