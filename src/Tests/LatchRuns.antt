-- ===== src/Tests/LatchRuns.antt =====
-- emboss/_cached.py: the theorems on the in-flight latch, at two threads that want one key.
use emboss.Prelude.{
  ℕ, zero, suc, ◌≡◌, ◌≢◌, refl, ◌↔◌, String, true, false, none, some, [], ◌∷◌, get_elem?, sum_by,
  All, ◌<◌, arith,
}
use emboss.Prelude.Dict.{get, put, str_dec}
use emboss.Cached.Latch.{
  Thread, Latch, running, waiting, enter, holds_key, is_free, set_at, placed, Step, enters,
  acquires, idle, idle_threads, Reach, start, step, enrolled,
}
use mathlib.Core.Path.{subst}
use mathlib.Core.Option.{some-injective}
use emboss.Cached.Latch.Refs.{refs_of}
use emboss.Cached.Latch.Table.{Reach-refs_of}
use emboss.Cached.Latch.Mutex.{Reach-holds_key}
use emboss.Cached.Latch.Progress.{IsNested, Moves, Reach-Moves}

abbrev empty : Latch
empty = record { locks = []; next = 0; threads = idle_threads 2 }

abbrev holder : Thread
holder = record { held = ("k", 0) ∷ []; phase = running }

abbrev waiter : Thread
waiter = record { held = []; phase = waiting "k" 0 }

abbrev entered : Latch
entered = record { locks = ("k", (0, 1)) ∷ []; next = 1; threads = waiter ∷ idle ∷ [] }

abbrev taken : Latch
taken = record { locks = ("k", (0, 1)) ∷ []; next = 1; threads = holder ∷ idle ∷ [] }

abbrev contended : Latch
contended = record { locks = ("k", (0, 2)) ∷ []; next = 1; threads = holder ∷ waiter ∷ [] }

first : Step empty entered
unfolding enter placed set_at idle_threads get put
first = enters 0 idle "k" refl refl

second : Step entered taken
unfolding placed set_at is_free
second = acquires 0 waiter "k" 0 refl refl refl

third : Step taken contended
unfolding enter placed set_at get put str_dec
third = enters 1 idle "k" refl refl

run : Reach 2 contended
run = step (step (step start first) second) third

Reach-refs_of_example :
    (refs_of (get str_dec "k" contended.locks) ≡ sum_by (enrolled "k") contended.threads)
    × ((get str_dec "k" contended.locks ≡ none) ↔ (sum_by (enrolled "k") contended.threads ≡ 0))
Reach-refs_of_example = Reach-refs_of "k" run

apart : ◌≢◌ {A = ℕ} 0 1
apart e = absurd (omega (arith, e))

at0 : get_elem? contended.threads 0 ≡ some holder
at0 = refl

at1 : get_elem? contended.threads 1 ≡ some waiter
at1 = refl

holds : holds_key "k" holder.held ≡ true
unfolding holds_key
holds = refl

Reach-holds_key_example : holds_key "k" waiter.held ≡ false
Reach-holds_key_example = Reach-holds_key "k" 0 1 holder waiter run apart at0 at1 holds

abbrev flat : String → ℕ
flat k = 0

nested : IsNested flat contended
nested zero t key lock at now = absurd (ground (arith, at, now))
nested (suc zero) t key lock at now =
    subst (λ u. All (λ (pair : String × ℕ). flat key < flat pair.0) u.held) (some-injective _ _ at)
      tt
nested (suc (suc i)) t key lock at now = absurd (ground (arith, at))

Reach-Moves_example : Moves contended
Reach-Moves_example = Reach-Moves flat 1 waiter "k" 0 run nested at1 refl
