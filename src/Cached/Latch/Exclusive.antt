-- ===== src/Cached/Latch/Exclusive.antt =====
-- emboss/_cached.py: who is inside the in-flight latch.
use emboss.Prelude.{
  ℕ, zero, suc, ◌≡◌, ◌≢◌, ◌⊎◌, refl, sym, ap, ◌∙◌, inl, inr, true, false, Bool-cases, some, List,
  [], ◌∷◌, get_elem?, arith,
}
use mathlib.Core.Bool.{true≢false}
use mathlib.Core.Path.{subst}
use mathlib.Core.Option.{some-injective}
use emboss.Cached.Latch.{Thread, set_at, holds_lock, none_holds, is_free}

-- What a position holds once one of them has changed.
pub get_elem?-set_at :
    (i j : ℕ) (t u : Thread) (threads : List Thread)
    → get_elem? (set_at i t threads) j ≡ some u
    → ((i ≡ j) × (u ≡ t)) ⊎ ((i ≢ j) × (get_elem? threads j ≡ some u))
unfolding set_at
get_elem?-set_at i j t u [] h = absurd (ground (arith, h))
get_elem?-set_at zero zero t u (x ∷ threads) h = inl (refl, sym (some-injective _ _ h))
get_elem?-set_at zero (suc j) t u (x ∷ threads) h = inr ((λ e. absurd (omega (arith, e))), h)
get_elem?-set_at (suc i) zero t u (x ∷ threads) h = inr ((λ e. absurd (omega (arith, e))), h)
get_elem?-set_at (suc i) (suc j) t u (x ∷ threads) h = elim (get_elem?-set_at i j t u threads h) [
  | inl (same, it) ↦ inl (ap suc same, it)
  | inr (apart, there) ↦ inr ((λ e. apart (omega (arith, e))), there)
]

none_holds_at :
    (lock j : ℕ) (u : Thread) (threads : List Thread)
    → none_holds lock threads ≡ true
    → get_elem? threads j ≡ some u
    → holds_lock lock u.held ≡ false
unfolding none_holds
none_holds_at lock j u [] h there = absurd (ground (arith, there))
none_holds_at lock zero u (t ∷ threads) h there =
    subst (λ (q : Thread). holds_lock lock q.held ≡ false) (some-injective _ _ there)
      (ground (arith, h))
none_holds_at lock (suc j) u (t ∷ threads) h there =
    none_holds_at lock j u threads (ground (arith, h)) there

is_free_at :
    (lock i j : ℕ) (u : Thread) (threads : List Thread)
    → is_free lock i threads ≡ true
    → i ≢ j
    → get_elem? threads j ≡ some u
    → holds_lock lock u.held ≡ false
unfolding is_free
is_free_at lock i j u [] h apart there = absurd (ground (arith, there))
is_free_at lock zero zero u (t ∷ threads) h apart there = absurd (apart refl)
is_free_at lock zero (suc j) u (t ∷ threads) h apart there = none_holds_at lock j u threads h there
is_free_at lock (suc i) zero u (t ∷ threads) h apart there =
    subst (λ (q : Thread). holds_lock lock q.held ≡ false) (some-injective _ _ there)
      (ground (arith, h))
is_free_at lock (suc i) (suc j) u (t ∷ threads) h apart there =
    is_free_at lock i j u threads (ground (arith, h)) (λ e. apart (ap suc e)) there

-- No lock is held by two threads.
abbrev pub Exclusive : List Thread → Type 0
Exclusive threads =
    (i j : ℕ) (t u : Thread) (lock : ℕ)
    → i ≢ j
    → get_elem? threads i ≡ some t
    → get_elem? threads j ≡ some u
    → holds_lock lock t.held ≡ true
    → holds_lock lock u.held ≡ false

pub set_at-Exclusive :
    (i : ℕ) (old t : Thread) (threads : List Thread)
    → get_elem? threads i ≡ some old
    → ((lock : ℕ)
        → holds_lock lock t.held ≡ true
        → (holds_lock lock old.held ≡ true) ⊎ (is_free lock i threads ≡ true))
    → Exclusive threads
    → Exclusive (set_at i t threads)
set_at-Exclusive i old t threads at only ex a b x y lock apart ax by holds =
    elim (get_elem?-set_at i a t x threads ax) [
      | inl (ia, xt) ↦
          let others : (i ≢ b) = λ e. apart (sym ia ∙ e) in
          let holds_t : holds_lock lock t.held ≡ true =
            subst (λ (q : Thread). holds_lock lock q.held ≡ true) xt holds in
          elim (get_elem?-set_at i b t y threads by) [
            | inl (ib, yt) ↦ absurd (others ib)
            | inr (nb, there) ↦ elim (only lock holds_t) [
              | inl before ↦ ex i b old y lock others at there before
              | inr free ↦ is_free_at lock i b y threads free others there
            ]
          ]
      | inr (na, there_a) ↦ elim (get_elem?-set_at i b t y threads by) [
        | inr (nb, there) ↦ ex a b x y lock apart there_a there holds
        | inl (ib, yt) ↦ elim (Bool-cases (holds_lock lock y.held)) [
          | inr no_lock ↦ no_lock
          | inl both ↦
              let both_t : holds_lock lock t.held ≡ true =
                subst (λ (q : Thread). holds_lock lock q.held ≡ true) yt both in
              elim (only lock both_t) [
                | inl before ↦
                    absurd (true≢false (sym holds ∙ ex i a old x lock na at there_a before))
                | inr free ↦
                    absurd (true≢false (sym holds ∙ is_free_at lock i a x threads free na there_a))
              ]
        ]
      ]
    ]
