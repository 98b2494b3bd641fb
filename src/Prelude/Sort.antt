-- ===== src/Prelude/Sort.antt =====
-- `sorted(xs, key=...)`: a stable insertion sort by a number.
use Prim.Native.Nat.{ℕ, ◌≤◌, ◌+◌}
use mathlib.Core.Path.{◌≡◌, refl}
use mathlib.Core.List.{List, [], ◌∷◌}
use mathlib.Core.Logic.{inl, inr}
use native.Mathlib.Omega.{arith}
use package.emboss.Prelude.Tests.{ltb, Bool-cases, ltb→lt, ltb→le, if◌then◌else◌}
use package.emboss.Prelude.Lists.{All, sum_by}

module _ {ℓ} {A : Type ℓ} (key : A → ℕ) where
  -- in front of the first strictly larger one, so that equals keep their order
  unfoldable pub insert_by : A → List A → List A
  insert_by x [] = x ∷ []
  insert_by x (y ∷ ys) = if ltb (key x) (key y) then x ∷ y ∷ ys else y ∷ insert_by x ys

  insert_all : List A → List A → List A
  unfolding insert_by
  insert_all acc [] = acc
  insert_all acc (x ∷ xs) = insert_all (insert_by x acc) xs

  unfoldable pub sorted_by : List A → List A
  unfolding insert_all
  sorted_by xs = insert_all [] xs

  abbrev pub Ascending : List A → Type 0
  Ascending [] = Unit
  Ascending (x ∷ xs) = All (λ y. key x ≤ key y) xs × Ascending xs

  module _ {κ} (P : A → Type κ) where
    insert_by-All : (x : A) (ys : List A) → P x → All P ys → All P (insert_by x ys)
    unfolding insert_by
    insert_by-All x [] h k = (h, tt)
    insert_by-All x (y ∷ ys) h k = elim (Bool-cases (ltb (key x) (key y))) [
      | inl lt ↦ rw lt (h, k)
      | inr ge ↦ rw ge (k.0, insert_by-All x ys h k.1)
    ]

    insert_all-All : (acc xs : List A) → All P acc → All P xs → All P (insert_all acc xs)
    unfolding insert_all
    insert_all-All acc [] h k = h
    insert_all-All acc (x ∷ xs) h k =
        insert_all-All (insert_by x acc) xs (insert_by-All x acc k.0 h) k.1

    -- Sorting keeps what holds of every element.
    pub sorted_by-All : (xs : List A) → All P xs → All P (sorted_by xs)
    unfolding sorted_by
    sorted_by-All xs h = insert_all-All [] xs tt h

  module _ {κ} (P : A → Type κ) where
    All-insert_by : (x : A) (ys : List A) → All P (insert_by x ys) → P x × All P ys
    unfolding insert_by
    All-insert_by x [] h = (h.0, tt)
    All-insert_by x (y ∷ ys) h = elim (Bool-cases (ltb (key x) (key y))) [
      | inl lt ↦ let h' : P x × (P y × All P ys) = rw lt at h in h'
      | inr ge ↦
          let h' : P y × All P (insert_by x ys) = rw ge at h in
          let (px, all) = All-insert_by x ys h'.1 in (px, (h'.0, all))
    ]

    All-insert_all : (acc xs : List A) → All P (insert_all acc xs) → All P acc × All P xs
    unfolding insert_all
    All-insert_all acc [] h = (h, tt)
    All-insert_all acc (x ∷ xs) h =
        let (inner, all) = All-insert_all (insert_by x acc) xs h in
        let (px, old) = All-insert_by x acc inner in (old, (px, all))

    -- What holds of every element of the sorted list holds of every element.
    pub All-sorted_by : (xs : List A) → All P (sorted_by xs) → All P xs
    unfolding sorted_by
    All-sorted_by xs h = (All-insert_all [] xs h).1

  All-le_trans : (a b : ℕ) (ys : List A) → a ≤ b → All (λ y. b ≤ key y) ys → All (λ y. a ≤ key y) ys
  All-le_trans a b [] h k = tt
  All-le_trans a b (y ∷ ys) h k = (omega arith, All-le_trans a b ys h k.1)

  insert_by-Ascending : (x : A) (ys : List A) → Ascending ys → Ascending (insert_by x ys)
  unfolding insert_by
  insert_by-Ascending x [] h = (tt, tt)
  insert_by-Ascending x (y ∷ ys) h = elim (Bool-cases (ltb (key x) (key y))) [
    | inl lt ↦
        let less = ltb→lt (key x) (key y) lt in
        rw lt ((omega arith, All-le_trans (key x) (key y) ys (omega arith) h.0), h)
    | inr ge ↦ rw ge (
      insert_by-All (λ z. key y ≤ key z) x ys (ltb→le (key x) (key y) ge) h.0,
      insert_by-Ascending x ys h.1,
    )
  ]

  insert_all-Ascending : (acc xs : List A) → Ascending acc → Ascending (insert_all acc xs)
  unfolding insert_all
  insert_all-Ascending acc [] h = h
  insert_all-Ascending acc (x ∷ xs) h =
      insert_all-Ascending (insert_by x acc) xs (insert_by-Ascending x acc h)

  pub sorted_by-Ascending : (xs : List A) → Ascending (sorted_by xs)
  unfolding sorted_by
  sorted_by-Ascending xs = insert_all-Ascending [] xs tt

  -- Sorting keeps every sum, and so the length.
  module _ (f : A → ℕ) where
    insert_by-sum : (x : A) (ys : List A) → sum_by f (insert_by x ys) ≡ f x + sum_by f ys
    unfolding insert_by
    insert_by-sum x [] = refl
    insert_by-sum x (y ∷ ys) = ground (arith, insert_by-sum x ys)

    insert_all-sum : (acc xs : List A) → sum_by f (insert_all acc xs) ≡ sum_by f acc + sum_by f xs
    unfolding insert_all
    insert_all-sum acc [] = omega arith
    insert_all-sum acc (x ∷ xs) =
        omega (arith, insert_all-sum (insert_by x acc) xs, insert_by-sum x acc)

    pub sum-sorted_by : (xs : List A) → sum_by f (sorted_by xs) ≡ sum_by f xs
    unfolding sorted_by
    sum-sorted_by xs = omega (arith, insert_all-sum [] xs)
