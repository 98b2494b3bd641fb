-- ===== src/Prelude/Slices.antt =====
-- `data[a:b]` on a list, and how a slice of a concatenation is a slice of its part.
use Prim.Native.Nat.{ℕ, zero, suc, ◌+◌, ◌-◌, ◌≤◌, min}
use mathlib.Core.Path.{◌≡◌, refl, ap, sym}
use mathlib.Core.List.{List, [], ◌∷◌, ◌++◌}
use native.Mathlib.Omega.{arith}
use package.emboss.Prelude.Lists.{length, take, drop}

module _ {ℓ} {A : Type ℓ} where
  abbrev pub slice : List A → ℕ → ℕ → List A
  slice xs a b = take (b - a) (drop a xs)

  pub take-length : (n : ℕ) (xs ys : List A) → n ≡ length xs → take n (xs ++ ys) ≡ xs
  take-length zero [] ys h = refl
  take-length zero (x ∷ xs) ys h = absurd (omega arith)
  take-length (suc n) [] ys h = absurd (omega arith)
  take-length (suc n) (x ∷ xs) ys h = ap (◌∷◌ x) (take-length n xs ys (omega arith))

  pub drop-append : (xs ys : List A) (n k : ℕ) → n ≡ length xs + k → drop n (xs ++ ys) ≡ drop k ys
  drop-append [] ys n k h = ap (λ (m : ℕ). drop m ys) (omega arith)
  drop-append (x ∷ xs) ys zero k h = absurd (omega arith)
  drop-append (x ∷ xs) ys (suc n) k h = drop-append xs ys n k (omega arith)

  pub take-append-drop : (n : ℕ) (xs : List A) → take n xs ++ drop n xs ≡ xs
  take-append-drop zero xs = refl
  take-append-drop (suc n) [] = refl
  take-append-drop (suc n) (x ∷ xs) = ap (◌∷◌ x) (take-append-drop n xs)

  pub length-take : (n : ℕ) (xs : List A) → length (take n xs) ≡ min n (length xs)
  length-take zero xs = omega arith
  length-take (suc n) [] = omega arith
  length-take (suc n) (x ∷ xs) = omega (arith, length-take n xs)

  pub length-drop : (n : ℕ) (xs : List A) → length (drop n xs) ≡ length xs - n
  length-drop zero xs = omega arith
  length-drop (suc n) [] = omega arith
  length-drop (suc n) (x ∷ xs) = omega (arith, length-drop n xs)

  pub take-take : (n m : ℕ) (xs : List A) → n ≤ m → take n (take m xs) ≡ take n xs
  take-take zero m xs h = refl
  take-take (suc n) zero xs h = absurd (omega arith)
  take-take (suc n) (suc m) [] h = refl
  take-take (suc n) (suc m) (x ∷ xs) h = ap (◌∷◌ x) (take-take n m xs (omega arith))

  pub drop-take : (a b m : ℕ) (xs : List A) → m ≡ a + b → drop a (take m xs) ≡ take b (drop a xs)
  drop-take zero b m xs h = ap (λ (k : ℕ). take k xs) (omega arith)
  drop-take (suc a) b zero xs h = absurd (omega arith)
  drop-take (suc a) zero (suc m) [] h = refl
  drop-take (suc a) (suc b) (suc m) [] h = refl
  drop-take (suc a) b (suc m) (x ∷ xs) h = drop-take a b m xs (omega arith)

  pub slice-append :
      (xs ys : List A) (a b c d : ℕ)
      → c ≡ length xs + a
      → d ≡ length xs + b
      → slice (xs ++ ys) c d ≡ slice ys a b
  slice-append xs ys a b c d hc hd =
      let e : d - c ≡ b - a = omega arith in rw (drop-append xs ys c a hc, e)

  drop_nil : (n : ℕ) → drop {A = A} n [] ≡ []
  drop_nil zero = refl
  drop_nil (suc n) = refl

  pub drop-drop : (a b : ℕ) (xs : List A) → drop a (drop b xs) ≡ drop (b + a) xs
  drop-drop a zero xs = ap (λ (k : ℕ). drop k xs) (omega arith)
  drop-drop zero (suc b) [] = sym (drop_nil (suc b + 0))
  drop-drop (suc a) (suc b) [] = sym (drop_nil (suc b + suc a))
  drop-drop a (suc b) (x ∷ xs) =
      let e : suc b + a ≡ suc (b + a) = omega arith in rw e (drop-drop a b xs)

  -- A slice inside a slice.
  pub slice-slice :
      (xs : List A) (s e a b c d : ℕ)
      → a ≤ b
      → s + b ≤ e
      → c ≡ s + a
      → d ≡ s + b
      → slice (slice xs s e) a b ≡ slice xs c d
  slice-slice xs s e a b c d h k ec ed =
      let n : e - s ≡ a + (e - s - a) = omega arith in
      let m : b - a ≤ e - s - a = omega arith in
      let l : b - a ≡ d - c = omega arith in
      rw (
        drop-take a (e - s - a) (e - s) (drop s xs) n,
        take-take (b - a) _ _ m,
        drop-drop a s xs,
        ← ec,
        l,
      )
