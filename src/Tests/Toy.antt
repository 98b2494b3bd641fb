-- ===== src/Tests/Toy.antt =====
-- A pickle for the tests: the protocol byte, then a tag and the parts of each object, a text as its
-- code points and a zero. A byte is any number here.
use Prim.Native.Nat.{Ordering, compare}
use Prim.Native.Char.{Char, char, code, nul, IsLt}
use Prim.Native.String.{[] as no_chars, ◌∷◌ as char_then}
use package.text.Mathlib.TextEquality.{Char-path}
use emboss.Prelude.{
  ℕ, zero, suc, ◌-◌, ◌≡◌, refl, ap, String, true, false, Option, none, some, List, [], ◌∷◌, ◌++◌,
  append-nil, append_assoc, arith, length,
}
use emboss.Log.Record.{Bytes, Py, null, text, number, flag, other, Obj, tup, atom, Pickle, IsPickle}

-- The comparisons of `Prim.Native.Char.IsScalar`, by the same clauses.
abbrev BothLt : Ordering → Ordering → Type 0
BothLt Ordering.lt o = IsLt o
BothLt Ordering.eq _ = ⊥
BothLt Ordering.gt _ = ⊥

abbrev Scalar : Ordering → Ordering → Ordering → Type 0
Scalar Ordering.lt _ _ = Unit
Scalar Ordering.eq o p = BothLt o p
Scalar Ordering.gt o p = BothLt o p

is_lt : (o : Ordering) → Dec (IsLt o)
is_lt Ordering.lt = yes tt
is_lt Ordering.eq = no (λ x. x)
is_lt Ordering.gt = no (λ x. x)

both : (o p : Ordering) → Dec (BothLt o p)
unfolding is_lt
both Ordering.lt p = is_lt p
both Ordering.eq p = no (λ x. x)
both Ordering.gt p = no (λ x. x)

scalar : (n o p : Ordering) → Dec (Scalar n o p)
unfolding both
scalar Ordering.lt o p = yes tt
scalar Ordering.eq o p = both o p
scalar Ordering.gt o p = both o p

of_code : ℕ → Char
unfolding scalar
of_code n = elim (scalar (compare n 55296) (compare 57343 n) (compare n 1114112)) [
  | yes p ↦ char n p
  | no _ ↦ nul
]

of_code-code : (c : Char) → of_code (code c) ≡ c
unfolding of_code
of_code-code (char n p) = go (scalar (compare n 55296) (compare 57343 n) (compare n 1114112))
  where
    go :
        (d : Dec (Scalar (compare n 55296) (compare 57343 n) (compare n 1114112)))
        → elim d [ yes q ↦ char n q | no _ ↦ nul ] ≡ char n p
    go (yes q) = Char-path (char n q) (char n p) refl
    go (no q) = absurd (q p)

put_text : String → Bytes
put_text no_chars = 0 ∷ []
put_text (char_then c s) = suc (code c) ∷ put_text s

get_text : Bytes → Option (String × Bytes)
unfolding of_code
get_text [] = none
get_text (zero ∷ bs) = some ("", bs)
get_text (suc n ∷ bs) = elim (get_text bs) [
  | none ↦ none
  | some (s, rest) ↦ some (char_then (of_code n) s, rest)
]

get_text-put_text : (s : String) (rest : Bytes) → get_text (put_text s ++ rest) ≡ some (s, rest)
unfolding get_text put_text
get_text-put_text no_chars rest = refl
get_text-put_text (char_then c s) rest = rw (get_text-put_text s rest, of_code-code c) refl

put_py : Py Unit → Bytes
unfolding put_text
put_py null = 0 ∷ []
put_py (text s) = 1 ∷ put_text s
put_py (number n) = 2 ∷ n ∷ []
put_py (flag false) = 3 ∷ []
put_py (flag true) = 4 ∷ []
put_py (other _) = 5 ∷ []

texted : Option (String × Bytes) → Option (Py Unit × Bytes)
texted none = none
texted (some (s, rest)) = some (text s, rest)

get_py : Bytes → Option (Py Unit × Bytes)
unfolding get_text texted
get_py (zero ∷ bs) = some (null, bs)
get_py (suc zero ∷ bs) = texted (get_text bs)
get_py (suc (suc zero) ∷ n ∷ bs) = some (number n, bs)
get_py (suc (suc (suc zero)) ∷ bs) = some (flag false, bs)
get_py (suc (suc (suc (suc zero))) ∷ bs) = some (flag true, bs)
get_py (suc (suc (suc (suc (suc zero)))) ∷ bs) = some (other tt, bs)
get_py _ = none

get_py-put_py : (x : Py Unit) (rest : Bytes) → get_py (put_py x ++ rest) ≡ some (x, rest)
unfolding get_py put_py texted
get_py-put_py null rest = refl
get_py-put_py (text s) rest = rw (get_text-put_text s rest) refl
get_py-put_py (number n) rest = refl
get_py-put_py (flag false) rest = refl
get_py-put_py (flag true) rest = refl
get_py-put_py (other tt) rest = refl

put_all : List (Py Unit) → Bytes
unfolding put_py
put_all [] = []
put_all (x ∷ xs) = put_py x ++ put_all xs

after_one : Py Unit → Option (List (Py Unit) × Bytes) → Option (List (Py Unit) × Bytes)
after_one x none = none
after_one x (some (xs, rest)) = some (x ∷ xs, rest)

get_all : ℕ → Bytes → Option (List (Py Unit) × Bytes)
unfolding get_py after_one
get_all zero bs = some ([], bs)
get_all (suc n) bs = elim (get_py bs) [
  | none ↦ none
  | some (x, rest) ↦ after_one x (get_all n rest)
]

get_all-put_all :
    (xs : List (Py Unit)) (rest : Bytes)
    → get_all (length xs) (put_all xs ++ rest) ≡ some (xs, rest)
unfolding get_all put_all after_one
get_all-put_all [] rest = refl
get_all-put_all (x ∷ xs) rest =
    rw
      (
        append_assoc (put_py x) (put_all xs) rest,
        get_all,
        get_py-put_py x (put_all xs ++ rest),
        get_all-put_all xs rest,
      )
      refl

toy_dumps : Obj Unit → Bytes
unfolding put_all
toy_dumps (tup xs) = 0x80 ∷ 0 ∷ length xs ∷ put_all xs
toy_dumps (atom x) = 0x80 ∷ 1 ∷ put_py x

tupled : Option (List (Py Unit) × Bytes) → Option (Obj Unit × Bytes)
tupled none = none
tupled (some (xs, rest)) = some (tup xs, rest)

single : Option (Py Unit × Bytes) → Option (Obj Unit × Bytes)
single none = none
single (some (x, rest)) = some (atom x, rest)

get_obj : Bytes → Option (Obj Unit × Bytes)
unfolding get_all tupled single
get_obj (_ ∷ zero ∷ n ∷ bs) = tupled (get_all n bs)
get_obj (_ ∷ suc zero ∷ bs) = single (get_py bs)
get_obj _ = none

toy_load : Bytes → Option (Obj Unit × ℕ)
unfolding get_obj
toy_load bs = elim (get_obj bs) [
  | none ↦ none
  | some (obj, rest) ↦ some (obj, length bs - length rest)
]

get_obj-toy_dumps : (o : Obj Unit) → get_obj (toy_dumps o) ≡ some (o, [])
unfolding get_obj toy_dumps tupled single
get_obj-toy_dumps (tup xs) = rw ((rw append-nil at (get_all-put_all xs []))) refl
get_obj-toy_dumps (atom x) = rw ((rw append-nil at (get_py-put_py x []))) refl

toy_load-toy_dumps : (o : Obj Unit) → toy_load (toy_dumps o) ≡ some (o, length (toy_dumps o))
unfolding toy_load
toy_load-toy_dumps o =
    let whole : length (toy_dumps o) - 0 ≡ length (toy_dumps o) = omega arith in
    rw (toy_load, get_obj-toy_dumps o) (ap (λ (n : ℕ). some (o, n)) whole)

unfoldable pub toy : Pickle Unit
unfolding toy_dumps toy_load
toy = record { dumps = toy_dumps; load = toy_load; salvage_load = λ _. none }

pub toy-IsPickle : IsPickle toy
unfolding toy
toy-IsPickle = record { load-dumps = toy_load-toy_dumps }
