-- ===== src/Log/Scan/Resync.antt =====
-- emboss/_log_cache.py: `_resync`, and the frames behind a tear.
use emboss.Prelude.{
  ℕ, zero, suc, ◌+◌, ◌-◌, ◌≤◌, ◌<◌, ◌≡◌, refl, ap, inl, inr, some, List, [], ◌∷◌, arith, ◌&&◌, ◌==◌,
  true, ltb, lt→ltb, drop, get_elem?, Bool-cases, is_some,
}
use emboss.Log.Record.{Bytes, Pickle}
use emboss.Log.Frame.{header_size, parse_frame}
use emboss.Log.Scan.{proto, resync_from, resync}
use emboss.Log.Scan.Laws.{resync_lem}

get_elem?-drop {ℓ} :
    {A : Type ℓ} (n k : ℕ) (xs : List A) → get_elem? (drop n xs) k ≡ get_elem? xs (n + k)
get_elem?-drop zero k xs = ap (get_elem? xs) (omega arith)
get_elem?-drop (suc n) k [] = refl
get_elem?-drop (suc n) k (x ∷ xs) =
    let e : suc n + k ≡ suc (n + k) = omega arith in rw e (get_elem?-drop n k xs)

module _ {V : Type 0} (p : Pickle V) where
  -- A candidate at distance `k` in the tail is found, or one before it is.
  resync_from-le :
      (log : Bytes) (after : ℕ) (tail : Bytes) (idx k start : ℕ)
      → get_elem? tail k ≡ some proto
      → start + header_size ≡ idx + k
      → after < start
      → is_some (parse_frame p log start) ≡ true
      → (nxt : ℕ) × (resync_from p log after tail idx ≡ some nxt) × (nxt ≤ start)
  unfolding resync_from
  resync_from-le log after [] idx k start at e past ok = cc
  resync_from-le log after (x ∷ tail) idx zero start at e past ok =
      let e' : idx - header_size ≡ start = omega arith in
      (start, rw e' (rw (lt→ltb after start past, ok) (ground arith)), omega arith)
  resync_from-le log after (x ∷ tail) idx (suc k) start at e past ok =
      let here = idx - header_size in
      elim (Bool-cases (x == proto && (ltb after here && is_some (parse_frame p log here)))) [
        | inl hit ↦ (here, rw hit, omega arith)
        | inr miss ↦
            let (nxt, found, le) =
              resync_from-le log after tail (idx + 1) k start at (omega arith) past ok in
            (nxt, rw miss found, le)
      ]

  -- If behind a tear a frame parses whose blob begins with the protocol byte, then `_resync`
  -- returns a position behind the tear, not later than that frame, at which a frame parses.
  pub resync_first :
      (log : Bytes) (after start : ℕ)
      → after < start
      → get_elem? log (start + header_size) ≡ some proto
      → is_some (parse_frame p log start) ≡ true
      → (nxt : ℕ) × (resync p log after ≡ some nxt)
        × (after < nxt)
        × (nxt ≤ start)
        × (is_some (parse_frame p log nxt) ≡ true)
  unfolding resync
  resync_first log after start past at ok =
      let from = after + header_size + 1 in
      let k = start + header_size - from in
      let place : from + k ≡ start + header_size = omega arith in
      let (nxt, found, le) =
        resync_from-le log after (drop from log) from k start
          (rw (get_elem?-drop from k log, place) at) (omega arith) past ok in
      let (gt, parses) = resync_lem p log after found in (nxt, found, gt, le, parses)
