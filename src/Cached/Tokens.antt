-- ===== src/Cached/Tokens.antt =====
-- emboss/_cached.py: `_parse_accept_token`, on texts as lists of code points.
use emboss.Prelude.{
  ℕ, ◌≡◌, refl, Bool, true, false, Option, none, some, List, [], ◌∷◌, ◌++◌, All, ◌==◌,
  if◌then◌else◌,
}

-- `:`
abbrev pub colon : ℕ
colon = 58

-- `token.partition(":")`: the text before the separator, whether it is there, and the text behind.
unfoldable pub partition : List ℕ → List ℕ × Bool × List ℕ
partition [] = ([], false, [])
partition (c ∷ cs) =
    let rest = partition cs in if c == colon then ([], true, cs) else (c ∷ rest.0, rest.1, rest.2)

-- `none` is the `ValueError`: no separator, no name or no hash.
checked : List ℕ × Bool × List ℕ → Option (List ℕ × List ℕ)
checked (name, false, body_hash) = none
checked ([], true, body_hash) = none
checked (c ∷ cs, true, []) = none
checked (c ∷ cs, true, h ∷ hs) = some (c ∷ cs, h ∷ hs)

unfoldable pub parse_accept_token : List ℕ → Option (List ℕ × List ℕ)
unfolding partition checked
parse_accept_token token = checked (partition token)

-- `f"{name}:{body_hash}"`, as `cache_id` spells it
abbrev pub cache_id : List ℕ → List ℕ → List ℕ
cache_id name body_hash = name ++ colon ∷ body_hash

partition-cache_id :
    (name body_hash : List ℕ)
    → All (λ c. (c == colon) ≡ false) name
    → partition (cache_id name body_hash) ≡ (name, true, body_hash)
unfolding partition
partition-cache_id [] body_hash h = refl
partition-cache_id (c ∷ cs) body_hash h = rw (h.0, partition-cache_id cs body_hash h.1) refl

-- The identity spelled from a name without a colon and a body hash, neither of them empty,
-- parses as an accept token back to the name and the hash, whatever the hash holds.
pub parse_accept_token-cache_id :
    (c h : ℕ) (name body_hash : List ℕ)
    → All (λ x. (x == colon) ≡ false) (c ∷ name)
    → parse_accept_token (cache_id (c ∷ name) (h ∷ body_hash)) ≡ some (c ∷ name, h ∷ body_hash)
unfolding parse_accept_token checked
parse_accept_token-cache_id c h name body_hash no_colon =
    rw (partition-cache_id (c ∷ name) (h ∷ body_hash) no_colon) refl
