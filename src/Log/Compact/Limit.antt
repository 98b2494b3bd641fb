-- ===== src/Log/Compact/Limit.antt =====
-- emboss/_log_cache.py: the sizes that `_trim_to_limit` leaves.
use emboss.Prelude.{
  ℕ, ◌+◌, ◌≤◌, String, inl, inr, Bool-cases, List, [], ◌∷◌, arith, sum_by, ltb, leb, leb→le, ltb→le,
}
use emboss.Log.Record.{Record}
use emboss.Log.Shard.{Env}
use emboss.Log.Compact.{rec_size, trim_from, trim_to_limit, newest_first}

module _ {V : Type 0} (env : Env V) (spill_size : String → ℕ) where
  trim_from-le :
      (limit running : ℕ) (recs : List (Record V))
      → running ≤ limit
      → running + sum_by (rec_size env spill_size) (trim_from env spill_size limit running recs)
        ≤ limit
  unfolding trim_from
  trim_from-le limit running [] le = omega (arith, le)
  trim_from-le limit running (rec ∷ recs) le =
      let size = rec_size env spill_size rec in
      elim (Bool-cases (ltb limit (running + size))) [
        | inl over ↦ rw over (omega (arith, le))
        | inr fits ↦
            let within = ltb→le limit (running + size) fits in
            let rest = trim_from-le limit (running + size) recs within in
            rw fits (omega (arith, rest))
      ]

  -- Whatever the records, the sizes of those that `_trim_to_limit` leaves add up to at most
  -- the limit.
  pub trim_to_limit-le :
      (limit : ℕ) (items : List (Record V))
      → sum_by (rec_size env spill_size) (trim_to_limit env spill_size limit items) ≤ limit
  unfolding trim_to_limit
  trim_to_limit-le limit items =
      elim (Bool-cases (leb (sum_by (rec_size env spill_size) items) limit)) [
        | inl fits ↦ rw fits (leb→le (sum_by (rec_size env spill_size) items) limit fits)
        | inr over ↦
            let le = trim_from-le limit 0 (newest_first [] items) (omega arith) in
            rw over (omega (arith, le))
      ]
