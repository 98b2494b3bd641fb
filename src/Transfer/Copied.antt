-- ===== src/Transfer/Copied.antt =====
-- emboss/_transfer.py: the counts of `transfer`, and what has arrived when it clears the source.
use emboss.Prelude.{
  ℕ, ◌+◌, ◌≡◌, refl, ap, sym, ◌∙◌, ◌⊎◌, String, Bool, true, false, ◌&&◌, inl, inr, Bool-cases,
  Option-cases, Option, some, List, [], ◌∷◌, All, arith, length, str_eq, eq_iff, ◌==◌,
}
use mathlib.Core.Path.{subst}
use emboss.Cached.{Cache}
use emboss.Cached.Backend.{IsCache}
use emboss.Transfer.{Progress, start, copy_key, copy_keys, transfer}

and_zero : (b : Bool) (n : ℕ) → (b && n == 0) ≡ true → n ≡ 0
and_zero true n h = ground arith
and_zero false n h = cc

module _ {S D V : Type 0} (from : Cache S V) (to : Cache D V) (source_view : S → String → Option V)
    (destination_view : D → String → Option V) (source_laws : IsCache from source_view)
    (destination_laws : IsCache to destination_view) where
  -- What the destination holds of a key is what the source holds.
  abbrev Arrived : Progress S D → String → Type 0
  Arrived at key = destination_view at.destination key ≡ source_view at.source key

  -- One key: the source is unchanged to a reader, what had arrived stays, and the key is counted
  -- with its value arrived, or is skipped.
  record Step (key : String) (at next : Progress S D) : Type 0 where
    source : source_view next.source ≡ source_view at.source
    stays : (other : String) → Arrived at other → Arrived next other
    counted :
        ((next.count ≡ at.count + 1) × (next.skipped ≡ at.skipped) × Arrived next key)
        ⊎ ((next.count ≡ at.count) × (next.skipped ≡ at.skipped + 1))

  copy_key-Step : (key : String) (at : Progress S D) → Step key at (copy_key from to key at)
  unfolding copy_key
  copy_key-Step key at =
      let read = from.get key at.source in
      let same = source_laws.view-get key at.source in
      elim (Option-cases read.1) [
        | inl absent ↦
            rw (absent, copy_key)
              (record {
                source = same;
                stays = λ other h. h ∙ sym (ap (λ v. v other) same);
                counted = inr (refl, refl);
              })
        | inr (v, there) ↦
            let held : source_view at.source key ≡ some v =
              sym (source_laws.get-view key at.source) ∙ there in
            elim (Bool-cases (to.set key v at.destination).1) [
              | inr refused ↦
                  let kept = destination_laws.set-raised key v at.destination refused in
                  rw (there, copy_key, refused)
                    (record {
                      source = same;
                      stays =
                          λ other h. ap (λ f. f other) kept ∙ (h ∙ sym (ap (λ f. f other) same));
                      counted = inr (refl, refl);
                    })
              | inl done ↦
                  let arrived : destination_view (to.set key v at.destination).0 key
                      ≡ source_view read.0 key =
                    destination_laws.set-done key v at.destination done
                    ∙ (sym held ∙ sym (ap (λ f. f key) same)) in
                  rw (there, copy_key, done)
                    (record {
                      source = same;
                      stays = λ other h. elim (Bool-cases (str_eq other key)) [
                        | inl is_key ↦
                            subst
                              (λ k.
                                destination_view (to.set key v at.destination).0 k
                                ≡ source_view read.0 k)
                              (sym ((eq_iff other key).0 is_key)) arrived
                        | inr is_other ↦
                            destination_laws.set-other key other v at.destination is_other
                            ∙ (h ∙ sym (ap (λ f. f other) same))
                      ];
                      counted = inl (refl, refl, arrived);
                    })
            ]
      ]

  -- All keys: each is counted or skipped, and if none is skipped all have arrived.
  record Run (keys : List String) (at next : Progress S D) : Type 0 where
    source : source_view next.source ≡ source_view at.source
    stays : (other : String) → Arrived at other → Arrived next other
    total : next.count + next.skipped ≡ at.count + at.skipped + length keys
    arrived : next.skipped ≡ 0 → (at.skipped ≡ 0) × All (Arrived next) keys

  copy_keys-Run : (keys : List String) (at : Progress S D) → Run keys at (copy_keys from to keys at)
  unfolding copy_keys
  copy_keys-Run [] at = record {
    source = refl;
    stays = λ other h. h;
    total = omega arith;
    arrived = λ none_skipped. (none_skipped, tt);
  }
  copy_keys-Run (key ∷ keys) at =
      let step = copy_key-Step key at in
      let run = copy_keys-Run keys (copy_key from to key at) in
      record {
        source = run.source ∙ step.source;
        stays = λ other h. run.stays other (step.stays other h);
        total = elim step.counted [
          | inl (c, s, a) ↦ omega (arith, run.total, c, s)
          | inr (c, s) ↦ omega (arith, run.total, c, s)
        ];
        arrived = λ none_skipped.
            let (before, all) = run.arrived none_skipped in
            elim step.counted [
              | inl (c, s, a) ↦ (sym s ∙ before, (run.stays key a, all))
              | inr (c, s) ↦ absurd (omega (arith, s, before))
            ];
      }

  -- Between two caches with the laws of `IsCache`, every key that the source yields is
  -- counted or skipped, once each, and `transfer` ends as its loop did, or else it has
  -- cleared the source, all keys are counted, and the destination holds of each key what the
  -- source held at the start.
  pub transfer-clear :
      (keys : List String) (clear : S → S) (clear_source : Bool) (s : S) (d : D)
      → let done = copy_keys from to keys (start s d) in
        let out = transfer from to keys clear clear_source s d in
        (out.count + out.skipped ≡ length keys)
        × ((out ≡ done)
            ⊎ ((out ≡ record done { source = clear done.source })
                × (out.count ≡ length keys)
                × All (λ key. destination_view out.destination key ≡ source_view s key) keys))
  unfolding transfer
  transfer-clear keys clear clear_source s d =
      let done = copy_keys from to keys (start s d) in
      let run = copy_keys-Run keys (start s d) in
      let total : done.count + done.skipped ≡ length keys = omega (arith, run.total) in
      elim (Bool-cases (clear_source && done.skipped == 0)) [
        | inr left ↦ rw (transfer, left) (total, inl refl)
        | inl cleared ↦
            let none_skipped = and_zero clear_source done.skipped cleared in
            rw (transfer, cleared)
              (
                total,
                inr (
                  refl,
                  omega (arith, total, none_skipped),
                  subst (λ f. All (λ key. destination_view done.destination key ≡ f key) keys)
                      run.source (run.arrived none_skipped).1,
                ),
              )
      ]
