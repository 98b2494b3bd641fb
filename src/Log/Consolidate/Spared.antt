-- ===== src/Log/Consolidate/Spared.antt =====
-- emboss/_log_cache.py: which files the prune and the sweeps of a consolidation reach.
use emboss.Prelude.{
  ℕ, ◌≡◌, ◌≢◌, refl, sym, ap, ◌∙◌, inl, inr, String, Bool, true, false, not, Bool-cases, Option,
  none, some, List, [], ◌∷◌, All, keep_if, includes,
}
use mathlib.Core.Bool.{true≢false}
use mathlib.Core.Path.{subst}
use mathlib.Core.Logic.{ite, if_neg}
use emboss.Prelude.Dict.{Dict, get, put, remove, str_dec, get-remove, get-put}
use emboss.Log.Consolidate.{Source}
use emboss.Log.Consolidate.Prune.{is_prunable, prune_sources, swept, sweep_shared_spills}
use emboss.Log.Consolidate.Spills.{Stat}

-- What `get` finds under a filter that passes the key.
pub get-keep_if :
    {A : Type 0} (p : String × A → Bool) (key : String) (d : Dict String A)
    → ((a : A) → p (key, a) ≡ true)
    → get str_dec key (keep_if p d) ≡ get str_dec key d
unfolding get
get-keep_if p key [] h = refl
get-keep_if p key ((j, a) ∷ d) h =
    let rest = get-keep_if p key d h in
    elim (Bool-cases (p (j, a))) [
      | inl keeps ↦ rw (keeps, keep_if) (ap (λ o. ite (str_dec j key) (some a) o) rest)
      | inr drops ↦
          let other : j ≢ key =
            λ e. true≢false (sym (h a) ∙ (ap (λ k. p (k, a)) (sym e) ∙ drops)) in
          rw (drops, keep_if)
            (rest ∙ sym (if_neg (str_dec j key) other (some a) (get str_dec key d)))
    ]

pub get-remove_other :
    {A : Type 0} (j k : String) (d : Dict String A)
    → j ≢ k
    → get str_dec j (remove str_dec k d) ≡ get str_dec j d
get-remove_other j k d ne =
    get-remove str_dec j k d ∙ if_neg (str_dec k j) (λ e. ne (sym e)) none (get str_dec j d)

pub get-put_other :
    {A : Type 0} (j k : String) (a : A) (d : Dict String A)
    → j ≢ k
    → get str_dec j (put str_dec k a d) ≡ get str_dec j d
get-put_other j k a d ne =
    get-put str_dec j k a d ∙ if_neg (str_dec k j) (λ e. ne (sym e)) (some a) (get str_dec j d)

module _ (target : String) (keep_sources prune_logs : List String) where
  -- The log is not what the snapshot saw, or it is under guard.
  abbrev pub Unprunable : Option Source → String → Dict String (ℕ × ℕ) → Type 0
  Unprunable now name seen =
      All
        (λ (item : String × (ℕ × ℕ)).
          item.0 ≡ name → is_prunable target keep_sources prune_logs now name item.1 ≡ false)
        seen

  pub get-prune_sources :
      (name : String) (seen : Dict String (ℕ × ℕ)) (sources : Dict String Source)
      → Unprunable (get str_dec name sources) name seen
      → get str_dec name (prune_sources target keep_sources prune_logs seen sources).0
        ≡ get str_dec name sources
  unfolding prune_sources
  get-prune_sources name [] sources h = refl
  get-prune_sources name ((n, id) ∷ seen) sources h =
      elim (Bool-cases (is_prunable target keep_sources prune_logs (get str_dec n sources) n id)) [
        | inr stays ↦ rw stays (get-prune_sources name seen sources h.1)
        | inl goes ↦
            let apart : name ≢ n = λ e. true≢false (
              sym (
                subst
                  (λ m.
                    is_prunable target keep_sources prune_logs (get str_dec m sources) m id ≡ true)
                  (sym e) goes)
              ∙ h.0 (sym e)) in
            let same = get-remove_other name n sources apart in
            rw goes (get-prune_sources name seen (remove str_dec n sources) (rw same h.1) ∙ same)
      ]

-- A pool file whose path is kept stays, and while a log is unread all do.
pub get-sweep_shared_spills :
    (can_unlink : String → Bool) (now : ℕ) (spills unread : List String) (pool : Dict String Stat)
    (rel : String)
    → includes spills rel ≡ true
    → get str_dec rel (sweep_shared_spills can_unlink now spills unread pool) ≡ get str_dec rel pool
unfolding sweep_shared_spills swept
get-sweep_shared_spills can_unlink now spills [] pool rel h =
    get-keep_if (λ file. not (swept can_unlink now spills file)) rel pool
      (λ stat. rw (swept, h) refl)
get-sweep_shared_spills can_unlink now spills (name ∷ unread) pool rel h = refl
