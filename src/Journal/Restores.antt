-- ===== src/Journal/Restores.antt =====
-- Journal entries that lead back: undoing them, newest first, panics nowhere and gives the earlier
-- state again, up to what the view forgets.
use baron_evm.Journal.View.{Hasher}
use mathlib.Core.Option
use baron_evm.Base.{
  Bool, Option, none, some, List, [], ◌∷◌, ◌++◌, ◌≡◌, refl, sym, ap, ◌∙◌, ◌>>=◌, length,
}
use baron_evm.Journal.Entries.{JournalEntry, World, revert_entry, journal_revert, revert_lists}
use baron_evm.Journal.View.{view, view-journal_revert}

module _ ⦃hasher : Hasher⦄ where
  abbrev pub Restores : Bool → List JournalEntry → World → World → Type 0
  Restores sd es later earlier =
      (u : World) × (journal_revert sd es later ≡ some u) × (view sd u ≡ view sd earlier)

  journal_revert-append :
      (sd : Bool) (es fs : List JournalEntry) (w : World)
      → journal_revert sd (es ++ fs) w ≡ (journal_revert sd es w >>= journal_revert sd fs)
  unfolding journal_revert
  journal_revert-append sd [] fs w = refl
  journal_revert-append sd (e ∷ es) fs w = go (journal_revert-append sd es fs) (revert_entry sd e w)
    where
      go :
          ((v : World)
            → journal_revert sd (es ++ fs) v ≡ (journal_revert sd es v >>= journal_revert sd fs))
          → (o : Option World)
          → (o >>= journal_revert sd (es ++ fs))
            ≡ ((o >>= journal_revert sd es) >>= journal_revert sd fs)
      go ih none = refl
      go ih (some v) = ih v

  pub Restores-none : (sd : Bool) (w : World) → Restores sd [] w w
  unfolding journal_revert
  Restores-none sd w = (w, refl, refl)

  some_injective : {a b : World} → some a ≡ some b → a ≡ b
  some_injective e = cc

  -- Two worlds with one view are led back alike.
  pub Restores-view :
      (sd : Bool) (es : List JournalEntry) (v w earlier : World)
      → view sd v ≡ view sd w
      → Restores sd es w earlier
      → Restores sd es v earlier
  Restores-view sd es v w earlier e (u, back, same) = go (journal_revert sd es v) refl
    where
      mapped : Option.map (view sd) (journal_revert sd es v) ≡ some (view sd u)
      mapped =
          view-journal_revert sd es v
          ∙ ap (journal_revert sd es) e
          ∙ sym (view-journal_revert sd es w)
          ∙ ap (Option.map (view sd)) back

      go :
          (o : Option World)
          → journal_revert sd es v ≡ o
          → (x : World) × (journal_revert sd es v ≡ some x) × (view sd x ≡ view sd earlier)
      go none r =
          let bad : none ≡ some (view sd u) = sym (ap (Option.map (view sd)) r) ∙ mapped in
          absurd (cc)
      go (some x) r = (x, r, some_injective (sym (ap (Option.map (view sd)) r) ∙ mapped) ∙ same)

  pub Restores-trans :
      (sd : Bool) (es fs : List JournalEntry) (a b c : World)
      → Restores sd es c b
      → Restores sd fs b a
      → Restores sd (es ++ fs) c a
  Restores-trans sd es fs a b c (u, back, same) rest =
      let (x, last, e) = Restores-view sd fs u b a same rest in
      (x, rw (journal_revert-append sd es fs c, back) last, e)

  -- The loop over whole lists of entries is the undoing of their concatenation.
  unfoldable pub concat : List (List JournalEntry) → List JournalEntry
  concat [] = []
  concat (es ∷ ess) = es ++ concat ess

  pub revert_lists-concat :
      (sd : Bool) (ess rest : List (List JournalEntry)) (w : World)
      → revert_lists sd (length ess) (ess ++ rest) w ≡ journal_revert sd (concat ess) w
  unfolding revert_lists concat journal_revert
  revert_lists-concat sd [] rest w = refl
  revert_lists-concat sd (es ∷ ess) rest w =
      go (revert_lists-concat sd ess rest) (journal_revert sd es w)
      ∙ sym (journal_revert-append sd es (concat ess) w)
    where
      go :
          ((v : World)
            → revert_lists sd (length ess) (ess ++ rest) v ≡ journal_revert sd (concat ess) v)
          → (o : Option World)
          → (o >>= revert_lists sd (length ess) (ess ++ rest))
            ≡ (o >>= journal_revert sd (concat ess))
      go ih none = refl
      go ih (some v) = ih v
