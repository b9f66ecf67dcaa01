-- ===== src/Journal/Single.antt =====
-- Changes of one account, and the journal entries that lead back over them.
use baron_evm.Journal.View.{Hasher}
use mathlib.Core.Option
use baron_evm.Base.{
  ℕ, Bool, true, false, ◌&&◌, Option, none, some, [], ◌∷◌, ◌==◌, ◌≡◌, refl, sym, ap, fun_ext, subst,
  arith, insert, ==_refl, ==_iff, Bool-cases, inl, inr,
}
use baron_evm.Journal.Accounts.{Account, set_touched}
use baron_evm.Journal.Entries.{
  JournalEntry, account_touched, account_loaded, World, revert_entry, journal_revert, modify,
  with_state, untouch, precompile3,
}
use baron_evm.Journal.View.{view, view_state, view_account}
use baron_evm.Journal.Restores.{Restores}
use baron_evm.Journal.Since.{IsValid, Fits}

module _ ⦃hasher : Hasher⦄ where
  abbrev pub replaced : World → ℕ → Account → World
  replaced w address x = record w { state = insert w.state address x }

  pub IsValid-replaced :
      (w : World) (address : ℕ) (x : Account)
      → IsValid w
      → Fits (some x)
      → IsValid (replaced w address x)
  IsValid-replaced w address x v h = record {
    accounts =
        λ a. elim (Bool-cases (a == address)) [ inl e ↦ rw e h | inr e ↦ rw e (v.accounts a) ];
    transient = v.transient;
  }

  pub Fits-loaded :
      (w : World) (address : ℕ) {acc : Account}
      → IsValid w
      → w.state address ≡ some acc
      → Fits (some acc)
  Fits-loaded w address v e = subst Fits e (v.accounts address)

  -- An account that is replaced by one with the same view leaves the view of the world.
  pub view-replaced :
      (sd : Bool) (w : World) (address : ℕ) {acc : Account} (x : Account)
      → w.state address ≡ some acc
      → view_account sd address x ≡ view_account sd address acc
      → view sd (replaced w address x) ≡ view sd w
  view-replaced sd w address {acc} x e same = ap (λ s. record w { state = s }) (fun_ext at)
    where
      at : (a : ℕ) → view_state sd (insert w.state address x) a ≡ view_state sd w.state a
      at a = elim (Bool-cases (a == address)) [
        | inl t ↦ rw t (
            subst (λ b. some (view_account sd b x) ≡ Option.map (view_account sd b) (w.state b))
              (sym ((==_iff a address).0 t)) (rw e (ap some same)))
        | inr t ↦ rw t refl
      ]

  modify-replaced :
      (w : World) (address : ℕ) (x y : Account) (f : Account → Option Account)
      → f x ≡ some y
      → with_state (replaced w address x) (modify (insert w.state address x) address f)
        ≡ some (replaced w address y)
  modify-replaced w address x y f e =
      rw (==_refl address, e) (ap (λ s. some (record w { state = s })) (fun_ext λ a. ground arith))

  -- An entry whose undoing changes the one account back.
  pub Restores-modify :
      (sd : Bool) (e : JournalEntry) (w : World) (address : ℕ) {acc : Account} (x y : Account)
      (f : Account → Option Account)
      → revert_entry sd e (replaced w address x)
        ≡ with_state (replaced w address x) (modify (insert w.state address x) address f)
      → w.state address ≡ some acc
      → f x ≡ some y
      → view_account sd address y ≡ view_account sd address acc
      → Restores sd (e ∷ []) (replaced w address x) w
  unfolding journal_revert
  Restores-modify sd e w address x y f arm here undone same = (
    replaced w address y,
    rw (arm, modify-replaced w address x y f undone) refl,
    view-replaced sd w address y here same,
  )

  pub Restores-touched :
      (sd : Bool) (w : World) (address : ℕ) (acc : Account)
      → w.state address ≡ some acc
      → acc.status.touched ≡ false
      → Restores sd (account_touched address ∷ []) (replaced w address (set_touched true acc)) w
  unfolding journal_revert revert_entry
  Restores-touched sd w address acc here idle = elim (Bool-cases (sd && address == precompile3)) [
    | inl e ↦ (
      replaced w address (set_touched true acc),
      rw e refl,
      view-replaced sd w address (set_touched true acc) here (rw e refl),
    )
    | inr e ↦
        Restores-modify sd (account_touched address) w address (set_touched true acc)
          (set_touched false acc) untouch (rw e refl) here refl (rw idle refl)
  ]

  pub Restores-loaded :
      (sd : Bool) (w : World) (address : ℕ) (x : Account)
      → w.state address ≡ none
      → Restores sd (account_loaded address ∷ []) (replaced w address x) w
  unfolding journal_revert revert_entry
  Restores-loaded sd w address x absent = (
    w,
    ap (λ s. some (record w { state = s })) (fun_ext λ a. ground (arith, ==_iff a address)),
    refl,
  )
