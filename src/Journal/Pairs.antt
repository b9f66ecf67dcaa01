-- ===== src/Journal/Pairs.antt =====
-- Journal entries that change two accounts, and how they lead back.
use baron_evm.Journal.View.{Hasher}
use baron_evm.Base.{
  ℕ, Bool, false, Option, some, [], ◌∷◌, ◌==◌, ◌≡◌, ap, ◌∙◌, fun_ext, arith, ==_refl, ==_iff, ◌>>=◌,
}
use baron_evm.Journal.Accounts.{Account}
use baron_evm.Journal.Entries.{
  JournalEntry, World, revert_entry, journal_revert, modify, with_state,
}
use baron_evm.Journal.View.{view_account}
use baron_evm.Journal.Restores.{Restores}
use baron_evm.Journal.Single.{replaced, view-replaced}

module _ ⦃hasher : Hasher⦄ where
  -- Undoing `e` changes the account at `a` by `f` and then that at `b` by `g`.
  abbrev pub ChangesTwo :
      Bool
      → JournalEntry
      → ℕ
      → (Account → Option Account)
      → ℕ
      → (Account → Option Account)
      → World
      → Type 0
  ChangesTwo sd e a f b g w =
      revert_entry sd e w ≡ (modify w.state a f >>= λ s. with_state w (modify s b g))

  pub ne_comm : (a b : ℕ) → (a == b) ≡ false → (b == a) ≡ false
  ne_comm a b h = ground arith

  module _ (sd : Bool) (e : JournalEntry) (w : World) (a b : ℕ)
      (f g : Account → Option Account) where
    -- Two different accounts.
    pub Restores-pair :
        (x y x' y' x₁ y₁ : Account)
        → (a == b) ≡ false
        → w.state a ≡ some x
        → w.state b ≡ some y
        → ChangesTwo sd e a f b g (replaced (replaced w a x') b y')
        → f x' ≡ some x₁
        → g y' ≡ some y₁
        → view_account sd a x₁ ≡ view_account sd a x
        → view_account sd b y₁ ≡ view_account sd b y
        → Restores sd (e ∷ []) (replaced (replaced w a x') b y') w
    unfolding journal_revert
    Restores-pair x y x' y' x₁ y₁ ne here there two ef eg vx vy = (
      replaced (replaced w a x₁) b y₁,
      rw (two, ne, ==_refl a, ef, ne_comm a b ne, ==_refl b, eg)
          (ap (λ s. some (record w { state = s }))
            (fun_ext λ c. ground (arith, ==_iff c a, ==_iff c b))),
      view-replaced sd (replaced w a x₁) b {acc = y} y₁ (rw (ne_comm a b ne) there) vy
          ∙ view-replaced sd w a x₁ here vx,
    )

  -- Twice the same account.
  pub Restores-twice :
      (sd : Bool) (e : JournalEntry) (w : World) (a : ℕ) (f g : Account → Option Account)
      (x x' x₁ x₂ : Account)
      → w.state a ≡ some x
      → ChangesTwo sd e a f a g (replaced w a x')
      → f x' ≡ some x₁
      → g x₁ ≡ some x₂
      → view_account sd a x₂ ≡ view_account sd a x
      → Restores sd (e ∷ []) (replaced w a x') w
  unfolding journal_revert
  Restores-twice sd e w a f g x x' x₁ x₂ here two ef eg vx = (
    replaced w a x₂,
    rw (two, ==_refl a, ef, ==_refl a, eg)
        (ap (λ s. some (record w { state = s })) (fun_ext λ c. ground arith)),
    view-replaced sd w a x₂ here vx,
  )
