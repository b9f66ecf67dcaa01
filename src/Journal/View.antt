-- ===== src/Journal/View.antt =====
-- What a revert brings back. Code that was filled in from its hash may stay, and so does the touched
-- mark of the third precompile from Spurious Dragon on. The view forgets just these two: code whose
-- hash is not the account's code hash is seen.
use mathlib.Core.Option
use baron_evm.Base.{
  ℕ, Bool, true, false, ==_refl, if◌then◌else◌, ◌&&◌, ◌||◌, Option, none, some, List, [], ◌∷◌, ◌==◌,
  ◌≡◌, refl, ap, ◌∙◌, fun_ext, arith, put, Option-cases, inl, inr, Bool-cases, ◌>>=◌,
}
use baron_evm.Bytecode.{Bytecode, hash_slow}
use baron_evm.Journal.Accounts.{Account, State}
use baron_evm.Journal.Entries.{
  JournalEntry, account_loaded, account_destroyed, account_touched, balance_transfer, nonce_change,
  account_created, storage_change, transient_storage_change, code_change, World, revert_entry,
  journal_revert, precompile3, modify, with_state, revert_slot, undestroy, untouch, decrement_nonce,
  uncreate, remove_code, sub_balance, add_balance,
}

-- The hash function, which is not part of the program.
pub record Hasher : Type 0 where
  pub keccak256 : List ℕ → ℕ

abbrev is_hash : Option ℕ → ℕ → Bool
is_hash none hash = false
is_hash (some h) hash = h == hash

module _ ⦃hasher : Hasher⦄ where
  -- Whether the code is that of the hash.
  abbrev pub hashes_to : Bytecode → ℕ → Bool
  hashes_to code hash = is_hash (hash_slow hasher.keccak256 code) hash

  -- Code that is not that of the hash is seen.
  abbrev pub view_code : Option Bytecode → ℕ → Option Bytecode
  view_code none hash = none
  view_code (some code) hash = if hashes_to code hash then none else some code

  pub hashes_to-hash_slow :
      (code : Bytecode) (hash : ℕ)
      → hash_slow hasher.keccak256 code ≡ some hash
      → hashes_to code hash ≡ true
  hashes_to-hash_slow code hash e = ap (λ o. is_hash o hash) e ∙ ==_refl hash

  pub view_code-hashes_to :
      (code : Bytecode) (hash : ℕ) → hashes_to code hash ≡ true → view_code (some code) hash ≡ none
  view_code-hashes_to code hash e = ap (λ t. if t then none else some code) e

  abbrev pub view_account : Bool → ℕ → Account → Account
  view_account sd address a = record a {
    info = record (a.info) { code = view_code a.info.code a.info.code_hash };
    status = record (a.status) { touched = (sd && address == precompile3) || a.status.touched };
  }

  abbrev pub view_state : Bool → State → State
  view_state sd s address = Option.map (view_account sd address) (s address)

  abbrev pub view : Bool → World → World
  view sd w = record w { state = view_state sd w.state }

  view_state-put :
      (sd : Bool) (s : State) (address : ℕ) (o : Option Account)
      → view_state sd (put s address o)
        ≡ put (view_state sd s) address (Option.map (view_account sd address) o)
  view_state-put sd s address o = fun_ext λ a. ground arith

  -- A change of one account that does not read what the view forgets.
  view_state-modify :
      (sd : Bool) (s : State) (address : ℕ) (f : Account → Option Account)
      → ((a : Account) → Option.map (view_account sd address) (f a) ≡ f (view_account sd address a))
      → Option.map (view_state sd) (modify s address f) ≡ modify (view_state sd s) address f
  view_state-modify sd s address f h = elim (Option-cases (s address)) [
    | inl e ↦ rw e refl
    | inr (a, e) ↦ elim (Option-cases (f a)) [
      | inl e' ↦ rw e (rw (← h a, e') refl)
      | inr (b, e') ↦ rw e (rw (← h a, e') (ap some (view_state-put sd s address (some b))))
    ]
  ]

  view-with_state :
      (sd : Bool) (w : World) (s : Option State)
      → Option.map (view sd) (with_state w s)
        ≡ with_state (view sd w) (Option.map (view_state sd) s)
  view-with_state sd w none = refl
  view-with_state sd w (some s) = refl

  -- A change that does not read what the view forgets of the account at `address`.
  abbrev Blind : Bool → ℕ → (Account → Option Account) → Type 0
  Blind sd address f =
      (a : Account) → Option.map (view_account sd address) (f a) ≡ f (view_account sd address a)

  module _ (sd : Bool) (w : World) (address : ℕ) (f : Account → Option Account) where
    view-modify :
        Blind sd address f
        → Option.map (view sd) (with_state w (modify w.state address f))
          ≡ with_state (view sd w) (modify (view_state sd w.state) address f)
    view-modify h =
        view-with_state sd w (modify w.state address f)
        ∙ ap (with_state (view sd w)) (view_state-modify sd w.state address f h)

    -- A change of one account and then a step on the state.
    view-modify-then :
        (g h : State → Option World)
        → Blind sd address f
        → ((s : State) → Option.map (view sd) (g s) ≡ h (view_state sd s))
        → Option.map (view sd) (modify w.state address f >>= g)
          ≡ (modify (view_state sd w.state) address f >>= h)
    view-modify-then g h blind step =
        rw (← view_state-modify sd w.state address f blind) (go (modify w.state address f))
      where
        go :
            (o : Option State)
            → Option.map (view sd) (o >>= g) ≡ (Option.map (view_state sd) o >>= h)
        go none = refl
        go (some s) = step s

  revert_slot-Blind :
      (sd : Bool) (address key : ℕ) (o : Option ℕ) → Blind sd address (revert_slot key o)
  revert_slot-Blind sd address key none a = refl
  revert_slot-Blind sd address key (some v) a = elim (Option-cases (a.storage key)) [
    | inl e ↦ rw e refl
    | inr (slot, e) ↦ rw e refl
  ]

  sub_at :
      (sd : Bool) (w : World) (to n : ℕ) (s : State)
      → Option.map (view sd) (with_state w (modify s to (sub_balance n)))
        ≡ with_state (view sd w) (modify (view_state sd s) to (sub_balance n))
  sub_at sd w to n s = view-modify sd (record w { state = s }) to (sub_balance n) (λ a. refl)

  -- Undoing an entry does not read what the view forgets.
  pub view-revert_entry :
      (sd : Bool) (e : JournalEntry) (w : World)
      → Option.map (view sd) (revert_entry sd e w) ≡ revert_entry sd e (view sd w)
  unfolding revert_entry
  view-revert_entry sd (account_loaded address) w =
      ap (λ s. some (record w { state = s })) (view_state-put sd w.state address none)
  view-revert_entry sd (account_destroyed address target b n) w =
      elim (Bool-cases (address == target)) [
        | inl e ↦ rw e (
            view-modify-then sd w address (undestroy b n) (λ s. some (record w { state = s }))
              (λ s. some (record (view sd w) { state = s })) (λ a. refl) (λ s. refl))
        | inr e ↦ rw e (
            view-modify-then sd w address (undestroy b n)
              (λ s. with_state w (modify s target (sub_balance n)))
              (λ s. with_state (view sd w) (modify s target (sub_balance n))) (λ a. refl)
              (sub_at sd w target n))
      ]
  view-revert_entry sd (account_touched address) w =
      elim (Bool-cases (sd && address == precompile3)) [
        | inl e ↦ rw e refl
        | inr e ↦ rw e (view-modify sd w address untouch (λ a. rw e refl))
      ]
  view-revert_entry sd (balance_transfer from to n) w =
      view-modify-then sd w from (add_balance n) (λ s. with_state w (modify s to (sub_balance n)))
        (λ s. with_state (view sd w) (modify s to (sub_balance n))) (λ a. refl) (sub_at sd w to n)
  view-revert_entry sd (nonce_change address) w =
      view-modify sd w address decrement_nonce (λ a. refl)
  view-revert_entry sd (account_created address) w = view-modify sd w address uncreate (λ a. refl)
  view-revert_entry sd (storage_change address key o) w =
      view-modify sd w address (revert_slot key o) (revert_slot-Blind sd address key o)
  view-revert_entry sd (transient_storage_change address key n) w = refl
  view-revert_entry sd (code_change address) w = view-modify sd w address remove_code (λ a. refl)

  pub view-journal_revert :
      (sd : Bool) (es : List JournalEntry) (w : World)
      → Option.map (view sd) (journal_revert sd es w) ≡ journal_revert sd es (view sd w)
  unfolding journal_revert
  view-journal_revert sd [] w = refl
  view-journal_revert sd (e ∷ es) w =
      rw (← view-revert_entry sd e w) (go (view-journal_revert sd es) (revert_entry sd e w))
    where
      go :
          ((v : World)
            → Option.map (view sd) (journal_revert sd es v) ≡ journal_revert sd es (view sd v))
          → (o : Option World)
          → Option.map (view sd) (o >>= journal_revert sd es)
            ≡ (Option.map (view sd) o >>= journal_revert sd es)
      go ih none = refl
      go ih (some v) = ih v
