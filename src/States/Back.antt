-- ===== src/States/Back.antt =====
-- crates/bcevm/src/db/states/bundle_account.rs: what a revert does to an account.
use baron_evm.Base.{
  ℕ, Bool, true, false, Option, none, some, [], ◌≡◌, refl, sym, ap, ◌∙◌, inl, inr, Bool-cases,
}
use mathlib.Core.Option
use baron_evm.Base.Dict.{Dict, Distinct, lookup, map_values, for_entries, lookup-map_values}
use baron_evm.Journal.Accounts.{AccountInfo, StorageSlot}
use baron_evm.States.Status.{
  AccountStatus, loaded, loaded_not_existing, loaded_empty_eip161, in_memory_change, changed,
  destroyed, destroyed_changed, destroyed_again,
}
use baron_evm.States.Accounts.{
  StorageWithOriginalValues, BundleAccount, TransitionAccount, AccountRevert, AccountInfoRevert,
  do_nothing, delete_it, revert_to, infos_eq, RevertToSlot,
}
use baron_evm.States.Reverts.{destroyed_storage}
use baron_evm.States.Bundle.{
  extend_storage, previous_storage_from_update, revert_slot, info_revert, revert, zero_present,
  Updated,
}
use baron_evm.States.Meaning.{
  essence, is_clean, has_info, exists_in, unlisted, slot_value, value_at, SameAs, IsConsistent,
  GoesOnFrom,
}
use baron_evm.States.Restore.{reverted_info, info_back, values_back, values_undestroyed}

-- The revert does not remove the account's information.
abbrev pub keeps : AccountInfoRevert → Bool
keeps do_nothing = true
keeps delete_it = false
keeps (revert_to i) = true

pub info_revert-keeps : (b : BundleAccount) (t : TransitionAccount) → keeps (info_revert b t) ≡ true
unfolding info_revert
info_revert-keeps b t = elim (Bool-cases (infos_eq b.info t.info)) [
  | inl e ↦ rw e refl
  | inr e ↦ rw e refl
]

pub lookup-zeros :
    (k : ℕ) (m : StorageWithOriginalValues)
    → slot_value 0 (lookup k (map_values zero_present m)) ≡ 0
lookup-zeros k m =
    ap (slot_value 0) (lookup-map_values zero_present k m) ∙ slot_value-zero (lookup k m)
  where
    slot_value-zero : (o : Option StorageSlot) → slot_value 0 (Option.map zero_present o) ≡ 0
    slot_value-zero none = refl
    slot_value-zero (some s) = refl

abbrev pub account_revert :
    AccountInfoRevert → Dict RevertToSlot → AccountStatus → Bool → AccountRevert
account_revert a s p w = record { account = a; storage = s; previous_status = p; wipe_storage = w }

abbrev pub bundle :
    Option AccountInfo
    → Option AccountInfo
    → StorageWithOriginalValues
    → AccountStatus
    → BundleAccount
bundle i o s st = record { info = i; original_info = o; storage = s; status = st }

pub no_info : (i : Option AccountInfo) → has_info i ≡ false → i ≡ none
no_info none h = refl
no_info (some i) h = absurd (cc)

pub no_essence : (i : Option AccountInfo) → has_info i ≡ false → essence i ≡ none
no_essence i h = ap essence (no_info i h)

pub unlisted_zero : (st : AccountStatus) → exists_in st ≡ false → (v : ℕ) → unlisted st v ≡ 0
unlisted_zero loaded_not_existing h v = refl
unlisted_zero loaded h v = absurd (cc)
unlisted_zero loaded_empty_eip161 h v = absurd (cc)
unlisted_zero in_memory_change h v = refl
unlisted_zero changed h v = absurd (cc)
unlisted_zero destroyed h v = refl
unlisted_zero destroyed_changed h v = refl
unlisted_zero destroyed_again h v = refl

pub clean_of : (st : AccountStatus) → exists_in st ≡ false → is_clean st ≡ true
clean_of loaded_not_existing h = refl
clean_of loaded h = absurd (cc)
clean_of loaded_empty_eip161 h = refl
clean_of in_memory_change h = absurd (cc)
clean_of changed h = absurd (cc)
clean_of destroyed h = refl
clean_of destroyed_changed h = absurd (cc)
clean_of destroyed_again h = refl

module _ (db : ℕ → ℕ) where
  -- A revert that sets the information and the slots back.
  pub same_by_slots :
      (b b' : BundleAccount) (a : AccountInfoRevert) (s : Dict RevertToSlot) (w : Bool)
      → keeps a ≡ true
      → essence (reverted_info a b'.info) ≡ essence b.info
      → ((k : ℕ)
          → slot_value (unlisted b.status (db k)) (lookup k (for_entries revert_slot s b'.storage))
            ≡ value_at db b k)
      → SameAs db (revert b' (account_revert a s b.status w)).0 b
  unfolding revert
  same_by_slots b b' do_nothing s w h i v = record { info = i; status = refl; values = v }
  same_by_slots b b' delete_it s w h i v = absurd (cc)
  same_by_slots b b' (revert_to j) s w h i v = record { info = i; status = refl; values = v }

  -- A revert that removes the account.
  pub same_by_removal :
      (b b' : BundleAccount) (original : Option AccountInfo) (s : Dict RevertToSlot) (w : Bool)
      → b'.original_info ≡ original
      → essence b.info ≡ none
      → ((k : ℕ) → unlisted b.status (db k) ≡ 0)
      → ((k : ℕ) → value_at db b k ≡ 0)
      → SameAs db (revert b' (account_revert delete_it s b.status w)).0 b
  unfolding revert lookup
  same_by_removal b b' none s w o i u v =
      rw o (record { info = sym i; status = refl; values = λ k. u k ∙ sym (v k) })
  same_by_removal b b' (some original) s w o i u v = rw o (record {
    info = sym i;
    status = refl;
    values = λ k.
        ap (λ x. slot_value x (lookup k (map_values zero_present b'.storage))) (u k)
        ∙ lookup-zeros k b'.storage
        ∙ sym (v k);
  })

  -- What the update made is the old account again after its revert.
  abbrev pub Undoes : BundleAccount → Option Updated → Type 0
  Undoes b none = Unit {0}
  Undoes b (some (b', none)) = Unit {0}
  Undoes b (some (b', some r)) = SameAs db (revert b' r).0 b

  pub removed :
      (i o : Option AccountInfo) (s : StorageWithOriginalValues) (st : AccountStatus)
      (b' : BundleAccount) (m : Dict RevertToSlot) (w : Bool)
      → IsConsistent db (bundle i o s st)
      → exists_in st ≡ false
      → SameAs db (revert b' (account_revert delete_it m st w)).0 (bundle i o s st)
  removed i o s st b' m w c h =
      same_by_removal (bundle i o s st) b' b'.original_info m w refl (no_essence i (c.info ∙ h))
        (λ k. unlisted_zero st h (db k))
        (λ k. c.clean (clean_of st h) k ∙ unlisted_zero st h (db k))

  module _ (i o : Option AccountInfo) (s : StorageWithOriginalValues) (st : AccountStatus)
      (t : TransitionAccount) (c : IsConsistent db (bundle i o s st))
      (g : GoesOnFrom db (bundle i o s st) t) where
    -- The slots go back where the transition says what they were.
    pub extended_back :
        (status : AccountStatus)
        → has_info i ≡ true
        → t.storage_was_destroyed ≡ false
        → SameAs db
            (revert (bundle t.info o (extend_storage s t.storage) status) (
              account_revert
                (info_revert (bundle i o s st) t)
                (previous_storage_from_update t.storage)
                st
                false)).0
            (bundle i o s st)
    extended_back status h f =
        let b = bundle i o s st in
        same_by_slots b (bundle t.info o (extend_storage s t.storage) status) (info_revert b t)
          (previous_storage_from_update t.storage) false (info_revert-keeps b t) (info_back b t h)
          (λ k.
            values_back s t.storage c.keys g.keys (unlisted st (db k)) k (λ x e. g.slots k x f e))

    -- The slots of the old storage go back where it was wiped.
    pub wiped_back :
        (info : Option AccountInfo) (a : AccountInfoRevert) (u held : StorageWithOriginalValues)
        (w : Bool) (status : AccountStatus)
        → keeps a ≡ true
        → essence (reverted_info a info) ≡ essence i
        → Distinct u
        → ((k : ℕ) → lookup k u ≡ none → lookup k held ≡ none)
        → SameAs db
            (revert (bundle info o held status) (account_revert a (destroyed_storage s u) st w)).0
            (bundle i o s st)
    wiped_back info a u held w status h e d only =
        same_by_slots (bundle i o s st) (bundle info o held status) a (destroyed_storage s u) w h e
          (λ k. values_undestroyed s u c.keys d (unlisted st (db k)) k held (only k))

    pub gone_back :
        (status : AccountStatus) (w : Bool)
        → has_info i ≡ true
        → has_info t.info ≡ false
        → SameAs db
            (revert
              (bundle none o [] status)
              (account_revert (info_revert (bundle i o s st) t) (destroyed_storage s []) st w)).0
            (bundle i o s st)
    unfolding lookup
    gone_back status w h gone =
        let b = bundle i o s st in
        wiped_back none (info_revert b t) [] [] w status (info_revert-keeps b t)
          (ap (λ x. essence (reverted_info (info_revert b t) x)) (sym (no_info t.info gone))
            ∙ info_back b t h)
          tt (λ k e. refl)

    pub recreated_back :
        (held : StorageWithOriginalValues) (w : Bool)
        → has_info i ≡ true
        → ((k : ℕ) → lookup k t.storage ≡ none → lookup k held ≡ none)
        → SameAs db
            (revert (bundle t.info o held destroyed_changed) (
              account_revert
                (info_revert (bundle i o s st) t)
                (destroyed_storage s t.storage)
                st
                w)).0
            (bundle i o s st)
    recreated_back held w h only =
        let b = bundle i o s st in
        wiped_back t.info (info_revert b t) t.storage held w destroyed_changed
          (info_revert-keeps b t) (info_back b t h) g.keys only
