-- ===== src/States/RoundTrip.antt =====
-- crates/bcevm/src/db/states/bundle_account.rs: every update of an account, undone by its revert.
use baron_evm.Base.{
  ℕ, Bool, true, false, Option, none, some, [], ◌≡◌, refl, sym, ap, ◌∙◌, inl, inr, Bool-cases,
  if◌then◌else◌, subst, ◌>>=◌,
}
use baron_evm.Base.Dict.{Distinct, lookup, for_entries, after, lookup-for_entries}
use baron_evm.Journal.Accounts.{AccountInfo}
use baron_evm.States.Status.{
  AccountStatus, loaded, loaded_not_existing, loaded_empty_eip161, in_memory_change, changed,
  destroyed, destroyed_changed, destroyed_again,
}
use baron_evm.States.Accounts.{
  StorageWithOriginalValues, BundleAccount, TransitionAccount, AccountRevert, revert_to, is_empty,
}
use baron_evm.States.Reverts.{destroyed_storage, new_selfdestructed}
use baron_evm.States.Bundle.{
  extend_storage, extend_slot, previous_storage_from_update, info_revert, or_default, revert,
  Updated, update_changed, update_in_memory, update_destroyed, update_destroyed_changed_from,
  update_destroyed_changed, update_destroyed_again, update_any, update_and_create_revert, non_empty,
  with_revert,
}
use baron_evm.States.Meaning.{has_info, SameAs, IsConsistent, GoesOnFrom}
use baron_evm.States.Restore.{info_back, or_default-essence, values_replaced, values_kept}
use baron_evm.States.Back.{
  info_revert-keeps, bundle, same_by_slots, removed, Undoes, extended_back, wiped_back, gone_back,
  recreated_back,
}

module _ (db : ℕ → ℕ) where
  changed_undone :
      (i o : Option AccountInfo) (s : StorageWithOriginalValues) (st : AccountStatus)
      (t : TransitionAccount)
      → IsConsistent db (bundle i o s st)
      → GoesOnFrom db (bundle i o s st) t
      → t.storage_was_destroyed ≡ false
      → Undoes db (bundle i o s st) (update_changed (bundle i o s st) t)
  unfolding update_changed
  changed_undone i o s loaded_not_existing t c g f = tt
  changed_undone i o s loaded t c g f = extended_back db i o s loaded t c g changed c.info f
  changed_undone i o s loaded_empty_eip161 t c g f =
      let b = bundle i o s loaded_empty_eip161 in
      same_by_slots db b (bundle t.info o s changed) (info_revert b t)
        (previous_storage_from_update t.storage) false (info_revert-keeps b t)
        (info_back b t c.info)
        (λ k. values_kept s t.storage c.keys g.keys (db k) k s (λ x e. g.slots k x f e))
  changed_undone i o s in_memory_change t c g f = tt
  changed_undone i o s changed t c g f = extended_back db i o s changed t c g changed c.info f
  changed_undone i o s destroyed t c g f = tt
  changed_undone i o s destroyed_changed t c g f = tt
  changed_undone i o s destroyed_again t c g f = tt

  in_memory_undone :
      (i o : Option AccountInfo) (s : StorageWithOriginalValues) (st : AccountStatus)
      (t : TransitionAccount)
      → IsConsistent db (bundle i o s st)
      → GoesOnFrom db (bundle i o s st) t
      → t.storage_was_destroyed ≡ false
      → Undoes db (bundle i o s st) (update_in_memory (bundle i o s st) t)
  unfolding update_in_memory
  in_memory_undone i o s loaded_not_existing t c g f =
      removed db i o s loaded_not_existing (bundle t.info o t.storage in_memory_change)
        (previous_storage_from_update t.storage) false c refl
  in_memory_undone i o s loaded t c g f =
      extended_back db i o s loaded t c g in_memory_change c.info f
  in_memory_undone i o s loaded_empty_eip161 t c g f =
      let b = bundle i o s loaded_empty_eip161 in
      same_by_slots db b (bundle t.info o t.storage in_memory_change) (info_revert b t)
        (previous_storage_from_update t.storage) false (info_revert-keeps b t)
        (info_back b t c.info)
        (λ k.
          values_replaced s t.storage c.keys g.keys (db k) k
            (λ x e. g.slots k x f e ∙ c.clean refl k)
          ∙ sym (c.clean refl k))
  in_memory_undone i o s in_memory_change t c g f =
      extended_back db i o s in_memory_change t c g in_memory_change c.info f
  in_memory_undone i o s changed t c g f = tt
  in_memory_undone i o s destroyed t c g f = tt
  in_memory_undone i o s destroyed_changed t c g f = tt
  in_memory_undone i o s destroyed_again t c g f = tt

  destroyed_undone :
      (i o : Option AccountInfo) (s : StorageWithOriginalValues) (st : AccountStatus)
      (t : TransitionAccount)
      → IsConsistent db (bundle i o s st)
      → GoesOnFrom db (bundle i o s st) t
      → has_info t.info ≡ false
      → Undoes db (bundle i o s st) (update_destroyed (bundle i o s st) t)
  unfolding update_destroyed new_selfdestructed destroyed_storage for_entries
  destroyed_undone i o s loaded_not_existing t c g f = tt
  destroyed_undone i o s loaded t c g f = gone_back db i o s loaded t c g destroyed true c.info f
  destroyed_undone i o s loaded_empty_eip161 t c g f =
      gone_back db i o s loaded_empty_eip161 t c g destroyed true c.info f
  destroyed_undone i o s in_memory_change t c g f =
      gone_back db i o s in_memory_change t c g destroyed true c.info f
  destroyed_undone i o s changed t c g f = gone_back db i o s changed t c g destroyed true c.info f
  destroyed_undone i o s destroyed t c g f = tt
  destroyed_undone i o s destroyed_changed t c g f = tt
  destroyed_undone i o s destroyed_again t c g f = tt

  -- What an extension of no storage lists.
  extend_empty :
      (u : StorageWithOriginalValues) (k : ℕ)
      → Distinct u
      → lookup k u ≡ none
      → lookup k (extend_storage [] u) ≡ none
  unfolding extend_storage lookup
  extend_empty u k d e =
      lookup-for_entries extend_slot k u [] d ∙ ap (λ x. after extend_slot x none) e

  rewritten_undone :
      (i o : Option AccountInfo) (s : StorageWithOriginalValues) (t : TransitionAccount)
      → IsConsistent db (bundle i o s destroyed_changed)
      → GoesOnFrom db (bundle i o s destroyed_changed) t
      → Undoes db
          (bundle i o s destroyed_changed)
          (update_destroyed_changed_from (bundle i o s destroyed_changed) t)
  unfolding update_destroyed_changed_from
  rewritten_undone i o s t c g = elim (Bool-cases t.storage_was_destroyed) [
    | inl e ↦
        (rw e (
          recreated_back db i o s destroyed_changed t c g (extend_storage [] t.storage) false c.info
            (λ k f. extend_empty t.storage k g.keys f)))
    | inr e ↦ rw e (extended_back db i o s destroyed_changed t c g destroyed_changed c.info e)
  ]

  destroyed_changed_undone :
      (i o : Option AccountInfo) (s : StorageWithOriginalValues) (st : AccountStatus)
      (t : TransitionAccount)
      → IsConsistent db (bundle i o s st)
      → GoesOnFrom db (bundle i o s st) t
      → Undoes db (bundle i o s st) (update_destroyed_changed (bundle i o s st) t)
  unfolding update_destroyed_changed
  destroyed_changed_undone i o s loaded_not_existing t c g =
      removed db i o s loaded_not_existing
        (bundle t.info o (extend_storage s t.storage) destroyed_changed)
        (previous_storage_from_update t.storage) false c refl
  destroyed_changed_undone i o s loaded t c g =
      recreated_back db i o s loaded t c g t.storage true c.info (λ k e. e)
  destroyed_changed_undone i o s loaded_empty_eip161 t c g =
      recreated_back db i o s loaded_empty_eip161 t c g t.storage true c.info (λ k e. e)
  destroyed_changed_undone i o s in_memory_change t c g =
      recreated_back db i o s in_memory_change t c g t.storage true c.info (λ k e. e)
  destroyed_changed_undone i o s changed t c g =
      recreated_back db i o s changed t c g t.storage true c.info (λ k e. e)
  destroyed_changed_undone i o s destroyed t c g =
      removed db i o s destroyed (bundle t.info o (extend_storage s t.storage) destroyed_changed)
        (previous_storage_from_update t.storage) false c refl
  destroyed_changed_undone i o s destroyed_changed t c g = rewritten_undone i o s t c g
  destroyed_changed_undone i o s destroyed_again t c g =
      removed db i o s destroyed_again
        (bundle t.info o (extend_storage s t.storage) destroyed_changed)
        (destroyed_storage [] t.storage) false c refl

  destroyed_again_undone :
      (i o : Option AccountInfo) (s : StorageWithOriginalValues) (st : AccountStatus)
      (t : TransitionAccount)
      → IsConsistent db (bundle i o s st)
      → GoesOnFrom db (bundle i o s st) t
      → has_info t.info ≡ false
      → Undoes db (bundle i o s st) (update_destroyed_again (bundle i o s st) t)
  unfolding update_destroyed_again lookup
  destroyed_again_undone i o s loaded_not_existing t c g f = tt
  destroyed_again_undone i o s loaded t c g f =
      gone_back db i o s loaded t c g destroyed_again true c.info f
  destroyed_again_undone i o s loaded_empty_eip161 t c g f =
      gone_back db i o s loaded_empty_eip161 t c g destroyed_again true c.info f
  destroyed_again_undone i o s in_memory_change t c g f =
      gone_back db i o s in_memory_change t c g destroyed_again true c.info f
  destroyed_again_undone i o s changed t c g f =
      gone_back db i o s changed t c g destroyed_again true c.info f
  destroyed_again_undone i o s destroyed t c g f = tt
  destroyed_again_undone i o s destroyed_changed t c g f =
      wiped_back db i o s destroyed_changed t c g none (revert_to (or_default i)) [] [] false
        destroyed_again refl (or_default-essence i c.info) tt (λ k e. refl)
  destroyed_again_undone i o s destroyed_again t c g f = tt

  not_wiped : (flag : Bool) → (flag ≡ true → false ≡ true) → flag ≡ false
  not_wiped flag h = elim (Bool-cases flag) [ inl e ↦ absurd (cc (h e)) | inr e ↦ e ]

  undone :
      (b : BundleAccount) (t : TransitionAccount) (st : AccountStatus)
      → IsConsistent db b
      → GoesOnFrom db b (record t { status = st })
      → Undoes db b (update_any b (record t { status = st }))
  unfolding update_any
  undone b t loaded_not_existing c g = tt
  undone b t loaded c g = tt
  undone b t loaded_empty_eip161 c g = tt
  undone b t in_memory_change c g =
      in_memory_undone b.info b.original_info b.storage b.status
        (record t { status = in_memory_change }) c g (not_wiped t.storage_was_destroyed g.wiped)
  undone b t changed c g =
      changed_undone b.info b.original_info b.storage b.status (record t { status = changed }) c g
        (not_wiped t.storage_was_destroyed g.wiped)
  undone b t destroyed c g =
      destroyed_undone b.info b.original_info b.storage b.status (record t { status = destroyed }) c
        g g.info
  undone b t destroyed_changed c g =
      destroyed_changed_undone b.info b.original_info b.storage b.status
        (record t { status = destroyed_changed }) c g
  undone b t destroyed_again c g =
      destroyed_again_undone b.info b.original_info b.storage b.status
        (record t { status = destroyed_again }) c g g.info

  filtered : (o : Option AccountRevert) (r : AccountRevert) → non_empty o ≡ some r → o ≡ some r
  filtered none r e = absurd (cc)
  filtered (some q) r e = elim (Bool-cases (is_empty q)) [
    | inl f ↦ absurd (cc)
    | inr f ↦ sym (ap (λ x. if x then none else some q) f) ∙ e
  ]

-- An account of the bundle whose information and clean slots fit its status, updated by a
-- transition that goes on from it (its slots' original values are the account's, unless the
-- storage was destroyed in between) so that there is a revert, is the account before the update
-- again after the revert: the same balance, nonce and code hash, the same status, and the same
-- value in every storage slot over any storage in the database.
pub revert-update_and_create_revert :
    (db : ℕ → ℕ) (b b' : BundleAccount) (t : TransitionAccount) (r : AccountRevert)
    → IsConsistent db b
    → GoesOnFrom db b t
    → update_and_create_revert b t ≡ some (b', some r)
    → SameAs db (revert b' r).0 b
unfolding update_and_create_revert
revert-update_and_create_revert db b b' t r c g e =
    go (update_any b t) (undone db b t t.status c g) e
  where
    go :
        (o : Option Updated)
        → Undoes db b o
        → (o >>= with_revert) ≡ some (b', some r)
        → SameAs db (revert b' r).0 b
    go none u f = absurd (cc)
    go (some (a, o)) u f =
        subst (Undoes db b)
          (ap (λ x. some (a, x)) (filtered db o r (cc f)) ∙ ap (λ x. some (x, some r)) (cc f)) u
