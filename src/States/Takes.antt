-- ===== src/States/Takes.antt =====
-- crates/bcevm/src/db/states/bundle_account.rs: what the bundle's account takes of a transition.
use baron_evm.Base.{true, false, Option, none, some, ◌≡◌, refl, sym, ◌∙◌, inl, inr, Bool-cases}
use baron_evm.Journal.Accounts.{AccountInfo}
use baron_evm.States.Status.{
  AccountStatus, loaded, loaded_not_existing, loaded_empty_eip161, in_memory_change, changed,
  destroyed, destroyed_changed, destroyed_again,
}
use baron_evm.States.Accounts.{StorageWithOriginalValues, TransitionAccount, BundleAccount}
use baron_evm.States.Bundle.{
  Updated, update_changed, update_in_memory, update_destroyed, update_destroyed_changed,
  update_destroyed_changed_from, update_destroyed_again, update_any,
}
use baron_evm.States.Meaning.{essence, has_info, exists_in}
use baron_evm.States.Moves.{leads, matches}

pub none-essence : (o : Option AccountInfo) → has_info o ≡ false → none ≡ essence o
none-essence none h = refl
none-essence (some i) h = absurd (cc)

no_essence : (o : Option AccountInfo) → has_info o ≡ false → essence o ≡ none
no_essence o h = sym (none-essence o h)

-- The account took the state and the information over.
abbrev pub Taken : AccountStatus → Option AccountInfo → Option Updated → Type 0
Taken st info none = ⊥
Taken st info (some (b', r)) = (matches st b'.status ≡ true) × (essence b'.info ≡ essence info)

abbrev bundle :
    Option AccountInfo
    → Option AccountInfo
    → StorageWithOriginalValues
    → AccountStatus
    → BundleAccount
bundle i o s st = record { info = i; original_info = o; storage = s; status = st }

module _ (i o : Option AccountInfo) (s : StorageWithOriginalValues) where
  changed-Taken :
      (st : AccountStatus) (t : TransitionAccount)
      → leads st changed ≡ true
      → Taken changed t.info (update_changed (bundle i o s st) t)
  unfolding update_changed
  changed-Taken loaded_not_existing t l = absurd (cc)
  changed-Taken loaded t l = (refl, refl)
  changed-Taken loaded_empty_eip161 t l = absurd (cc)
  changed-Taken in_memory_change t l = absurd (cc)
  changed-Taken changed t l = (refl, refl)
  changed-Taken destroyed t l = absurd (cc)
  changed-Taken destroyed_changed t l = absurd (cc)
  changed-Taken destroyed_again t l = absurd (cc)

  in_memory-Taken :
      (st : AccountStatus) (t : TransitionAccount)
      → leads st in_memory_change ≡ true
      → Taken in_memory_change t.info (update_in_memory (bundle i o s st) t)
  unfolding update_in_memory
  in_memory-Taken loaded_not_existing t l = (refl, refl)
  in_memory-Taken loaded t l = (refl, refl)
  in_memory-Taken loaded_empty_eip161 t l = (refl, refl)
  in_memory-Taken in_memory_change t l = (refl, refl)
  in_memory-Taken changed t l = absurd (cc)
  in_memory-Taken destroyed t l = absurd (cc)
  in_memory-Taken destroyed_changed t l = absurd (cc)
  in_memory-Taken destroyed_again t l = absurd (cc)

  destroyed-Taken :
      (st : AccountStatus) (t : TransitionAccount)
      → leads st destroyed ≡ true
      → has_info i ≡ exists_in st
      → has_info t.info ≡ false
      → Taken destroyed t.info (update_destroyed (bundle i o s st) t)
  unfolding update_destroyed
  destroyed-Taken loaded_not_existing t l f h = (refl, no_essence i f ∙ none-essence t.info h)
  destroyed-Taken loaded t l f h = (refl, none-essence t.info h)
  destroyed-Taken loaded_empty_eip161 t l f h = (refl, none-essence t.info h)
  destroyed-Taken in_memory_change t l f h = (refl, none-essence t.info h)
  destroyed-Taken changed t l f h = (refl, none-essence t.info h)
  destroyed-Taken destroyed t l f h = absurd (cc)
  destroyed-Taken destroyed_changed t l f h = absurd (cc)
  destroyed-Taken destroyed_again t l f h = absurd (cc)

  rewritten-Taken :
      (t : TransitionAccount)
      → Taken destroyed_changed t.info
          (update_destroyed_changed_from (bundle i o s destroyed_changed) t)
  unfolding update_destroyed_changed_from
  rewritten-Taken t = elim (Bool-cases t.storage_was_destroyed) [
    | inl e ↦ rw e (refl, refl)
    | inr e ↦ rw e (refl, refl)
  ]

  destroyed_changed-Taken :
      (st : AccountStatus) (t : TransitionAccount)
      → leads st destroyed_changed ≡ true
      → Taken destroyed_changed t.info (update_destroyed_changed (bundle i o s st) t)
  unfolding update_destroyed_changed
  destroyed_changed-Taken loaded_not_existing t l = (refl, refl)
  destroyed_changed-Taken loaded t l = (refl, refl)
  destroyed_changed-Taken loaded_empty_eip161 t l = (refl, refl)
  destroyed_changed-Taken in_memory_change t l = (refl, refl)
  destroyed_changed-Taken changed t l = (refl, refl)
  destroyed_changed-Taken destroyed t l = (refl, refl)
  destroyed_changed-Taken destroyed_changed t l = rewritten-Taken t
  destroyed_changed-Taken destroyed_again t l = (refl, refl)

  destroyed_again-Taken :
      (st : AccountStatus) (t : TransitionAccount)
      → leads st destroyed_again ≡ true
      → has_info t.info ≡ false
      → Taken destroyed_again t.info (update_destroyed_again (bundle i o s st) t)
  unfolding update_destroyed_again
  destroyed_again-Taken loaded_not_existing t l h = (refl, none-essence t.info h)
  destroyed_again-Taken loaded t l h = (refl, none-essence t.info h)
  destroyed_again-Taken loaded_empty_eip161 t l h = (refl, none-essence t.info h)
  destroyed_again-Taken in_memory_change t l h = (refl, none-essence t.info h)
  destroyed_again-Taken changed t l h = (refl, none-essence t.info h)
  destroyed_again-Taken destroyed t l h = (refl, none-essence t.info h)
  destroyed_again-Taken destroyed_changed t l h = (refl, none-essence t.info h)
  destroyed_again-Taken destroyed_again t l h = (refl, none-essence t.info h)

pub update_any-Taken :
    (b : BundleAccount) (t : TransitionAccount) (st : AccountStatus)
    → leads b.status st ≡ true
    → has_info b.info ≡ exists_in b.status
    → has_info t.info ≡ exists_in st
    → Taken st t.info (update_any b (record t { status = st }))
unfolding update_any
update_any-Taken b t loaded_not_existing l f h = absurd (cc)
update_any-Taken b t loaded l f h = absurd (cc)
update_any-Taken b t loaded_empty_eip161 l f h = absurd (cc)
update_any-Taken b t in_memory_change l f h =
    in_memory-Taken b.info b.original_info b.storage b.status
      (record t { status = in_memory_change }) l
update_any-Taken b t changed l f h =
    changed-Taken b.info b.original_info b.storage b.status (record t { status = changed }) l
update_any-Taken b t destroyed l f h =
    destroyed-Taken b.info b.original_info b.storage b.status (record t { status = destroyed }) l f
      h
update_any-Taken b t destroyed_changed l f h =
    destroyed_changed-Taken b.info b.original_info b.storage b.status
      (record t { status = destroyed_changed }) l
update_any-Taken b t destroyed_again l f h =
    destroyed_again-Taken b.info b.original_info b.storage b.status
      (record t { status = destroyed_again }) l h
