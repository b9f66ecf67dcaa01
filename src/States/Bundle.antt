-- ===== src/States/Bundle.antt =====
-- crates/bcevm/src/db/states/bundle_account.rs: the account of the bundle that the blocks build up,
-- its update by a block's transition, and its revert. `none` is the panic of an `unreachable!`.
use baron_evm.Base.{ℕ, Bool, true, false, Option, none, some, [], if◌then◌else◌, ◌>>=◌}
use baron_evm.Base.Dict.{Dict, map_values, filter_values, for_entries}
use baron_evm.Journal.Accounts.{AccountInfo, StorageSlot, is_changed, new_slot, default_info}
use baron_evm.States.Status.{
  AccountStatus, loaded, loaded_not_existing, loaded_empty_eip161, in_memory_change, changed,
  destroyed, destroyed_changed, destroyed_again,
}
use baron_evm.States.Accounts.{
  StorageWithOriginalValues, BundleAccount, TransitionAccount, AccountRevert, AccountInfoRevert,
  do_nothing, delete_it, revert_to, RevertToSlot, some_value, destroyed_slot, infos_eq, is_empty,
}
use baron_evm.States.Reverts.{
  new_selfdestructed, new_selfdestructed_again, new_selfdestructed_from_bundle, destroyed_storage,
}

-- `entry(key).or_insert(slot).present_value = value`.
abbrev pub set_present : StorageSlot → ℕ → Option StorageSlot → Option StorageSlot
set_present slot v none = some (record slot { present_value = v })
set_present slot v (some old) = some (record old { present_value = v })

abbrev pub extend_slot : StorageSlot → Option StorageSlot → Option StorageSlot
extend_slot slot old = set_present slot slot.present_value old

unfoldable pub extend_storage :
    StorageWithOriginalValues → StorageWithOriginalValues → StorageWithOriginalValues
extend_storage this update = for_entries extend_slot update this

abbrev pub to_original : StorageSlot → RevertToSlot
to_original slot = some_value slot.previous_or_original_value

unfoldable pub previous_storage_from_update : StorageWithOriginalValues → Dict RevertToSlot
previous_storage_from_update updated = map_values to_original (filter_values is_changed updated)

-- A slot's revert.
abbrev pub revert_slot : RevertToSlot → Option StorageSlot → Option StorageSlot
revert_slot (some_value v) old = set_present (new_slot v) v old
revert_slot destroyed_slot old = none

abbrev pub zero_present : StorageSlot → StorageSlot
zero_present slot = record slot { present_value = 0 }

abbrev pub revert_slots : BundleAccount → AccountRevert → Option AccountInfo → BundleAccount
revert_slots b r info = record b {
  info = info;
  status = r.previous_status;
  storage = for_entries revert_slot r.storage b.storage;
}

-- The account after the revert, and whether it can be removed.
unfoldable pub revert : BundleAccount → AccountRevert → BundleAccount × Bool
revert b r = elim r.account [
  | do_nothing ↦ (revert_slots b r b.info, false)
  | revert_to info ↦ (revert_slots b r (some info), false)
  | delete_it ↦ elim b.original_info [
    | none ↦ (record b { info = none; status = r.previous_status; storage = [] }, true)
    | some original ↦ (
      record b {
        info = none;
        status = r.previous_status;
        storage = map_values zero_present b.storage;
      },
      false,
    )
  ]
]

abbrev pub or_default : Option AccountInfo → AccountInfo
or_default none = default_info
or_default (some info) = info

unfoldable pub info_revert : BundleAccount → TransitionAccount → AccountInfoRevert
unfolding infos_eq
info_revert b t = if infos_eq b.info t.info then do_nothing else revert_to (or_default b.info)

-- The updated account and the revert.
abbrev pub Updated : Type 0
Updated = BundleAccount × Option AccountRevert

abbrev pub updated_to :
    BundleAccount → TransitionAccount → StorageWithOriginalValues → AccountStatus → BundleAccount
updated_to b t storage status = record b { info = t.info; status = status; storage = storage }

-- A revert that keeps the slots' original values.
abbrev pub reverts_to : BundleAccount → TransitionAccount → AccountInfoRevert → AccountRevert
reverts_to b t account = record {
  account = account;
  storage = previous_storage_from_update t.storage;
  previous_status = b.status;
  wipe_storage = false;
}

unfoldable pub update_changed : BundleAccount → TransitionAccount → Option Updated
unfolding extend_storage previous_storage_from_update info_revert
update_changed b t =
    let extended = extend_storage b.storage t.storage in
    let undo = some (reverts_to b t (info_revert b t)) in
    elim b.status [
      | changed ↦ some (updated_to b t extended changed, undo)
      | loaded ↦ some (updated_to b t extended changed, undo)
      | loaded_empty_eip161 ↦ some (updated_to b t b.storage changed, undo)
      | _ ↦ none
    ]

unfoldable pub update_in_memory : BundleAccount → TransitionAccount → Option Updated
unfolding extend_storage previous_storage_from_update info_revert
update_in_memory b t =
    let extended = extend_storage b.storage t.storage in
    let undo = some (reverts_to b t (info_revert b t)) in
    elim b.status [
      | loaded ↦ some (updated_to b t extended in_memory_change, undo)
      | in_memory_change ↦ some (updated_to b t extended in_memory_change, undo)
      | loaded_empty_eip161 ↦ some (updated_to b t t.storage in_memory_change, undo)
      | loaded_not_existing ↦
          some (updated_to b t t.storage in_memory_change, some (reverts_to b t delete_it))
      | _ ↦ none
    ]

-- The bundle's storage is drained in every case.
unfoldable pub update_destroyed : BundleAccount → TransitionAccount → Option Updated
unfolding new_selfdestructed info_revert
update_destroyed b t =
    let gone = record b { info = none; status = destroyed; storage = [] } in
    let undo = some (new_selfdestructed b.status (info_revert b t) b.storage) in
    elim b.status [
      | in_memory_change ↦ some (gone, undo)
      | changed ↦ some (gone, undo)
      | loaded ↦ some (gone, undo)
      | loaded_empty_eip161 ↦ some (gone, undo)
      | loaded_not_existing ↦ some (record b { storage = [] }, none)
      | _ ↦ none
    ]

-- The states that `new_selfdestructed_from_bundle` does not take.
unfoldable pub update_destroyed_changed_from : BundleAccount → TransitionAccount → Option Updated
unfolding extend_storage previous_storage_from_update info_revert new_selfdestructed_again
update_destroyed_changed_from b t =
    let extended = updated_to b t (extend_storage b.storage t.storage) destroyed_changed in
    let created = some (extended, some (reverts_to b t delete_it)) in
    let undo = reverts_to b t (info_revert b t) in
    elim b.status [
      | destroyed ↦ created
      | loaded_not_existing ↦ created
      | destroyed_changed ↦
          (if t.storage_was_destroyed
            then some (
              updated_to b t (extend_storage [] t.storage) destroyed_changed,
              some (record undo { storage = destroyed_storage b.storage t.storage }),
            )
            else some (extended, some undo))
      | destroyed_again ↦
          some (extended, some (new_selfdestructed_again destroyed_again delete_it [] t.storage))
      | _ ↦ none
    ]

unfoldable pub update_destroyed_changed : BundleAccount → TransitionAccount → Option Updated
unfolding update_destroyed_changed_from new_selfdestructed_from_bundle info_revert
update_destroyed_changed b t = elim (new_selfdestructed_from_bundle (info_revert b t) b t.storage) [
  | some undo ↦ some (updated_to b t t.storage destroyed_changed, some undo)
  | none ↦ update_destroyed_changed_from b t
]

-- The revert of a destruction that is not the first, where there is one.
unfoldable pub destroyed_again_revert : BundleAccount → Option (Option AccountRevert)
unfolding new_selfdestructed_again
destroyed_again_revert b = elim b.status [
  | destroyed ↦ some none
  | destroyed_again ↦ some none
  | loaded_not_existing ↦ some none
  | destroyed_changed ↦ some (
      some
        (new_selfdestructed_again destroyed_changed (revert_to (or_default b.info)) b.storage []))
  | _ ↦ none
]

unfoldable pub update_destroyed_again : BundleAccount → TransitionAccount → Option Updated
unfolding destroyed_again_revert new_selfdestructed_from_bundle info_revert
update_destroyed_again b t =
    let gone = record b { info = none; status = destroyed_again; storage = [] } in
    elim (new_selfdestructed_from_bundle (info_revert b t) b []) [
      | some undo ↦ some (gone, some undo)
      | none ↦ destroyed_again_revert b >>= (λ undo. some (gone, undo))
    ]

-- `and_then` at the end: a revert of nothing is none.
abbrev pub non_empty : Option AccountRevert → Option AccountRevert
non_empty none = none
non_empty (some r) = if is_empty r then none else some r

unfoldable pub update_any : BundleAccount → TransitionAccount → Option Updated
unfolding update_changed update_in_memory update_destroyed update_destroyed_changed
    update_destroyed_again
update_any b t = elim t.status [
  | changed ↦ update_changed b t
  | in_memory_change ↦ update_in_memory b t
  | loaded ↦ some (b, none)
  | loaded_not_existing ↦ some (b, none)
  | loaded_empty_eip161 ↦ some (b, none)
  | destroyed ↦ update_destroyed b t
  | destroyed_changed ↦ update_destroyed_changed b t
  | destroyed_again ↦ update_destroyed_again b t
]

abbrev pub with_revert : Updated → Option Updated
with_revert (account, undo) = some (account, non_empty undo)

unfoldable pub update_and_create_revert : BundleAccount → TransitionAccount → Option Updated
unfolding update_any is_empty
update_and_create_revert b t = update_any b t >>= with_revert
