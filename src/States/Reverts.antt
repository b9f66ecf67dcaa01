-- ===== src/States/Reverts.antt =====
-- crates/bcevm/src/db/states/reverts.rs: the reverts of destroyed accounts.
use baron_evm.Base.{true, false, Option, none, some}
use baron_evm.Base.Dict.{Dict, map_values, for_entries}
use baron_evm.Journal.Accounts.{StorageSlot}
use baron_evm.States.Status.{AccountStatus, in_memory_change, changed, loaded_empty_eip161, loaded}
use baron_evm.States.Accounts.{
  StorageWithOriginalValues, BundleAccount, AccountRevert, AccountInfoRevert, RevertToSlot,
  some_value, destroyed_slot,
}

-- `entry(key).or_insert(RevertToSlot::Destroyed)`.
abbrev pub or_destroyed : StorageSlot → Option RevertToSlot → Option RevertToSlot
or_destroyed slot none = some destroyed_slot
or_destroyed slot (some r) = some r

abbrev pub to_present : StorageSlot → RevertToSlot
to_present slot = some_value slot.present_value

-- The present values of the old storage, and a removal for each further slot of the new one.
unfoldable pub destroyed_storage :
    StorageWithOriginalValues → StorageWithOriginalValues → Dict RevertToSlot
destroyed_storage previous updated =
    for_entries or_destroyed updated (map_values to_present previous)

unfoldable pub new_selfdestructed_again :
    AccountStatus
    → AccountInfoRevert
    → StorageWithOriginalValues
    → StorageWithOriginalValues
    → AccountRevert
unfolding destroyed_storage
new_selfdestructed_again status account previous updated = record {
  account = account;
  storage = destroyed_storage previous updated;
  previous_status = status;
  wipe_storage = false;
}

-- The bundle's storage is drained where there is a result.
unfoldable pub new_selfdestructed_from_bundle :
    AccountInfoRevert → BundleAccount → StorageWithOriginalValues → Option AccountRevert
unfolding new_selfdestructed_again
new_selfdestructed_from_bundle account b updated =
    let again = new_selfdestructed_again b.status account b.storage updated in
    let wiping = some (record again { wipe_storage = true }) in
    elim b.status [
      | in_memory_change ↦ wiping
      | changed ↦ wiping
      | loaded_empty_eip161 ↦ wiping
      | loaded ↦ wiping
      | _ ↦ none
    ]

unfoldable pub new_selfdestructed :
    AccountStatus → AccountInfoRevert → StorageWithOriginalValues → AccountRevert
new_selfdestructed status account storage = record {
  account = account;
  storage = map_values to_present storage;
  previous_status = status;
  wipe_storage = true;
}
