-- ===== src/States/Status.antt =====
-- crates/bcevm/src/db/states/account_status.rs: the states of an account that is kept in memory over
-- several transactions and blocks. `none` is the panic of an `unreachable!`.
use baron_evm.Base.{Bool, true, false, Option, none, some, if◌then◌else◌}

pub data AccountStatus : Type 0 where
  loaded_not_existing loaded loaded_empty_eip161 in_memory_change changed destroyed : AccountStatus
  destroyed_changed destroyed_again : AccountStatus

unfoldable pub is_not_modified : AccountStatus → Bool
is_not_modified s = elim s [
  | loaded_not_existing ↦ true
  | loaded ↦ true
  | loaded_empty_eip161 ↦ true
  | _ ↦ false
]

unfoldable pub was_destroyed : AccountStatus → Bool
was_destroyed s = elim s [
  | destroyed ↦ true
  | destroyed_changed ↦ true
  | destroyed_again ↦ true
  | _ ↦ false
]

unfoldable pub is_storage_known : AccountStatus → Bool
is_storage_known s = elim s [
  | loaded ↦ false
  | loaded_empty_eip161 ↦ false
  | changed ↦ false
  | _ ↦ true
]

unfoldable pub is_modified_and_not_destroyed : AccountStatus → Bool
is_modified_and_not_destroyed s = elim s [ changed ↦ true | in_memory_change ↦ true | _ ↦ false ]

unfoldable pub on_created : AccountStatus → AccountStatus
on_created s = elim s [
  | destroyed_again ↦ destroyed_changed
  | destroyed ↦ destroyed_changed
  | destroyed_changed ↦ destroyed_changed
  | _ ↦ in_memory_change
]

unfoldable pub on_touched_empty_post_eip161 : AccountStatus → Option AccountStatus
on_touched_empty_post_eip161 s = elim s [
  | loaded_not_existing ↦ some loaded_not_existing
  | in_memory_change ↦ some destroyed
  | destroyed ↦ some destroyed
  | loaded_empty_eip161 ↦ some destroyed
  | destroyed_again ↦ some destroyed_again
  | destroyed_changed ↦ some destroyed_again
  | loaded ↦ none
  | changed ↦ none
]

-- The inner option is the function's result: the new status, if it changes.
unfoldable pub on_touched_created_pre_eip161 : AccountStatus → Bool → Option (Option AccountStatus)
on_touched_created_pre_eip161 s had_no_info = elim s [
  | loaded_empty_eip161 ↦ some none
  | destroyed_changed ↦ if had_no_info then some none else some (some destroyed_changed)
  | destroyed ↦ some (some destroyed_changed)
  | destroyed_again ↦ some (some destroyed_changed)
  | in_memory_change ↦ some (some in_memory_change)
  | loaded_not_existing ↦ some (some in_memory_change)
  | loaded ↦ none
  | changed ↦ none
]

unfoldable pub on_changed : AccountStatus → Bool → AccountStatus
on_changed s had_no_nonce_and_code = elim s [
  | loaded_not_existing ↦ in_memory_change
  | loaded_empty_eip161 ↦ in_memory_change
  | loaded ↦ if had_no_nonce_and_code then in_memory_change else changed
  | changed ↦ changed
  | in_memory_change ↦ in_memory_change
  | destroyed_changed ↦ destroyed_changed
  | destroyed ↦ destroyed_changed
  | destroyed_again ↦ destroyed_changed
]

unfoldable pub on_selfdestructed : AccountStatus → AccountStatus
on_selfdestructed s = elim s [
  | loaded_not_existing ↦ loaded_not_existing
  | destroyed_changed ↦ destroyed_again
  | destroyed_again ↦ destroyed_again
  | destroyed ↦ destroyed_again
  | _ ↦ destroyed
]

unfoldable pub is_in_memory_change : AccountStatus → Bool
is_in_memory_change s = elim s [ in_memory_change ↦ true | _ ↦ false ]

unfoldable pub transition : AccountStatus → AccountStatus → AccountStatus
unfolding was_destroyed is_in_memory_change
transition self other =
    if was_destroyed self
    then (if was_destroyed other then other else destroyed_changed)
    else if was_destroyed other
    then other
    else if is_in_memory_change self
    then in_memory_change
    else other
