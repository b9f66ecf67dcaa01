-- ===== src/States/Transition.antt =====
-- crates/bcevm/src/db/states/transition_account.rs and transition_state.rs: the changes that the
-- transactions of one block make to an account, merged.
use baron_evm.Base.{
  ℕ, ◌-◌, ◌^◌, Bool, true, false, not, Option, none, some, List, [], ◌∷◌, ◌==◌, ltb, leb,
  if◌then◌else◌, ◌>>=◌,
}
use baron_evm.Base.Int.{ℤ, pos, sub_ℕ}
use baron_evm.Base.Dict.{Dict, for_entries}
use baron_evm.Bytecode.{Bytecode}
use baron_evm.Journal.Accounts.{AccountInfo, StorageSlot, default_info}
use baron_evm.States.Status.{loaded_not_existing, in_memory_change, destroyed, destroyed_again}
use baron_evm.States.Accounts.{
  StorageWithOriginalValues, TransitionAccount, BundleAccount, AccountRevert,
}
use baron_evm.States.Bundle.{update_and_create_revert}

unfoldable pub new_empty_eip161 : StorageWithOriginalValues → TransitionAccount
new_empty_eip161 storage = record {
  info = some default_info;
  status = in_memory_change;
  previous_info = none;
  previous_status = loaded_not_existing;
  storage = storage;
  storage_was_destroyed = false;
}

-- The comparison of two optional code hashes.
abbrev pub hashes_eq : Option AccountInfo → Option AccountInfo → Bool
hashes_eq none none = true
hashes_eq none (some j) = false
hashes_eq (some i) none = false
hashes_eq (some i) (some j) = i.code_hash == j.code_hash

unfoldable pub has_new_contract : TransitionAccount → Option (ℕ × Bytecode)
has_new_contract t =
    let code = t.info >>= (λ info. info.code >>= (λ c. some (info.code_hash, c))) in
    if not (hashes_eq t.info t.previous_info) then code else none

abbrev balance_of : Option AccountInfo → ℕ
balance_of none = 0
balance_of (some info) = info.balance

unfoldable pub previous_balance : TransitionAccount → ℕ
previous_balance t = balance_of t.previous_info

unfoldable pub current_balance : TransitionAccount → ℕ
current_balance t = balance_of t.info

-- `none` where the difference does not fit into a signed integer of 256 bits.
unfoldable pub balance_delta : TransitionAccount → Option ℤ
unfolding previous_balance current_balance
balance_delta t =
    let previous = previous_balance t in
    let current = current_balance t in
    let delta = if leb previous current then current - previous else previous - current in
    if ltb delta (2 ^ 255)
    then some (if leb previous current then pos delta else sub_ℕ 0 delta)
    else none

-- A slot that gets its original value back leaves the transition.
abbrev pub merge_slot : StorageSlot → Option StorageSlot → Option StorageSlot
merge_slot slot none = some slot
merge_slot slot (some value) =
    if value.previous_or_original_value == slot.present_value
    then none
    else some (record value { present_value = slot.present_value })

unfoldable pub update : TransitionAccount → TransitionAccount → TransitionAccount
update t other =
    let replaced = record t {
      info = other.info;
      status = other.status;
      storage = other.storage;
      storage_was_destroyed = true;
    } in
    elim other.status [
      | destroyed ↦ replaced
      | destroyed_again ↦ replaced
      | _ ↦ record t {
        info = other.info;
        status = other.status;
        storage = for_entries merge_slot other.storage t.storage;
      }
    ]

unfoldable pub present_bundle_account : TransitionAccount → BundleAccount
present_bundle_account t = record {
  info = t.info;
  original_info = t.previous_info;
  storage = t.storage;
  status = t.status;
}

unfoldable pub original_bundle_account : TransitionAccount → BundleAccount
original_bundle_account t = record {
  info = t.previous_info;
  original_info = t.previous_info;
  storage = [];
  status = t.previous_status;
}

unfoldable pub create_revert : TransitionAccount → Option (Option AccountRevert)
unfolding original_bundle_account update_and_create_revert
create_revert t =
    update_and_create_revert (original_bundle_account t) t >>= (λ updated. some updated.1)

abbrev pub TransitionState : Type 0
TransitionState = Dict TransitionAccount

unfoldable pub single : ℕ → TransitionAccount → TransitionState
single address t = (address, t) ∷ []

abbrev pub merge : TransitionAccount → Option TransitionAccount → Option TransitionAccount
merge t none = some t
merge t (some entry) = some (update entry t)

-- The transitions are a vector, in which an address may stand several times.
unfoldable pub add_transitions : TransitionState → List (ℕ × TransitionAccount) → TransitionState
unfolding update for_entries
add_transitions s transitions = for_entries merge transitions s
