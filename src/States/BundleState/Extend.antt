-- ===== src/States/BundleState/Extend.antt =====
-- crates/bcevm/src/db/states/bundle_state.rs: bundles put on top of each other, and the reverts that
-- are taken out of one.
use baron_evm.Base.{
  ℕ, false, Option, none, some, List, [], ◌∷◌, ◌++◌, if◌then◌else◌, length, take, drop, ltb,
  wrapping_add64,
}
use baron_evm.Base.Dict.{Dict, lookup, store, for_entries}
use baron_evm.Bytecode.{Bytecode}
use baron_evm.Journal.Accounts.{StorageSlot}
use baron_evm.States.Status.{was_destroyed, transition}
use baron_evm.States.Accounts.{BundleAccount, AccountRevert, RevertToSlot, some_value}
use baron_evm.States.Bundle.{extend_storage}
use baron_evm.States.BundleState.{BundleState, revert_size_hint, insert_account, replace_account}

unfoldable pub extended_account : BundleAccount → BundleAccount → BundleAccount
unfolding was_destroyed transition extend_storage
extended_account this other = record this {
  storage =
      if was_destroyed other.status
      then other.storage
      else extend_storage this.storage other.storage;
  info = other.info;
  status = transition this.status other.status;
}

abbrev pub extend_entry : BundleState → ℕ → BundleAccount → Option BundleAccount → BundleState
extend_entry s address other none = insert_account s address other
extend_entry s address other (some this) =
    replace_account s address this (extended_account this other)

unfoldable pub extend_state : BundleState → Dict BundleAccount → BundleState
unfolding insert_account replace_account extended_account lookup
extend_state s [] = s
extend_state s ((address, other) ∷ others) =
    extend_state (extend_entry s address other (lookup address s.state)) others

abbrev or_present : StorageSlot → Option RevertToSlot → Option RevertToSlot
or_present slot none = some (some_value slot.present_value)
or_present slot (some r) = some r

-- The storage of an account that was destroyed later goes into the revert.
unfoldable pub drained_into : BundleAccount → AccountRevert → AccountRevert
unfolding for_entries was_destroyed
drained_into this r = record r {
  storage = for_entries or_present this.storage r.storage;
  wipe_storage = if was_destroyed this.status then false else r.wipe_storage;
}

-- The account loses its storage; the bundle's size stays.
abbrev pub move_storage :
    BundleState → ℕ → AccountRevert → Option BundleAccount → BundleState × AccountRevert
move_storage s address r none = (s, r)
move_storage s address r (some this) =
    (record s { state = store address (record this { storage = [] }) s.state }, drained_into this r)

unfoldable pub take_revert : BundleState → ℕ → AccountRevert → BundleState × AccountRevert
unfolding drained_into revert_size_hint lookup store
take_revert s address r =
    let moved =
      if r.wipe_storage then move_storage s address r (lookup address s.state) else (s, r) in
    (
      record (moved.0) {
        reverts_size = wrapping_add64 moved.0.reverts_size (revert_size_hint moved.1);
      },
      moved.1,
    )

unfoldable pub take_block :
    BundleState → List (ℕ × AccountRevert) → BundleState × List (ℕ × AccountRevert)
unfolding take_revert
take_block s [] = (s, [])
take_block s ((address, r) ∷ rs) =
    let taken = take_revert s address r in
    let rest = take_block taken.0 rs in (rest.0, (address, taken.1) ∷ rest.1)

unfoldable pub take_blocks :
    BundleState → List (List (ℕ × AccountRevert)) → BundleState × List (List (ℕ × AccountRevert))
unfolding take_block
take_blocks s [] = (s, [])
take_blocks s (rs ∷ blocks) =
    let taken = take_block s rs in
    let rest = take_blocks taken.0 blocks in (rest.0, taken.1 ∷ rest.1)

-- `HashMap::extend`.
abbrev overwrite : Bytecode → Option Bytecode → Option Bytecode
overwrite code old = some code

unfoldable pub extend : BundleState → BundleState → BundleState
unfolding take_blocks extend_state for_entries
extend s other =
    let taken = take_blocks s other.undo in
    let extended = extend_state taken.0 other.state in
    record extended {
      contracts = for_entries overwrite other.contracts extended.contracts;
      undo = extended.undo ++ taken.1;
    }

abbrev pub block_size : List (ℕ × AccountRevert) → ℕ
block_size [] = 0
block_size ((address, r) ∷ rs) = wrapping_add64 (revert_size_hint r) (block_size rs)

unfoldable pub blocks_size : List (List (ℕ × AccountRevert)) → ℕ
unfolding revert_size_hint
blocks_size [] = 0
blocks_size (rs ∷ blocks) = wrapping_add64 (block_size rs) (blocks_size blocks)

unfoldable pub take_all_reverts : BundleState → BundleState × List (List (ℕ × AccountRevert))
take_all_reverts s = (record s { undo = []; reverts_size = 0 }, s.undo)

unfoldable pub take_n_reverts : BundleState → ℕ → BundleState × List (List (ℕ × AccountRevert))
unfolding take_all_reverts blocks_size
take_n_reverts s n =
    let this = drop n s.undo in
    if ltb (length s.undo) n
    then take_all_reverts s
    else (record s { undo = this; reverts_size = blocks_size this }, take n s.undo)

-- The other bundle's reverts stay; those of the bundle itself are dropped.
unfoldable pub prepend_state : BundleState → BundleState → BundleState
unfolding extend_state for_entries
prepend_state s other =
    let extended = extend_state other s.state in
    record extended { contracts = for_entries overwrite s.contracts extended.contracts }
