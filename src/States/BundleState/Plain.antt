-- ===== src/States/BundleState/Plain.antt =====
-- crates/bcevm/src/db/states/bundle_state.rs, reverts.rs and changes.rs: the bundle as the plain
-- changes and reverts that a database stores. The vectors of the model are in order.
use baron_evm.Base.{
  ℕ, Bool, true, false, not, ◌&&◌, ◌||◌, Option, none, some, List, [], ◌∷◌, ◌==◌, if◌then◌else◌,
  map,
}
use baron_evm.Base.Dict.{Dict}
use mathlib.Core.Option
use baron_evm.Bytecode.{Bytecode, keccak_empty}
use baron_evm.Journal.Accounts.{AccountInfo, is_changed}
use baron_evm.States.Status.{was_destroyed}
use baron_evm.States.Accounts.{
  StorageWithOriginalValues, BundleAccount, AccountRevert, RevertToSlot, do_nothing, delete_it,
  revert_to, infos_eq,
}
use baron_evm.States.BundleState.{BundleState}
use baron_evm.States.BundleState.Extend.{take_all_reverts}

pub data OriginalValuesKnown : Type 0 where
  yes no : OriginalValuesKnown

unfoldable pub is_not_known : OriginalValuesKnown → Bool
is_not_known yes = false
is_not_known no = true

pub record PlainStorageChangeset : Type 0 where
  pub address : ℕ
  pub wipe_storage : Bool
  pub storage : List (ℕ × ℕ)

pub record StateChangeset : Type 0 where
  pub accounts : List (ℕ × Option AccountInfo)
  pub storage : List PlainStorageChangeset
  pub contracts : List (ℕ × Bytecode)

pub record PlainStorageRevert : Type 0 where
  pub address : ℕ
  pub wiped : Bool
  pub storage_revert : List (ℕ × RevertToSlot)

pub record PlainStateReverts : Type 0 where
  pub accounts : List (List (ℕ × Option AccountInfo))
  pub storage : List (List PlainStorageRevert)

unfoldable pub is_info_changed : BundleAccount → Bool
unfolding infos_eq
is_info_changed b = not (infos_eq b.info b.original_info)

abbrev pub without_code : AccountInfo → AccountInfo
without_code info = record info { code = none }

-- The slots of an account that have to be written.
unfoldable pub changed_slots : Bool → Bool → StorageWithOriginalValues → List (ℕ × ℕ)
unfolding is_changed
changed_slots not_known destroyed [] = []
changed_slots not_known destroyed ((key, slot) ∷ slots) =
    let rest = changed_slots not_known destroyed slots in
    let destroyed_and_not_zero = destroyed && not (slot.present_value == 0) in
    let not_destroyed_and_changed = not destroyed && is_changed slot in
    if not_known || destroyed_and_not_zero || not_destroyed_and_changed
    then (key, slot.present_value) ∷ rest
    else rest

abbrev none_listed {ℓ} : {A : Type ℓ} → List A → Bool
none_listed [] = true
none_listed (x ∷ xs) = false

-- The loop over the accounts.
unfoldable pub plain_accounts :
    Bool → Dict BundleAccount → List (ℕ × Option AccountInfo) × List PlainStorageChangeset
unfolding is_info_changed changed_slots was_destroyed
plain_accounts not_known [] = ([], [])
plain_accounts not_known ((address, b) ∷ accounts) =
    let rest = plain_accounts not_known accounts in
    let destroyed = was_destroyed b.status in
    let slots = changed_slots not_known destroyed b.storage in
    (
      if not_known || is_info_changed b
          then (address, Option.map without_code b.info) ∷ rest.0
          else rest.0,
      if not (none_listed slots) || destroyed
          then record { address = address; wipe_storage = destroyed; storage = slots } ∷ rest.1
          else rest.1,
    )

unfoldable pub nonempty_contracts : Dict Bytecode → List (ℕ × Bytecode)
nonempty_contracts [] = []
nonempty_contracts ((hash, code) ∷ contracts) =
    let rest = nonempty_contracts contracts in
    if not (hash == keccak_empty) then (hash, code) ∷ rest else rest

unfoldable pub into_plain_state : BundleState → OriginalValuesKnown → StateChangeset
unfolding is_not_known plain_accounts nonempty_contracts
into_plain_state s known =
    let (accounts, storage) = plain_accounts (is_not_known known) s.state in
    record { accounts = accounts; storage = storage; contracts = nonempty_contracts s.contracts }

-- One block's reverts.
unfoldable pub plain_reverts :
    List (ℕ × AccountRevert) → List (ℕ × Option AccountInfo) × List PlainStorageRevert
plain_reverts [] = ([], [])
plain_reverts ((address, r) ∷ rs) =
    let rest = plain_reverts rs in
    (
      elim r.account [
        | revert_to info ↦ (address, some info) ∷ rest.0
        | delete_it ↦ (address, none) ∷ rest.0
        | do_nothing ↦ rest.0
      ],
      if r.wipe_storage || not (none_listed r.storage)
          then record { address = address; wiped = r.wipe_storage; storage_revert = r.storage }
            ∷ rest.1
          else rest.1,
    )

unfoldable pub into_plain_state_reverts : List (List (ℕ × AccountRevert)) → PlainStateReverts
unfolding plain_reverts
into_plain_state_reverts blocks = record {
  accounts = map (λ rs. (plain_reverts rs).0) blocks;
  storage = map (λ rs. (plain_reverts rs).1) blocks;
}

unfoldable pub into_plain_state_and_reverts :
    BundleState → OriginalValuesKnown → StateChangeset × PlainStateReverts
unfolding take_all_reverts into_plain_state into_plain_state_reverts
into_plain_state_and_reverts s known =
    let (rest, reverts) = take_all_reverts s in
    (into_plain_state rest known, into_plain_state_reverts reverts)
