-- ===== src/Journal/Accounts.antt =====
-- crates/primitives/src/state.rs: accounts, their status flags and their storage slots, and the
-- database of crates/primitives/src/db.rs that an account is loaded from.
use baron_evm.Base.{ℕ, Bool, true, false, not, ◌&&◌, ◌||◌, Option, none, some, ◌==◌, HashMap}
use baron_evm.Bytecode.{Bytecode, new, keccak_empty}

pub record AccountInfo : Type 0 where
  pub balance : ℕ
  pub nonce : ℕ
  pub code_hash : ℕ
  pub code : Option Bytecode

unfoldable pub default_info : AccountInfo
default_info = record { balance = 0; nonce = 0; code_hash = keccak_empty; code = some new }

unfoldable pub info_is_empty : AccountInfo → Bool
info_is_empty i =
    let code_empty = i.code_hash == keccak_empty || i.code_hash == 0 in
    code_empty && i.balance == 0 && i.nonce == 0

unfoldable pub has_no_code_and_nonce : AccountInfo → Bool
has_no_code_and_nonce i = i.code_hash == keccak_empty && i.nonce == 0

-- The bit flags `Created`, `SelfDestructed`, `Touched` and `LoadedAsNotExisting`.
pub record AccountStatus : Type 0 where
  pub created : Bool
  pub selfdestructed : Bool
  pub touched : Bool
  pub loaded_as_not_existing : Bool

abbrev pub loaded : AccountStatus
loaded = record {
  created = false;
  selfdestructed = false;
  touched = false;
  loaded_as_not_existing = false;
}

pub record StorageSlot : Type 0 where
  pub previous_or_original_value : ℕ
  pub present_value : ℕ

abbrev pub new_slot : ℕ → StorageSlot
new_slot original = record { previous_or_original_value = original; present_value = original }

unfoldable pub is_changed : StorageSlot → Bool
is_changed slot = not (slot.previous_or_original_value == slot.present_value)

pub record Account : Type 0 where
  pub info : AccountInfo
  pub storage : HashMap StorageSlot
  pub status : AccountStatus

-- `From<AccountInfo>`.
unfoldable pub from_info : AccountInfo → Account
from_info i = record { info = i; storage = λ k. none; status = loaded }

unfoldable pub new_not_existing : Account
unfolding default_info
new_not_existing = record {
  info = default_info;
  storage = λ k. none;
  status = record loaded { loaded_as_not_existing = true };
}

-- The mutators, which the journal uses one by one.
abbrev pub set_touched : Bool → Account → Account
set_touched b a = record a { status = record (a.status) { touched = b } }

abbrev pub set_selfdestructed : Bool → Account → Account
set_selfdestructed b a = record a { status = record (a.status) { selfdestructed = b } }

abbrev pub set_created : Bool → Account → Account
set_created b a = record a { status = record (a.status) { created = b } }

abbrev pub set_balance : ℕ → Account → Account
set_balance n a = record a { info = record (a.info) { balance = n } }

abbrev pub set_nonce : ℕ → Account → Account
set_nonce n a = record a { info = record (a.info) { nonce = n } }

abbrev pub set_code_info : ℕ → Option Bytecode → Account → Account
set_code_info h c a = record a { info = record (a.info) { code_hash = h; code = c } }

abbrev pub set_storage : HashMap StorageSlot → Account → Account
set_storage m a = record a { storage = m }

abbrev pub State : Type 0
State = HashMap Account

-- The answers of the database to one operation; the outer `none` is its error.
pub record Database : Type 0 where
  pub basic : ℕ → Option (Option AccountInfo)
  pub storage_at : ℕ → ℕ → Option ℕ
  pub code_by_hash : ℕ → Option Bytecode
