-- ===== src/States/Accounts.antt =====
-- The data of crates/bcevm/src/db/states: the account in the cache, in the bundle and in a
-- transition between blocks, and the reverts. A hash map is the list of its entries in the order of
-- iteration; what the theorems say of a map they say of every such order.
use baron_evm.Base.{ℕ, Bool, true, false, not, ◌&&◌, Option, none, some, [], ◌∷◌, ◌==◌}
use mathlib.Core.Option
use baron_evm.Base.Dict.{Dict, lookup}
use baron_evm.Journal.Accounts.{AccountInfo, StorageSlot, default_info}
use baron_evm.States.Status.{AccountStatus, is_storage_known}

abbrev pub StorageWithOriginalValues : Type 0
StorageWithOriginalValues = Dict StorageSlot

abbrev pub PlainStorage : Type 0
PlainStorage = Dict ℕ

abbrev pub present_of : StorageSlot → ℕ
present_of slot = slot.present_value

-- `PartialEq for AccountInfo` leaves the code out.
unfoldable pub info_eq : AccountInfo → AccountInfo → Bool
info_eq i j = i.balance == j.balance && i.nonce == j.nonce && i.code_hash == j.code_hash

-- The comparison of two `Option<AccountInfo>`.
unfoldable pub infos_eq : Option AccountInfo → Option AccountInfo → Bool
unfolding info_eq
infos_eq none none = true
infos_eq none (some j) = false
infos_eq (some i) none = false
infos_eq (some i) (some j) = info_eq i j

pub record PlainAccount : Type 0 where
  pub info : AccountInfo
  pub storage : PlainStorage

unfoldable pub new_empty_with_storage : PlainStorage → PlainAccount
new_empty_with_storage storage = record { info = default_info; storage = storage }

abbrev pub plain_info : PlainAccount → AccountInfo
plain_info a = a.info

pub record CacheAccount : Type 0 where
  pub account : Option PlainAccount
  pub status : AccountStatus

unfoldable pub account_info : CacheAccount → Option AccountInfo
account_info c = Option.map plain_info c.account

pub record TransitionAccount : Type 0 where
  pub info : Option AccountInfo
  pub status : AccountStatus
  pub previous_info : Option AccountInfo
  pub previous_status : AccountStatus
  pub storage : StorageWithOriginalValues
  pub storage_was_destroyed : Bool

pub record BundleAccount : Type 0 where
  pub info : Option AccountInfo
  pub original_info : Option AccountInfo
  pub storage : StorageWithOriginalValues
  pub status : AccountStatus

abbrev pub known_zero : Bool → Option ℕ
known_zero true = some 0
known_zero false = none

unfoldable pub storage_slot : BundleAccount → ℕ → Option ℕ
unfolding lookup is_storage_known
storage_slot b slot = elim (lookup slot b.storage) [
  | some s ↦ some s.present_value
  | none ↦ known_zero (is_storage_known b.status)
]

pub data AccountInfoRevert : Type 0 where
  do_nothing delete_it : AccountInfoRevert
  revert_to : AccountInfo → AccountInfoRevert

pub data RevertToSlot : Type 0 where
  some_value : ℕ → RevertToSlot
  destroyed_slot : RevertToSlot

unfoldable pub to_previous_value : RevertToSlot → ℕ
to_previous_value (some_value v) = v
to_previous_value destroyed_slot = 0

pub record AccountRevert : Type 0 where
  pub account : AccountInfoRevert
  pub storage : Dict RevertToSlot
  pub previous_status : AccountStatus
  pub wipe_storage : Bool

abbrev no_entries {ℓ} : {V : Type ℓ} → Dict V → Bool
no_entries [] = true
no_entries (e ∷ m) = false

abbrev does_nothing : AccountInfoRevert → Bool
does_nothing do_nothing = true
does_nothing delete_it = false
does_nothing (revert_to i) = false

unfoldable pub is_empty : AccountRevert → Bool
is_empty r = does_nothing r.account && no_entries r.storage && not r.wipe_storage
