-- ===== src/States/CacheState.antt =====
-- crates/bcevm/src/db/states/cache.rs: the cached accounts, and the result of a transaction that is
-- applied to them.
use baron_evm.Base.{ℕ, Bool, not, Option, none, some, List, [], ◌∷◌, if◌then◌else◌, ◌>>=◌}
use baron_evm.Base.Dict.{Dict, lookup, store}
use baron_evm.Bytecode.{Bytecode}
use baron_evm.Journal.Accounts.{AccountInfo, AccountStatus as EvmStatus, info_is_empty}
use baron_evm.States.Accounts.{
  PlainAccount, PlainStorage, StorageWithOriginalValues, CacheAccount, TransitionAccount,
}
use baron_evm.States.Cache.{
  new_loaded, new_loaded_empty_eip161, new_loaded_not_existing, selfdestruct, newly_created,
  touch_empty_eip161, touch_create_pre_eip161, change, Change,
}

-- An account of the transaction's result; here the storage is iterated over.
pub record EvmAccount : Type 0 where
  pub info : AccountInfo
  pub storage : StorageWithOriginalValues
  pub status : EvmStatus

pub record CacheState : Type 0 where
  pub accounts : Dict CacheAccount
  pub contracts : Dict Bytecode
  pub has_state_clear : Bool

unfoldable pub new : Bool → CacheState
new clear = record { accounts = []; contracts = []; has_state_clear = clear }

unfoldable pub set_state_clear_flag : CacheState → Bool → CacheState
set_state_clear_flag s clear = record s { has_state_clear = clear }

unfoldable pub trie_account : Dict CacheAccount → List (ℕ × PlainAccount)
trie_account [] = []
trie_account ((address, c) ∷ accounts) =
    let rest = trie_account accounts in
    elim c.account [ none ↦ rest | some plain ↦ (address, plain) ∷ rest ]

abbrev put_account : CacheState → ℕ → CacheAccount → CacheState
put_account s address c = record s { accounts = store address c s.accounts }

unfoldable pub insert_not_existing : CacheState → ℕ → CacheState
unfolding new_loaded_not_existing
insert_not_existing s address = put_account s address new_loaded_not_existing

unfoldable pub loaded_with : AccountInfo → PlainStorage → CacheAccount
unfolding new_loaded new_loaded_empty_eip161 info_is_empty
loaded_with info storage =
    if not (info_is_empty info) then new_loaded info storage else new_loaded_empty_eip161 storage

unfoldable pub insert_account : CacheState → ℕ → AccountInfo → CacheState
unfolding loaded_with
insert_account s address info = put_account s address (loaded_with info [])

unfoldable pub insert_account_with_storage :
    CacheState → ℕ → AccountInfo → PlainStorage → CacheState
unfolding loaded_with
insert_account_with_storage s address info storage =
    put_account s address (loaded_with info storage)

abbrev always : CacheAccount × TransitionAccount → Change
always (c, t) = (c, some t)

-- The change of an account that is touched.
unfoldable pub change_account : Bool → CacheAccount → EvmAccount → Option Change
unfolding selfdestruct newly_created info_is_empty touch_empty_eip161 touch_create_pre_eip161 change
change_account clear c account =
    if account.status.selfdestructed
    then some (selfdestruct c)
    else if account.status.created
    then some (always (newly_created c account.info account.storage))
    else if info_is_empty account.info
    then (if clear then touch_empty_eip161 c else touch_create_pre_eip161 c account.storage)
    else some (always (change c account.info account.storage))

-- `none` is a panic: the account is not in the cache, or a status is impossible.
unfoldable pub apply_account_state :
    CacheState → ℕ → EvmAccount → Option (CacheState × Option TransitionAccount)
unfolding change_account lookup store
apply_account_state s address account =
    let applied = do
      this ← lookup address s.accounts
      (c, t) ← change_account s.has_state_clear this account
      some (put_account s address c, t)
    in if not account.status.touched then some (s, none) else applied

abbrev pushed :
    ℕ → Option TransitionAccount → List (ℕ × TransitionAccount) → List (ℕ × TransitionAccount)
pushed address none ts = ts
pushed address (some t) ts = (address, t) ∷ ts

unfoldable pub apply_evm_state :
    CacheState → Dict EvmAccount → Option (CacheState × List (ℕ × TransitionAccount))
unfolding apply_account_state
apply_evm_state s [] = some (s, [])
apply_evm_state s ((address, account) ∷ evm_state) = do
  (next, t) ← apply_account_state s address account
  (last, ts) ← apply_evm_state next evm_state
  some (last, pushed address t ts)
