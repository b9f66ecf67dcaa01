-- ===== src/States/Cache.antt =====
-- crates/bcevm/src/db/states/cache_account.rs and cache.rs: the cached account that takes in the
-- result of every transaction, and the transition that each change gives to the block's state.
use baron_evm.Base.{
  ℕ, ◌+◌, Bool, true, false, Option, none, some, [], ◌==◌, if◌then◌else◌, ◌>>=◌, min, u256_mod, ◌-◌,
  ltb, ◌^◌,
}
use mathlib.Core.Option
use baron_evm.Base.Dict.{lookup, map_values, for_entries}
use baron_evm.Journal.Accounts.{
  AccountInfo, StorageSlot, default_info, has_no_code_and_nonce, info_is_empty,
}
use baron_evm.States.Status.{
  AccountStatus, loaded, loaded_not_existing, loaded_empty_eip161, in_memory_change, changed,
  destroyed, destroyed_again, on_created, on_touched_empty_post_eip161,
  on_touched_created_pre_eip161, on_changed, on_selfdestructed,
}
use baron_evm.States.Accounts.{
  PlainAccount, PlainStorage, StorageWithOriginalValues, CacheAccount, TransitionAccount,
  BundleAccount, present_of, new_empty_with_storage, account_info,
}

abbrev plain_account : PlainStorage → AccountInfo → PlainAccount
plain_account storage info = record { info = info; storage = storage }

unfoldable pub from_bundle : BundleAccount → CacheAccount
from_bundle b = record {
  account = Option.map (plain_account (map_values present_of b.storage)) b.info;
  status = b.status;
}

unfoldable pub new_loaded : AccountInfo → PlainStorage → CacheAccount
new_loaded info storage = record {
  account = some (record { info = info; storage = storage });
  status = loaded;
}

unfoldable pub new_loaded_empty_eip161 : PlainStorage → CacheAccount
new_loaded_empty_eip161 storage = record {
  account = some (new_empty_with_storage storage);
  status = loaded_empty_eip161;
}

unfoldable pub new_loaded_not_existing : CacheAccount
new_loaded_not_existing = record { account = none; status = loaded_not_existing }

unfoldable pub new_newly_created : AccountInfo → PlainStorage → CacheAccount
new_newly_created info storage = record {
  account = some (record { info = info; storage = storage });
  status = in_memory_change;
}

unfoldable pub new_destroyed : CacheAccount
new_destroyed = record { account = none; status = destroyed }

unfoldable pub new_changed : AccountInfo → PlainStorage → CacheAccount
new_changed info storage = record {
  account = some (record { info = info; storage = storage });
  status = changed;
}

unfoldable pub is_some : CacheAccount → Bool
is_some c = elim c.status [
  | loaded_not_existing ↦ false
  | destroyed ↦ false
  | destroyed_again ↦ false
  | _ ↦ true
]

unfoldable pub storage_slot : CacheAccount → ℕ → Option ℕ
storage_slot c slot = c.account >>= (λ a. lookup slot a.storage)

-- What `map` and `unwrap_or_default` make of a test on the information.
abbrev pub test_info : (AccountInfo → Bool) → Option AccountInfo → Bool
test_info test none = false
test_info test (some i) = test i

abbrev pub Change : Type 0
Change = CacheAccount × Option TransitionAccount

unfoldable pub touch_create_pre_eip161 : CacheAccount → StorageWithOriginalValues → Option Change
unfolding on_touched_created_pre_eip161 account_info new_empty_with_storage info_is_empty map_values
touch_create_pre_eip161 c storage = do
  next ← on_touched_created_pre_eip161 c.status (test_info info_is_empty (account_info c))
  elim next [
    | none ↦ some (c, none)
    | some status ↦ some (
      record {
        account = some (new_empty_with_storage (map_values present_of storage));
        status = status;
      },
      some (record {
        info = some default_info;
        status = status;
        previous_info = account_info c;
        previous_status = c.status;
        storage = storage;
        storage_was_destroyed = false;
      }),
    )
  ]

-- The transition of an account that is gone.
abbrev pub removal : CacheAccount → AccountStatus → TransitionAccount
removal c status = record {
  info = none;
  status = status;
  previous_info = account_info c;
  previous_status = c.status;
  storage = [];
  storage_was_destroyed = true;
}

unfoldable pub touch_empty_eip161 : CacheAccount → Option Change
unfolding on_touched_empty_post_eip161 account_info
touch_empty_eip161 c = do
  status ← on_touched_empty_post_eip161 c.status
  let gone = some (removal c status)
  some (
    record { account = none; status = status },
    elim c.status [
      | loaded_not_existing ↦ none
      | destroyed ↦ none
      | destroyed_again ↦ none
      | _ ↦ gone
    ],
  )

unfoldable pub selfdestruct : CacheAccount → Change
unfolding on_selfdestructed account_info
selfdestruct c =
    let status = on_selfdestructed c.status in
    let gone = some (removal c status) in
    (
      record { account = none; status = status },
      elim c.status [ loaded_not_existing ↦ none | _ ↦ gone ],
    )

unfoldable pub newly_created :
    CacheAccount → AccountInfo → StorageWithOriginalValues → CacheAccount × TransitionAccount
unfolding on_created account_info map_values
newly_created c new_info new_storage =
    let status = on_created c.status in
    (
      record {
        account = some (record { info = new_info; storage = map_values present_of new_storage });
        status = status;
      },
      record {
        info = some new_info;
        status = status;
        previous_info = account_info c;
        previous_status = c.status;
        storage = new_storage;
        storage_was_destroyed = false;
      },
    )

abbrev pub taken : Option PlainAccount → PlainAccount
taken none = record { info = default_info; storage = [] }
taken (some a) = a

unfoldable pub account_info_change :
    CacheAccount → (AccountInfo → AccountInfo) → CacheAccount × TransitionAccount
unfolding on_changed account_info has_no_code_and_nonce
account_info_change c change =
    let account = taken c.account in
    let info = change account.info in
    let status = on_changed c.status (test_info has_no_code_and_nonce (account_info c)) in
    (
      record { account = some (record account { info = info }); status = status },
      record {
        info = some info;
        status = status;
        previous_info = account_info c;
        previous_status = c.status;
        storage = [];
        storage_was_destroyed = false;
      },
    )

unfoldable pub increment_balance : CacheAccount → ℕ → Change
unfolding account_info_change
increment_balance c balance =
    let (account, transition) =
      account_info_change c
        (λ i. record i { balance = min (i.balance + balance) (u256_mod - 1) }) in
    if balance == 0 then (c, none) else (account, some transition)

-- The drained amount has to fit into 128 bits.
unfoldable pub drain_balance : CacheAccount → Option (ℕ × CacheAccount × TransitionAccount)
unfolding account_info_change
drain_balance c =
    let output = (taken c.account).info.balance in
    let (account, transition) = account_info_change c (λ i. record i { balance = 0 }) in
    if ltb output (2 ^ 128) then some (output, account, transition) else none

abbrev write_present : StorageSlot → Option ℕ → Option ℕ
write_present slot old = some slot.present_value

unfoldable pub change :
    CacheAccount → AccountInfo → StorageWithOriginalValues → CacheAccount × TransitionAccount
unfolding on_changed account_info has_no_code_and_nonce for_entries
change c new storage =
    let status = on_changed c.status (test_info has_no_code_and_nonce (account_info c)) in
    (
      record {
        account = some (record {
          info = new;
          storage = for_entries write_present storage (taken c.account).storage;
        });
        status = status;
      },
      record {
        info = some new;
        status = status;
        previous_info = account_info c;
        previous_status = c.status;
        storage = storage;
        storage_was_destroyed = false;
      },
    )
