-- ===== src/Journal/Value.antt =====
-- Transfers, contract creation and self-destruction: crates/bcevm/src/journaled_state.rs.
use baron_evm.Base.{
  ℕ, true, not, ◌||◌, Option, none, some, ◌⊎◌, inl, inr, ◌==◌, if◌then◌else◌, HashMap, insert,
  wrapping_add256, wrapping_sub256, checked_add256, checked_sub256,
}
use baron_evm.Base.Outcome.{ok, ◌>>=◌}
use baron_evm.Spec.{SpecId, enabled, is_enabled_in, spurious_dragon, cancun}
use baron_evm.Bytecode.{keccak_empty}
use baron_evm.Gas.Calc.{SelfDestructResult}
use baron_evm.Journal.Accounts.{
  Account, StorageSlot, Database, new_slot, set_balance, set_nonce, set_created, set_selfdestructed,
  set_storage, set_code_info,
}
use baron_evm.Journal.Entries.{account_created, account_destroyed, balance_transfer}
use baron_evm.Journal.{
  JournaledState, JournalCheckpoint, Fallible, set_state, push_entry, loaded_account, touch_account,
  load_account, load_account_exist, checkpoint, checkpoint_revert,
}

-- The instruction results that these operations return.
pub data InstructionResult : Type 0 where
  out_of_funds overflow_payment create_collision : InstructionResult

-- `self.state.insert(address, account)` where the account is there.
abbrev pub write : JournaledState → ℕ → Account → JournaledState
write js address account = set_state js (insert js.state address account)

-- The end of `transfer`: the recipient's new balance, or its overflow.
unfoldable pub pay :
    JournaledState
    → ℕ
    → ℕ
    → ℕ
    → Account
    → Option ℕ
    → Fallible (JournaledState × Option InstructionResult)
pay js from to balance account none = ok (js, some overflow_payment)
pay js from to balance account (some sum) = do
  pushed ← push_entry js (balance_transfer from to balance)
  ok (write pushed to (set_balance sum account), none)

-- The second half of `transfer`, on the account that is paid.
unfoldable pub credit :
    JournaledState → ℕ → ℕ → ℕ → Fallible (JournaledState × Option InstructionResult)
unfolding pay
credit js from to balance = do
  to_account ← loaded_account js to
  js' ← touch_account js to to_account
  touched_to ← loaded_account js' to
  pay js' from to balance touched_to (checked_add256 touched_to.info.balance balance)

-- The debit of the sender, or its lack of funds.
unfoldable pub debit :
    JournaledState
    → ℕ
    → ℕ
    → ℕ
    → Account
    → Option ℕ
    → Fallible (JournaledState × Option InstructionResult)
unfolding credit
debit js from to balance account none = ok (js, some out_of_funds)
debit js from to balance account (some rest) =
    credit (write js from (set_balance rest account)) from to balance

-- `none` is a transfer that was made.
unfoldable pub transfer :
    JournaledState → ℕ → ℕ → ℕ → Database → Fallible (JournaledState × Option InstructionResult)
unfolding debit
transfer js from to balance db = do
  (js₁, _, _) ← load_account js from db
  (js₂, _, _) ← load_account js₁ to db
  from_account ← loaded_account js₂ from
  js₃ ← touch_account js₂ from from_account
  touched_from ← loaded_account js₃ from
  debit js₃ from to balance touched_from (checked_sub256 touched_from.info.balance balance)

-- Every slot that is loaded becomes the default slot.
abbrev pub reset_storage : HashMap StorageSlot → HashMap StorageSlot
reset_storage m k = elim (m k) [ none ↦ none | some slot ↦ some (new_slot 0) ]

-- The account that `create_account_checkpoint` writes, before the balance is added.
abbrev pub created_account : Account → Account
created_account a =
    set_storage (reset_storage a.storage) (set_code_info a.info.code_hash none (set_created true a))

abbrev pub CreateResult : Type 0
CreateResult = InstructionResult ⊎ JournalCheckpoint

abbrev pub fail_creation :
    JournaledState
    → JournalCheckpoint
    → InstructionResult
    → Fallible (JournaledState × CreateResult)
fail_creation js cp e = do reverted ← checkpoint_revert js cp; ok (reverted, inl e)

-- The move of the endowment from the caller to the created account, whose nonce is set.
unfoldable pub endow : JournaledState → ℕ → ℕ → ℕ → SpecId → Account → ℕ → Fallible JournaledState
endow js caller address balance spec_id account new_balance = do
  let funded = set_balance new_balance account
  let started = if is_enabled_in spec_id spurious_dragon then set_nonce 1 funded else funded
  let js' = write js address started
  caller_account ← loaded_account js' caller
  let debited = set_balance (wrapping_sub256 caller_account.info.balance balance) caller_account
  push_entry (write js' caller debited) (balance_transfer caller address balance)

-- The part of `create_account_checkpoint` behind the test for a collision.
unfoldable pub create_account :
    JournaledState
    → JournalCheckpoint
    → ℕ
    → ℕ
    → ℕ
    → SpecId
    → Account
    → Fallible (JournaledState × CreateResult)
unfolding endow
create_account js cp caller address balance spec_id account = do
  js₁ ← push_entry js (account_created address)
  let created = created_account account
  js₂ ← touch_account (write js₁ address created) address created
  touched ← loaded_account js₂ address
  elim (checked_add256 touched.info.balance balance) [
    | none ↦ fail_creation js₂ cp overflow_payment
    | some new_balance ↦ do
      js₃ ← endow js₂ caller address balance spec_id touched new_balance
      ok (js₃, inr cp)
  ]

-- The checkpoint, or why nothing was created; then all is reverted.
unfoldable pub create_account_checkpoint :
    JournaledState → ℕ → ℕ → ℕ → SpecId → Fallible (JournaledState × CreateResult)
unfolding create_account
create_account_checkpoint js caller address balance spec_id = do
  let (js₁, cp) = checkpoint js
  account ← loaded_account js₁ address
  let collides =
      not (account.info.code_hash == keccak_empty)
      || (not (account.info.nonce == 0) || js₁.warm_preloaded_addresses address)
  if collides
      then fail_creation js₁ cp create_collision
      else create_account js₁ cp caller address balance spec_id account

-- The credit of the target, if it is another account.
unfoldable pub credit_target : JournaledState → ℕ → ℕ → Fallible JournaledState
credit_target js address target =
    if not (address == target)
    then (do
      account ← loaded_account js address
      target_account ← loaded_account js target
      touched ← touch_account js target target_account
      current ← loaded_account touched target
      ok (
          write touched target
            (set_balance (wrapping_add256 current.info.balance account.info.balance) current)))
    else ok js

-- The match that chooses the journal entry, with the changes that it makes of the account.
unfoldable pub destroy : JournaledState → ℕ → ℕ → Account → Fallible JournaledState
destroy js address target acc =
    let emptied = set_balance 0 acc in
    let entry = account_destroyed address target acc.status.selfdestructed acc.info.balance in
    if acc.status.created || not (enabled js.spec cancun)
    then push_entry (write js address (set_selfdestructed true emptied)) entry
    else if not (address == target)
    then push_entry (write js address emptied) (balance_transfer address target acc.info.balance)
    else ok js

unfoldable pub selfdestruct :
    JournaledState → ℕ → ℕ → Database → Fallible (JournaledState × SelfDestructResult)
unfolding destroy credit_target
selfdestruct js address target db = do
  (js₁, load_result) ← load_account_exist js target db
  js₂ ← credit_target js₁ address target
  acc ← loaded_account js₂ address
  js₃ ← destroy js₂ address target acc
  let result : SelfDestructResult = record {
    had_value = not (acc.info.balance == 0);
    target_exists = not load_result.is_empty;
    is_cold = load_result.is_cold;
    previously_destroyed = acc.status.selfdestructed;
  }
  ok (js₃, result)
