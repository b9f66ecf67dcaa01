-- ===== src/Env/Fees.antt =====
-- crates/bcevm/src/handler/mainnet/pre_execution.rs and post_execution.rs: what the caller pays before
-- the execution, gets back after it, and what the beneficiary of the block earns. The accounts are
-- those that the journal loaded.
use baron_evm.Base.{
  ℕ, ◌-◌, ◌*◌, ◌%◌, true, Option, none, some, if◌then◌else◌, saturating_add64, wrapping_add64,
  wrapping_sub64, u256_mod,
}
use baron_evm.Base.Outcome.{ok, unwrap, ◌>>=◌}
use baron_evm.Spec.{SpecId, enabled, london, cancun}
use baron_evm.Gas.{Gas, spent}
use baron_evm.Journal.Accounts.{Account, Database, set_balance, set_nonce, set_touched}
use baron_evm.Journal.{JournaledState, Fallible, load_account}
use baron_evm.Journal.Value.{write}
use baron_evm.Env.{
  Env, TransactTo, call, create, effective_gas_price, calc_data_fee, saturating_mul256,
  saturating_add256,
}

abbrev pub add_data_fee : ℕ → Option ℕ → Option ℕ
add_data_fee gas_cost none = none
add_data_fee gas_cost (some data_fee) = some (saturating_add256 gas_cost data_fee)

-- The gas and data fees of the whole transaction; `none` is an `expect` that failed.
unfoldable pub upfront_cost : SpecId → Env → Option ℕ
unfolding enabled effective_gas_price calc_data_fee
upfront_cost spec env =
    let gas_cost = saturating_mul256 env.tx.gas_limit (effective_gas_price env) in
    if enabled spec cancun then add_data_fee gas_cost (calc_data_fee env) else some gas_cost

abbrev pub bump_nonce : TransactTo → Account → Account
bump_nonce (call address) account = set_nonce (saturating_add64 account.info.nonce 1) account
bump_nonce create account = account

abbrev pub deduct_cost : Account → TransactTo → Option ℕ → Option Account
deduct_cost account to none = none
deduct_cost account to (some cost) =
    some (set_touched true (bump_nonce to (set_balance (account.info.balance - cost) account)))

unfoldable pub deduct_caller_inner : SpecId → Account → Env → Option Account
unfolding upfront_cost
deduct_caller_inner spec account env =
    deduct_cost account env.tx.transact_to (upfront_cost spec env)

unfoldable pub deduct_caller : Database → SpecId → JournaledState → Env → Fallible JournaledState
unfolding deduct_caller_inner load_account
deduct_caller db spec js env = do
  (loaded, account, cold) ← load_account js env.tx.caller db
  paid ← unwrap (deduct_caller_inner spec account env)
  ok (write loaded env.tx.caller paid)

abbrev pub wrapping_mul256 : ℕ → ℕ → ℕ
wrapping_mul256 a b = (a * b) % u256_mod

-- The new balance of a caller whose gas is not spent.
unfoldable pub reimbursed : Env → Gas → ℕ → ℕ
unfolding effective_gas_price
reimbursed env gas balance =
    saturating_add256 balance
      (wrapping_mul256 (effective_gas_price env) (wrapping_add64 gas.remaining gas.refunded))

unfoldable pub reimburse_caller : Database → JournaledState → Env → Gas → Fallible JournaledState
unfolding reimbursed load_account
reimburse_caller db js env gas = do
  (loaded, account, cold) ← load_account js env.tx.caller db
  ok (write loaded env.tx.caller (set_balance (reimbursed env gas account.info.balance) account))

-- The base fee is not paid to the beneficiary.
unfoldable pub coinbase_gas_price : SpecId → Env → ℕ
unfolding enabled effective_gas_price
coinbase_gas_price spec env =
    if enabled spec london
    then effective_gas_price env - env.block.basefee
    else effective_gas_price env

unfoldable pub rewarded : SpecId → Env → Gas → ℕ → ℕ
unfolding coinbase_gas_price spent
rewarded spec env gas balance =
    saturating_add256 balance
      (wrapping_mul256 (coinbase_gas_price spec env) (wrapping_sub64 (spent gas) gas.refunded))

unfoldable pub reward_beneficiary :
    Database → SpecId → JournaledState → Env → Gas → Fallible JournaledState
unfolding rewarded load_account
reward_beneficiary db spec js env gas = do
  (loaded, account, cold) ← load_account js env.block.coinbase db
  ok (
      write loaded env.block.coinbase
        (set_balance (rewarded spec env gas account.info.balance) (set_touched true account)))
