-- ===== src/Env/Examples.antt =====
-- A Cancun transaction with one blob: validated, paid and settled.
use baron_evm.Base.{
  ℕ, ◌+◌, ◌*◌, ◌≤◌, ◌^◌, false, Option, none, some, [], ◌∷◌, ◌≡◌, ◌≢◌, refl, arith, replicate,
}
use baron_evm.Base.Outcome.{ok, panic}
use baron_evm.Spec.{cancun, prague, enabled}
use baron_evm.Bytecode.{keccak_empty}
use baron_evm.Gas.{Gas}
use baron_evm.Journal.Accounts.{Account, from_info}
use baron_evm.Env.{CfgEnv, BlockEnv, TxEnv, Env, call, create, effective_gas_price, calc_data_fee}
use baron_evm.Env.Validate.{validate_block_env, validate_tx, validate_tx_against_state}
use baron_evm.Env.Fees.{upfront_cost, deduct_caller_inner, reimbursed, rewarded}
use baron_evm.Env.Affords.{upfront_cost-validated}
use baron_evm.Env.BlobPrice.{fake_exponential, calc_blob_gasprice}
use baron_evm.Env.PriceEnds.{fake_exponential_ends}
use baron_evm.Env.Valid.{validate-Safe}
use baron_evm.Env.Settles.{used, data_fee, burnt_price, reimburse-deduct}

abbrev cfg : CfgEnv
cfg = record {
  chain_id = 1;
  limit_contract_code_size = none;
  disable_balance_check = false;
  disable_block_gas_limit = false;
  disable_eip3607 = false;
  disable_gas_refund = false;
  disable_base_fee = false;
  disable_beneficiary_reward = false;
}

abbrev block : BlockEnv
block = record {
  number = 9;
  coinbase = 77;
  timestamp = 1;
  gas_limit = 30000000;
  basefee = 7;
  difficulty = 0;
  prevrandao = some 5;
  blob_excess_gas_and_price = some (record { excess_blob_gas = 0; blob_gasprice = 1 });
}

abbrev tx : TxEnv
tx = record {
  caller = 3;
  gas_limit = 21000;
  gas_price = 10;
  transact_to = call 4;
  value = 1000;
  payload = [];
  nonce = some 2;
  chain_id = some 1;
  access_list = [];
  gas_priority_fee = some 2;
  blob_hashes = 2 ^ 248 ∷ [];
  max_fee_per_blob_gas = some 5;
  eof_initcodes = [];
  eof_initcodes_hashed = [];
}

abbrev env : Env
env = record { cfg = cfg; block = block; tx = tx }

abbrev caller : Account
caller = from_info (record { balance = 1000000; nonce = 2; code_hash = keccak_empty; code = none })

block_valid : validate_block_env cancun env ≡ ok tt
unfolding validate_block_env
block_valid = refl

tx_valid : validate_tx cancun env ≡ ok tt
unfolding validate_tx
tx_valid = refl

caller_valid : validate_tx_against_state cancun env caller ≡ ok caller
unfolding validate_tx_against_state from_info
caller_valid = refl

upfront_cost-validated_example :
    (cost : ℕ) × (upfront_cost cancun env ≡ some cost) × (cost + 1000 ≤ caller.info.balance)
upfront_cost-validated_example =
    upfront_cost-validated cancun env caller caller block_valid tx_valid (λ e. absurd (cc))
      caller_valid

validate-Safe_example :
    (validate_tx cancun env ≢ panic) × (validate_tx_against_state cancun env caller ≢ panic)
validate-Safe_example = validate-Safe cancun env caller block_valid

-- 15000 gas was spent, and 3000 of it are refunded.
abbrev meter : Gas
meter = record { limit = 21000; remaining = 6000; refunded = 3000 }

abbrev debited : Option Account → Account
debited none = caller
debited (some a) = a

deducted :
    deduct_caller_inner cancun caller env ≡ some (debited (deduct_caller_inner cancun caller env))
unfolding deduct_caller_inner
deducted = refl

covered :
    21000 * effective_gas_price env + data_fee (enabled cancun cancun) env ≤ caller.info.balance
unfolding effective_gas_price calc_data_fee enabled from_info
covered = omega arith

reimburse-deduct_example :
    (reimbursed env meter (debited (deduct_caller_inner cancun caller env)).info.balance
        + used meter * effective_gas_price env
        + data_fee (enabled cancun cancun) env
      ≡ caller.info.balance)
    × (rewarded cancun env meter 50 + used meter * burnt_price cancun env
        ≡ 50 + used meter * effective_gas_price env)
unfolding from_info
reimburse-deduct_example =
    reimburse-deduct cancun env caller (debited (deduct_caller_inner cancun caller env)) meter 50
      (record { limit = refl; bound = omega arith; meter = omega arith }) covered (omega arith)
      (omega arith) deducted

-- Blob hashes without a price that the sender is willing to pay are accepted, and paid for.
abbrev unpriced : Env
unpriced = record env { tx = record tx { max_fee_per_blob_gas = none; value = 790000 } }

unpriced_accepted :
    (validate_tx cancun unpriced ≡ ok tt)
    × (validate_tx_against_state cancun unpriced caller ≡ ok caller)
    × (upfront_cost cancun unpriced ≡ some 320072)
unfolding validate_tx validate_tx_against_state upfront_cost from_info
unpriced_accepted = (refl, refl, refl)

-- More initcodes than the limit are accepted.
abbrev many_initcodes : Env
many_initcodes = record env {
  tx = record tx {
    transact_to = create;
    blob_hashes = [];
    max_fee_per_blob_gas = none;
    eof_initcodes = replicate 257 [];
  };
}

many_initcodes_accepted : validate_tx prague many_initcodes ≡ ok tt
unfolding validate_tx
many_initcodes_accepted = refl

fake_exponential_ends_example : (price : ℕ) × (fake_exponential 1 2314058 3338477 ≡ some price)
fake_exponential_ends_example =
    fake_exponential_ends 1 2314058 3338477 (omega arith) (omega arith) (omega arith)

-- The vectors of the repository's own test.
blob_prices :
    (calc_blob_gasprice 0 ≡ some 1)
    × (calc_blob_gasprice 2314057 ≡ some 1)
    × (calc_blob_gasprice 2314058 ≡ some 2)
    × (calc_blob_gasprice 10485760 ≡ some 23)
unfolding calc_blob_gasprice
blob_prices = (refl, refl, refl, refl)
