-- ===== src/Env/Validate.antt =====
-- crates/primitives/src/env.rs and crates/bcevm/src/handler/mainnet/validation.rs: the checks before
-- a transaction is executed, in their order. A panic is an `expect` that failed.
use baron_evm.Base.{
  ℕ, ◌/◌, ◌^◌, Bool, true, false, not, ◌&&◌, ◌||◌, Option, none, some, List, [], ◌∷◌, ◌==◌, ltb,
  leb, if◌then◌else◌, length, saturating_mul64, checked_add256, checked_mul256,
}
use baron_evm.Base.Dict.{Dict}
use baron_evm.Base.Outcome.{Outcome, ok, err, unwrap, ok_or, reject, ◌>>=◌}
use baron_evm.Spec.{SpecId, enabled, london, berlin, merge, shanghai, cancun, prague}
use baron_evm.Bytecode.{keccak_empty}
use baron_evm.Journal.Accounts.{Account, set_balance}
use baron_evm.Gas.Calc.{validate_initial_tx_gas}
use baron_evm.Env.{
  Env, is_create, is_call, effective_gas_price, get_blob_gasprice, calc_max_data_fee,
  is_eip3607_disabled, is_balance_check_disabled, is_base_fee_check_disabled,
  is_block_gas_limit_disabled,
}

pub data InvalidHeader : Type 0 where
  prevrandao_not_set excess_blob_gas_not_set : InvalidHeader

pub data InvalidTransaction : Type 0 where
  priority_fee_greater_than_max_fee gas_price_less_than_basefee : InvalidTransaction
  caller_gas_limit_more_than_block call_gas_cost_more_than_gas_limit : InvalidTransaction
  reject_caller_with_code overflow_payment_in_transaction : InvalidTransaction
  nonce_overflow_in_transaction create_init_code_size_limit : InvalidTransaction
  invalid_chain_id access_list_not_supported max_fee_per_blob_gas_not_supported : InvalidTransaction
  blob_versioned_hashes_not_supported blob_gas_price_greater_than_max : InvalidTransaction
  empty_blobs blob_create_transaction too_many_blobs blob_version_not_supported : InvalidTransaction
  eof_initcodes_not_supported eof_initcodes_number_limit : InvalidTransaction
  eof_initcodes_size_limit eof_crate_should_have_to_address : InvalidTransaction
  lack_of_fund_for_max_fee nonce_too_high nonce_too_low : ℕ → ℕ → InvalidTransaction

abbrev pub is_none {ℓ} : {A : Type ℓ} → Option A → Bool
is_none none = true
is_none (some a) = false

abbrev pub is_empty {ℓ} : {A : Type ℓ} → List A → Bool
is_empty [] = true
is_empty (x ∷ xs) = false

abbrev pub Checked : Type 0
Checked = Outcome InvalidTransaction (Unit {0})

unfoldable pub validate_block_env : SpecId → Env → Outcome InvalidHeader (Unit {0})
unfolding enabled
validate_block_env spec env = do
  _ ← reject (enabled spec merge && is_none env.block.prevrandao) prevrandao_not_set
  reject (enabled spec cancun && is_none env.block.blob_excess_gas_and_price)
      excess_blob_gas_not_set

abbrev pub fee_too_high : Env → Option ℕ → Bool
fee_too_high env none = false
fee_too_high env (some priority_fee) = ltb env.tx.gas_price priority_fee

unfoldable pub check_fees : SpecId → Env → Checked
unfolding enabled effective_gas_price is_base_fee_check_disabled
check_fees spec env = do
  _ ←
      reject (enabled spec london && fee_too_high env env.tx.gas_priority_fee)
        priority_fee_greater_than_max_fee
  reject
      (enabled spec london
        && not (is_base_fee_check_disabled env.cfg)
        && ltb (effective_gas_price env) env.block.basefee)
      gas_price_less_than_basefee

unfoldable pub check_gas_limit : Env → Checked
unfolding is_block_gas_limit_disabled
check_gas_limit env =
    reject (not (is_block_gas_limit_disabled env.cfg) && ltb env.block.gas_limit env.tx.gas_limit)
      caller_gas_limit_more_than_block

abbrev pub max_initcode_size : ℕ
max_initcode_size = 49152

abbrev pub initcode_limit : Option ℕ → ℕ
initcode_limit none = max_initcode_size
initcode_limit (some limit) = saturating_mul64 limit 2

unfoldable pub check_initcode : SpecId → Env → Checked
unfolding enabled is_create
check_initcode spec env =
    reject
      (enabled spec shanghai
        && is_create env.tx.transact_to
        && ltb (initcode_limit env.cfg.limit_contract_code_size) (length env.tx.payload))
      create_init_code_size_limit

abbrev pub other_chain : Env → Option ℕ → Bool
other_chain env none = false
other_chain env (some tx_chain_id) = not (tx_chain_id == env.cfg.chain_id)

unfoldable pub check_chain : SpecId → Env → Checked
unfolding enabled
check_chain spec env = do
  _ ← reject (other_chain env env.tx.chain_id) invalid_chain_id
  reject (not (enabled spec berlin) && not (is_empty env.tx.access_list)) access_list_not_supported

-- The first byte of a hash is the version.
abbrev pub other_version : List ℕ → Bool
other_version [] = false
other_version (blob ∷ blobs) = not (blob / 2 ^ 248 == 1) || other_version blobs

-- A blob transaction.
unfoldable pub check_blobs : Env → ℕ → Checked
unfolding get_blob_gasprice is_create
check_blobs env max = do
  price ← unwrap (get_blob_gasprice env.block)
  _ ← reject (ltb max price) blob_gas_price_greater_than_max
  _ ← reject (is_empty env.tx.blob_hashes) empty_blobs
  _ ← reject (is_create env.tx.transact_to) blob_create_transaction
  _ ← reject (other_version env.tx.blob_hashes) blob_version_not_supported
  reject (ltb 6 (length env.tx.blob_hashes)) too_many_blobs

abbrev pub check_max_fee : Env → Option ℕ → Checked
check_max_fee env none = ok tt
check_max_fee env (some max) = check_blobs env max

-- What a transaction may not have before the fork of the blobs.
abbrev pub check_no_blobs : Env → Checked
check_no_blobs env = do
  _ ← reject (not (is_empty env.tx.blob_hashes)) blob_versioned_hashes_not_supported
  reject (not (is_none env.tx.max_fee_per_blob_gas)) max_fee_per_blob_gas_not_supported

unfoldable pub check_data : SpecId → Env → Checked
unfolding enabled check_blobs
check_data spec env =
    if enabled spec cancun
    then check_max_fee env env.tx.max_fee_per_blob_gas
    else check_no_blobs env

abbrev pub too_long : Dict (List ℕ) → Bool
too_long [] = false
too_long ((hash, code) ∷ codes) = leb max_initcode_size (length code) || too_long codes

unfoldable pub check_eof : SpecId → Env → Checked
unfolding enabled is_call
check_eof spec env =
    let creating = do
      _ ← check_no_blobs env
      reject (is_call env.tx.transact_to) eof_crate_should_have_to_address
    in let other = do
      _ ← reject (ltb 256 (length env.tx.eof_initcodes)) eof_initcodes_number_limit
      reject (too_long env.tx.eof_initcodes_hashed) eof_initcodes_size_limit
      in if enabled spec prague
        then (if not (is_empty env.tx.eof_initcodes) then creating else other)
        else reject (not (is_empty env.tx.eof_initcodes)) eof_initcodes_not_supported

unfoldable pub validate_tx : SpecId → Env → Checked
unfolding check_fees check_gas_limit check_initcode check_chain check_data check_eof
validate_tx spec env = do
  _ ← check_fees spec env
  _ ← check_gas_limit env
  _ ← check_initcode spec env
  _ ← check_chain spec env
  _ ← check_data spec env
  check_eof spec env

unfoldable pub check_nonce : Option ℕ → ℕ → Checked
check_nonce none state = ok tt
check_nonce (some tx) state = do
  _ ← reject (ltb state tx) (nonce_too_high tx state)
  reject (ltb tx state) (nonce_too_low tx state)

abbrev pub or_zero : Option ℕ → ℕ
or_zero none = 0
or_zero (some n) = n

abbrev pub add_max_fee : Bool → ℕ → ℕ → Outcome InvalidTransaction ℕ
add_max_fee false total fee = ok total
add_max_fee true total fee = ok_or (checked_add256 total fee) overflow_payment_in_transaction

-- The most that the transaction can cost.
unfoldable pub balance_check : SpecId → Env → Outcome InvalidTransaction ℕ
unfolding enabled calc_max_data_fee
balance_check spec env = do
  cost ← ok_or (checked_mul256 env.tx.gas_limit env.tx.gas_price) overflow_payment_in_transaction
  total ← ok_or (checked_add256 cost env.tx.value) overflow_payment_in_transaction
  add_max_fee (enabled spec cancun) total (or_zero (calc_max_data_fee env))

-- With the balance check disabled, the account gets what it lacks.
unfoldable pub pay_up : Bool → Account → ℕ → Outcome InvalidTransaction Account
pay_up disabled account cost =
    if ltb account.info.balance cost
    then (if disabled
        then ok (set_balance cost account)
        else err (lack_of_fund_for_max_fee cost account.info.balance))
    else ok account

unfoldable pub validate_tx_against_state :
    SpecId → Env → Account → Outcome InvalidTransaction Account
unfolding check_nonce balance_check pay_up is_eip3607_disabled is_balance_check_disabled
validate_tx_against_state spec env account = do
  _ ←
      reject (not (is_eip3607_disabled env.cfg) && not (account.info.code_hash == keccak_empty))
        reject_caller_with_code
  _ ← check_nonce env.tx.nonce account.info.nonce
  cost ← balance_check spec env
  pay_up (is_balance_check_disabled env.cfg) account cost

-- The gas that is spent before the first instruction.
unfoldable pub validate_initial_gas : SpecId → Env → Outcome InvalidTransaction ℕ
unfolding is_create validate_initial_tx_gas
validate_initial_gas spec env = do
  spend ← unwrap (
      validate_initial_tx_gas spec env.tx.payload (is_create env.tx.transact_to) env.tx.access_list
        env.tx.eof_initcodes)
  _ ← reject (ltb env.tx.gas_limit spend) call_gas_cost_more_than_gas_limit
  ok spend
