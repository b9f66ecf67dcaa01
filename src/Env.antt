-- ===== src/Env.antt =====
-- crates/primitives/src/env.rs: the environment of a transaction, with every optional check of the
-- configuration compiled in (a build without an option behaves as if its field were false), without
-- the `optimism` feature.
pub mod Validate
pub mod Fees
pub mod BlobPrice
pub mod PriceEnds
pub mod Valid
pub mod Affords
pub mod Settles
mod Examples
use baron_evm.Base.{
  ℕ, ◌+◌, ◌*◌, ◌%◌, ◌^◌, ◌-◌, Bool, true, false, Option, none, some, List, [], ◌∷◌, ◌>>=◌, min,
  length, wrapping_add256, wrapping_mul64, u256_mod,
}
use mathlib.Core.Option
use baron_evm.Base.Dict.{Dict}

pub record CfgEnv : Type 0 where
  pub chain_id : ℕ
  pub limit_contract_code_size : Option ℕ
  pub disable_balance_check : Bool
  pub disable_block_gas_limit : Bool
  pub disable_eip3607 : Bool
  pub disable_gas_refund : Bool
  pub disable_base_fee : Bool
  pub disable_beneficiary_reward : Bool

unfoldable pub is_eip3607_disabled : CfgEnv → Bool
is_eip3607_disabled cfg = cfg.disable_eip3607

unfoldable pub is_balance_check_disabled : CfgEnv → Bool
is_balance_check_disabled cfg = cfg.disable_balance_check

unfoldable pub is_base_fee_check_disabled : CfgEnv → Bool
is_base_fee_check_disabled cfg = cfg.disable_base_fee

unfoldable pub is_block_gas_limit_disabled : CfgEnv → Bool
is_block_gas_limit_disabled cfg = cfg.disable_block_gas_limit

pub record BlobExcessGasAndPrice : Type 0 where
  pub excess_blob_gas : ℕ
  pub blob_gasprice : ℕ

pub record BlockEnv : Type 0 where
  pub number : ℕ
  pub coinbase : ℕ
  pub timestamp : ℕ
  pub gas_limit : ℕ
  pub basefee : ℕ
  pub difficulty : ℕ
  pub prevrandao : Option ℕ
  pub blob_excess_gas_and_price : Option BlobExcessGasAndPrice

abbrev pub price_of : BlobExcessGasAndPrice → ℕ
price_of b = b.blob_gasprice

abbrev excess_of : BlobExcessGasAndPrice → ℕ
excess_of b = b.excess_blob_gas

unfoldable pub get_blob_gasprice : BlockEnv → Option ℕ
get_blob_gasprice b = Option.map price_of b.blob_excess_gas_and_price

unfoldable pub get_blob_excess_gas : BlockEnv → Option ℕ
get_blob_excess_gas b = Option.map excess_of b.blob_excess_gas_and_price

pub data TransactTo : Type 0 where
  call : ℕ → TransactTo
  create : TransactTo

unfoldable pub is_call : TransactTo → Bool
is_call (call a) = true
is_call create = false

unfoldable pub is_create : TransactTo → Bool
is_create (call a) = false
is_create create = true

pub record TxEnv : Type 0 where
  pub caller : ℕ
  pub gas_limit : ℕ
  pub gas_price : ℕ
  pub transact_to : TransactTo
  pub value : ℕ
  pub payload : List ℕ
  pub nonce : Option ℕ
  pub chain_id : Option ℕ
  pub access_list : List (ℕ × List ℕ)
  pub gas_priority_fee : Option ℕ
  pub blob_hashes : List ℕ
  pub max_fee_per_blob_gas : Option ℕ
  pub eof_initcodes : List (List ℕ)
  pub eof_initcodes_hashed : Dict (List ℕ)

abbrev pub gas_per_blob : ℕ
gas_per_blob = 131072

unfoldable pub get_total_blob_gas : TxEnv → ℕ
get_total_blob_gas tx = wrapping_mul64 gas_per_blob (length tx.blob_hashes)

pub record Env : Type 0 where
  pub cfg : CfgEnv
  pub block : BlockEnv
  pub tx : TxEnv

abbrev pub price_with_fee : Env → Option ℕ → ℕ
price_with_fee env none = env.tx.gas_price
price_with_fee env (some priority_fee) =
    min env.tx.gas_price (wrapping_add256 env.block.basefee priority_fee)

unfoldable pub effective_gas_price : Env → ℕ
effective_gas_price env = price_with_fee env env.tx.gas_priority_fee

abbrev pub saturating_mul256 : ℕ → ℕ → ℕ
saturating_mul256 a b = min (a * b) (u256_mod - 1)

abbrev pub saturating_add256 : ℕ → ℕ → ℕ
saturating_add256 a b = min (a + b) (u256_mod - 1)

abbrev pub blob_fee : Env → ℕ → ℕ
blob_fee env price = saturating_mul256 price (get_total_blob_gas env.tx)

unfoldable pub calc_data_fee : Env → Option ℕ
unfolding get_blob_gasprice get_total_blob_gas
calc_data_fee env = Option.map (blob_fee env) (get_blob_gasprice env.block)

unfoldable pub calc_max_data_fee : Env → Option ℕ
unfolding get_total_blob_gas
calc_max_data_fee env = Option.map (blob_fee env) env.tx.max_fee_per_blob_gas
