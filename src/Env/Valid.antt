-- ===== src/Env/Valid.antt =====
-- crates/primitives/src/env.rs: the validation of a transaction ends with a verdict.
use baron_evm.Base.{
  ℕ, Bool, true, not, ◌&&◌, Option, none, some, ◌≡◌, ◌≢◌, sym, ap, ◌∙◌, subst, inl, inr, Bool-cases,
  Option-cases, arith, ◌==◌,
}
use mathlib.Core.Option
use baron_evm.Base.Outcome.{ok, panic, reject, Safe, bind-Safe}
use baron_evm.Spec.{SpecId, enabled, cancun}
use baron_evm.Bytecode.{keccak_empty}
use baron_evm.Journal.Accounts.{Account}
use baron_evm.Env.{Env, get_blob_gasprice, is_eip3607_disabled, is_balance_check_disabled, price_of}
use baron_evm.Env.Affords.{block_has_price}
use baron_evm.Env.Validate.{
  validate_block_env, validate_tx, check_fees, check_gas_limit, check_initcode, check_chain,
  check_data, check_eof, check_blobs, check_no_blobs, check_max_fee, check_nonce, balance_check,
  pay_up, validate_tx_against_state, is_none, reject_caller_with_code,
}

check_no_blobs-Safe : (env : Env) → Safe (check_no_blobs env)
check_no_blobs-Safe env = ground arith

check_blobs-Safe :
    (env : Env) (max price : ℕ)
    → get_blob_gasprice env.block ≡ some price
    → Safe (check_blobs env max)
unfolding check_blobs
check_blobs-Safe env max price e = ground (arith, e)

price_known :
    (spec : SpecId) (env : Env)
    → validate_block_env spec env ≡ ok tt
    → enabled spec cancun ≡ true
    → (price : ℕ) × (get_blob_gasprice env.block ≡ some price)
unfolding get_blob_gasprice
price_known spec env e c = elim (Option-cases env.block.blob_excess_gas_and_price) [
  | inl n ↦ absurd (cc (sym (ap is_none n) ∙ block_has_price spec env e c))
  | inr (b, s) ↦ (b.blob_gasprice, ap (Option.map price_of) s)
]

check_data-Safe :
    (spec : SpecId) (env : Env) → validate_block_env spec env ≡ ok tt → Safe (check_data spec env)
unfolding check_data
check_data-Safe spec env e = elim (Bool-cases (enabled spec cancun)) [
  | inl c ↦
      (let (price, p) = price_known spec env e c in
        rw c (max_fee env.tx.max_fee_per_blob_gas price p))
  | inr c ↦ rw c (check_no_blobs-Safe env)
]
  where
    max_fee :
        (o : Option ℕ) (price : ℕ)
        → get_blob_gasprice env.block ≡ some price
        → Safe (check_max_fee env o)
    max_fee none price p = tt
    max_fee (some max) price p = check_blobs-Safe env max price p

check_eof-Safe : (spec : SpecId) (env : Env) → Safe (check_eof spec env)
unfolding check_eof
check_eof-Safe spec env = ground arith

check_fees-Safe : (spec : SpecId) (env : Env) → Safe (check_fees spec env)
unfolding check_fees
check_fees-Safe spec env = ground arith

check_gas_limit-Safe : (env : Env) → Safe (check_gas_limit env)
unfolding check_gas_limit
check_gas_limit-Safe env = ground arith

check_initcode-Safe : (spec : SpecId) (env : Env) → Safe (check_initcode spec env)
unfolding check_initcode
check_initcode-Safe spec env = ground arith

check_chain-Safe : (spec : SpecId) (env : Env) → Safe (check_chain spec env)
unfolding check_chain
check_chain-Safe spec env = ground arith

check_nonce-Safe : (o : Option ℕ) (state : ℕ) → Safe (check_nonce o state)
unfolding check_nonce
check_nonce-Safe none state = tt
check_nonce-Safe (some tx) state = ground arith

balance_check-Safe : (spec : SpecId) (env : Env) → Safe (balance_check spec env)
unfolding balance_check
balance_check-Safe spec env = ground arith

pay_up-Safe : (disabled : Bool) (account : Account) (cost : ℕ) → Safe (pay_up disabled account cost)
unfolding pay_up
pay_up-Safe disabled account cost = ground arith

validate_tx-Safe :
    (spec : SpecId) (env : Env) → validate_block_env spec env ≡ ok tt → Safe (validate_tx spec env)
unfolding validate_tx
validate_tx-Safe spec env e = bind-Safe (check_fees spec env) _ (check_fees-Safe spec env) (λ u.
    bind-Safe (check_gas_limit env) _ (check_gas_limit-Safe env) (λ v.
      bind-Safe (check_initcode spec env) _ (check_initcode-Safe spec env) (λ w.
        bind-Safe (check_chain spec env) _ (check_chain-Safe spec env) (λ x.
          bind-Safe (check_data spec env) _ (check_data-Safe spec env e)
            (λ y. check_eof-Safe spec env)))))

code_check-Safe :
    (env : Env) (account : Account)
    → Safe (
        reject
          (not (is_eip3607_disabled env.cfg) && not (account.info.code_hash == keccak_empty))
          reject_caller_with_code)
code_check-Safe env account = ground arith

validate_tx_against_state-Safe :
    (spec : SpecId) (env : Env) (account : Account)
    → Safe (validate_tx_against_state spec env account)
unfolding validate_tx_against_state
validate_tx_against_state-Safe spec env account =
    bind-Safe
      (reject (not (is_eip3607_disabled env.cfg) && not (account.info.code_hash == keccak_empty))
        reject_caller_with_code)
      _ (code_check-Safe env account)
      (λ u.
        bind-Safe (check_nonce env.tx.nonce account.info.nonce) _
          (check_nonce-Safe env.tx.nonce account.info.nonce)
          (λ v.
            bind-Safe (balance_check spec env) _ (balance_check-Safe spec env)
              (λ cost. pay_up-Safe (is_balance_check_disabled env.cfg) account cost)))

-- In a block environment that was accepted, validating a transaction and validating it against
-- any caller's account end with an acceptance or an error, and never with a panic.
pub validate-Safe :
    (spec : SpecId) (env : Env) (account : Account)
    → validate_block_env spec env ≡ ok tt
    → (validate_tx spec env ≢ panic) × (validate_tx_against_state spec env account ≢ panic)
validate-Safe spec env account e = (
  λ p. subst Safe p (validate_tx-Safe spec env e),
  λ p. subst Safe p (validate_tx_against_state-Safe spec env account),
)
