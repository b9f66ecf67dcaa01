-- ===== src/Env/Settles.antt =====
-- crates/bcevm/src/handler/mainnet/pre_execution.rs and post_execution.rs: who has the fees when a
-- transaction ends.
use baron_evm.Base.{
  ℕ, ◌+◌, ◌-◌, ◌*◌, ◌≤◌, ◌<◌, Bool, true, false, Option, none, some, ◌≡◌, refl, sym, ap, ◌∙◌, arith,
  inl, inr, Bool-cases, min, u256_mod, u64_mod, if◌then◌else◌, subst, wrapping_add64,
  wrapping_sub64,
}
use native.Mathlib.Nat.{mul_comm, add-mul}
use baron_evm.Spec.{SpecId, enabled, cancun, london}
use baron_evm.Gas.{Gas, spent}
use baron_evm.Journal.Accounts.{Account}
use baron_evm.Env.{
  Env, TransactTo, call, create, effective_gas_price, calc_data_fee, saturating_mul256,
  saturating_add256,
}
use baron_evm.Env.Validate.{or_zero}
use baron_evm.Env.Fees.{
  add_data_fee, deduct_cost, bump_nonce, deduct_caller_inner, reimbursed, rewarded,
  coinbase_gas_price, wrapping_mul256,
}

-- The data fee from Cancun on.
abbrev pub data_fee : Bool → Env → ℕ
data_fee false env = 0
data_fee true env = or_zero (calc_data_fee env)

-- The meter of a transaction that ended: the refund is part of what was spent.
pub record IsFinal (env : Env) (gas : Gas) : Type 0 where
  pub limit : gas.limit ≡ env.tx.gas_limit
  pub bound : env.tx.gas_limit < u64_mod
  pub meter : gas.remaining + gas.refunded ≤ gas.limit

-- The gas that is paid for.
abbrev pub used : Gas → ℕ
used gas = gas.limit - (gas.remaining + gas.refunded)

bump_nonce_balance :
    (to : TransactTo) (a : Account) → (bump_nonce to a).info.balance ≡ a.info.balance
bump_nonce_balance (call address) a = refl
bump_nonce_balance create a = refl

-- The account that is left after `cost`.
abbrev Left : Account → ℕ → Option Account → Type 0
Left account cost none = Unit {0}
Left account cost (some paid) = paid.info.balance + cost ≡ account.info.balance

deduct_cost-Left :
    (account : Account) (to : TransactTo) (cost total : ℕ)
    → cost ≡ total
    → total ≤ account.info.balance
    → Left account total (deduct_cost account to (some cost))
deduct_cost-Left account (call address) cost total e h = omega arith
deduct_cost-Left account create cost total e h = omega arith

deducted_from :
    (account : Account) (to : TransactTo) (gas : ℕ) (fee : Option ℕ)
    → gas + or_zero fee ≤ account.info.balance
    → account.info.balance < u256_mod
    → Left account
        (gas + or_zero fee)
        (deduct_cost account to (add_data_fee (min gas (u256_mod - 1)) fee))
deducted_from account to gas none h b = tt
deducted_from account to gas (some fee) h b =
    deduct_cost-Left account to (saturating_add256 (min gas (u256_mod - 1)) fee) (gas + fee)
      (omega arith) h

deduct_caller_inner-Left :
    (spec : SpecId) (env : Env) (account : Account)
    → env.tx.gas_limit * effective_gas_price env + data_fee (enabled spec cancun) env
      ≤ account.info.balance
    → account.info.balance < u256_mod
    → Left account
        (env.tx.gas_limit * effective_gas_price env + data_fee (enabled spec cancun) env)
        (deduct_caller_inner spec account env)
unfolding deduct_caller_inner
deduct_caller_inner-Left spec env account = go (enabled spec cancun)
  where
    go :
        (on : Bool)
        → env.tx.gas_limit * effective_gas_price env + data_fee on env ≤ account.info.balance
        → account.info.balance < u256_mod
        → Left account (env.tx.gas_limit * effective_gas_price env + data_fee on env) (
            deduct_cost account env.tx.transact_to (
              if on
              then add_data_fee
                  (saturating_mul256 env.tx.gas_limit (effective_gas_price env))
                  (calc_data_fee env)
              else some (saturating_mul256 env.tx.gas_limit (effective_gas_price env))))
    go true h b =
        deducted_from account env.tx.transact_to (env.tx.gas_limit * effective_gas_price env)
          (calc_data_fee env) h b
    go false h b =
        deduct_cost-Left account env.tx.transact_to
          (saturating_mul256 env.tx.gas_limit (effective_gas_price env))
          (env.tx.gas_limit * effective_gas_price env + 0) (omega arith) h

-- The unused part of the gas is worth what is not paid for.
split_price :
    (limit rest price : ℕ) → rest ≤ limit → (limit - rest) * price + price * rest ≡ limit * price
split_price limit rest price h =
    ap (λ n. (limit - rest) * price + n) (mul_comm price rest)
    ∙ sym (add-mul (limit - rest) rest price)
    ∙ ap (λ n. n * price) (omega arith)

-- The words of the meter that the two payments read.
rest_exact :
    (env : Env) (gas : Gas)
    → IsFinal env gas
    → wrapping_add64 gas.remaining gas.refunded ≡ gas.remaining + gas.refunded
rest_exact env gas z = omega arith

used_exact :
    (env : Env) (gas : Gas)
    → IsFinal env gas
    → wrapping_sub64 (wrapping_sub64 gas.limit gas.remaining) gas.refunded ≡ used gas
used_exact env gas z = omega arith

-- The base fee from London on.
abbrev pub base_fee : Bool → Env → ℕ
base_fee false env = 0
base_fee true env = env.block.basefee

-- The part of the price that nobody gets.
abbrev pub burnt_price : SpecId → Env → ℕ
burnt_price spec env = min (base_fee (enabled spec london) env) (effective_gas_price env)

coinbase_gas_price-burnt :
    (spec : SpecId) (env : Env)
    → coinbase_gas_price spec env + burnt_price spec env ≡ effective_gas_price env
unfolding coinbase_gas_price
coinbase_gas_price-burnt spec env = elim (Bool-cases (enabled spec london)) [
  | inl e ↦ rw e (ground arith)
  | inr e ↦ rw e (ground arith)
]

-- What the gas is worth is shared by the beneficiary and the fire.
shares :
    (spec : SpecId) (env : Env) (n : ℕ)
    → coinbase_gas_price spec env * n + n * burnt_price spec env ≡ n * effective_gas_price env
shares spec env n =
    ap (λ m. coinbase_gas_price spec env * n + m) (mul_comm n (burnt_price spec env))
    ∙ sym (add-mul (coinbase_gas_price spec env) (burnt_price spec env) n)
    ∙ ap (λ m. m * n) (coinbase_gas_price-burnt spec env)
    ∙ mul_comm (effective_gas_price env) n

-- When the gas meter of a transaction ends within its limit, with the refund inside what was
-- spent, the caller's balance covers the gas limit at the effective price and the data fee, and
-- no balance overflows: after deduction and reimbursement the caller has lost exactly the used
-- gas less the refund at the effective price plus the data fee, and what the beneficiary has
-- gained together with the burnt fee is the same gas at the effective price; from London on the
-- base fee is burnt, or the whole price where that is less, and before nothing.
pub reimburse-deduct :
    (spec : SpecId) (env : Env) (account paid : Account) (gas : Gas) (beneficiary : ℕ)
    → IsFinal env gas
    → env.tx.gas_limit * effective_gas_price env + data_fee (enabled spec cancun) env
      ≤ account.info.balance
    → account.info.balance < u256_mod
    → beneficiary + account.info.balance < u256_mod
    → deduct_caller_inner spec account env ≡ some paid
    → (reimbursed env gas paid.info.balance
          + used gas * effective_gas_price env
          + data_fee (enabled spec cancun) env
        ≡ account.info.balance)
      × (rewarded spec env gas beneficiary + used gas * burnt_price spec env
          ≡ beneficiary + used gas * effective_gas_price env)
unfolding reimbursed rewarded spent
reimburse-deduct spec env account paid gas beneficiary z h b c e =
    let left : paid.info.balance
          + (env.tx.gas_limit * effective_gas_price env + data_fee (enabled spec cancun) env)
        ≡ account.info.balance =
      subst
        (Left account
          (env.tx.gas_limit * effective_gas_price env + data_fee (enabled spec cancun) env))
        e (deduct_caller_inner-Left spec env account h b) in
    let price = effective_gas_price env in
    let rest = gas.remaining + gas.refunded in
    let split : used gas * price + price * rest ≡ env.tx.gas_limit * price =
      split_price gas.limit rest price z.meter ∙ ap (λ n. n * price) z.limit in
    let paid_back : reimbursed env gas paid.info.balance
        ≡ saturating_add256 paid.info.balance (wrapping_mul256 price rest) =
      ap (λ n. saturating_add256 paid.info.balance (wrapping_mul256 price n))
        (rest_exact env gas z) in
    let earned : rewarded spec env gas beneficiary
        ≡ saturating_add256 beneficiary (wrapping_mul256 (coinbase_gas_price spec env) (used gas)) =
      ap (λ n. saturating_add256 beneficiary (wrapping_mul256 (coinbase_gas_price spec env) n))
        (used_exact env gas z) in
    (
      omega (arith, paid_back, split, left, h, b),
      omega (arith, earned, shares spec env (used gas), split, h, c),
    )
