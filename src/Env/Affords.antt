-- ===== src/Env/Affords.antt =====
-- crates/primitives/src/env.rs against crates/bcevm/src/handler/mainnet/pre_execution.rs: what a
-- validated transaction can cost its caller.
use baron_evm.Base.{
  ℕ, ◌+◌, ◌*◌, ◌≤◌, Bool, true, false, Option, none, some, List, [], ◌≡◌, refl, sym, ap, ◌∙◌, subst,
  arith, inl, inr, Bool-cases, Option-cases, ltb, length, if◌then◌else◌, checked_mul256,
  checked_add256, u256_mod, wrapping_mul64, not, ◌&&◌, ◌==◌,
}
use native.Mathlib.Nat.{mul-le-mul_left, mul-le-mul_right}
use mathlib.Core.Option
use baron_evm.Base.Outcome.{
  Outcome, ok, err, panic, unwrap, ok_or, reject, bind-ok, reject-ok, ok_or-ok,
}
use baron_evm.Spec.{SpecId, enabled, cancun, merge}
use baron_evm.Bytecode.{keccak_empty}
use baron_evm.Journal.Accounts.{Account, set_balance}
use baron_evm.Env.{
  Env, price_of, gas_per_blob, saturating_mul256, saturating_add256, is_eip3607_disabled,
  is_balance_check_disabled, effective_gas_price, price_with_fee, get_blob_gasprice,
  get_total_blob_gas, calc_data_fee, calc_max_data_fee, blob_fee,
}
use baron_evm.Env.Validate.{
  validate_block_env, validate_tx, check_data, check_blobs, check_fees, check_gas_limit,
  check_initcode, check_chain, blob_gas_price_greater_than_max, check_max_fee,
  validate_tx_against_state, balance_check, add_max_fee, pay_up, or_zero, is_none,
  prevrandao_not_set, excess_blob_gas_not_set, check_no_blobs, InvalidTransaction,
  overflow_payment_in_transaction, reject_caller_with_code, lack_of_fund_for_max_fee, check_nonce,
}
use baron_evm.Env.Fees.{upfront_cost, add_data_fee}

effective_gas_price_le : (env : Env) → effective_gas_price env ≤ env.tx.gas_price
unfolding effective_gas_price
effective_gas_price_le env = go env.tx.gas_priority_fee
  where
    go : (o : Option ℕ) → price_with_fee env o ≤ env.tx.gas_price
    go none = omega arith
    go (some fee) = omega arith

-- The checks of the data that a validated transaction passed.
data_checked :
    (spec : SpecId) (env : Env) → validate_tx spec env ≡ ok tt → check_data spec env ≡ ok tt
unfolding validate_tx
data_checked spec env e =
    let (_, _, e₁) = bind-ok (check_fees spec env) _ e in
    let (_, _, e₂) = bind-ok (check_gas_limit env) _ e₁ in
    let (_, _, e₃) = bind-ok (check_initcode spec env) _ e₂ in
    let (_, _, e₄) = bind-ok (check_chain spec env) _ e₃ in
    let (_, done, _) = bind-ok (check_data spec env) _ e₄ in done

not_ltb : (a b : ℕ) → ltb a b ≡ false → b ≤ a
not_ltb a b e = ground (arith, e)

blob_price_le :
    (env : Env) (max price : ℕ)
    → check_blobs env max ≡ ok tt
    → get_blob_gasprice env.block ≡ some price
    → price ≤ max
unfolding check_blobs
blob_price_le env max price e p =
    let (found, f, e₁) = bind-ok (unwrap (get_blob_gasprice env.block)) _ e in
    let (_, checked, _) = bind-ok (reject (ltb max found) blob_gas_price_greater_than_max) _ e₁ in
    let cheap = reject-ok (ltb max found) blob_gas_price_greater_than_max checked in
    not_ltb max price (ap (ltb max) (sym (same_price f)) ∙ cheap)
  where
    same_price :
        {found : ℕ}
        → unwrap {E = InvalidTransaction} (get_blob_gasprice env.block) ≡ ok found
        → found ≡ price
    same_price f = cc (f, p)

blob_fee_mono : (env : Env) (price max : ℕ) → price ≤ max → blob_fee env price ≤ blob_fee env max
blob_fee_mono env price max h = omega (arith, mul-le-mul_right (get_total_blob_gas env.tx) h)

no_blobs_fee : (env : Env) (price : ℕ) → env.tx.blob_hashes ≡ [] → blob_fee env price ≡ 0
unfolding get_total_blob_gas
no_blobs_fee env price e = ap (saturating_mul256 price) (no_gas env.tx.blob_hashes e) ∙ omega arith
  where
    no_gas : (blobs : List ℕ) → blobs ≡ [] → wrapping_mul64 gas_per_blob (length blobs) ≡ 0
    no_gas blobs h = ap (λ b. wrapping_mul64 gas_per_blob (length b)) h

checked_mul256_lem : (a b : ℕ) {c : ℕ} → checked_mul256 a b ≡ some c → a * b ≡ c
checked_mul256_lem a b e = elim (Bool-cases (ltb (a * b) u256_mod)) [
  | inl t ↦ cc (sym (ap (λ x. if x then some (a * b) else none) t) ∙ e)
  | inr t ↦ absurd (cc (sym (ap (λ x. if x then some (a * b) else none) t) ∙ e))
]

checked_add256_lem : (a b : ℕ) {c : ℕ} → checked_add256 a b ≡ some c → a + b ≡ c
checked_add256_lem a b e = elim (Bool-cases (ltb (a + b) u256_mod)) [
  | inl t ↦ cc (sym (ap (λ x. if x then some (a + b) else none) t) ∙ e)
  | inr t ↦ absurd (cc (sym (ap (λ x. if x then some (a + b) else none) t) ∙ e))
]

-- The largest data fee from Cancun on.
abbrev largest_data_fee : Bool → Env → ℕ
largest_data_fee false env = 0
largest_data_fee true env = or_zero (calc_max_data_fee env)

-- The cost that the check against the state allows for.
allowed :
    (spec : SpecId) (env : Env) (cost : ℕ)
    → balance_check spec env ≡ ok cost
    → env.tx.gas_limit * env.tx.gas_price
        + env.tx.value
        + largest_data_fee (enabled spec cancun) env
      ≡ cost
unfolding balance_check
allowed spec env cost e =
    let (gas, g, e₁) =
      bind-ok
        (ok_or (checked_mul256 env.tx.gas_limit env.tx.gas_price) overflow_payment_in_transaction) _
        e in
    let (total, t, e₂) =
      bind-ok (ok_or (checked_add256 gas env.tx.value) overflow_payment_in_transaction) _ e₁ in
    let gas_exact = checked_mul256_lem env.tx.gas_limit env.tx.gas_price (
      ok_or-ok (checked_mul256 env.tx.gas_limit env.tx.gas_price) overflow_payment_in_transaction
        g) in
    let total_exact =
      checked_add256_lem gas env.tx.value
        (ok_or-ok (checked_add256 gas env.tx.value) overflow_payment_in_transaction t) in
    ap (λ n. n + env.tx.value + largest_data_fee (enabled spec cancun) env) gas_exact
    ∙ ap (λ n. n + largest_data_fee (enabled spec cancun) env) total_exact
    ∙ with_fee (enabled spec cancun) total e₂
  where
    with_fee :
        (on : Bool) (total : ℕ)
        → add_max_fee on total (or_zero (calc_max_data_fee env)) ≡ ok cost
        → total + largest_data_fee on env ≡ cost
    with_fee false total f = omega (arith, same_ok f)
      where
        same_ok : add_max_fee false total (or_zero (calc_max_data_fee env)) ≡ ok cost → total ≡ cost
        same_ok f = cc f
    with_fee true total f = checked_add256_lem total (or_zero (calc_max_data_fee env)) (
        ok_or-ok (checked_add256 total (or_zero (calc_max_data_fee env)))
          overflow_payment_in_transaction f)

abbrev Covers : ℕ → Outcome InvalidTransaction Account → Type 0
Covers cost (ok a) = cost ≤ a.info.balance
Covers cost (err e) = Unit {0}
Covers cost panic = Unit {0}

pay_up-Covers :
    (disabled : Bool) (account : Account) (cost : ℕ) → Covers cost (pay_up disabled account cost)
unfolding pay_up
pay_up-Covers disabled account cost = elim (Bool-cases (ltb account.info.balance cost)) [
  | inl e ↦ rw e (topped disabled)
  | inr e ↦ rw e (not_ltb account.info.balance cost e)
]
  where
    topped :
        (b : Bool)
        → Covers cost (
            if b
            then ok (set_balance cost account)
            else err (lack_of_fund_for_max_fee cost account.info.balance))
    topped true = omega arith
    topped false = tt

balance_covers :
    (spec : SpecId) (env : Env) (account : Account) {paid : Account}
    → validate_tx_against_state spec env account ≡ ok paid
    → (cost : ℕ) × (balance_check spec env ≡ ok cost) × (cost ≤ paid.info.balance)
unfolding validate_tx_against_state
balance_covers spec env account e =
    let (_, _, e₁) =
      bind-ok
        (reject (not (is_eip3607_disabled env.cfg) && not (account.info.code_hash == keccak_empty))
          reject_caller_with_code)
        _ e in
    let (_, _, e₂) = bind-ok (check_nonce env.tx.nonce account.info.nonce) _ e₁ in
    let (cost, c, e₃) = bind-ok (balance_check spec env) _ e₂ in
    (
      cost,
      c,
      subst (Covers cost) e₃ (pay_up-Covers (is_balance_check_disabled env.cfg) account cost),
    )

-- The data fee that is deducted stays within the largest one.
data_fee_within :
    (env : Env) (fee : ℕ) (max : Option ℕ)
    → check_max_fee env max ≡ ok tt
    → (max ≡ none → env.tx.blob_hashes ≡ [])
    → calc_data_fee env ≡ some fee
    → fee ≤ or_zero (Option.map (blob_fee env) max)
unfolding calc_data_fee
data_fee_within env fee max e b f = elim (Option-cases (get_blob_gasprice env.block)) [
  | inl p ↦ absurd (cc (sym (ap (Option.map (blob_fee env)) p) ∙ f))
  | inr (price, p) ↦
      (let exact : blob_fee env price ≡ fee = cc (sym (ap (Option.map (blob_fee env)) p) ∙ f) in
        subst (λ n. n ≤ or_zero (Option.map (blob_fee env) max)) exact (within price p max e b))
]
  where
    within :
        (price : ℕ)
        → get_blob_gasprice env.block ≡ some price
        → (o : Option ℕ) → check_max_fee env o ≡ ok tt
        → (o ≡ none → env.tx.blob_hashes ≡ [])
        → blob_fee env price ≤ or_zero (Option.map (blob_fee env) o)
    within price p none e b = omega (arith, no_blobs_fee env price (b refl))
    within price p (some m) e b = blob_fee_mono env price m (blob_price_le env m price e p)

gas_within :
    (env : Env) → env.tx.gas_limit * effective_gas_price env ≤ env.tx.gas_limit * env.tx.gas_price
gas_within env = mul-le-mul_left env.tx.gas_limit (effective_gas_price_le env)

-- From Cancun on a valid block has a blob price.
pub block_has_price :
    (spec : SpecId) (env : Env)
    → validate_block_env spec env ≡ ok tt
    → enabled spec cancun ≡ true
    → is_none env.block.blob_excess_gas_and_price ≡ false
unfolding validate_block_env
block_has_price spec env e c =
    let (_, _, e₁) =
      bind-ok (reject (enabled spec merge && is_none env.block.prevrandao) prevrandao_not_set) _
        e in
    sym (ap (λ b. b && is_none env.block.blob_excess_gas_and_price) c)
    ∙ reject-ok (enabled spec cancun && is_none env.block.blob_excess_gas_and_price)
        excess_blob_gas_not_set e₁

data_fee_known :
    (env : Env)
    → is_none env.block.blob_excess_gas_and_price ≡ false
    → (fee : ℕ) × (calc_data_fee env ≡ some fee)
unfolding calc_data_fee
data_fee_known env e = elim (Option-cases env.block.blob_excess_gas_and_price) [
  | inl n ↦ absurd (cc (sym (ap is_none n) ∙ e))
  | inr (b, s) ↦
      (blob_fee env b.blob_gasprice, ap (λ o. Option.map (blob_fee env) (Option.map price_of o)) s)
]

max_fee_checked :
    (spec : SpecId) (env : Env)
    → enabled spec cancun ≡ true
    → validate_tx spec env ≡ ok tt
    → check_max_fee env env.tx.max_fee_per_blob_gas ≡ ok tt
unfolding check_data
max_fee_checked spec env c v =
    sym
      (ap (λ x. if x then check_max_fee env env.tx.max_fee_per_blob_gas else check_no_blobs env) c)
    ∙ data_checked spec env v

-- If the block environment, the transaction and the transaction against its caller's account are
-- all accepted, and a transaction without a maximal blob fee has no blob hashes, then the fees
-- that are deducted before the execution are known (no expect fails), and the accepted account's
-- balance covers them together with the value to transfer.
pub upfront_cost-validated :
    (spec : SpecId) (env : Env) (account paid : Account)
    → validate_block_env spec env ≡ ok tt
    → validate_tx spec env ≡ ok tt
    → (env.tx.max_fee_per_blob_gas ≡ none → env.tx.blob_hashes ≡ [])
    → validate_tx_against_state spec env account ≡ ok paid
    → (cost : ℕ) × (upfront_cost spec env ≡ some cost) × (cost + env.tx.value ≤ paid.info.balance)
unfolding upfront_cost calc_max_data_fee
upfront_cost-validated spec env account paid b v n s =
    let (largest, l, covered) = balance_covers spec env account s in
    let exact = allowed spec env largest l in
    let with_flag : (on : Bool)
        → on ≡ enabled spec cancun
        → env.tx.gas_limit * env.tx.gas_price + env.tx.value + largest_data_fee on env ≡ largest =
      λ on e.
        ap (λ x. env.tx.gas_limit * env.tx.gas_price + env.tx.value + largest_data_fee x env) e
        ∙ exact in
    elim (Bool-cases (enabled spec cancun)) [
      | inl c ↦
          (let (fee, f) = data_fee_known env (block_has_price spec env b c) in
            let within =
              data_fee_within env fee env.tx.max_fee_per_blob_gas (max_fee_checked spec env c v) n
                f in
            let gas_cost = saturating_mul256 env.tx.gas_limit (effective_gas_price env) in
            (
              saturating_add256 gas_cost fee,
              rw c (ap (add_data_fee gas_cost) f),
              omega (arith, gas_within env, within, with_flag true (sym c), covered),
            ))
      | inr c ↦ (
        saturating_mul256 env.tx.gas_limit (effective_gas_price env),
        rw c refl,
        omega (arith, gas_within env, with_flag false (sym c), covered),
      )
    ]
