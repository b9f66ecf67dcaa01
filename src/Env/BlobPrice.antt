-- ===== src/Env/BlobPrice.antt =====
-- crates/primitives/src/utilities.rs: the price of blob gas. The loop runs on fuel; `none` stands for
-- the assertion that failed, a division by zero, or fuel that ran out.
use baron_evm.Base.{
  ℕ, zero, suc, ◌+◌, ◌-◌, ◌*◌, ◌/◌, ◌%◌, ◌^◌, Option, none, some, ◌==◌, if◌then◌else◌, ◌>>=◌,
  wrapping_add64,
}
use baron_evm.Env.{BlobExcessGasAndPrice, BlockEnv, gas_per_blob}

abbrev pub u128_mod : ℕ
u128_mod = 2 ^ 128

-- The next `numerator_accum`, of numbers of 128 bits.
abbrev pub next_accum : ℕ → ℕ → ℕ → ℕ → ℕ
next_accum numerator denominator i accum =
    (accum * numerator % u128_mod) / (denominator * i % u128_mod)

unfoldable pub exp_loop : ℕ → ℕ → ℕ → ℕ → ℕ → ℕ → Option ℕ
exp_loop zero numerator denominator i output accum = none
exp_loop (suc fuel) numerator denominator i output accum =
    let rest =
      exp_loop fuel numerator denominator (i + 1) ((output + accum) % u128_mod)
        (next_accum numerator denominator i accum) in
    if accum == 0 then some output else if denominator * i % u128_mod == 0 then none else rest

-- The fuel is twice the numerator, and 130.
unfoldable pub fake_exponential : ℕ → ℕ → ℕ → Option ℕ
unfolding exp_loop
fake_exponential factor numerator denominator =
    let sum =
      exp_loop (2 * numerator + 130) numerator denominator 1 0 (factor * denominator % u128_mod)
      >>= (λ output. some (output / denominator)) in
    if denominator == 0 then none else sum

abbrev pub min_blob_gasprice : ℕ
min_blob_gasprice = 1

abbrev pub blob_gasprice_update_fraction : ℕ
blob_gasprice_update_fraction = 3338477

unfoldable pub calc_blob_gasprice : ℕ → Option ℕ
unfolding fake_exponential
calc_blob_gasprice excess_blob_gas =
    fake_exponential min_blob_gasprice excess_blob_gas blob_gasprice_update_fraction

abbrev pub target_blob_gas_per_block : ℕ
target_blob_gas_per_block = 3 * gas_per_blob

unfoldable pub calc_excess_blob_gas : ℕ → ℕ → ℕ
calc_excess_blob_gas parent_excess_blob_gas parent_blob_gas_used =
    wrapping_add64 parent_excess_blob_gas parent_blob_gas_used - target_blob_gas_per_block

abbrev pub with_price : ℕ → ℕ → BlobExcessGasAndPrice
with_price excess price = record { excess_blob_gas = excess; blob_gasprice = price }

unfoldable pub new_excess : ℕ → Option BlobExcessGasAndPrice
unfolding calc_blob_gasprice
new_excess excess = calc_blob_gasprice excess >>= (λ price. some (with_price excess price))

unfoldable pub set_blob_excess_gas_and_price : BlockEnv → ℕ → Option BlockEnv
unfolding new_excess
set_blob_excess_gas_and_price block excess =
    new_excess excess >>= (λ b. some (record block { blob_excess_gas_and_price = some b }))
