-- ===== src/Env/PriceEnds.antt =====
-- crates/primitives/src/utilities.rs: the loop of the blob gas price ends.
use baron_evm.Base.{
  ℕ, zero, suc, ◌+◌, ◌*◌, ◌/◌, ◌%◌, ◌^◌, ◌≤◌, ◌<◌, true, false, some, ◌≡◌, refl, sym, ap, ◌∙◌,
  subst, arith, inl, inr, Bool-cases, ◌==◌, ◌>>=◌, u64_mod,
}
use native.Mathlib.Nat.{
  mul-le-mul, mul-le-mul_left, mul-le-mul_right, add-mul, div-lt_iff_lt-mul, div-le_self,
}
use baron_evm.Env.BlobPrice.{u128_mod, next_accum, exp_loop, fake_exponential, calc_blob_gasprice}

-- A power of two, doubled step by step.
abbrev doubled : ℕ → ℕ
doubled zero = 1
doubled (suc k) = 2 * doubled k

module _ (numerator denominator : ℕ) (n : numerator < u64_mod) (d : denominator < 2 ^ 32)
    (p : 0 < denominator) where
  -- The divisor of a round is not cut off.
  divisor_exact : (i : ℕ) → i < 2 ^ 66 → denominator * i % u128_mod ≡ denominator * i
  divisor_exact i h =
      let a : denominator ≤ 2 ^ 32 = omega (arith, d) in
      let b : i ≤ 2 ^ 66 = omega (arith, h) in omega (arith, mul-le-mul a b)

  divisor_positive : (i : ℕ) → 0 < i → i ≤ denominator * i
  divisor_positive i h =
      let a : 1 ≤ denominator = omega (arith, p) in omega (arith, mul-le-mul_right i a)

  halved :
      (i accum b : ℕ)
      → 0 < i
      → i < 2 ^ 66
      → 2 * numerator ≤ denominator * i
      → accum < 2 * b
      → next_accum numerator denominator i accum < b
  halved i accum b o h t l =
      let k = denominator * i in
      let positive : 0 < k = omega (arith, divisor_positive i o, o) in
      let larger : suc accum ≤ 2 * b = omega (arith, l) in
      let scaled : suc accum * k ≤ 2 * b * k = mul-le-mul_right k larger in
      let twice : accum * (2 * numerator) ≤ accum * k = mul-le-mul_left accum t in
      let less : accum * numerator < b * k =
        omega (arith, scaled, twice, positive, add-mul accum 1 k) in
      subst (λ m. (accum * numerator % u128_mod) / m < b) (sym (divisor_exact i h))
        ((div-lt_iff_lt-mul positive).1 (omega (arith, less)))

  -- A round that is not the last.
  round :
      (fuel i output accum : ℕ)
      → 0 < i
      → i < 2 ^ 66
      → (accum == 0) ≡ false
      → exp_loop (suc fuel) numerator denominator i output accum
        ≡ exp_loop fuel numerator denominator
            (i + 1)
            ((output + accum) % u128_mod)
            (next_accum numerator denominator i accum)
  unfolding exp_loop
  round fuel i output accum o h e =
      let positive : (denominator * i % u128_mod == 0) ≡ false =
        is_positive (omega (arith, divisor_exact i h, divisor_positive i o, o)) in
      rw (e, positive) refl
    where
      is_positive : {m : ℕ} → 0 < m → (m == 0) ≡ false
      is_positive l = ground (arith, l)

  last_round :
      (fuel i output accum : ℕ)
      → (accum == 0) ≡ true
      → exp_loop (suc fuel) numerator denominator i output accum ≡ some output
  unfolding exp_loop
  last_round fuel i output accum e = rw e refl

  ends :
      (k fuel i output accum : ℕ)
      → 0 < i
      → i + k < 2 ^ 66
      → 2 * numerator ≤ denominator * i
      → accum < doubled k
      → k < fuel
      → (sum : ℕ) × (exp_loop fuel numerator denominator i output accum ≡ some sum)
  ends k zero i output accum o h t l f = absurd (omega arith)
  ends zero (suc fuel) i output accum o h t l f =
      (output, last_round fuel i output accum (ground (arith, l)))
  ends (suc k) (suc fuel) i output accum o h t l f =
      let later : denominator * i ≤ denominator * (i + 1) =
        mul-le-mul_left denominator (omega arith) in
      let (sum, e) =
        ends k fuel (i + 1) ((output + accum) % u128_mod) (next_accum numerator denominator i accum)
          (omega arith) (omega arith) (omega (arith, t, later))
          (halved i accum (doubled k) o (omega arith) t l) (omega arith) in
      elim (Bool-cases (accum == 0)) [
        | inl z ↦ (output, last_round fuel i output accum z)
        | inr z ↦ (sum, round fuel i output accum o (omega arith) z ∙ e)
      ]

  next_accum_bound : (i accum : ℕ) → next_accum numerator denominator i accum < u128_mod
  next_accum_bound i accum =
      omega (arith, div-le_self (accum * numerator % u128_mod) (denominator * i % u128_mod))

  starts :
      (m fuel i output accum : ℕ)
      → 0 < i
      → i + m + 130 < 2 ^ 66
      → 2 * numerator ≤ i + m
      → accum < u128_mod
      → m + 128 < fuel
      → (sum : ℕ) × (exp_loop fuel numerator denominator i output accum ≡ some sum)
  starts m zero i output accum o h t l f = absurd (omega arith)
  starts zero (suc fuel) i output accum o h t l f =
      ends 128 (suc fuel) i output accum o (omega arith) (omega (arith, t, divisor_positive i o)) l
        (omega arith)
  starts (suc m) (suc fuel) i output accum o h t l f =
      let (sum, e) =
        starts m fuel (i + 1) ((output + accum) % u128_mod)
          (next_accum numerator denominator i accum) (omega arith) (omega arith) (omega arith)
          (next_accum_bound i accum) (omega arith) in
      elim (Bool-cases (accum == 0)) [
        | inl z ↦ (output, last_round fuel i output accum z)
        | inr z ↦ (sum, round fuel i output accum o (omega arith) z ∙ e)
      ]

-- For every factor, every numerator of 64 bits and every denominator from 1 to 2^32 - 1, the loop
-- of fake_exponential ends within the fuel (twice the numerator and 130 rounds), without a failed
-- assertion or a division by zero, and gives a price.
pub fake_exponential_ends :
    (factor numerator denominator : ℕ)
    → numerator < u64_mod
    → denominator < 2 ^ 32
    → 0 < denominator
    → (price : ℕ) × (fake_exponential factor numerator denominator ≡ some price)
unfolding fake_exponential
fake_exponential_ends factor numerator denominator n d p =
    let (sum, e) =
      starts numerator denominator n d p (2 * numerator) (2 * numerator + 130) 1 0
        (factor * denominator % u128_mod) (omega arith) (omega arith) (omega arith) (omega arith)
        (omega arith) in
    (sum / denominator, rw (positive p) (ap (λ o. o >>= (λ output. some (output / denominator))) e))
  where
    positive : {m : ℕ} → 0 < m → (m == 0) ≡ false
    positive l = ground (arith, l)

-- Every block's excess of blob gas has a price.
pub calc_blob_gasprice_ends :
    (excess_blob_gas : ℕ)
    → excess_blob_gas < u64_mod
    → (price : ℕ) × (calc_blob_gasprice excess_blob_gas ≡ some price)
unfolding calc_blob_gasprice
calc_blob_gasprice_ends excess h =
    fake_exponential_ends 1 excess 3338477 h (omega arith) (omega arith)
