-- ===== src/Gas/Calc.antt =====
-- crates/interpreter/src/gas/calc.rs: the dynamic costs of single instructions and of a transaction.
pub mod Words
use baron_evm.Base.{
  ℕ, zero, suc, ◌+◌, ◌-◌, ◌*◌, ◌/◌, ◌%◌, ◌^◌, Bool, true, false, not, ◌&&◌, Option, none, some,
  List, [], ◌∷◌, ltb, ◌==◌, if◌then◌else◌, length, ◌>>=◌, checked_add64, checked_mul64,
  saturating_add64, saturating_mul64, checked_add256, checked_mul256, wrapping_add64,
  wrapping_sub64, wrapping_mul64,
}
use baron_evm.Spec.{
  SpecId, is_enabled_in, homestead, tangerine, spurious_dragon, istanbul, berlin, shanghai,
}
use baron_evm.Gas.Constants.{
  verylow, create, callvalue, newaccount, exp, memory, log, logdata, logtopic, keccak256,
  keccak256word, copy, instanbul_sload_gas, transaction_zero_data, access_list_address,
  access_list_storage_key, cold_sload_cost, cold_account_access_cost, warm_storage_read_cost,
  initcode_word_cost,
}

-- shared_memory.rs: the words that a number of bytes takes.
unfoldable pub num_words : ℕ → ℕ
num_words len = saturating_add64 len 31 / 32

unfoldable pub cost_per_word : ℕ → ℕ → Option ℕ
unfolding num_words
cost_per_word len multiple = checked_mul64 multiple (num_words len)

unfoldable pub create2_cost : ℕ → Option ℕ
create2_cost len = do c ← cost_per_word len keccak256word; checked_add64 create c

unfoldable pub verylowcopy_cost : ℕ → Option ℕ
verylowcopy_cost len = do c ← cost_per_word len copy; checked_add64 verylow c

unfoldable pub keccak256_cost : ℕ → Option ℕ
keccak256_cost len = do c ← cost_per_word len keccak256word; checked_add64 keccak256 c

unfoldable pub warm_cold_cost : Bool → ℕ
warm_cold_cost is_cold = if is_cold then cold_account_access_cost else warm_storage_read_cost

unfoldable pub extcodecopy_cost : SpecId → ℕ → Bool → Option ℕ
unfolding warm_cold_cost
extcodecopy_cost spec_id len is_cold = do
  let base_gas =
      if is_enabled_in spec_id berlin
      then warm_cold_cost is_cold
      else if is_enabled_in spec_id tangerine
      then 700
      else 20
  c ← cost_per_word len copy
  checked_add64 base_gas c

-- `n`, a u8, is the number of topics.
unfoldable pub log_cost : ℕ → ℕ → Option ℕ
log_cost n len = do
  d ← checked_mul64 logdata len
  b ← checked_add64 log d
  checked_add64 b (wrapping_mul64 logtopic n)

-- `None` is the panic "initcode cost overflow".
unfoldable pub initcode_cost : ℕ → Option ℕ
initcode_cost len = cost_per_word len initcode_word_cost

unfoldable pub sload_cost : SpecId → Bool → ℕ
sload_cost spec_id is_cold =
    if is_enabled_in spec_id berlin
    then (if is_cold then cold_sload_cost else warm_storage_read_cost)
    else if is_enabled_in spec_id istanbul
    then instanbul_sload_gas
    else if is_enabled_in spec_id tangerine
    then 200
    else 50

pub record SelfDestructResult : Type 0 where
  pub had_value : Bool
  pub target_exists : Bool
  pub is_cold : Bool
  pub previously_destroyed : Bool

unfoldable pub selfdestruct_cost : SpecId → SelfDestructResult → ℕ
selfdestruct_cost spec_id res =
    let should_charge_topup =
      if is_enabled_in spec_id spurious_dragon
      then res.had_value && not res.target_exists
      else not res.target_exists in
    let selfdestruct_gas_topup : ℕ =
      if is_enabled_in spec_id tangerine && should_charge_topup then 25000 else 0 in
    let selfdestruct_gas : ℕ = if is_enabled_in spec_id tangerine then 5000 else 0 in
    let gas = selfdestruct_gas + selfdestruct_gas_topup in
    if is_enabled_in spec_id berlin && res.is_cold then gas + cold_account_access_cost else gas

unfoldable pub call_cost : SpecId → Bool → Bool → Bool → ℕ
unfolding warm_cold_cost
call_cost spec_id transfers_value is_cold new_account_accounting =
    let access : ℕ =
      if is_enabled_in spec_id berlin
      then warm_cold_cost is_cold
      else if is_enabled_in spec_id tangerine
      then 700
      else 40 in
    let gas = if transfers_value then access + callvalue else access in
    if new_account_accounting
    then (if is_enabled_in spec_id spurious_dragon
        then (if transfers_value then gas + newaccount else gas)
        else gas + newaccount)
    else gas

unfoldable pub memory_gas : ℕ → ℕ
memory_gas num = saturating_add64 (saturating_mul64 memory num) (saturating_mul64 num num / 512)

unfoldable pub memory_gas_for_len : ℕ → ℕ
unfolding num_words memory_gas
memory_gas_for_len len = memory_gas (num_words len)

-- `u64::leading_zeros`: the bits above the highest set bit.
unfoldable pub bit_length : ℕ → ℕ → ℕ
bit_length zero v = 0
bit_length (suc fuel) v = if v == 0 then 0 else suc (bit_length fuel (v / 2))

unfoldable pub leading_zeros : ℕ → ℕ
leading_zeros v = 64 - bit_length 64 v

unfoldable pub limb : ℕ → ℕ → ℕ
limb value i = value / 2 ^ (64 * i) % 2 ^ 64

-- The loop of `log2floor` at limb `i`: the first limb that is not zero decides.
unfoldable pub log2floor_loop : ℕ → ℕ → ℕ → ℕ
log2floor_loop zero l value =
    if limb value 0 == 0
    then l - 64
    else let l' = l - leading_zeros (limb value 0) in if l' == 0 then l' else l' - 1
log2floor_loop (suc i) l value =
    let rest = log2floor_loop i (l - 64) value in
    if limb value (suc i) == 0
    then rest
    else let l' = l - leading_zeros (limb value (suc i)) in if l' == 0 then l' else l' - 1

unfoldable pub log2floor : ℕ → ℕ
unfolding log2floor_loop
log2floor value = log2floor_loop 3 256 value

unfoldable pub exp_cost : SpecId → ℕ → Option ℕ
exp_cost spec_id power = if power == 0 then some exp else do
  let gas_byte : ℕ = if is_enabled_in spec_id spurious_dragon then 50 else 10
  bytes ← checked_mul256 gas_byte (log2floor power / 8 + 1)
  gas ← checked_add256 exp bytes
  if ltb gas (2 ^ 64) then some gas else none

-- `iter().filter(|v| **v == 0).count()`.
unfoldable pub count_zeros : List ℕ → ℕ
count_zeros [] = 0
count_zeros (b ∷ bs) = (if b == 0 then 1 else 0) + count_zeros bs

-- The loop over the initcodes of the transaction, from (zero bytes, other bytes) so far.
unfoldable pub count_initcodes : ℕ → ℕ → List (List ℕ) → ℕ × ℕ
count_initcodes zeros others [] = (zeros, others)
count_initcodes zeros others (code ∷ codes) =
    let z = count_zeros code in
    count_initcodes (wrapping_add64 zeros z)
      (wrapping_add64 others (wrapping_sub64 (length code) z)) codes

-- The fold over an access list of (address, slots).
unfoldable pub count_slots : ℕ → List (ℕ × List ℕ) → ℕ
count_slots n [] = n
count_slots n ((address, slots) ∷ rest) = count_slots (wrapping_add64 n (length slots)) rest

-- `none` is the panic of `initcode_cost`.
unfoldable pub validate_initial_tx_gas :
    SpecId → List ℕ → Bool → List (ℕ × List ℕ) → List (List ℕ) → Option ℕ
unfolding initcode_cost
validate_initial_tx_gas spec_id input is_create access_list initcodes =
    let input_zeros = count_zeros input in
    let counts =
      count_initcodes input_zeros (wrapping_sub64 (length input) input_zeros) initcodes in
    let zero_gas = wrapping_mul64 counts.0 transaction_zero_data in
    let per_byte : ℕ = if is_enabled_in spec_id istanbul then 16 else 68 in
    let data_gas = wrapping_add64 zero_gas (wrapping_mul64 counts.1 per_byte) in
    let list_gas =
      if is_enabled_in spec_id berlin
      then wrapping_add64
          (wrapping_add64 data_gas (wrapping_mul64 (length access_list) access_list_address))
          (wrapping_mul64 (count_slots 0 access_list) access_list_storage_key)
      else data_gas in
    let base : ℕ =
      if is_create then (if is_enabled_in spec_id homestead then 53000 else 21000) else 21000 in
    let gas = wrapping_add64 list_gas base in
    if is_enabled_in spec_id shanghai && is_create
    then (do c ← initcode_cost (length input); some (wrapping_add64 gas c))
    else some gas
