-- ===== src/Gas/Sstore.antt =====
-- The SSTORE part of crates/interpreter/src/gas/calc.rs: the cost of a storage write and the refund
-- that it adds. A refund is an i64, read as the integer that it stands for.
pub mod Refunds
use baron_evm.Base.{
  ℕ, ◌+◌, ◌-◌, Bool, true, false, not, ◌&&◌, Option, none, some, leb, ◌==◌, if◌then◌else◌,
}
use baron_evm.Base.Int.{ℤ, pos, ◌+ℤ◌, ◌-ℤ◌}
use baron_evm.Spec.{SpecId, is_enabled_in, istanbul, berlin, london}
use baron_evm.Gas.Constants.{
  instanbul_sload_gas, sstore_set, sstore_reset, refund_sstore_clears, access_list_storage_key,
  cold_sload_cost, warm_storage_read_cost, warm_sstore_reset, call_stipend,
}
use baron_evm.Gas.Calc.{sload_cost}

unfoldable pub istanbul_sstore_cost : ℕ → ℕ → ℕ → ℕ → ℕ → ℕ
istanbul_sstore_cost sload_gas sstore_reset_gas original current new =
    if new == current
    then sload_gas
    else if (original == current) && (original == 0)
    then sstore_set
    else if original == current
    then sstore_reset_gas
    else sload_gas

unfoldable pub frontier_sstore_cost : ℕ → ℕ → ℕ
frontier_sstore_cost current new =
    if (current == 0) && not (new == 0) then sstore_set else sstore_reset

unfoldable pub sstore_cost : SpecId → ℕ → ℕ → ℕ → ℕ → Bool → Option ℕ
unfolding istanbul_sstore_cost frontier_sstore_cost
sstore_cost spec_id original current new gas is_cold =
    if is_enabled_in spec_id istanbul && leb gas call_stipend
    then none
    else if is_enabled_in spec_id berlin
    then (let gas_cost =
          istanbul_sstore_cost warm_storage_read_cost warm_sstore_reset original current new in
        some (if is_cold then gas_cost + cold_sload_cost else gas_cost))
    else if is_enabled_in spec_id istanbul
    then some (istanbul_sstore_cost instanbul_sload_gas sstore_reset original current new)
    else some (frontier_sstore_cost current new)

-- The refund for clearing a slot.
unfoldable pub sstore_clears_schedule : SpecId → ℕ
sstore_clears_schedule spec_id =
    if is_enabled_in spec_id london
    then sstore_reset - cold_sload_cost + access_list_storage_key
    else refund_sstore_clears

-- The refund for writing the original value back.
unfoldable pub restore_refund : SpecId → ℕ → ℕ
unfolding sload_cost
restore_refund spec_id original =
    let gas_sstore_reset : ℕ =
      if is_enabled_in spec_id berlin then sstore_reset - cold_sload_cost else sstore_reset in
    let gas_sload : ℕ =
      if is_enabled_in spec_id berlin then warm_storage_read_cost else sload_cost spec_id false in
    if original == 0 then sstore_set - gas_sload else gas_sstore_reset - gas_sload

unfoldable pub sstore_refund : SpecId → ℕ → ℕ → ℕ → ℤ
sstore_refund spec_id original current new =
    if is_enabled_in spec_id istanbul
    then (let clears = pos (sstore_clears_schedule spec_id) in
        if current == new
        then pos 0
        else if (original == current) && (new == 0)
        then clears
        else (let cleared : ℤ =
              if not (original == 0)
              then (if current == 0
                  then pos 0 -ℤ clears
                  else if new == 0
                  then pos 0 +ℤ clears
                  else pos 0)
              else pos 0 in
            if original == new then cleared +ℤ pos (restore_refund spec_id original) else cleared))
    else if not (current == 0) && (new == 0)
    then pos refund_sstore_clears
    else pos 0
