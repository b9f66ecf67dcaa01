-- ===== src/Gas.antt =====
-- crates/interpreter/src/gas.rs: the gas meter of one call frame. `refunded`, an i64, is kept as its
-- two's complement bit pattern, so the casts between i64 and u64 change nothing.
pub mod Bounds
pub mod Constants
pub mod Calc
pub mod Sstore
mod Examples
use baron_evm.Base.{
  ℕ, ◌+◌, ◌-◌, ◌*◌, ◌/◌, ◌%◌, ◌^◌, Bool, true, false, min, ltb, if◌then◌else◌, wrapping_add64,
  wrapping_sub64,
}

pub record Gas : Type 0 where
  pub limit : ℕ
  pub remaining : ℕ
  pub refunded : ℕ

unfoldable pub new : ℕ → Gas
new limit = record { limit = limit; remaining = limit; refunded = 0 }

unfoldable pub new_spent : ℕ → Gas
new_spent limit = record { limit = limit; remaining = 0; refunded = 0 }

unfoldable pub spent : Gas → ℕ
spent g = wrapping_sub64 g.limit g.remaining

unfoldable pub erase_cost : Gas → ℕ → Gas
erase_cost g returned = record g { remaining = wrapping_add64 g.remaining returned }

unfoldable pub spend_all : Gas → Gas
spend_all g = record g { remaining = 0 }

unfoldable pub record_refund : Gas → ℕ → Gas
record_refund g refund = record g { refunded = wrapping_add64 g.refunded refund }

unfoldable pub set_final_refund : Gas → Bool → Gas
unfolding spent
set_final_refund g is_london =
    let max_refund_quotient : ℕ = if is_london then 5 else 2 in
    record g { refunded = min g.refunded (spent g / max_refund_quotient) }

unfoldable pub set_refund : Gas → ℕ → Gas
set_refund g refund = record g { refunded = refund }

-- The meter after the call, and whether the cost was covered.
unfoldable pub record_cost : Gas → ℕ → Gas × Bool
record_cost g cost =
    let overflow = ltb g.remaining cost in
    if overflow
    then (g, false)
    else (record g { remaining = wrapping_sub64 g.remaining cost }, true)
