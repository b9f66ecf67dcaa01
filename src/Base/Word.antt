-- ===== src/Base/Word.antt =====
-- Machine integers as native numbers below a power of two, and Rust's ways to add and subtract them.
-- Plain `+` and `-` wrap, as in a release build; the `checked_`, `saturating_` and `overflowing_`
-- forms are those of the standard library at 64 bits, or of the 256-bit integers.
use Prim.Native.Nat.{ℕ, ◌+◌, ◌-◌, ◌*◌, ◌%◌, ◌^◌, min}
use mathlib.Core.Option.{Option, none, some}
use baron_evm.Base.Tests.{ltb, if◌then◌else◌}

abbrev pub u64_mod : ℕ
u64_mod = 2 ^ 64

abbrev pub u256_mod : ℕ
u256_mod = 2 ^ 256

abbrev pub u64_max : ℕ
u64_max = 2 ^ 64 - 1

abbrev pub wrapping_add64 : ℕ → ℕ → ℕ
wrapping_add64 a b = (a + b) % u64_mod

abbrev pub wrapping_sub64 : ℕ → ℕ → ℕ
wrapping_sub64 a b = (a + u64_mod - b) % u64_mod

abbrev pub wrapping_mul64 : ℕ → ℕ → ℕ
wrapping_mul64 a b = (a * b) % u64_mod

abbrev pub checked_add64 : ℕ → ℕ → Option ℕ
checked_add64 a b = if ltb (a + b) u64_mod then some (a + b) else none

abbrev pub checked_mul64 : ℕ → ℕ → Option ℕ
checked_mul64 a b = if ltb (a * b) u64_mod then some (a * b) else none

abbrev pub saturating_add64 : ℕ → ℕ → ℕ
saturating_add64 a b = min (a + b) u64_max

abbrev pub saturating_mul64 : ℕ → ℕ → ℕ
saturating_mul64 a b = min (a * b) u64_max

abbrev pub wrapping_add256 : ℕ → ℕ → ℕ
wrapping_add256 a b = (a + b) % u256_mod

abbrev pub wrapping_sub256 : ℕ → ℕ → ℕ
wrapping_sub256 a b = (a + u256_mod - b) % u256_mod

abbrev pub checked_add256 : ℕ → ℕ → Option ℕ
checked_add256 a b = if ltb (a + b) u256_mod then some (a + b) else none

abbrev pub checked_mul256 : ℕ → ℕ → Option ℕ
checked_mul256 a b = if ltb (a * b) u256_mod then some (a * b) else none

abbrev pub checked_sub256 : ℕ → ℕ → Option ℕ
checked_sub256 a b = if ltb a b then none else some (a - b)
