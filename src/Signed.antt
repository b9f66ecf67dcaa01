-- ===== src/Signed.antt =====
-- crates/interpreter/src/instructions/i256.rs: signed arithmetic on 256-bit words in two's complement.
pub mod Laws
pub mod Division
mod Examples
use baron_evm.Base.{
  ℕ, ◌+◌, ◌-◌, ◌*◌, ◌/◌, ◌%◌, ◌^◌, Bool, true, false, not, ◌&&◌, ◌||◌, ◌==◌, ltb, leb,
  if◌then◌else◌, u256_mod,
}

pub data Sign : Type 0 where
  minus zero plus : Sign

pub data Ordering : Type 0 where
  less equal greater : Ordering

abbrev pub min_negative_value : ℕ
min_negative_value = 2 ^ 255

abbrev pub is_minus : Sign → Bool
is_minus minus = true
is_minus zero = false
is_minus plus = false

abbrev pub is_zero : Sign → Bool
is_zero minus = false
is_zero zero = true
is_zero plus = false

-- `val.bit(U256::BITS - 1)`, and otherwise whether the value is zero.
unfoldable pub i256_sign : ℕ → Sign
i256_sign val = if val / 2 ^ 255 % 2 == 1 then minus else if not (val == 0) then plus else zero

-- `wrapping_neg`.
unfoldable pub two_compl : ℕ → ℕ
two_compl op = (u256_mod - op) % u256_mod

-- The value, negated if it is negative, and its sign before that.
unfoldable pub i256_sign_compl : ℕ → ℕ × Sign
unfolding i256_sign two_compl
i256_sign_compl val =
    let sign = i256_sign val in if is_minus sign then (two_compl val, sign) else (val, sign)

-- The highest limb loses its highest bit.
unfoldable pub u256_remove_sign : ℕ → ℕ
u256_remove_sign val = val / 2 ^ 192 % 2 ^ 63 * 2 ^ 192 + val % 2 ^ 192

-- The derived order of the signs, by their discriminants.
unfoldable pub compare_signs : Sign → Sign → Ordering
compare_signs minus minus = equal
compare_signs minus zero = less
compare_signs minus plus = less
compare_signs zero minus = greater
compare_signs zero zero = equal
compare_signs zero plus = less
compare_signs plus minus = greater
compare_signs plus zero = greater
compare_signs plus plus = equal

unfoldable pub compare_words : ℕ → ℕ → Ordering
compare_words a b = if ltb a b then less else if a == b then equal else greater

-- The match on the order of the signs.
unfoldable pub decided : Ordering → ℕ → ℕ → Ordering
unfolding compare_words
decided less first second = less
decided equal first second = compare_words first second
decided greater first second = greater

unfoldable pub i256_cmp : ℕ → ℕ → Ordering
i256_cmp first second = decided (compare_signs (i256_sign first) (i256_sign second)) first second

unfoldable pub i256_div : ℕ → ℕ → ℕ
unfolding i256_sign_compl u256_remove_sign two_compl
i256_div a b =
    let (second, second_sign) = i256_sign_compl b in
    let (first, first_sign) = i256_sign_compl a in
    let d = u256_remove_sign (first / second) in
    if is_zero second_sign
    then 0
    else if first == min_negative_value && second == 1
    then two_compl min_negative_value
    else if (is_minus first_sign && not (is_minus second_sign))
        || (is_minus second_sign && not (is_minus first_sign))
    then two_compl d
    else d

unfoldable pub i256_mod : ℕ → ℕ → ℕ
unfolding i256_sign_compl u256_remove_sign two_compl
i256_mod a b =
    let (first, first_sign) = i256_sign_compl a in
    let (second, second_sign) = i256_sign_compl b in
    let r = u256_remove_sign (first % second) in
    if is_zero first_sign
    then 0
    else if is_zero second_sign
    then 0
    else if is_minus first_sign
    then two_compl r
    else r
