-- ===== src/Signed/Examples.antt =====
-- Signed operations at words of either sign.
use baron_evm.Base.{ℕ, ◌-◌, ◌^◌, ◌/◌, ◌%◌, ◌≡◌, ◌≢◌, ◌↔◌, refl, arith}
use baron_evm.Base.Int.{◌≤ℤ◌}
use baron_evm.Signed.{
  i256_cmp, i256_div, i256_mod, equal, greater, i256_sign_compl, i256_sign, two_compl,
  u256_remove_sign,
}
use baron_evm.Signed.Laws.{to_int, i256_cmp_lem, word, magnitude, is_negative}
use baron_evm.Signed.Division.{differ, i256_div_lem, i256_mod_lem}

-- -7 and 2.
abbrev seven_less : ℕ
seven_less = 2 ^ 256 - 7

i256_cmp_lem_example :
    ((i256_cmp seven_less 2 ≢ greater) ↔ (to_int seven_less ≤ℤ to_int 2))
    × ((i256_cmp seven_less 2 ≡ equal) ↔ (seven_less ≡ 2))
i256_cmp_lem_example = i256_cmp_lem seven_less 2 (omega arith) (omega arith)

i256_div_lem_example :
    i256_div seven_less 2 ≡ word (differ seven_less 2) (magnitude seven_less / magnitude 2)
i256_div_lem_example = i256_div_lem seven_less 2 (omega arith) (omega arith) (omega arith)

i256_mod_lem_example :
    i256_mod seven_less 2 ≡ word (is_negative seven_less) (magnitude seven_less % magnitude 2)
i256_mod_lem_example = i256_mod_lem seven_less 2 (omega arith) (omega arith) (omega arith)

-- -7 / 2 is -3, and the least number divided by -1 is itself.
division_test : i256_div seven_less 2 ≡ 2 ^ 256 - 3
unfolding i256_div i256_sign_compl i256_sign two_compl u256_remove_sign
division_test = refl

overflow_test : i256_div (2 ^ 255) (2 ^ 256 - 1) ≡ 2 ^ 255
unfolding i256_div i256_sign_compl i256_sign two_compl u256_remove_sign
overflow_test = refl
