-- ===== src/Gas/Examples.antt =====
-- The gas theorems at concrete meters, lengths and slots, and runs of the cost functions.
use baron_evm.Base.{◌+◌, ◌*◌, ◌≤◌, ◌<◌, ◌≡◌, refl, true, false, [], ◌∷◌, some, arith}
use baron_evm.Base.Int.{pos, ◌≤ℤ◌}
use baron_evm.Spec.{london}
use baron_evm.Gas.{Gas, spent, record_cost, erase_cost, set_final_refund}
use baron_evm.Gas.Bounds.{
  IsValid, charge, answers, paid, pays, charge_accounts, erase_cost_child, set_final_refund_bounds,
}
use baron_evm.Gas.Calc.{num_words, keccak256_cost, verylowcopy_cost, create2_cost, memory_gas}
use baron_evm.Gas.Calc.Words.{num_words_ceil, word_costs_total, memory_gas_mono}
use baron_evm.Gas.Sstore.Refunds.{total_refund, total_refund_nonneg}

abbrev meter : Gas
meter = record { limit = 1000; remaining = 900; refunded = 70 }

meter-IsValid : IsValid meter
meter-IsValid = record { limit_fits = omega arith; within = omega arith; refund_fits = omega arith }

abbrev child : Gas
child = record { limit = 300; remaining = 120; refunded = 0 }

child-IsValid : IsValid child
child-IsValid = record { limit_fits = omega arith; within = omega arith; refund_fits = omega arith }

charge_accounts_example :
    (answers meter (500 ∷ 600 ∷ 300 ∷ []) ≡ pays 900 (500 ∷ 600 ∷ 300 ∷ []))
    × (spent (charge meter (500 ∷ 600 ∷ 300 ∷ [])) ≡ spent meter + paid 900 (500 ∷ 600 ∷ 300 ∷ []))
    × IsValid (charge meter (500 ∷ 600 ∷ 300 ∷ []))
    × (spent meter + paid 900 (500 ∷ 600 ∷ 300 ∷ []) ≤ 1000)
charge_accounts_example = charge_accounts meter (500 ∷ 600 ∷ 300 ∷ []) meter-IsValid

-- The second cost is not covered, and the last is exactly.
answers_test : answers meter (500 ∷ 600 ∷ 400 ∷ []) ≡ true ∷ false ∷ true ∷ []
unfolding answers record_cost
answers_test = refl

charge_test : paid 900 (500 ∷ 600 ∷ 400 ∷ []) ≡ 900
unfolding paid
charge_test = refl

erase_cost_child_example :
    (spent (erase_cost (record_cost meter child.limit).0 child.remaining)
      ≡ spent meter + spent child)
    × IsValid (erase_cost (record_cost meter child.limit).0 child.remaining)
erase_cost_child_example = erase_cost_child meter child meter-IsValid child-IsValid (omega arith)

set_final_refund_bounds_example :
    ((set_final_refund meter true).refunded ≤ 70)
    × (5 * (set_final_refund meter true).refunded ≤ spent meter)
    × (20 ≤ 70 → 5 * 20 ≤ spent meter → 20 ≤ (set_final_refund meter true).refunded)
set_final_refund_bounds_example = set_final_refund_bounds meter true 20 meter-IsValid (omega arith)

num_words_ceil_example : (33 ≤ 32 * num_words 33) × (32 * num_words 33 < 33 + 32)
num_words_ceil_example = num_words_ceil 33 (omega arith)

word_costs_total_example :
    (keccak256_cost 100 ≡ some (30 + 6 * num_words 100))
    × (verylowcopy_cost 100 ≡ some (3 + 3 * num_words 100))
    × (create2_cost 100 ≡ some (32000 + 6 * num_words 100))
word_costs_total_example = word_costs_total 100

memory_gas_mono_example : memory_gas 31 ≤ memory_gas 32
memory_gas_mono_example = memory_gas_mono 31 32 (omega arith)

-- Cleared, written again, and set back to the original value.
total_refund_nonneg_example : pos 0 ≤ℤ total_refund london 5 5 (0 ∷ 7 ∷ 5 ∷ [])
total_refund_nonneg_example = total_refund_nonneg london 5 (0 ∷ 7 ∷ 5 ∷ [])
