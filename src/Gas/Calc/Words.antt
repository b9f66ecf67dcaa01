-- ===== src/Gas/Calc/Words.antt =====
-- The costs of crates/interpreter/src/gas/calc.rs that grow with a number of bytes or words.
use baron_evm.Base.{ℕ, ◌+◌, ◌*◌, ◌≤◌, ◌<◌, ◌^◌, ◌≡◌, some, arith, u64_mod}
use baron_evm.Gas.Calc.{
  num_words, cost_per_word, keccak256_cost, verylowcopy_cost, create2_cost, memory_gas,
}

-- Up to 2^64 - 32 bytes the number of words is the length over 32, rounded up.
pub num_words_ceil :
    (len : ℕ) → len + 32 ≤ u64_mod → (len ≤ 32 * num_words len) × (32 * num_words len < len + 32)
unfolding num_words
num_words_ceil len h = omega arith

num_words-lt : (len : ℕ) → num_words len < 2 ^ 59
unfolding num_words
num_words-lt len = omega arith

-- The costs of hashing, copying and CREATE2 never overflow: each is its base plus its rate for
-- each word.
pub word_costs_total :
    (len : ℕ)
    → (keccak256_cost len ≡ some (30 + 6 * num_words len))
      × (verylowcopy_cost len ≡ some (3 + 3 * num_words len))
      × (create2_cost len ≡ some (32000 + 6 * num_words len))
unfolding keccak256_cost verylowcopy_cost create2_cost cost_per_word
word_costs_total len = (
  ground (arith, num_words-lt len),
  ground (arith, num_words-lt len),
  ground (arith, num_words-lt len),
)

-- A larger memory never costs less.
pub memory_gas_mono : (v w : ℕ) → v ≤ w → memory_gas v ≤ memory_gas w
unfolding memory_gas
memory_gas_mono v w h = let sq : v * v ≤ w * w = grind arith in omega arith
