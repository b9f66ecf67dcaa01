-- ===== src/Signed/Laws.antt =====
-- The signed operations against the integers that their words stand for.
use baron_evm.Base.{
  ℕ, ◌-◌, ◌/◌, ◌%◌, ◌^◌, ◌≤◌, ◌<◌, Bool, true, false, ◌==◌, ltb, leb, if◌then◌else◌, u256_mod, ◌≡◌,
  ◌≢◌, ◌↔◌, refl, arith, Bool-cases, inl, inr,
}
use baron_evm.Base.Int.{ℤ, pos, negsuc, ◌≤ℤ◌}
use baron_evm.Signed.{
  Sign, minus, zero, plus, Ordering, less, equal, greater, i256_sign, compare_signs, compare_words,
  decided, i256_cmp,
}

-- The integer that a word stands for in two's complement.
abbrev pub to_int : ℕ → ℤ
to_int a = if ltb a (2 ^ 255) then pos a else negsuc (u256_mod - 1 - a)

-- The word of the number with a sign (true for negative) and a magnitude.
abbrev pub word : Bool → ℕ → ℕ
word negative m = if negative then (u256_mod - m) % u256_mod else m

abbrev pub is_negative : ℕ → Bool
is_negative a = leb (2 ^ 255) a

abbrev pub magnitude : ℕ → ℕ
magnitude a = if is_negative a then u256_mod - a else a

-- The three kinds of words.
pub data Kind (a : ℕ) : Type 0 where
  is_zero_word : a ≡ 0 → i256_sign a ≡ zero → Kind a
  is_positive : 0 < a → a < 2 ^ 255 → i256_sign a ≡ plus → Kind a
  is_negative_word : 2 ^ 255 ≤ a → i256_sign a ≡ minus → Kind a

pub kind : (a : ℕ) → a < u256_mod → Kind a
unfolding i256_sign
kind a h = elim (Bool-cases (ltb a (2 ^ 255))) [
  | inr big ↦
      let bit : (a / 2 ^ 255 % 2 == 1) ≡ true = ground arith in
      is_negative_word (ground arith) (rw bit refl)
  | inl small ↦
      let bit : (a / 2 ^ 255 % 2 == 1) ≡ false = ground arith in
      elim (Bool-cases (a == 0)) [
        | inl none ↦ is_zero_word (ground arith) (rw (bit, none) refl)
        | inr some ↦ is_positive (ground arith) (ground arith) (rw (bit, some) refl)
      ]
]

cmp-signs :
    (a b : ℕ) {s t : Sign}
    → i256_sign a ≡ s
    → i256_sign b ≡ t
    → i256_cmp a b ≡ decided (compare_signs s t) a b
unfolding i256_cmp
cmp-signs a b e f i = decided (compare_signs (e i) (f i)) a b

-- What an order of two words says of the integers.
Orders : Ordering → ℕ → ℕ → Type 0
Orders o a b = ((o ≢ greater) ↔ (to_int a ≤ℤ to_int b)) × ((o ≡ equal) ↔ (a ≡ b))

words-Orders : (a b : ℕ) → (to_int a ≤ℤ to_int b) ↔ (a ≤ b) → Orders (compare_words a b) a b
unfolding compare_words Orders
words-Orders a b h = ground arith

less-Orders : (a b : ℕ) → (to_int a ≤ℤ to_int b) → a ≢ b → Orders less a b
unfolding Orders
less-Orders a b h ne = ((λ e. h, λ e o. cc), (λ o. absurd (cc), λ e. absurd (ne e)))

greater-Orders : (a b : ℕ) → ((to_int a ≤ℤ to_int b) → a ≡ b) → a ≢ b → Orders greater a b
unfolding Orders
greater-Orders a b h ne =
    ((λ e. absurd (e refl), λ e. absurd (ne (h e))), (λ o. absurd (cc), λ e. absurd (ne e)))

kinds-Orders : (a b : ℕ) → a < u256_mod → b < u256_mod → Kind a → Kind b → Orders (i256_cmp a b) a b
unfolding compare_signs decided
kinds-Orders a b h k (is_zero_word p s) (is_zero_word q t) =
    rw (cmp-signs a b s t) (words-Orders a b (ground arith))
kinds-Orders a b h k (is_zero_word p s) (is_positive q q' t) =
    rw (cmp-signs a b s t) (less-Orders a b (ground arith) (omega arith))
kinds-Orders a b h k (is_zero_word p s) (is_negative_word q t) =
    rw (cmp-signs a b s t) (greater-Orders a b (ground arith) (omega arith))
kinds-Orders a b h k (is_positive p p' s) (is_zero_word q t) =
    rw (cmp-signs a b s t) (greater-Orders a b (ground arith) (omega arith))
kinds-Orders a b h k (is_positive p p' s) (is_positive q q' t) =
    rw (cmp-signs a b s t) (words-Orders a b (ground arith))
kinds-Orders a b h k (is_positive p p' s) (is_negative_word q t) =
    rw (cmp-signs a b s t) (greater-Orders a b (ground arith) (omega arith))
kinds-Orders a b h k (is_negative_word p s) (is_zero_word q t) =
    rw (cmp-signs a b s t) (less-Orders a b (ground arith) (omega arith))
kinds-Orders a b h k (is_negative_word p s) (is_positive q q' t) =
    rw (cmp-signs a b s t) (less-Orders a b (ground arith) (omega arith))
kinds-Orders a b h k (is_negative_word p s) (is_negative_word q t) =
    rw (cmp-signs a b s t) (words-Orders a b (ground arith))

-- For two words, the signed comparison is not greater exactly when the integer of the first in
-- two's complement is at most that of the second, and equal exactly when the words are equal.
pub i256_cmp_lem :
    (a b : ℕ)
    → a < u256_mod
    → b < u256_mod
    → ((i256_cmp a b ≢ greater) ↔ (to_int a ≤ℤ to_int b)) × ((i256_cmp a b ≡ equal) ↔ (a ≡ b))
unfolding Orders
i256_cmp_lem a b h k = kinds-Orders a b h k (kind a h) (kind b k)
