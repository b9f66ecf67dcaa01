-- ===== src/Signed/Division.antt =====
-- `i256_div` and `i256_mod` of crates/interpreter/src/instructions/i256.rs, on magnitudes and signs.
use native.Mathlib.Nat.{div-lt_self, div-le_self, div-one, mod-lt, zero-mod}
use baron_evm.Base.{
  ℕ, ◌+◌, ◌*◌, ◌/◌, ◌%◌, ◌^◌, ◌≤◌, ◌<◌, Bool, true, false, not, ◌&&◌, ◌||◌, ◌==◌, u256_mod, ◌≡◌,
  ◌≢◌, refl, ap, ◌∙◌, arith, Bool-cases, inl, inr,
}
use baron_evm.Signed.{
  minus, zero, plus, i256_sign, two_compl, i256_sign_compl, i256_div, i256_mod, is_minus, is_zero,
}
use baron_evm.Signed.Laws.{
  is_negative, magnitude, word, kind, is_zero_word, is_positive, is_negative_word,
}

-- What `i256_sign_compl` gives.
record Split (a : ℕ) : Type 0 where
  compl : i256_sign_compl a ≡ (magnitude a, i256_sign a)
  negative : is_minus (i256_sign a) ≡ is_negative a
  none : is_zero (i256_sign a) ≡ (a == 0)

split : (a : ℕ) → a < u256_mod → Split a
unfolding i256_sign_compl two_compl
split a h = elim (kind a h) [
  | is_zero_word p s ↦ record {
    compl = rw s (ap (λ n. (n, zero)) (ground arith));
    negative = rw s (ground arith);
    none = rw s (ground arith);
  }
  | is_positive p p' s ↦ record {
    compl = rw s (ap (λ n. (n, plus)) (ground arith));
    negative = rw s (ground arith);
    none = rw s (ground arith);
  }
  | is_negative_word p s ↦ record {
    compl = rw s (ap (λ n. (n, minus)) (ground arith));
    negative = rw s (ground arith);
    none = rw s (ground arith);
  }
]

-- Clearing the highest bit of a word that does not have it.
remove_sign-small : (d : ℕ) → d < 2 ^ 255 → d / 2 ^ 192 % 2 ^ 63 * 2 ^ 192 + d % 2 ^ 192 ≡ d
remove_sign-small d h = omega arith

-- The signs differ.
abbrev pub differ : ℕ → ℕ → Bool
differ a b = (is_negative a && not (is_negative b)) || (is_negative b && not (is_negative a))

quotient-lt : (f s : ℕ) → f ≤ 2 ^ 255 → 0 < s → (f == 2 ^ 255 && s == 1) ≡ false → f / s < 2 ^ 255
quotient-lt f s h some e = elim (Bool-cases (s == 1)) [
  | inl one ↦ let same : f / s ≡ f = ap (λ n. f / n) (ground arith) ∙ div-one f in ground arith
  | inr more ↦ elim (Bool-cases (f == 0)) [
    | inl nothing ↦ let le = div-le_self f s in ground arith
    | inr positive ↦
        let two : 1 < s = ground arith in
        let nonzero : 0 < f = ground arith in let lt = div-lt_self nonzero two in omega (arith, lt)
  ]
]

magnitude-le : (a : ℕ) → a < u256_mod → magnitude a ≤ 2 ^ 255
magnitude-le a h = ground arith

magnitude-positive : (a : ℕ) → a < u256_mod → a ≢ 0 → 0 < magnitude a
magnitude-positive a h some = ground arith

-- 2 ^ 255 is its own complement.
word-least : (negative : Bool) → 2 ^ 255 ≡ word negative (2 ^ 255)
word-least true = refl
word-least false = refl

-- For words with a divisor that is not zero, the signed quotient is the quotient of the
-- magnitudes rounded down, with a negative sign exactly when the signs differ, as a word in two's
-- complement; the least number by -1 wraps to itself.
pub i256_div_lem :
    (a b : ℕ)
    → a < u256_mod
    → b < u256_mod
    → b ≢ 0
    → i256_div a b ≡ word (differ a b) (magnitude a / magnitude b)
unfolding i256_div two_compl
i256_div_lem a b h k some =
    let sa = split a h in
    let sb = split b k in
    let nonzero : (b == 0) ≡ false = ground arith in
    rw (sa.compl, sb.compl, sa.negative, sb.negative, sb.none, nonzero)
      (elim (Bool-cases (magnitude a == 2 ^ 255 && magnitude b == 1)) [
        | inl least ↦
            let one : magnitude b ≡ 1 = ground (arith, least) in
            let big : magnitude a ≡ 2 ^ 255 = ground (arith, least) in
            let q : magnitude a / magnitude b ≡ 2 ^ 255 =
              (λ i. big i / one i) ∙ div-one (2 ^ 255) in
            rw (least, q) (word-least (differ a b))
        | inr other ↦
            let small =
              quotient-lt (magnitude a) (magnitude b) (magnitude-le a h)
                (magnitude-positive b k some) other in
            rw (other, remove_sign-small (magnitude a / magnitude b) small) refl
      ])

-- For words with a divisor that is not zero, the signed remainder is the remainder of the
-- magnitudes with the sign of the first word, as a word in two's complement.
pub i256_mod_lem :
    (a b : ℕ)
    → a < u256_mod
    → b < u256_mod
    → b ≢ 0
    → i256_mod a b ≡ word (is_negative a) (magnitude a % magnitude b)
unfolding i256_mod two_compl
i256_mod_lem a b h k some =
    let sa = split a h in
    let sb = split b k in
    let nonzero : (b == 0) ≡ false = ground arith in
    let small : magnitude a % magnitude b < 2 ^ 255 =
      omega (arith, mod-lt (magnitude a) (magnitude-positive b k some), magnitude-le b k) in
    rw
      (
        sa.compl,
        sb.compl,
        sa.negative,
        sa.none,
        sb.none,
        nonzero,
        remove_sign-small (magnitude a % magnitude b) small,
      )
      (elim (Bool-cases (a == 0)) [
        | inl none ↦
            let nothing : magnitude a ≡ 0 = ground (arith, none) in
            let r : magnitude a % magnitude b ≡ 0 =
              ap (λ n. n % magnitude b) nothing ∙ zero-mod (magnitude b) in
            let plus_sign : is_negative a ≡ false = ground (arith, none) in
            rw (none, r, plus_sign) refl
        | inr nonzero_a ↦ rw nonzero_a refl
      ])
