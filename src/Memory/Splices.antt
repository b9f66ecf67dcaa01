-- ===== src/Memory/Splices.antt =====
-- crates/interpreter/src/interpreter/shared_memory.rs: bytes overwritten in a list.
use baron_evm.Base.{
  ℕ, ◌+◌, ◌≤◌, List, [], ◌∷◌, ◌++◌, ◌≡◌, refl, sym, ap, ◌∙◌, arith, length, take, drop, min,
  length-append, length-take, take-append, append_assoc, suc, zero,
}
use baron_evm.Memory.{splice}

pub drop_taken : (n : ℕ) (xs ys : List ℕ) → n ≤ length xs → drop n (take n xs ++ ys) ≡ ys
drop_taken zero xs ys h = refl
drop_taken (suc n) [] ys h = absurd (omega arith)
drop_taken (suc n) (x ∷ xs) ys h = drop_taken n xs ys (omega arith)

zero_add : (n : ℕ) → 0 + n ≡ n
zero_add n = omega arith

suc_add : (m n : ℕ) → suc m + n ≡ suc (m + n)
suc_add m n = omega arith

drop_past : (n : ℕ) (xs ys : List ℕ) → drop (length xs + n) (xs ++ ys) ≡ drop n ys
drop_past n [] ys = ap (λ k. drop k ys) (zero_add n)
drop_past n (x ∷ xs) ys =
    ap (λ k. drop k (x ∷ (xs ++ ys))) (suc_add (length xs) n) ∙ drop_past n xs ys

drop-drop : (m n : ℕ) (xs : List ℕ) → drop n (drop m xs) ≡ drop (m + n) xs
drop-drop zero n xs = ap (λ k. drop k xs) (sym (zero_add n))
drop-drop (suc m) n [] = nothing n ∙ sym (nothing (suc m + n))
  where
    nothing : (k : ℕ) → drop {A = ℕ} k [] ≡ []
    nothing zero = refl
    nothing (suc k) = refl
drop-drop (suc m) n (x ∷ xs) = drop-drop m n xs ∙ ap (λ k. drop k (x ∷ xs)) (sym (suc_add m n))

pub take-min : (n : ℕ) (xs : List ℕ) → take (min n (length xs)) xs ≡ take n xs
take-min zero xs = ap (λ k. take k xs) (min_zero (length xs))
  where
    min_zero : (k : ℕ) → min 0 k ≡ 0
    min_zero k = omega arith
take-min (suc n) [] = ap (λ k. take {A = ℕ} k []) (min_nothing (suc n))
  where
    min_nothing : (k : ℕ) → min k 0 ≡ 0
    min_nothing k = omega arith
take-min (suc n) (x ∷ xs) =
    ap (λ k. take k (x ∷ xs)) (min_suc n (length xs)) ∙ ap (◌∷◌ x) (take-min n xs)
  where
    min_suc : (a b : ℕ) → min (suc a) (suc b) ≡ suc (min a b)
    min_suc a b = omega arith

-- Two writes side by side are one.
pub splice-splice :
    (o : ℕ) (a b xs : List ℕ)
    → o ≤ length xs
    → splice (o + length a) b (splice o a xs) ≡ splice o (a ++ b) xs
splice-splice o a b xs h =
    let front = take o xs ++ a in
    let back = drop (o + length a) xs in
    let front_length : length front ≡ o + length a =
      omega (arith, length-append (take o xs) a, length-take o xs, h) in
    ap (λ n. take n (front ++ back) ++ b ++ drop (n + length b) (front ++ back)) (sym front_length)
    ∙ ap (λ p. p ++ b ++ drop (length front + length b) (front ++ back)) (take-append front back)
    ∙ ap (λ q. front ++ b ++ q)
        (drop_past (length b) front back
          ∙ drop-drop (o + length a) (length b) xs
          ∙ ap (λ k. drop k xs) (omega (arith, length-append a b)))
    ∙ ap (λ p. p ++ drop (o + length (a ++ b)) xs) (append_assoc (take o xs) a b)

pub read_splice :
    (o : ℕ) (value xs : List ℕ)
    → o + length value ≤ length xs
    → take (length value) (drop o (splice o value xs)) ≡ value
read_splice o value xs h =
    ap (take (length value)) (
      ap (drop o) (append_assoc (take o xs) value (drop (o + length value) xs))
      ∙ drop_taken o xs (value ++ drop (o + length value) xs) (omega arith))
    ∙ take-append value (drop (o + length value) xs)
