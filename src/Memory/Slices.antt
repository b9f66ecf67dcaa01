-- ===== src/Memory/Slices.antt =====
-- crates/interpreter/src/interpreter/shared_memory.rs: what is read after a write.
use baron_evm.Base.{
  ℕ, ◌+◌, ◌-◌, ◌≤◌, ◌<◌, true, false, Option, none, some, List, [], ◌∷◌, ◌++◌, ◌≡◌, refl, sym, ap,
  ◌∙◌, arith, inl, inr, Bool-cases, leb, ltb, if◌then◌else◌, ◌>>=◌, length, take, drop, replicate,
  min, u64_mod, length-append, length-take, length-drop, length-replicate, wrapping_add64, suc,
  zero,
}
use baron_evm.Memory.{SharedMemory, context_memory, slice, splice, slice_mut, set_data}
use baron_evm.Memory.Contexts.{IsValid, take_below}
use baron_evm.Memory.Splices.{drop_taken, splice-splice, read_splice, take-min}

-- The context after a write.
context_after :
    (m : SharedMemory) (xs : List ℕ)
    → IsValid m
    → context_memory (record m { buffer = take m.last_checkpoint m.buffer ++ xs }) ≡ xs
unfolding context_memory
context_after m xs v = drop_taken m.last_checkpoint m.buffer xs v.bound

-- A write whose slice is in the context.
written :
    (m : SharedMemory) (o : ℕ) (value : List ℕ)
    → o + length value ≤ length (context_memory m)
    → slice_mut m o value
      ≡ some (record m {
        buffer = take m.last_checkpoint m.buffer ++ splice o value (context_memory m);
      })
unfolding slice_mut
written m o value h = ground (arith, h)

length-splice :
    (o : ℕ) (value xs : List ℕ)
    → o + length value ≤ length xs
    → length (splice o value xs) ≡ length xs
length-splice o value xs h = omega (
  arith,
  length-append (take o xs ++ value) (drop (o + length value) xs),
  length-append (take o xs) value,
  length-take o xs,
  length-drop (o + length value) xs,
  h,
)

-- What was written is read back.
slice-written :
    (m : SharedMemory) (o : ℕ) (value : List ℕ)
    → IsValid m
    → o + length value ≤ length (context_memory m)
    → slice
        (record m { buffer = take m.last_checkpoint m.buffer ++ splice o value (context_memory m) })
        o
        (length value)
      ≡ some value
unfolding slice
slice-written m o value v h =
    ap
      (λ c.
        if leb (o + length value) (length c) then some (take (length value) (drop o c)) else none)
      (context_after m (splice o value (context_memory m)) v)
    ∙ ap
        (λ b.
          if b
          then some (take (length value) (drop o (splice o value (context_memory m))))
          else none)
        (in_bounds (omega (arith, h, length-splice o value (context_memory m) h)))
    ∙ ap some (read_splice o value (context_memory m) h)
  where
    in_bounds : {a b : ℕ} → a ≤ b → leb a b ≡ true
    in_bounds l = ground (arith, l)

-- The bytes that `set_data` means to write: the data from the offset on, and zeros.
abbrev pub padded : ℕ → ℕ → List ℕ → List ℕ
padded data_offset size bytes =
    let found = take size (drop data_offset bytes) in found ++ replicate (size - length found) 0

-- The memory with another context.
abbrev over : SharedMemory → List ℕ → SharedMemory
over m xs = record m { buffer = take m.last_checkpoint m.buffer ++ xs }

over-over : (m : SharedMemory) (xs ys : List ℕ) → IsValid m → over (over m xs) ys ≡ over m ys
over-over m xs ys v =
    ap (λ b. record m { buffer = b ++ ys }) (take_below m.last_checkpoint m.buffer xs v.bound)

slice_mut-slice_mut :
    (m : SharedMemory) (o : ℕ) (a b : List ℕ)
    → IsValid m
    → o + length a + length b ≤ length (context_memory m)
    → slice_mut m o a >>= (λ m'. slice_mut m' (o + length a) b) ≡ slice_mut m o (a ++ b)
slice_mut-slice_mut m o a b v h =
    let context = context_memory m in
    let m' = over m (splice o a context) in
    let seen = context_after m (splice o a context) v in
    ap (λ r. r >>= (λ n. slice_mut n (o + length a) b)) (written m o a (omega arith))
    ∙ written m' (o + length a) b
        (omega (arith, h, ap length seen, length-splice o a context (omega arith)))
    ∙ ap (λ c. some (over m' (splice (o + length a) b c))) seen
    ∙ ap (λ c. some (over m' c)) (splice-splice o a b context (omega arith))
    ∙ ap some (over-over m (splice o a context) (splice o (a ++ b) context) v)
    ∙ sym (written m o (a ++ b) (omega (arith, h, length-append a b)))

length-padded :
    (data_offset size : ℕ) (bytes : List ℕ) → length (padded data_offset size bytes) ≡ size
length-padded data_offset size bytes = omega (
  arith,
  length-append (take size (drop data_offset bytes))
      (replicate (size - length (take size (drop data_offset bytes))) 0),
  length-replicate {A = ℕ} (size - length (take size (drop data_offset bytes))) 0,
  length-take size (drop data_offset bytes),
)

drop_all : (n : ℕ) (xs : List ℕ) → length xs ≤ n → drop n xs ≡ []
drop_all zero [] h = refl
drop_all zero (x ∷ xs) h = absurd (omega arith)
drop_all (suc n) [] h = refl
drop_all (suc n) (x ∷ xs) h = drop_all n xs (omega arith)

-- Past the end of the data there are only zeros.
padded_zeros :
    (data_offset size : ℕ) (bytes : List ℕ)
    → leb (length bytes) data_offset ≡ true
    → padded data_offset size bytes ≡ replicate size 0
padded_zeros data_offset size bytes e =
    ap (λ d. take size d ++ replicate (size - length (take size d)) 0)
      (drop_all data_offset bytes (past (length bytes) data_offset e))
    ∙ ap (λ d. d ++ replicate (size - length d) 0) (take_nothing size)
    ∙ ap (λ n. replicate n 0) (minus_zero size)
  where
    past : (a b : ℕ) → leb a b ≡ true → a ≤ b
    past a b f = ground (arith, f)

    take_nothing : (n : ℕ) → take {A = ℕ} n [] ≡ []
    take_nothing zero = refl
    take_nothing (suc n) = refl

    minus_zero : (n : ℕ) → n - 0 ≡ n
    minus_zero n = omega arith

-- The data and the zeros that the two writes of `set_data` write, where the data have `n` bytes.
abbrev two_writes : SharedMemory → ℕ → List ℕ → ℕ → ℕ → Option SharedMemory
two_writes m o found size n =
    slice_mut m o (take n found) >>= (λ m'. slice_mut m' (o + n) (replicate (size - n) 0))

two_writes_lem :
    (m : SharedMemory) (o size : ℕ) (found : List ℕ) (n : ℕ)
    → IsValid m
    → o + size ≤ length (context_memory m)
    → n ≡ min size (length found)
    → two_writes m o found size n
      ≡ slice_mut m o (take size found ++ replicate (size - length (take size found)) 0)
two_writes_lem m o size found n v h e =
    let front = take size found in
    let zeros = replicate (size - length front) 0 in
    ap (two_writes m o found size) e
    ∙ ap
        (λ a. slice_mut m o a >>= (λ m'.
          slice_mut m' (o + min size (length found))
            (replicate (size - min size (length found)) 0)))
        (take-min size found)
    ∙ ap (λ k. slice_mut m o front >>= (λ m'. slice_mut m' (o + k) (replicate (size - k) 0)))
        (sym (length-take size found))
    ∙ slice_mut-slice_mut m o front zeros v
        (omega (arith, h, length-take size found, length-replicate {A = ℕ} (size - length front) 0))

-- `set_data` is one write of the padded data.
set_data_lem :
    (m : SharedMemory) (memory_offset data_offset size : ℕ) (bytes : List ℕ)
    → IsValid m
    → memory_offset + size ≤ length (context_memory m)
    → data_offset + size < u64_mod
    → set_data m memory_offset data_offset size bytes
      ≡ slice_mut m memory_offset (padded data_offset size bytes)
unfolding set_data
set_data_lem m memory_offset data_offset size bytes v h b =
    let data_end = min (wrapping_add64 data_offset size) (length bytes) in
    elim (Bool-cases (leb (length bytes) data_offset)) [
      | inl e ↦
          (rw e (ap (slice_mut m memory_offset) (sym (padded_zeros data_offset size bytes e))))
      | inr e ↦
          (let f : ltb data_end data_offset ≡ false = ground (arith, e, b) in
            rw (e, f)
              (two_writes_lem m memory_offset size (drop data_offset bytes) (data_end - data_offset)
                v h (omega (arith, length-drop data_offset bytes, b))))
    ]

-- In a memory whose last checkpoint is in bounds and is the last one on record, when the slice is
-- within the context and data_offset + len is below 2^64, set_data succeeds, and the slice then
-- reads the data from data_offset on, padded with zeros where they end.
pub slice-set_data :
    (m : SharedMemory) (memory_offset data_offset size : ℕ) (bytes : List ℕ)
    → IsValid m
    → memory_offset + size ≤ length (context_memory m)
    → data_offset + size < u64_mod
    → set_data m memory_offset data_offset size bytes >>= (λ m'. slice m' memory_offset size)
      ≡ some (padded data_offset size bytes)
slice-set_data m memory_offset data_offset size bytes v h b =
    let value = padded data_offset size bytes in
    let fits : memory_offset + length value ≤ length (context_memory m) =
      omega (arith, h, length-padded data_offset size bytes) in
    ap (λ r. r >>= (λ m'. slice m' memory_offset size))
      (set_data_lem m memory_offset data_offset size bytes v h b
        ∙ written m memory_offset value fits)
    ∙ ap (slice (over m (splice memory_offset value (context_memory m))) memory_offset)
        (sym (length-padded data_offset size bytes))
    ∙ slice-written m memory_offset value v fits
