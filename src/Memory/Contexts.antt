-- ===== src/Memory/Contexts.antt =====
-- crates/interpreter/src/interpreter/shared_memory.rs: a context leaves the memory below it alone.
use baron_evm.Base.{
  ℕ, ◌+◌, ◌-◌, ◌≤◌, ◌<◌, Option, none, some, List, [], ◌∷◌, ◌++◌, ◌≡◌, refl, sym, ap, ◌∙◌, subst,
  arith, inl, inr, Bool-cases, leb, ltb, ◌>>=◌, length, take, drop, replicate, min, u64_mod,
  length-append, length-take, length-replicate, wrapping_add64, suc, zero,
}
use baron_evm.Memory.{
  SharedMemory, new_context, free_context, pop_context, last_or_zero, context_memory, resize, slice,
  splice, slice_mut, set, set_data, copy,
}

-- What a context does: it writes, copies and resizes, and calls others, each in a context of its own.
pub data Runs : SharedMemory → SharedMemory → Type 0 where
  ends : (m : SharedMemory) → Runs m m
  sets :
      {m m' last : SharedMemory} (offset : ℕ) (value : List ℕ)
      → set m offset value ≡ some m'
      → Runs m' last
      → Runs m last
  sets_data :
      {m m' last : SharedMemory} (memory_offset data_offset size : ℕ) (bytes : List ℕ)
      → set_data m memory_offset data_offset size bytes ≡ some m'
      → Runs m' last
      → Runs m last
  copies :
      {m m' last : SharedMemory} (dst src size : ℕ)
      → copy m dst src size ≡ some m'
      → Runs m' last
      → Runs m last
  resizes :
      {m last : SharedMemory} (size : ℕ)
      → m.last_checkpoint + size < u64_mod
      → Runs (resize m size) last
      → Runs m last
  calls :
      {m inner m' last : SharedMemory}
      → Runs (new_context m) inner
      → free_context inner ≡ some m'
      → Runs m' last
      → Runs m last

-- The checkpoint is in bounds, and the last one on record.
pub record IsValid (m : SharedMemory) : Type 0 where
  pub bound : m.last_checkpoint ≤ length m.buffer
  pub last : m.last_checkpoint ≡ last_or_zero m.checkpoints

-- The same contexts with the same memory below the current one.
pub record SameBelow (m m' : SharedMemory) : Type 0 where
  pub valid : IsValid m'
  pub below : take m.last_checkpoint m'.buffer ≡ take m.last_checkpoint m.buffer
  pub checkpoints : m'.checkpoints ≡ m.checkpoints
  pub checkpoint : m'.last_checkpoint ≡ m.last_checkpoint
  pub limit : m'.memory_limit ≡ m.memory_limit

pub take_below : (n : ℕ) (xs ys : List ℕ) → n ≤ length xs → take n (take n xs ++ ys) ≡ take n xs
take_below zero xs ys h = refl
take_below (suc n) [] ys h = absurd (omega arith)
take_below (suc n) (x ∷ xs) ys h = ap (◌∷◌ x) (take_below n xs ys (omega arith))

-- A memory with another buffer that begins in the same way.
with_buffer :
    (m : SharedMemory) (ys : List ℕ)
    → IsValid m
    → SameBelow m (record m { buffer = take m.last_checkpoint m.buffer ++ ys })
with_buffer m ys v = record {
  valid = record {
    bound = omega (
      arith,
      length-append (take m.last_checkpoint m.buffer) ys,
      length-take m.last_checkpoint m.buffer,
      v.bound,
    );
    last = v.last;
  };
  below = take_below m.last_checkpoint m.buffer ys v.bound;
  checkpoints = refl;
  checkpoint = refl;
  limit = refl;
}

reflexive : (m : SharedMemory) → IsValid m → SameBelow m m
reflexive m v = record {
  valid = v;
  below = refl;
  checkpoints = refl;
  checkpoint = refl;
  limit = refl;
}

transitive : {a b c : SharedMemory} → SameBelow a b → SameBelow b c → SameBelow a c
transitive {a} {b} {c} p q = record {
  valid = q.valid;
  below =
      ap (λ n. take n c.buffer) (sym p.checkpoint)
      ∙ q.below
      ∙ ap (λ n. take n b.buffer) p.checkpoint
      ∙ p.below;
  checkpoints = q.checkpoints ∙ p.checkpoints;
  checkpoint = q.checkpoint ∙ p.checkpoint;
  limit = q.limit ∙ p.limit;
}

-- A write that succeeds.
abbrev Kept : SharedMemory → Option SharedMemory → Type 0
Kept m none = Unit {0}
Kept m (some m') = SameBelow m m'

slice_mut-Kept :
    (m : SharedMemory) (offset : ℕ) (value : List ℕ) → IsValid m → Kept m (slice_mut m offset value)
unfolding slice_mut
slice_mut-Kept m offset value v =
    elim (Bool-cases (leb (offset + length value) (length (context_memory m)))) [
      | inl e ↦ rw e (with_buffer m (splice offset value (context_memory m)) v)
      | inr e ↦ rw e tt
    ]

set-Kept :
    (m : SharedMemory) (offset : ℕ) (value : List ℕ) → IsValid m → Kept m (set m offset value)
unfolding set
set-Kept m offset [] v = reflexive m v
set-Kept m offset (byte ∷ bytes) v = slice_mut-Kept m offset (byte ∷ bytes) v

then-Kept :
    (m : SharedMemory) (o : Option SharedMemory) (f : SharedMemory → Option SharedMemory)
    → Kept m o
    → ((m' : SharedMemory) → IsValid m' → Kept m' (f m'))
    → Kept m (o >>= f)
then-Kept m none f k h = tt
then-Kept m (some m') f k h = go (f m') (h m' k.valid)
  where
    go : (o : Option SharedMemory) → Kept m' o → Kept m o
    go none q = tt
    go (some m'') q = transitive k q

set_data-Kept :
    (m : SharedMemory) (memory_offset data_offset size : ℕ) (bytes : List ℕ)
    → IsValid m
    → Kept m (set_data m memory_offset data_offset size bytes)
unfolding set_data
set_data-Kept m memory_offset data_offset size bytes v =
    let data_end = min (wrapping_add64 data_offset size) (length bytes) in
    let data_len = data_end - data_offset in
    let rest = replicate (size - data_len) 0 in
    elim (Bool-cases (leb (length bytes) data_offset)) [
      | inl e ↦ rw e (slice_mut-Kept m memory_offset (replicate size 0) v)
      | inr e ↦ elim (Bool-cases (ltb data_end data_offset)) [
        | inl f ↦ rw (e, f) tt
        | inr f ↦
            (rw (e, f)
              (then-Kept m (slice_mut m memory_offset (take data_len (drop data_offset bytes)))
                (λ m'. slice_mut m' (memory_offset + data_len) rest)
                (slice_mut-Kept m memory_offset (take data_len (drop data_offset bytes)) v)
                (λ m' v'. slice_mut-Kept m' (memory_offset + data_len) rest v')))
      ]
    ]

copy-Kept : (m : SharedMemory) (dst src size : ℕ) → IsValid m → Kept m (copy m dst src size)
unfolding copy
copy-Kept m dst src size v = go (slice m src size)
  where
    go : (o : Option (List ℕ)) → Kept m (o >>= (λ bytes. slice_mut m dst bytes))
    go none = tt
    go (some bytes) = slice_mut-Kept m dst bytes v

-- A resize goes on with at least the memory below.
resized :
    (n k z : ℕ) (xs : List ℕ)
    → n ≤ length xs
    → n ≤ k
    → take n (take k xs ++ replicate z 0) ≡ take n xs
resized zero k z xs h g = refl
resized (suc n) zero z xs h g = absurd (omega arith)
resized (suc n) (suc k) z [] h g = absurd (omega arith)
resized (suc n) (suc k) z (x ∷ xs) h g = ap (◌∷◌ x) (resized n k z xs (omega arith) (omega arith))

resize-SameBelow :
    (m : SharedMemory) (size : ℕ)
    → IsValid m
    → m.last_checkpoint + size < u64_mod
    → SameBelow m (resize m size)
unfolding resize
resize-SameBelow m size v h = record {
  valid = record {
    bound = omega (
      arith,
      length-append (take (wrapping_add64 m.last_checkpoint size) m.buffer)
          (replicate (wrapping_add64 m.last_checkpoint size - length m.buffer) 0),
      length-take (wrapping_add64 m.last_checkpoint size) m.buffer,
      length-replicate {A = ℕ} (wrapping_add64 m.last_checkpoint size - length m.buffer) 0,
      v.bound,
      h,
    );
    last = v.last;
  };
  below =
      resized m.last_checkpoint (wrapping_add64 m.last_checkpoint size)
        (wrapping_add64 m.last_checkpoint size - length m.buffer) m.buffer v.bound (omega arith);
  checkpoints = refl;
  checkpoint = refl;
  limit = refl;
}

new_context-IsValid : (m : SharedMemory) → IsValid (new_context m)
unfolding new_context
new_context-IsValid m = record { bound = omega arith; last = refl }

take_all : (xs : List ℕ) → take (length xs) xs ≡ xs
take_all [] = refl
take_all (x ∷ xs) = ap (◌∷◌ x) (take_all xs)

abbrev memory : List ℕ → List ℕ → ℕ → ℕ → SharedMemory
memory b c l limit = record {
  buffer = b;
  checkpoints = c;
  last_checkpoint = l;
  memory_limit = limit;
}

popped :
    (inner : SharedMemory) (old : ℕ) (rest : List ℕ)
    → old ≤ length inner.buffer
    → pop_context inner (old ∷ rest)
      ≡ some (memory (take old inner.buffer) rest (last_or_zero rest) inner.memory_limit)
popped inner old rest h = ground (arith, h)

freed :
    (m inner : SharedMemory)
    → IsValid m
    → SameBelow (new_context m) inner
    → free_context inner ≡ some m
unfolding free_context new_context
freed m inner v s =
    ap (pop_context inner) s.checkpoints
    ∙ popped inner (length m.buffer) m.checkpoints
        (subst (λ n. n ≤ length inner.buffer) s.checkpoint s.valid.bound)
    ∙ ap (λ b. some (memory b m.checkpoints (last_or_zero m.checkpoints) inner.memory_limit))
        (s.below ∙ take_all m.buffer)
    ∙ ap (λ l. some (memory m.buffer m.checkpoints l inner.memory_limit)) (sym v.last)
    ∙ ap (λ l. some (memory m.buffer m.checkpoints m.last_checkpoint l)) s.limit

-- A step that succeeded.
made :
    (m : SharedMemory) {o : Option SharedMemory} {m' : SharedMemory}
    → o ≡ some m'
    → Kept m o
    → SameBelow m m'
made m e k = subst (Kept m) e k

Runs-SameBelow : {m last : SharedMemory} → Runs m last → IsValid m → SameBelow m last
Runs-SameBelow (ends m) v = reflexive m v
Runs-SameBelow (sets {m} offset value e rest) v =
    let k = made m e (set-Kept m offset value v) in transitive k (Runs-SameBelow rest k.valid)
Runs-SameBelow (sets_data {m} memory_offset data_offset size bytes e rest) v =
    let k = made m e (set_data-Kept m memory_offset data_offset size bytes v) in
    transitive k (Runs-SameBelow rest k.valid)
Runs-SameBelow (copies {m} dst src size e rest) v =
    let k = made m e (copy-Kept m dst src size v) in transitive k (Runs-SameBelow rest k.valid)
Runs-SameBelow (resizes {m} size h rest) v =
    let k = resize-SameBelow m size v h in transitive k (Runs-SameBelow rest k.valid)
Runs-SameBelow (calls {m} {inner} called e rest) v =
    let back = freed m inner v (Runs-SameBelow called (new_context-IsValid m)) in
    let k = made m (sym back ∙ e) (reflexive m v) in transitive k (Runs-SameBelow rest k.valid)

-- From a memory whose last checkpoint is in bounds and is the last one on record, whatever a new
-- context does (writes that succeed, data, copies, resizes that do not overflow, and calls with
-- contexts of their own that are left again), leaving it sets a length that is in bounds and
-- gives back exactly the memory from before the context.
pub free_context-new_context :
    (m inner : SharedMemory) → IsValid m → Runs (new_context m) inner → free_context inner ≡ some m
free_context-new_context m inner v r = freed m inner v (Runs-SameBelow r (new_context-IsValid m))
