-- ===== src/Memory/Examples.antt =====
-- A context with a nested call, and data read back after they were written.
use baron_evm.Base.{ℕ, ◌+◌, ◌≤◌, some, [], ◌∷◌, ◌≡◌, refl, arith, ◌>>=◌, length}
use baron_evm.Memory.{
  SharedMemory, new_context, free_context, resize, set, set_data, slice, copy, context_memory,
}
use baron_evm.Memory.Contexts.{
  Runs, ends, sets, resizes, calls, copies, IsValid, free_context-new_context,
}
use baron_evm.Memory.Slices.{padded, slice-set_data}

abbrev outer : SharedMemory
outer = record {
  buffer = 1 ∷ 2 ∷ [];
  checkpoints = 0 ∷ [];
  last_checkpoint = 0;
  memory_limit = 1000;
}

outer-IsValid : IsValid outer
outer-IsValid = record { bound = omega arith; last = refl }

-- The memory of the inner context, with its two bytes.
abbrev holds : ℕ → ℕ → SharedMemory
holds a b = record outer {
  buffer = 1 ∷ 2 ∷ a ∷ b ∷ [];
  checkpoints = 2 ∷ 0 ∷ [];
  last_checkpoint = 2;
}

nested : Runs (holds 9 8) (holds 9 9)
unfolding new_context free_context copy
nested = calls (ends (new_context (holds 9 8))) refl (copies 1 0 1 refl (ends (holds 9 9)))

ran : Runs (new_context outer) (holds 9 9)
unfolding new_context resize set
ran = resizes 2 (omega arith) (sets 0 (9 ∷ 8 ∷ []) refl nested)

free_context-new_context_example : free_context (holds 9 9) ≡ some outer
free_context-new_context_example = free_context-new_context outer (holds 9 9) outer-IsValid ran

holds-IsValid : IsValid (holds 9 8)
holds-IsValid = record { bound = omega arith; last = refl }

in_context : 0 + 2 ≤ length (context_memory (holds 9 8))
unfolding context_memory
in_context = omega arith

slice-set_data_example :
    set_data (holds 9 8) 0 1 2 (5 ∷ 6 ∷ []) >>= (λ m. slice m 0 2) ≡ some (padded 1 2 (5 ∷ 6 ∷ []))
slice-set_data_example =
    slice-set_data (holds 9 8) 0 1 2 (5 ∷ 6 ∷ []) holds-IsValid in_context (omega arith)
