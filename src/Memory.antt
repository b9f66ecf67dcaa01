-- ===== src/Memory.antt =====
-- crates/interpreter/src/interpreter/shared_memory.rs: the memory that the contexts of nested calls
-- share. The checkpoints are listed with the newest first. `none` is a panic, or undefined behaviour
-- where the code leaves a bound unchecked.
pub mod Contexts
pub mod Splices
pub mod Slices
mod Examples
use baron_evm.Base.{
  ℕ, ◌+◌, ◌-◌, ◌^◌, Bool, true, false, Option, none, some, List, [], ◌∷◌, ◌++◌, ltb, leb,
  if◌then◌else◌, ◌>>=◌, length, take, drop, replicate, min, wrapping_add64, ◌==◌,
}
use baron_evm.Gas.Calc.{memory_gas_for_len}

pub record SharedMemory : Type 0 where
  pub buffer : List ℕ
  pub checkpoints : List ℕ
  pub last_checkpoint : ℕ
  pub memory_limit : ℕ

unfoldable pub new_with_memory_limit : ℕ → SharedMemory
new_with_memory_limit limit = record {
  buffer = [];
  checkpoints = [];
  last_checkpoint = 0;
  memory_limit = limit;
}

unfoldable pub limit_reached : SharedMemory → ℕ → Bool
limit_reached m new_size = ltb m.memory_limit (wrapping_add64 m.last_checkpoint new_size)

unfoldable pub new_context : SharedMemory → SharedMemory
new_context m = record m {
  checkpoints = length m.buffer ∷ m.checkpoints;
  last_checkpoint = length m.buffer;
}

abbrev pub last_or_zero : List ℕ → ℕ
last_or_zero [] = 0
last_or_zero (c ∷ cs) = c

-- The length that is set has to be in bounds.
abbrev pub pop_context : SharedMemory → List ℕ → Option SharedMemory
pop_context m [] = some m
pop_context m (old_checkpoint ∷ rest) =
    if leb old_checkpoint (length m.buffer)
    then some (record m {
      buffer = take old_checkpoint m.buffer;
      checkpoints = rest;
      last_checkpoint = last_or_zero rest;
    })
    else none

unfoldable pub free_context : SharedMemory → Option SharedMemory
free_context m = pop_context m m.checkpoints

unfoldable pub context_memory : SharedMemory → List ℕ
context_memory m = drop m.last_checkpoint m.buffer

unfoldable pub len : SharedMemory → ℕ
len m = length m.buffer - m.last_checkpoint

unfoldable pub is_empty : SharedMemory → Bool
unfolding len
is_empty m = len m == 0

unfoldable pub current_expansion_cost : SharedMemory → ℕ
unfolding len memory_gas_for_len
current_expansion_cost m = memory_gas_for_len (len m)

unfoldable pub resize : SharedMemory → ℕ → SharedMemory
resize m new_size =
    let size = wrapping_add64 m.last_checkpoint new_size in
    record m { buffer = take size m.buffer ++ replicate (size - length m.buffer) 0 }

unfoldable pub slice : SharedMemory → ℕ → ℕ → Option (List ℕ)
unfolding context_memory
slice m offset size =
    let context = context_memory m in
    if leb (offset + size) (length context) then some (take size (drop offset context)) else none

-- The bytes from `offset` on, overwritten.
abbrev pub splice : ℕ → List ℕ → List ℕ → List ℕ
splice offset value xs = take offset xs ++ value ++ drop (offset + length value) xs

-- `slice_mut`, and what is copied or filled into it.
unfoldable pub slice_mut : SharedMemory → ℕ → List ℕ → Option SharedMemory
unfolding context_memory
slice_mut m offset value =
    let context = context_memory m in
    if leb (offset + length value) (length context)
    then some (record m { buffer = take m.last_checkpoint m.buffer ++ splice offset value context })
    else none

unfoldable pub get_byte : SharedMemory → ℕ → Option ℕ
unfolding slice
get_byte m offset = elim (slice m offset 1) [
  | none ↦ none
  | some bytes ↦ elim bytes [ [] ↦ none | byte ∷ rest ↦ some byte ]
]

unfoldable pub get_word : SharedMemory → ℕ → Option (List ℕ)
unfolding slice
get_word m offset = slice m offset 32

unfoldable pub set : SharedMemory → ℕ → List ℕ → Option SharedMemory
unfolding slice_mut
set m offset [] = some m
set m offset (byte ∷ bytes) = slice_mut m offset (byte ∷ bytes)

unfoldable pub set_byte : SharedMemory → ℕ → ℕ → Option SharedMemory
unfolding set
set_byte m offset byte = set m offset (byte ∷ [])

unfoldable pub set_word : SharedMemory → ℕ → List ℕ → Option SharedMemory
unfolding set
set_word m offset value = set m offset value

unfoldable pub set_data : SharedMemory → ℕ → ℕ → ℕ → List ℕ → Option SharedMemory
unfolding slice_mut
set_data m memory_offset data_offset size bytes =
    let data_end = min (wrapping_add64 data_offset size) (length bytes) in
    let data_len = data_end - data_offset in
    let copied = do
      m' ← slice_mut m memory_offset (take data_len (drop data_offset bytes))
      slice_mut m' (memory_offset + data_len) (replicate (size - data_len) 0)
    in if leb (length bytes) data_offset
      then slice_mut m memory_offset (replicate size 0)
      else if ltb data_end data_offset
      then none
      else copied

unfoldable pub copy : SharedMemory → ℕ → ℕ → ℕ → Option SharedMemory
unfolding slice slice_mut
copy m dst src size = slice m src size >>= (λ bytes. slice_mut m dst bytes)
