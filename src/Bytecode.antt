-- ===== src/Bytecode.antt =====
-- crates/primitives/src/bytecode.rs and bytecode/legacy.rs: the three forms of contract code, and
-- their original bytes, length and hash. A byte is a number below 256.
use baron_evm.Base.{
  ℕ, Bool, false, Option, none, some, List, [], ◌∷◌, leb, ◌==◌, if◌then◌else◌, length, take,
  get_elem?, ◌>>=◌,
}
use baron_evm.Eof.{Eof, size}

-- The map of valid jump destinations, a bit for each byte of code.
abbrev pub JumpTable : Type 0
JumpTable = List Bool

-- `pc < self.0.len() && self.0[pc]`.
unfoldable pub is_valid : JumpTable → ℕ → Bool
is_valid table pc = elim (get_elem? table pc) [ none ↦ false | some b ↦ b ]

pub record LegacyAnalyzedBytecode : Type 0 where
  pub bytecode : List ℕ
  pub original_len : ℕ
  pub jump_table : JumpTable

pub data Bytecode : Type 0 where
  legacy_raw : List ℕ → Bytecode
  legacy_analyzed : LegacyAnalyzedBytecode → Bytecode
  eof : Eof → Bytecode

-- `Bytecode::default()`: one STOP, of original length 0.
unfoldable pub new : Bytecode
new = legacy_analyzed (record { bytecode = 0 ∷ []; original_len = 0; jump_table = [] })

-- `none` is the panic of a slice that is out of bounds.
unfoldable pub original_byte_slice : Bytecode → Option (List ℕ)
original_byte_slice (legacy_raw bytes) = some bytes
original_byte_slice (legacy_analyzed a) =
    if leb a.original_len (length a.bytecode) then some (take a.original_len a.bytecode) else none
original_byte_slice (eof e) = some e.raw

unfoldable pub len : Bytecode → ℕ
len (legacy_raw bytes) = length bytes
len (legacy_analyzed a) = a.original_len
len (eof e) = size e

unfoldable pub is_empty : Bytecode → Bool
unfolding len
is_empty code = len code == 0

-- The Keccak-256 hash of the empty string.
abbrev pub keccak_empty : ℕ
keccak_empty = 0xc5d2460186f7233c927e7db2dcc703c0e500b653ca82273b7bfad8045d85a470

-- The hash function of the `alloy` crate is the parameter.
unfoldable pub hash_slow : (List ℕ → ℕ) → Bytecode → Option ℕ
unfolding is_empty original_byte_slice
hash_slow keccak256 code =
    if is_empty code
    then some keccak_empty
    else do bytes ← original_byte_slice code; some (keccak256 bytes)

unfoldable pub legacy_jump_table : Bytecode → Option JumpTable
legacy_jump_table (legacy_analyzed a) = some a.jump_table
legacy_jump_table (legacy_raw bytes) = none
legacy_jump_table (eof e) = none
