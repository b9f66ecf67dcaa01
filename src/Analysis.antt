-- ===== src/Analysis.antt =====
-- crates/interpreter/src/interpreter/analysis.rs: the table of valid jump destinations of legacy
-- code. The loop over a byte pointer is a recursion on fuel, started with the length of the code.
pub mod Destinations
pub mod Padding
mod Examples
use baron_evm.Base.{
  ℕ, zero, suc, ◌+◌, ◌-◌, ◌%◌, ◌^◌, Bool, true, false, Option, none, some, List, [], ◌∷◌, ◌++◌,
  ◌==◌, ltb, if◌then◌else◌, length, get_elem?, set, replicate,
}
use baron_evm.Bytecode.{Bytecode, legacy_raw, legacy_analyzed, eof, JumpTable}

-- opcode.rs.
abbrev pub jumpdest : ℕ
jumpdest = 0x5B

abbrev pub push1 : ℕ
push1 = 0x60

-- How far the loop moves on from an opcode; `wrapping_sub` is that of u8.
unfoldable pub advance : ℕ → ℕ
advance opcode =
    if opcode == jumpdest
    then 1
    else (let push_offset = (opcode + 2 ^ 8 - push1) % 2 ^ 8 in
        if ltb push_offset 32 then push_offset + 2 else 1)

-- The table with the destination at `i` marked, if there is one.
unfoldable pub mark : ℕ → ℕ → JumpTable → JumpTable
mark opcode i jumps = if opcode == jumpdest then set jumps i true else jumps

-- The loop, from position `i`.
unfoldable pub scan : ℕ → List ℕ → ℕ → JumpTable → JumpTable
unfolding advance mark
scan zero code i jumps = jumps
scan (suc fuel) code i jumps = elim (get_elem? code i) [
  | none ↦ jumps
  | some opcode ↦ scan fuel code (i + advance opcode) (mark opcode i jumps)
]

unfoldable pub analyze : List ℕ → JumpTable
analyze code = scan (length code) code 0 (replicate (length code) false)

unfoldable pub to_analysed : Bytecode → Bytecode
unfolding analyze
to_analysed (legacy_raw code) =
    let padded = code ++ replicate 33 0 in
    legacy_analyzed
      (record { bytecode = padded; original_len = length code; jump_table = analyze padded })
to_analysed (legacy_analyzed a) = legacy_analyzed a
to_analysed (eof e) = eof e
