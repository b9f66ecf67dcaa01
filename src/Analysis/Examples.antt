-- ===== src/Analysis/Examples.antt =====
-- The analysis of a small program: PUSH1 with a JUMPDEST byte as its data, then a JUMPDEST.
use baron_evm.Base.{AllBytes, arith, ℕ, true, false, some, List, [], ◌∷◌, get_elem?, ◌≡◌, ◌↔◌, refl}
use baron_evm.Bytecode.{JumpTable, is_valid, legacy_raw, legacy_jump_table}
use baron_evm.Analysis.{jumpdest, advance, mark, scan, analyze, to_analysed}
use baron_evm.Analysis.Destinations.{Reaches, analyze_iff}
use baron_evm.Analysis.Padding.{to_analysed_iff}

abbrev program : List ℕ
program = 0x60 ∷ 0x5B ∷ 0x5B ∷ 0 ∷ []

program-AllBytes : AllBytes program
program-AllBytes = (omega arith, (omega arith, (omega arith, (omega arith, tt))))

analyze_iff_example :
    (is_valid (analyze program) 2 ≡ true)
    ↔ (Reaches program 0 2 × (get_elem? program 2 ≡ some jumpdest))
analyze_iff_example = analyze_iff program 2 program-AllBytes

to_analysed_iff_example :
    (table : JumpTable) × (legacy_jump_table (to_analysed (legacy_raw program)) ≡ some table)
    × ((pc : ℕ)
        → (is_valid table pc ≡ true)
          ↔ (Reaches program 0 pc × (get_elem? program pc ≡ some jumpdest)))
to_analysed_iff_example = to_analysed_iff program program-AllBytes

-- The data byte is no destination, and the instruction behind it is one.
analyze_test : analyze program ≡ false ∷ false ∷ true ∷ false ∷ []
unfolding analyze scan mark advance
analyze_test = refl
