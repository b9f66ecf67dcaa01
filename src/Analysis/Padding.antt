-- ===== src/Analysis/Padding.antt =====
-- `to_analysed` of crates/interpreter/src/interpreter/analysis.rs: the table of the padded code and
-- the instructions of the code itself.
use baron_evm.Base.{
  AllBytes, ℕ, zero, suc, ◌+◌, ◌<◌, true, some, List, [], ◌∷◌, ◌++◌, length, get_elem?, replicate,
  ◌≡◌, ◌↔◌, refl, sym, ◌∙◌, arith,
}
use baron_evm.Bytecode.{JumpTable, is_valid, legacy_raw, legacy_jump_table}
use baron_evm.Analysis.{jumpdest, analyze, to_analysed}
use baron_evm.Analysis.Destinations.{
  Reaches, here, next, Reaches-le, get_elem?-lt, analyze_iff, push_data,
}

get_elem?-append :
    (code pad : List ℕ) (i : ℕ) → i < length code → get_elem? (code ++ pad) i ≡ get_elem? code i
get_elem?-append [] pad i h = absurd (omega arith)
get_elem?-append (c ∷ code) pad zero h = refl
get_elem?-append (c ∷ code) pad (suc i) h = get_elem?-append code pad i (omega arith)

-- A JUMPDEST of the padded code is a byte of the code.
jumpdest-lt :
    (code : List ℕ) (n k : ℕ)
    → get_elem? (code ++ replicate n 0) k ≡ some jumpdest
    → k < length code
jumpdest-lt [] zero k e = absurd (cc)
jumpdest-lt [] (suc n) zero e = absurd (ground (arith, e))
jumpdest-lt [] (suc n) (suc k) e = absurd (omega (arith, jumpdest-lt [] n k e))
jumpdest-lt (c ∷ code) n zero e = omega arith
jumpdest-lt (c ∷ code) n (suc k) e = omega (arith, jumpdest-lt code n k e)

AllBytes-append : (code : List ℕ) (n : ℕ) → AllBytes code → AllBytes (code ++ replicate n 0)
AllBytes-append [] zero v = tt
AllBytes-append [] (suc n) v = (omega arith, AllBytes-append [] n tt)
AllBytes-append (c ∷ code) n v = (v.0, AllBytes-append code n v.1)

Reaches-unpad :
    (code pad : List ℕ) (i k : ℕ) → k < length code → Reaches (code ++ pad) i k → Reaches code i k
Reaches-unpad code pad i k h here = here
Reaches-unpad code pad i k h (next opcode e r) =
    let before = Reaches-le (code ++ pad) (i + suc (push_data opcode)) k r in
    next opcode (sym (get_elem?-append code pad i (omega arith)) ∙ e)
      (Reaches-unpad code pad (i + suc (push_data opcode)) k h r)

Reaches-pad : (code pad : List ℕ) (i k : ℕ) → Reaches code i k → Reaches (code ++ pad) i k
Reaches-pad code pad i k here = here
Reaches-pad code pad i k (next opcode e r) =
    next opcode (get_elem?-append code pad i (get_elem?-lt code i e) ∙ e)
      (Reaches-pad code pad (i + suc (push_data opcode)) k r)

-- Analysing raw code (bytes below 256) gives a table of jump destinations in which a position is
-- valid exactly when it is a JUMPDEST that the code, read from its start instruction by
-- instruction and with the data of PUSH skipped, gets to; the zero bytes appended add none.
pub to_analysed_iff :
    (code : List ℕ)
    → AllBytes code
    → (table : JumpTable) × (legacy_jump_table (to_analysed (legacy_raw code)) ≡ some table)
      × ((pc : ℕ)
          → (is_valid table pc ≡ true) ↔ (Reaches code 0 pc × (get_elem? code pc ≡ some jumpdest)))
unfolding to_analysed legacy_jump_table
to_analysed_iff code bytes = (analyze (code ++ pad), refl, λ pc. (λ h. shrink pc h, λ h. grow pc h))
  where
    pad : List ℕ
    pad = replicate 33 0

    padded : AllBytes (code ++ pad)
    padded = AllBytes-append code 33 bytes

    shrink :
        (pc : ℕ)
        → is_valid (analyze (code ++ pad)) pc ≡ true
        → Reaches code 0 pc × (get_elem? code pc ≡ some jumpdest)
    shrink pc h =
        let (r, there) = (analyze_iff (code ++ pad) pc padded).0 h in
        let inside = jumpdest-lt code 33 pc there in
        (Reaches-unpad code pad 0 pc inside r, sym (get_elem?-append code pad pc inside) ∙ there)

    grow :
        (pc : ℕ)
        → Reaches code 0 pc × (get_elem? code pc ≡ some jumpdest)
        → is_valid (analyze (code ++ pad)) pc ≡ true
    grow pc (r, there) = (analyze_iff (code ++ pad) pc padded).1 (
      Reaches-pad code pad 0 pc r,
      get_elem?-append code pad pc (get_elem?-lt code pc there) ∙ there,
    )
