-- ===== src/Analysis/Destinations.antt =====
-- The table of the analysis against the instructions of the code.
use baron_evm.Base.{
  if◌then◌else◌, ◌-◌, AllBytes, get_elem?-byte, ◌&&◌, leb, ℕ, zero, suc, ◌+◌, ◌≤◌, ◌<◌, Bool, true,
  false, Option, none, some, List, [], ◌∷◌, ◌==◌, length, get_elem?, set, replicate, ◌≡◌, ◌≢◌, ◌↔◌,
  ◌⊎◌, inl, inr, refl, sym, ap, ◌∙◌, arith, subst, Bool-cases, Option-cases, ==_iff, length-set,
  length-replicate, get_elem?-set_self, get_elem?-set_ne,
}
use baron_evm.Bytecode.{JumpTable, is_valid}
use baron_evm.Analysis.{jumpdest, advance, mark, scan, analyze}

-- The number of data bytes behind an opcode: n for PUSHn, of 0x60 to 0x7F, and none for the others.
unfoldable pub push_data : ℕ → ℕ
push_data opcode = if leb 0x60 opcode && leb opcode 0x7F then opcode - 0x5F else 0

-- From the instruction at `i` on, instruction by instruction, the code gets to position `k`. The
-- bytes behind a PUSH are its data and no instructions.
pub data Reaches (code : List ℕ) : ℕ → ℕ → Type 0 where
  here : {i : ℕ} → Reaches code i i
  next :
      {i k : ℕ} (opcode : ℕ)
      → get_elem? code i ≡ some opcode
      → Reaches code (i + suc (push_data opcode)) k
      → Reaches code i k

pub get_elem?-lt :
    {A : Type 0} (code : List A) (k : ℕ) {c : A} → get_elem? code k ≡ some c → k < length code
get_elem?-lt [] k e = absurd (cc)
get_elem?-lt (c ∷ code) zero e = omega arith
get_elem?-lt (c ∷ code) (suc k) e = omega (arith, get_elem?-lt code k e)

get_elem?-none : (code : List ℕ) (i : ℕ) → get_elem? code i ≡ none → length code ≤ i
get_elem?-none [] i e = omega arith
get_elem?-none (c ∷ code) zero e = absurd (cc)
get_elem?-none (c ∷ code) (suc i) e = omega (arith, get_elem?-none code i e)

advance_lem : (opcode : ℕ) → opcode < 256 → advance opcode ≡ suc (push_data opcode)
unfolding advance push_data
advance_lem opcode h = ground arith

pub Reaches-le : (code : List ℕ) (i k : ℕ) → Reaches code i k → i ≤ k
Reaches-le code i k here = omega arith
Reaches-le code i k (next opcode e r) =
    omega (arith, Reaches-le code (i + suc (push_data opcode)) k r)

length-mark : (opcode i : ℕ) (jumps : JumpTable) → length (mark opcode i jumps) ≡ length jumps
unfolding mark
length-mark opcode i jumps = elim (Bool-cases (opcode == jumpdest)) [
  | inl e ↦ rw e (length-set jumps i true)
  | inr e ↦ rw e refl
]

-- The entries of a marked table.
Marked : List ℕ → JumpTable → ℕ → ℕ → Type 0
Marked code jumps i k =
    (get_elem? jumps k ≡ some true) ⊎ (Reaches code i k × (get_elem? code k ≡ some jumpdest))

-- A table that gets a mark at `i`.
set-kept :
    (jumps : JumpTable) (i k : ℕ)
    → get_elem? jumps k ≡ some true
    → get_elem? (set jumps i true) k ≡ some true
set-kept jumps i k h = elim (Bool-cases (i == k)) [
  | inl e ↦
      subst (λ j. get_elem? (set jumps j true) k ≡ some true) (sym ((==_iff i k).0 e))
        (get_elem?-set_self jumps k true (get_elem?-lt jumps k h))
  | inr e ↦ get_elem?-set_ne jumps i k true (λ same. absurd (ground (arith, ==_iff i k))) ∙ h
]

mark-kept :
    (opcode i k : ℕ) (jumps : JumpTable)
    → get_elem? jumps k ≡ some true
    → get_elem? (mark opcode i jumps) k ≡ some true
unfolding mark
mark-kept opcode i k jumps h = elim (Bool-cases (opcode == jumpdest)) [
  | inl e ↦ rw e (set-kept jumps i k h)
  | inr e ↦ rw e h
]

mark-made :
    (i : ℕ) (jumps : JumpTable) → i < length jumps → get_elem? (mark jumpdest i jumps) i ≡ some true
unfolding mark
mark-made i jumps h = get_elem?-set_self jumps i true h

mark-only :
    (opcode i k : ℕ) (jumps : JumpTable)
    → get_elem? (mark opcode i jumps) k ≡ some true
    → (get_elem? jumps k ≡ some true) ⊎ ((i ≡ k) × (opcode ≡ jumpdest))
unfolding mark
mark-only opcode i k jumps h = elim (Bool-cases (opcode == jumpdest)) [
  | inr e ↦ inl (rw e at h)
  | inl e ↦ elim (Bool-cases (i == k)) [
    | inl same ↦ inr ((==_iff i k).0 same, (==_iff opcode jumpdest).0 e)
    | inr ne ↦ inl (
        sym (get_elem?-set_ne jumps i k true (λ same. absurd (ground (arith, ==_iff i k))))
        ∙ (rw e at h))
  ]
]

scan-none :
    (fuel : ℕ) (code : List ℕ) (i : ℕ) (jumps : JumpTable)
    → get_elem? code i ≡ none
    → scan (suc fuel) code i jumps ≡ jumps
unfolding scan
scan-none fuel code i jumps e = rw (e, scan) refl

scan-some :
    (fuel : ℕ) (code : List ℕ) (i opcode : ℕ) (jumps : JumpTable)
    → AllBytes code
    → get_elem? code i ≡ some opcode
    → scan (suc fuel) code i jumps
      ≡ scan fuel code (i + suc (push_data opcode)) (mark opcode i jumps)
unfolding scan
scan-some fuel code i opcode jumps v e =
    rw (e, scan)
      (ap (λ n. scan fuel code (i + n) (mark opcode i jumps))
        (advance_lem opcode (get_elem?-byte code i v e)))

-- One way: every mark that the loop makes is an instruction.
scan-only :
    (fuel : ℕ) (code : List ℕ) (i k : ℕ) (jumps : JumpTable)
    → AllBytes code
    → get_elem? (scan fuel code i jumps) k ≡ some true
    → Marked code jumps i k
unfolding scan Marked
scan-only zero code i k jumps v h = inl h
scan-only (suc fuel) code i k jumps v h = elim (Option-cases (get_elem? code i)) [
  | inl e ↦ inl (rw (scan-none fuel code i jumps e) at h)
  | inr (opcode, e) ↦
      elim (scan-only fuel code (i + suc (push_data opcode)) k (mark opcode i jumps) v
        (rw (scan-some fuel code i opcode jumps v e) at h)) [
          | inr (r, there) ↦ inr (next opcode e r, there)
          | inl marked ↦ elim (mark-only opcode i k jumps marked) [
            | inl old ↦ inl old
            | inr (same, op) ↦ inr (
              subst (Reaches code i) same here,
              subst (λ j. get_elem? code j ≡ some jumpdest) same (e ∙ ap some op),
            )
          ]
        ]
]

scan-kept :
    (fuel : ℕ) (code : List ℕ) (i k : ℕ) (jumps : JumpTable)
    → AllBytes code
    → get_elem? jumps k ≡ some true
    → get_elem? (scan fuel code i jumps) k ≡ some true
unfolding scan
scan-kept zero code i k jumps v h = h
scan-kept (suc fuel) code i k jumps v h = elim (Option-cases (get_elem? code i)) [
  | inl e ↦ rw (scan-none fuel code i jumps e) h
  | inr (opcode, e) ↦ rw (scan-some fuel code i opcode jumps v e) (
      scan-kept fuel code (i + suc (push_data opcode)) k (mark opcode i jumps) v
        (mark-kept opcode i k jumps h))
]

some_injective : {a b : ℕ} → some a ≡ some b → a ≡ b
some_injective e = cc

-- The other way: with enough fuel the loop marks every JUMPDEST that is an instruction.
scan-all :
    (fuel : ℕ) (code : List ℕ) (i k : ℕ) (jumps : JumpTable)
    → AllBytes code
    → length code ≤ i + fuel
    → length jumps ≡ length code
    → Reaches code i k
    → get_elem? code k ≡ some jumpdest
    → get_elem? (scan fuel code i jumps) k ≡ some true
unfolding scan
scan-all zero code i k jumps v enough len r there =
    absurd (omega (arith, Reaches-le code i k r, get_elem?-lt code k there))
scan-all (suc fuel) code i k jumps v enough len here there =
    rw (scan-some fuel code i jumpdest jumps v there) (
      scan-kept fuel code (i + suc (push_data jumpdest)) i (mark jumpdest i jumps) v
        (mark-made i jumps (omega (arith, get_elem?-lt code i there))))
scan-all (suc fuel) code i k jumps v enough len (next opcode e r) there =
    rw (scan-some fuel code i opcode jumps v e) (
      scan-all fuel code (i + suc (push_data opcode)) k (mark opcode i jumps) v
        (omega (arith, arith)) (length-mark opcode i jumps ∙ len) r there)

get_elem?-replicate : (n k : ℕ) → get_elem? (replicate n false) k ≢ some true
get_elem?-replicate zero k e = cc
get_elem?-replicate (suc n) zero e = cc
get_elem?-replicate (suc n) (suc k) e = get_elem?-replicate n k e

is_valid_iff :
    (table : JumpTable) (pc : ℕ) → (is_valid table pc ≡ true) ↔ (get_elem? table pc ≡ some true)
unfolding is_valid
is_valid_iff table pc = go (get_elem? table pc)
  where
    go : (o : Option Bool) → (elim o [ none ↦ false | some b ↦ b ] ≡ true) ↔ (o ≡ some true)
    go none = (λ h. absurd (cc), λ h. absurd (cc))
    go (some b) = (λ h. ap some h, λ h. cc)

-- In the table for a list of bytes below 256, a position is valid exactly when it is a JUMPDEST
-- that the bytes, read from their start instruction by instruction, get to; the fuel of the
-- length is enough.
pub analyze_iff :
    (code : List ℕ) (pc : ℕ)
    → AllBytes code
    → (is_valid (analyze code) pc ≡ true)
      ↔ (Reaches code 0 pc × (get_elem? code pc ≡ some jumpdest))
unfolding analyze Marked
analyze_iff code pc bytes =
    let table = replicate (length code) false in
    let (valid, marked) = is_valid_iff (scan (length code) code 0 table) pc in
    (
      λ h. elim (scan-only (length code) code 0 pc table bytes (valid h)) [
        | inl old ↦ absurd (get_elem?-replicate (length code) pc old)
        | inr found ↦ found
      ],
      λ found. marked (
          scan-all (length code) code 0 pc table bytes (omega arith)
            (length-replicate (length code) false) found.0 found.1),
    )
