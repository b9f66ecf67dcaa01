-- ===== src/Gas/Sstore/Refunds.antt =====
-- The refunds of a whole series of writes to one storage slot (crates/interpreter/src/gas/calc.rs).
use baron_evm.Base.{ℕ, ◌≡◌, not, ◌&&◌, List, [], ◌∷◌, arith, ◌==◌, if◌then◌else◌}
use baron_evm.Base.Int.{ℤ, pos, ◌+ℤ◌, ◌-ℤ◌, ◌≤ℤ◌, int_laws}
use baron_evm.Spec.{SpecId, is_enabled_in, istanbul}
use baron_evm.Gas.Sstore.{sstore_refund, sstore_clears_schedule}

-- The refunds of writing the values of the list in turn, from the value `current`.
unfoldable pub total_refund : SpecId → ℕ → ℕ → List ℕ → ℤ
total_refund spec original current [] = pos 0
total_refund spec original current (new ∷ rest) =
    sstore_refund spec original current new +ℤ total_refund spec original new rest

-- What a cleared slot still owes: the clearing refund, if its original value was not zero.
owed : SpecId → ℕ → ℕ → ℕ
owed spec original current =
    if is_enabled_in spec istanbul && (not (original == 0) && (current == 0))
    then sstore_clears_schedule spec
    else 0

sstore_refund_step :
    (spec : SpecId) (original current new : ℕ)
    → pos (owed spec original new)
      ≤ℤ pos (owed spec original current) +ℤ sstore_refund spec original current new
unfolding owed sstore_refund ◌+ℤ◌ ◌-ℤ◌
sstore_refund_step spec original current new = ground arith

owed_original : (spec : SpecId) (original : ℕ) → owed spec original original ≡ 0
unfolding owed
owed_original spec original = ground arith

total_refund_from :
    (spec : SpecId) (original current : ℕ) (writes : List ℕ)
    → pos 0 ≤ℤ pos (owed spec original current) +ℤ total_refund spec original current writes
unfolding total_refund
total_refund_from spec original current [] = omega int_laws
total_refund_from spec original current (new ∷ rest) = omega (
  int_laws,
  sstore_refund_step spec original current new,
  total_refund_from spec original new rest,
)

-- The refunds of any series of writes to a slot that starts at its original value never add up to
-- a negative number, under the rules of any fork.
pub total_refund_nonneg :
    (spec : SpecId) (original : ℕ) (writes : List ℕ)
    → pos 0 ≤ℤ total_refund spec original original writes
total_refund_nonneg spec original writes =
    omega (int_laws, total_refund_from spec original original writes, owed_original spec original)
