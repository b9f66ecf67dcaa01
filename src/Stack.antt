-- ===== src/Stack.antt =====
-- crates/interpreter/src/interpreter/stack.rs: the operand stack of the interpreter. The list has
-- the top first. `assume!` of a false condition is the outcome `panic`.
pub mod Laws
pub mod Limit
mod Examples
use baron_evm.Base.{
  ℕ, zero, suc, ◌+◌, ◌-◌, Bool, Option, none, some, List, [], ◌∷◌, ◌==◌, ltb, leb, if◌then◌else◌,
  length, get_elem?, set,
}
use baron_evm.Base.Outcome.{Outcome, ok, err, panic, unwrap, reject, ◌>>=◌}

-- The instruction results that the stack returns.
pub data StackError : Type 0 where
  stack_underflow stack_overflow : StackError

abbrev pub Checked : Type 0 → Type 0
Checked A = Outcome StackError A

abbrev pub stack_limit : ℕ
stack_limit = 1024

pub record Stack : Type 0 where
  pub entries : List ℕ

unfoldable pub new : Stack
new = record { entries = [] }

unfoldable pub len : Stack → ℕ
len s = length s.entries

abbrev pub pop_entries : List ℕ → Checked (Stack × ℕ)
pop_entries [] = err stack_underflow
pop_entries (x ∷ xs) = ok (record { entries = xs }, x)

unfoldable pub pop : Stack → Checked (Stack × ℕ)
pop s = pop_entries s.entries

unfoldable pub push : Stack → ℕ → Checked Stack
push s value = do
  _ ← reject (length s.entries == stack_limit) stack_overflow
  ok (record { entries = value ∷ s.entries })

unfoldable pub peek : Stack → ℕ → Checked ℕ
peek s no_from_top = do
  _ ← reject (leb (length s.entries) no_from_top) stack_underflow
  unwrap (get_elem? s.entries no_from_top)

unfoldable pub dup : Stack → ℕ → Checked Stack
dup s zero = panic
dup s (suc n) = do
  _ ← reject (ltb (length s.entries) (suc n)) stack_underflow
  _ ← reject (ltb stack_limit (length s.entries + 1)) stack_overflow
  value ← unwrap (get_elem? s.entries n)
  ok (record { entries = value ∷ s.entries })

unfoldable pub exchange : Stack → ℕ → ℕ → Checked Stack
exchange s n zero = panic
exchange s n (suc m) = do
  let n_m_index = n + suc m
  _ ← reject (leb (length s.entries) n_m_index) stack_underflow
  first ← unwrap (get_elem? s.entries n)
  second ← unwrap (get_elem? s.entries n_m_index)
  ok (record { entries = set (set s.entries n second) n_m_index first })

unfoldable pub swap : Stack → ℕ → Checked Stack
unfolding exchange
swap s n = exchange s 0 n
