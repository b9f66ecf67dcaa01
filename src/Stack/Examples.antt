-- ===== src/Stack/Examples.antt =====
-- The stack operations on a stack of three words.
use baron_evm.Base.{List, ◌≤◌, [], ◌∷◌, suc, ◌≡◌, refl, arith}
use baron_evm.Base.Outcome.{ok, err}
use baron_evm.Stack.Limit.{
  Change, pops, pushes, dups, exchanges, apply, apply_all, apply_all-within_limit,
}
use baron_evm.Stack.{Stack, push, stack_limit, len, dup, exchange, peek, pop, stack_underflow}
use baron_evm.Stack.Laws.{dup_lem, exchange_lem}

abbrev words : Stack
words = record { entries = 10 ∷ 20 ∷ 30 ∷ [] }

dup_lem_example :
    (t : Stack) × (dup words 2 ≡ ok t)
    × (len t ≡ suc (len words))
    × (peek t 0 ≡ peek words 1)
    × (peek t 3 ≡ peek words 2)
unfolding len
dup_lem_example = dup_lem words 1 2 (omega arith) (omega arith)

exchange_lem_example :
    (t : Stack) × (exchange words 0 2 ≡ ok t)
    × (len t ≡ len words)
    × (peek t 0 ≡ peek words 2)
    × (peek t 2 ≡ peek words 0)
    × (peek t 1 ≡ peek words 1)
unfolding len
exchange_lem_example = exchange_lem words 0 1 1 (omega arith) (omega arith) (omega arith)

underflow_test : exchange words 1 2 ≡ err stack_underflow
unfolding exchange
underflow_test = refl

words-fits : len words ≤ stack_limit
unfolding len
words-fits = omega arith

abbrev changes : List Change
changes = pushes 5 ∷ dups 4 ∷ exchanges 0 3 ∷ pops ∷ []

abbrev changed : Stack
changed = record { entries = 5 ∷ 10 ∷ 30 ∷ 30 ∷ [] }

changes_applied : apply_all words changes ≡ ok changed
unfolding apply_all apply push dup exchange pop
changes_applied = refl

apply_all-within_limit_example : len changed ≤ stack_limit
apply_all-within_limit_example =
    apply_all-within_limit words changed changes words-fits changes_applied
