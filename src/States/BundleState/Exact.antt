-- ===== src/States/BundleState/Exact.antt =====
-- crates/bcevm/src/db/states/bundle_state.rs: the sizes over any sequence of operations, and a bundle
-- whose size `extend` leaves wrong.
use baron_evm.Base.{
  ℕ, ◌+◌, ◌%◌, Option, none, some, List, [], ◌∷◌, ◌++◌, ◌≡◌, refl, ap, ◌∙◌, subst, arith, u64_mod,
  ◌>>=◌,
}
use baron_evm.Base.Dict.{Dict}
use baron_evm.States.Accounts.{BundleAccount, AccountRevert}
use baron_evm.States.Transition.{TransitionState}
use baron_evm.States.BundleState.{
  BundleState, BundleRetention, includes_reverts, default, apply_all,
  apply_transitions_and_create_reverts, revert,
}
use baron_evm.States.BundleState.Extend.{extend_state, take_all_reverts, take_n_reverts}
use baron_evm.States.BundleState.Sizes.{Sized, total_block, total_undo}
use baron_evm.States.BundleState.Counted.{SizedAll, apply_all-SizedAll}
use baron_evm.States.BundleState.Uncounted.{
  revert-Sized, extend_state-Sized, take_all_reverts-Sized, take_n_reverts-Sized,
}

pub data BundleOperation : Type 0 where
  applies : TransitionState → BundleRetention → BundleOperation
  reverts_blocks takes_reverts : ℕ → BundleOperation
  extends_state : Dict BundleAccount → BundleOperation
  takes_all_reverts : BundleOperation

unfoldable pub operate : BundleState → BundleOperation → Option BundleState
unfolding apply_transitions_and_create_reverts revert extend_state take_n_reverts take_all_reverts
operate s (applies ts retention) = apply_transitions_and_create_reverts s ts retention
operate s (reverts_blocks n) = some (revert s n)
operate s (takes_reverts n) = some (take_n_reverts s n).0
operate s (extends_state others) = some (extend_state s others)
operate s takes_all_reverts = some (take_all_reverts s).0

unfoldable pub run : BundleState → List BundleOperation → Option BundleState
unfolding operate
run s [] = some s
run s (op ∷ ops) = operate s op >>= (λ next. run next ops)

abbrev SizedSome : Option BundleState → Type 0
SizedSome none = Unit {0}
SizedSome (some s) = Sized 0 s

total_undo-append :
    (blocks : List (List (ℕ × AccountRevert))) (rs : List (ℕ × AccountRevert))
    → total_undo (blocks ++ (rs ∷ [])) ≡ total_undo blocks + total_block rs
total_undo-append [] rs = omega arith
total_undo-append (b ∷ blocks) rs = omega (arith, total_undo-append blocks rs)

stored :
    (o : Option (BundleState × List (ℕ × AccountRevert)))
    → SizedAll 0 o
    → SizedSome
        (o >>= (λ applied. some (record (applied.0) { undo = applied.0.undo ++ (applied.1 ∷ []) })))
stored none z = tt
stored (some (s, rs)) z = record {
  keys = z.keys;
  state = z.state;
  undo = z.undo ∙ ap (λ n. n % u64_mod) (omega (arith, total_undo-append s.undo rs));
}

operate-SizedSome : (s : BundleState) (op : BundleOperation) → Sized 0 s → SizedSome (operate s op)
unfolding operate apply_transitions_and_create_reverts
operate-SizedSome s (applies ts retention) z =
    stored (apply_all (includes_reverts retention) s ts)
      (apply_all-SizedAll 0 (includes_reverts retention) s ts z)
operate-SizedSome s (reverts_blocks n) z = revert-Sized 0 s n z
operate-SizedSome s (takes_reverts n) z = take_n_reverts-Sized s n z
operate-SizedSome s (extends_state others) z = extend_state-Sized 0 s others z
operate-SizedSome s takes_all_reverts z = take_all_reverts-Sized s z

run-SizedSome : (s : BundleState) (ops : List BundleOperation) → Sized 0 s → SizedSome (run s ops)
unfolding run
run-SizedSome s [] z = z
run-SizedSome s (op ∷ ops) z =
    next (operate s op) (λ s' y. run-SizedSome s' ops y) (operate-SizedSome s op z)
  where
    next :
        (o : Option BundleState)
        → ((s' : BundleState) → Sized 0 s' → SizedSome (run s' ops))
        → SizedSome o
        → SizedSome (o >>= (λ s'. run s' ops))
    next none ih y = tt
    next (some s') ih y = ih s' y

-- In every bundle that updates, reverts of blocks, taken reverts and extensions of the state make
-- of the empty bundle, each address stands once, state_size is the sum of the accounts' sizes
-- modulo 2^64, and reverts_size the sum of the reverts' sizes modulo 2^64.
pub run-Sized :
    (ops : List BundleOperation) (s : BundleState) → run default ops ≡ some s → Sized 0 s
unfolding default
run-Sized ops s e =
    subst SizedSome e (run-SizedSome default ops (record { keys = tt; state = refl; undo = refl }))
