-- ===== src/States/BundleState/Counted.antt =====
-- crates/bcevm/src/db/states/bundle_state.rs: the two sizes over every operation of the bundle but
-- `extend`.
use baron_evm.Base.{
  ℕ, ◌+◌, ◌%◌, ◌<◌, Bool, true, false, Option, none, some, List, [], ◌∷◌, ◌++◌, ◌≡◌, refl, ap, ◌∙◌,
  subst, arith, u64_mod, ◌>>=◌,
}
use baron_evm.Base.Dict.{lookup}
use baron_evm.Bytecode.{Bytecode}
use baron_evm.States.Accounts.{BundleAccount, TransitionAccount, AccountRevert}
use baron_evm.States.Bundle.{Updated, update_and_create_revert}
use baron_evm.States.Transition.{
  TransitionState, has_new_contract, present_bundle_account, create_revert,
}
use baron_evm.States.BundleState.{
  BundleState, revert_size_hint, replace_account, with_contract, insert_present, update_entry,
  apply_transition, add_revert, apply_all,
}
use baron_evm.States.BundleState.Sizes.{
  Sized, total_block, total_undo, replace_account-Sized, insert_account-Sized, revert_size_bound,
}

-- One transition.
abbrev SizedEntry : ℕ → Option (BundleState × Option AccountRevert) → Type 0
SizedEntry p none = Unit {0}
SizedEntry p (some (s, r)) = Sized p s

-- The contracts are not counted here.
with_contract-Sized :
    (p : ℕ) (s : BundleState) (o : Option (ℕ × Bytecode)) → Sized p s → Sized p (with_contract s o)
with_contract-Sized p s none z = z
with_contract-Sized p s (some (hash, code)) z = record {
  keys = z.keys;
  state = z.state;
  undo = z.undo;
}

with_contract_state :
    (s : BundleState) (o : Option (ℕ × Bytecode)) → (with_contract s o).state ≡ s.state
with_contract_state s none = refl
with_contract_state s (some (hash, code)) = refl

update_entry-SizedEntry :
    (p : ℕ) (s : BundleState) (a : ℕ) (t : TransitionAccount) (o : Option BundleAccount)
    → Sized p s
    → lookup a s.state ≡ o
    → SizedEntry p (update_entry s a t o)
update_entry-SizedEntry p s a t none z e = created (create_revert t)
  where
    created :
        (o : Option (Option AccountRevert))
        → SizedEntry p (o >>= (λ r. some (insert_present s a t r, r)))
    created none = tt
    created (some none) = z
    created (some (some r)) = insert_account-Sized p s z a (present_bundle_account t) e
update_entry-SizedEntry p s a t (some b) z e = changed (update_and_create_revert b t)
  where
    changed :
        (o : Option Updated)
        → SizedEntry p (o >>= (λ updated. some (replace_account s a b updated.0, updated.1)))
    changed none = tt
    changed (some (b', r)) = replace_account-Sized p s z a b b' e

apply_transition-SizedEntry :
    (p : ℕ) (s : BundleState) (a : ℕ) (t : TransitionAccount)
    → Sized p s
    → SizedEntry p (apply_transition s a t)
unfolding apply_transition
apply_transition-SizedEntry p s a t z =
    let o = has_new_contract t in
    update_entry-SizedEntry p (with_contract s o) a t (lookup a s.state)
      (with_contract-Sized p s o z) (ap (lookup a) (with_contract_state s o))

-- All of them, with the reverts that are not stored yet.
abbrev pub SizedAll : ℕ → Option (BundleState × List (ℕ × AccountRevert)) → Type 0
SizedAll p none = Unit {0}
SizedAll p (some (s, rs)) = Sized (p + total_block rs) s

counted_in : (n p x : ℕ) → x < u64_mod → ((n + p) % u64_mod + x) % u64_mod ≡ (n + (p + x)) % u64_mod
counted_in n p x h = omega arith

pub recounted : (p q : ℕ) (s : BundleState) → p ≡ q → Sized p s → Sized q s
recounted p q s e z = subst (λ n. Sized n s) e z

add_revert-Sized :
    (p : ℕ) (include : Bool) (a : ℕ) (s : BundleState) (o : Option AccountRevert)
    → Sized p s
    → (let (s', new) = add_revert include a (s, o) in Sized (p + total_block new) s')
add_revert-Sized p include a s none z = recounted p (p + 0) s (omega arith) z
add_revert-Sized p true a s (some r) z = record {
  keys = z.keys;
  state = z.state;
  undo =
      ap (λ n. (n + revert_size_hint r) % u64_mod) z.undo
      ∙ counted_in (total_undo s.undo) p (revert_size_hint r) (revert_size_bound r)
      ∙ ap (λ n. (total_undo s.undo + (p + n)) % u64_mod) (omega arith);
}
add_revert-Sized p false a s (some r) z = recounted p (p + 0) s (omega arith) z

total_block-append :
    (xs ys : List (ℕ × AccountRevert)) → total_block (xs ++ ys) ≡ total_block xs + total_block ys
total_block-append [] ys = omega arith
total_block-append ((a, r) ∷ xs) ys = omega (arith, total_block-append xs ys)

pub apply_all-SizedAll :
    (p : ℕ) (include : Bool) (s : BundleState) (ts : TransitionState)
    → Sized p s
    → SizedAll p (apply_all include s ts)
unfolding apply_all
apply_all-SizedAll p include s [] z = recounted p (p + 0) s (omega arith) z
apply_all-SizedAll p include s ((a, t) ∷ ts) z =
    applied (apply_transition s a t) (λ q s' y. apply_all-SizedAll q include s' ts y)
      (apply_transition-SizedEntry p s a t z)
  where
    joined :
        (q : ℕ) (new : List (ℕ × AccountRevert))
        (o : Option (BundleState × List (ℕ × AccountRevert)))
        → SizedAll (q + total_block new) o
        → SizedAll q (o >>= (λ l. some (l.0, new ++ l.1)))
    joined q new none y = tt
    joined q new (some (last, rest)) y =
        recounted (q + total_block new + total_block rest) (q + total_block (new ++ rest)) last
          (omega (arith, total_block-append new rest)) y

    applied :
        (o : Option (BundleState × Option AccountRevert))
        → ((q : ℕ) (s' : BundleState) → Sized q s' → SizedAll q (apply_all include s' ts))
        → SizedEntry p o
        → SizedAll p (
            o >>= (λ m.
              let (next, new) = add_revert include a m in
              apply_all include next ts >>= (λ l. some (l.0, new ++ l.1))))
    applied none ih y = tt
    applied (some (s', r)) ih y =
        let (next, new) = add_revert include a (s', r) in
        joined p new (apply_all include next ts)
          (ih (p + total_block new) next (add_revert-Sized p include a s' r y))
