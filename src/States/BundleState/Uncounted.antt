-- ===== src/States/BundleState/Uncounted.antt =====
-- crates/bcevm/src/db/states/bundle_state.rs: the two sizes when reverts are applied or taken out, and
-- when a bundle's accounts are put on top.
use baron_evm.Base.{
  ℕ, suc, zero, ◌+◌, ◌-◌, ◌%◌, ◌<◌, Bool, true, false, Option, none, some, List, [], ◌∷◌, ◌≡◌, refl,
  ap, ◌∙◌, arith, inl, inr, Bool-cases, u64_mod, length, drop, ltb, wrapping_sub64,
}
use baron_evm.Base.Dict.{Dict, lookup}
use baron_evm.States.Accounts.{BundleAccount, AccountRevert}
use baron_evm.States.Bundle.{revert as revert_account}
use baron_evm.States.BundleState.{
  BundleState, revert_size_hint, put_reverted, or_no_account, revert_entry, revert_entries, pop,
  pop_cons, revert_popped, revert_latest, revert,
}
use baron_evm.States.BundleState.Extend.{
  extend_entry, extend_state, extended_account, blocks_size, block_size, take_all_reverts,
  take_n_reverts,
}
use baron_evm.States.BundleState.Sizes.{
  Sized, total_block, total_undo, replace_account-Sized, insert_account-Sized, remove_account-Sized,
  revert_size_bound,
}
use baron_evm.States.BundleState.Counted.{recounted}

counted_out :
    (n p x : ℕ)
    → x < u64_mod
    → ((n + (x + p)) % u64_mod + u64_mod - x) % u64_mod ≡ (n + p) % u64_mod
counted_out n p x h = omega arith

put_reverted-Sized :
    (p : ℕ) (s : BundleState) (a : ℕ) (o : Option BundleAccount) (b : BundleAccount) (gone : Bool)
    → Sized p s
    → lookup a s.state ≡ o
    → Sized p (put_reverted s a o (b, gone))
put_reverted-Sized p s a none b true z e = z
put_reverted-Sized p s a none b false z e = insert_account-Sized p s z a b e
put_reverted-Sized p s a (some old) b true z e = remove_account-Sized p s z a old e
put_reverted-Sized p s a (some old) b false z e = replace_account-Sized p s z a old b e

revert_entry-Sized :
    (p : ℕ) (s : BundleState) (a : ℕ) (r : AccountRevert)
    → Sized (revert_size_hint r + p) s
    → Sized p (revert_entry s a r)
unfolding revert_entry
revert_entry-Sized p s a r z =
    let (b, gone) = revert_account (or_no_account (lookup a s.state)) r in
    put_reverted-Sized p
      (record s { reverts_size = wrapping_sub64 s.reverts_size (revert_size_hint r) }) a
      (lookup a s.state) b gone
      (record {
        keys = z.keys;
        state = z.state;
        undo =
            ap (λ n. (n + u64_mod - revert_size_hint r) % u64_mod) z.undo
            ∙ counted_out (total_undo s.undo) p (revert_size_hint r) (revert_size_bound r);
      })
      refl

revert_entries-Sized :
    (p : ℕ) (s : BundleState) (rs : List (ℕ × AccountRevert))
    → Sized (total_block rs + p) s
    → Sized p (revert_entries s rs)
unfolding revert_entries
revert_entries-Sized p s [] z = recounted (0 + p) p s (omega arith) z
revert_entries-Sized p s ((a, r) ∷ rs) z = revert_entries-Sized p (revert_entry s a r) rs (
    revert_entry-Sized (total_block rs + p) s a r (
      recounted (revert_size_hint r + total_block rs + p)
        (revert_size_hint r + (total_block rs + p)) s (omega arith) z))

abbrev popped_size : Option (List (List (ℕ × AccountRevert)) × List (ℕ × AccountRevert)) → ℕ
popped_size none = 0
popped_size (some (rest, last)) = total_undo rest + total_block last

popped_size-pop :
    (blocks : List (List (ℕ × AccountRevert))) → popped_size (pop blocks) ≡ total_undo blocks
popped_size-pop [] = refl
popped_size-pop (rs ∷ blocks) =
    cons_size (pop blocks) ∙ ap (◌+◌ (total_block rs)) (popped_size-pop blocks)
  where
    cons_size :
        (o : Option (List (List (ℕ × AccountRevert)) × List (ℕ × AccountRevert)))
        → popped_size (some (pop_cons rs o)) ≡ total_block rs + popped_size o
    cons_size none = omega arith
    cons_size (some (rest, last)) = omega arith

revert_popped-Sized :
    (p : ℕ) (s : BundleState)
    (o : Option (List (List (ℕ × AccountRevert)) × List (ℕ × AccountRevert)))
    → Sized p s
    → popped_size o ≡ total_undo s.undo
    → Sized p (revert_popped s o).0
revert_popped-Sized p s none z e = z
revert_popped-Sized p s (some (rest, last)) z e =
    revert_entries-Sized p (record s { undo = rest }) last
      (record {
        keys = z.keys;
        state = z.state;
        undo = z.undo ∙ ap (λ n. n % u64_mod) (omega (arith, e));
      })

pub revert_latest-Sized : (p : ℕ) (s : BundleState) → Sized p s → Sized p (revert_latest s).0
unfolding revert_latest
revert_latest-Sized p s z = revert_popped-Sized p s (pop s.undo) z (popped_size-pop s.undo)

pub revert-Sized : (p : ℕ) (s : BundleState) (n : ℕ) → Sized p s → Sized p (revert s n)
unfolding revert
revert-Sized p s zero z = z
revert-Sized p s (suc n) z =
    let ih = revert-Sized p (revert_latest s).0 n (revert_latest-Sized p s z) in
    elim (Bool-cases (revert_latest s).1) [
      | inl e ↦ rw e ih
      | inr e ↦ rw e (revert_latest-Sized p s z)
    ]

extend_entry-Sized :
    (p : ℕ) (s : BundleState) (a : ℕ) (other : BundleAccount) (o : Option BundleAccount)
    → Sized p s
    → lookup a s.state ≡ o
    → Sized p (extend_entry s a other o)
extend_entry-Sized p s a other none z e = insert_account-Sized p s z a other e
extend_entry-Sized p s a other (some this) z e =
    replace_account-Sized p s z a this (extended_account this other) e

pub extend_state-Sized :
    (p : ℕ) (s : BundleState) (others : Dict BundleAccount)
    → Sized p s
    → Sized p (extend_state s others)
unfolding extend_state
extend_state-Sized p s [] z = z
extend_state-Sized p s ((a, other) ∷ others) z =
    extend_state-Sized p (extend_entry s a other (lookup a s.state)) others
      (extend_entry-Sized p s a other (lookup a s.state) z refl)

block_size_lem : (rs : List (ℕ × AccountRevert)) → block_size rs ≡ total_block rs % u64_mod
block_size_lem [] = refl
block_size_lem ((a, r) ∷ rs) = omega (arith, block_size_lem rs)

blocks_size_lem :
    (blocks : List (List (ℕ × AccountRevert))) → blocks_size blocks ≡ total_undo blocks % u64_mod
unfolding blocks_size
blocks_size_lem [] = refl
blocks_size_lem (rs ∷ blocks) = omega (arith, block_size_lem rs, blocks_size_lem blocks)

pub take_all_reverts-Sized : (s : BundleState) → Sized 0 s → Sized 0 (take_all_reverts s).0
unfolding take_all_reverts
take_all_reverts-Sized s z = record { keys = z.keys; state = z.state; undo = refl }

pub take_n_reverts-Sized : (s : BundleState) (n : ℕ) → Sized 0 s → Sized 0 (take_n_reverts s n).0
unfolding take_n_reverts
take_n_reverts-Sized s n z = elim (Bool-cases (ltb (length s.undo) n)) [
  | inl e ↦ rw e (take_all_reverts-Sized s z)
  | inr e ↦
      (rw e (record {
        keys = z.keys;
        state = z.state;
        undo = blocks_size_lem (drop n s.undo) ∙ ap (λ x. x % u64_mod) (omega arith);
      }))
]
