-- ===== src/States/BundleState/Sizes.antt =====
-- crates/bcevm/src/db/states/bundle_state.rs: `state_size` and `reverts_size` against the sums that
-- they stand for.
use baron_evm.Base.{
  ℕ, ◌+◌, ◌-◌, ◌%◌, ◌<◌, Option, none, some, List, [], ◌∷◌, ◌≡◌, refl, sym, ap, ◌∙◌, arith, inl,
  inr, Bool-cases, ◌==◌, u64_mod,
}
use baron_evm.Base.Dict.{
  Dict, Distinct, lookup, store, delete, store-Distinct, delete-Distinct, key_differs,
}
use baron_evm.States.Accounts.{BundleAccount, AccountRevert}
use baron_evm.States.BundleState.{
  BundleState, account_size_hint, revert_size_hint, replace_account, insert_account, remove_account,
}

-- The sums, without a bound.
abbrev pub total : Dict BundleAccount → ℕ
total [] = 0
total ((address, b) ∷ m) = account_size_hint b + total m

abbrev pub total_block : List (ℕ × AccountRevert) → ℕ
total_block [] = 0
total_block ((address, r) ∷ rs) = revert_size_hint r + total_block rs

abbrev pub total_undo : List (List (ℕ × AccountRevert)) → ℕ
total_undo [] = 0
total_undo (rs ∷ blocks) = total_block rs + total_undo blocks

-- The sizes are right, where reverts of size `pending` are counted and not yet stored.
pub record Sized (pending : ℕ) (s : BundleState) : Type 0 where
  pub keys : Distinct s.state
  pub state : s.state_size ≡ total s.state % u64_mod
  pub undo : s.reverts_size ≡ (total_undo s.undo + pending) % u64_mod

abbrev held : Option BundleAccount → ℕ
held none = 0
held (some b) = account_size_hint b

total-store :
    (a : ℕ) (b : BundleAccount) (m : Dict BundleAccount)
    → total (store a b m) + held (lookup a m) ≡ total m + account_size_hint b
unfolding store lookup
total-store a b [] = omega arith
total-store a b ((k, v) ∷ m) = elim (Bool-cases (a == k)) [
  | inl e ↦ rw e (omega arith)
  | inr e ↦ rw e (omega (arith, total-store a b m))
]

total-delete :
    (a : ℕ) (m : Dict BundleAccount) → Distinct m → total (delete a m) + held (lookup a m) ≡ total m
unfolding delete lookup
total-delete a [] d = refl
total-delete a ((k, v) ∷ m) (new, d) =
    let ih = total-delete a m d in
    elim (Bool-cases (a == k)) [
      | inl e ↦ rw e (omega (arith, ih, ap held (key_differs a k m new e)))
      | inr e ↦ rw e (omega (arith, ih))
    ]

account_size_bound : (b : BundleAccount) → account_size_hint b < u64_mod
unfolding account_size_hint
account_size_bound b = omega arith

pub revert_size_bound : (r : AccountRevert) → revert_size_hint r < u64_mod
unfolding revert_size_hint
revert_size_bound b = omega arith

replaced :
    (t t' x y : ℕ)
    → x < u64_mod
    → y < u64_mod
    → t' + x ≡ t + y
    → ((t % u64_mod + u64_mod - x) % u64_mod + y) % u64_mod ≡ t' % u64_mod
replaced t t' x y hx hy e = omega arith

inserted : (t t' y : ℕ) → y < u64_mod → t' ≡ t + y → (t % u64_mod + y) % u64_mod ≡ t' % u64_mod
inserted t t' y hy e = omega arith

removed :
    (t t' x : ℕ) → x < u64_mod → t' + x ≡ t → (t % u64_mod + u64_mod - x) % u64_mod ≡ t' % u64_mod
removed t t' x hx e = omega arith

module _ (p : ℕ) (s : BundleState) (z : Sized p s) (a : ℕ) where
  pub replace_account-Sized :
      (old b : BundleAccount) → lookup a s.state ≡ some old → Sized p (replace_account s a old b)
  unfolding replace_account
  replace_account-Sized old b e = record {
    keys = store-Distinct a b s.state z.keys;
    state =
        ap (λ n. ((n + u64_mod - account_size_hint old) % u64_mod + account_size_hint b) % u64_mod)
          z.state
        ∙ replaced (total s.state) (total (store a b s.state)) (account_size_hint old)
            (account_size_hint b) (account_size_bound old) (account_size_bound b)
            (sym (ap (λ o. total (store a b s.state) + held o) e) ∙ total-store a b s.state);
    undo = z.undo;
  }

  pub insert_account-Sized :
      (b : BundleAccount) → lookup a s.state ≡ none → Sized p (insert_account s a b)
  unfolding insert_account
  insert_account-Sized b e = record {
    keys = store-Distinct a b s.state z.keys;
    state =
        ap (λ n. (n + account_size_hint b) % u64_mod) z.state
        ∙ inserted (total s.state) (total (store a b s.state)) (account_size_hint b)
            (account_size_bound b) (omega (arith, total-store a b s.state, ap held e));
    undo = z.undo;
  }

  pub remove_account-Sized :
      (old : BundleAccount) → lookup a s.state ≡ some old → Sized p (remove_account s a old)
  unfolding remove_account
  remove_account-Sized old e = record {
    keys = delete-Distinct a s.state z.keys;
    state =
        ap (λ n. (n + u64_mod - account_size_hint old) % u64_mod) z.state
        ∙ removed (total s.state) (total (delete a s.state)) (account_size_hint old)
            (account_size_bound old) (omega (arith, total-delete a s.state z.keys, ap held e));
    undo = z.undo;
  }
