-- ===== src/States/BundleState.antt =====
-- crates/bcevm/src/db/states/bundle_state.rs: the accounts that the blocks changed, with the reverts
-- of every block, the newest block last. `none` is a panic of an account's update. The two sizes are
-- machine words.
pub mod Extend
pub mod Plain
pub mod Sizes
pub mod Counted
pub mod Uncounted
pub mod Exact
use baron_evm.Base.{
  ℕ, suc, zero, Bool, true, false, not, Option, none, some, List, [], ◌∷◌, ◌++◌, if◌then◌else◌,
  ◌>>=◌, length, wrapping_add64, wrapping_sub64,
}
use baron_evm.Base.Dict.{Dict, lookup, store, delete}
use baron_evm.Bytecode.{Bytecode}
use baron_evm.Journal.Accounts.{AccountInfo}
use baron_evm.States.Status.{loaded_not_existing}
use baron_evm.States.Accounts.{BundleAccount, TransitionAccount, AccountRevert}
use baron_evm.States.Bundle.{update_and_create_revert, revert as revert_account}
use baron_evm.States.Transition.{
  TransitionState, has_new_contract, present_bundle_account, create_revert,
}

pub data BundleRetention : Type 0 where
  plain_state reverts : BundleRetention

unfoldable pub includes_reverts : BundleRetention → Bool
includes_reverts plain_state = false
includes_reverts reverts = true

pub record BundleState : Type 0 where
  pub state : Dict BundleAccount
  pub contracts : Dict Bytecode
  pub undo : List (List (ℕ × AccountRevert))
  pub state_size : ℕ
  pub reverts_size : ℕ

unfoldable pub default : BundleState
default = record { state = []; contracts = []; undo = []; state_size = 0; reverts_size = 0 }

unfoldable pub account_size_hint : BundleAccount → ℕ
account_size_hint b = wrapping_add64 1 (length b.storage)

unfoldable pub revert_size_hint : AccountRevert → ℕ
revert_size_hint r = wrapping_add64 1 (length r.storage)

unfoldable pub size_hint : BundleState → ℕ
size_hint s = wrapping_add64 (wrapping_add64 s.state_size s.reverts_size) (length s.contracts)

unfoldable pub account : BundleState → ℕ → Option BundleAccount
account s address = lookup address s.state

unfoldable pub bytecode : BundleState → ℕ → Option Bytecode
bytecode s hash = lookup hash s.contracts

-- `self.state_size -= ..`, the entry's new account, `self.state_size += ..`.
unfoldable pub replace_account : BundleState → ℕ → BundleAccount → BundleAccount → BundleState
unfolding account_size_hint store
replace_account s address old b = record s {
  state = store address b s.state;
  state_size =
      wrapping_add64 (wrapping_sub64 s.state_size (account_size_hint old)) (account_size_hint b);
}

unfoldable pub insert_account : BundleState → ℕ → BundleAccount → BundleState
unfolding account_size_hint store
insert_account s address b = record s {
  state = store address b s.state;
  state_size = wrapping_add64 s.state_size (account_size_hint b);
}

unfoldable pub remove_account : BundleState → ℕ → BundleAccount → BundleState
unfolding account_size_hint delete
remove_account s address old = record s {
  state = delete address s.state;
  state_size = wrapping_sub64 s.state_size (account_size_hint old);
}

abbrev pub with_contract : BundleState → Option (ℕ × Bytecode) → BundleState
with_contract s none = s
with_contract s (some (hash, code)) = record s { contracts = store hash code s.contracts }

abbrev pub add_contract : BundleState → TransitionAccount → BundleState
add_contract s t = with_contract s (has_new_contract t)

-- An account that the bundle does not have is inserted if there is something to revert.
abbrev pub insert_present : BundleState → ℕ → TransitionAccount → Option AccountRevert → BundleState
insert_present s address t none = s
insert_present s address t (some r) = insert_account s address (present_bundle_account t)

abbrev pub update_entry :
    BundleState
    → ℕ
    → TransitionAccount
    → Option BundleAccount
    → Option (BundleState × Option AccountRevert)
update_entry s address t none = create_revert t >>= (λ r. some (insert_present s address t r, r))
update_entry s address t (some entry) =
    update_and_create_revert entry t
    >>= (λ updated. some (replace_account s address entry updated.0, updated.1))

unfoldable pub apply_transition :
    BundleState → ℕ → TransitionAccount → Option (BundleState × Option AccountRevert)
unfolding has_new_contract create_revert update_and_create_revert insert_account replace_account
    present_bundle_account lookup
apply_transition s address t = update_entry (add_contract s t) address t (lookup address s.state)

abbrev pub add_revert :
    Bool → ℕ → BundleState × Option AccountRevert → BundleState × List (ℕ × AccountRevert)
add_revert include address (s, none) = (s, [])
add_revert include address (s, some r) =
    if include
    then (
      record s { reverts_size = wrapping_add64 s.reverts_size (revert_size_hint r) },
      (address, r) ∷ [],
    )
    else (s, [])

unfoldable pub apply_all :
    Bool → BundleState → TransitionState → Option (BundleState × List (ℕ × AccountRevert))
unfolding apply_transition revert_size_hint
apply_all include s [] = some (s, [])
apply_all include s ((address, t) ∷ transitions) = do
  applied ← apply_transition s address t
  let (next, new) = add_revert include address applied
  (last, rest) ← apply_all include next transitions
  some (last, new ++ rest)

unfoldable pub apply_transitions_and_create_reverts :
    BundleState → TransitionState → BundleRetention → Option BundleState
unfolding apply_all includes_reverts
apply_transitions_and_create_reverts s transitions retention =
    apply_all (includes_reverts retention) s transitions
    >>= (λ applied. some (record (applied.0) { undo = applied.0.undo ++ (applied.1 ∷ []) }))

-- The empty account that an account is reverted from that the bundle does not have.
abbrev pub no_account : BundleAccount
no_account = record {
  info = none;
  original_info = none;
  storage = [];
  status = loaded_not_existing;
}

abbrev pub put_reverted :
    BundleState → ℕ → Option BundleAccount → BundleAccount × Bool → BundleState
put_reverted s address none (b, true) = s
put_reverted s address none (b, false) = insert_account s address b
put_reverted s address (some old) (b, true) = remove_account s address old
put_reverted s address (some old) (b, false) = replace_account s address old b

abbrev pub or_no_account : Option BundleAccount → BundleAccount
or_no_account none = no_account
or_no_account (some b) = b

unfoldable pub revert_entry : BundleState → ℕ → AccountRevert → BundleState
unfolding revert_account revert_size_hint insert_account remove_account replace_account lookup
revert_entry s address r =
    put_reverted (record s { reverts_size = wrapping_sub64 s.reverts_size (revert_size_hint r) })
      address (lookup address s.state) (revert_account (or_no_account (lookup address s.state)) r)

unfoldable pub revert_entries : BundleState → List (ℕ × AccountRevert) → BundleState
unfolding revert_entry
revert_entries s [] = s
revert_entries s ((address, r) ∷ rs) = revert_entries (revert_entry s address r) rs

-- `Vec::pop`: the last element and those before it.
abbrev pub pop_cons {ℓ} : {A : Type ℓ} → A → Option (List A × A) → List A × A
pop_cons x none = ([], x)
pop_cons x (some (rest, last)) = (x ∷ rest, last)

abbrev pub pop {ℓ} : {A : Type ℓ} → List A → Option (List A × A)
pop [] = none
pop (x ∷ xs) = some (pop_cons x (pop xs))

abbrev pub revert_popped :
    BundleState
    → Option (List (List (ℕ × AccountRevert)) × List (ℕ × AccountRevert))
    → BundleState × Bool
revert_popped s none = (s, false)
revert_popped s (some (rest, last)) = (revert_entries (record s { undo = rest }) last, true)

unfoldable pub revert_latest : BundleState → BundleState × Bool
unfolding revert_entries
revert_latest s = revert_popped s (pop s.undo)

-- The loop ends with the count, or with the reverts.
unfoldable pub revert : BundleState → ℕ → BundleState
unfolding revert_latest
revert s zero = s
revert s (suc n) =
    let (next, reverted) = revert_latest s in
    let rest = revert next n in if reverted then rest else next
