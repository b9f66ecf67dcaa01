-- ===== src/States/Examples.antt =====
-- An account of the bundle that a block changes and that is reverted, and two blocks of changes of a
-- cached account.
use baron_evm.Base.{ℕ, true, false, Option, none, some, List, [], ◌∷◌, ◌≡◌, refl, arith}
use baron_evm.Base.Dict.{lookup, map_values, filter_values, for_entries, store, delete}
use baron_evm.Journal.Accounts.{
  AccountInfo, StorageSlot, is_changed, has_no_code_and_nonce, default_info,
}
use baron_evm.States.Status.{
  loaded, changed, destroyed, destroyed_changed, on_changed, on_selfdestructed,
}
use baron_evm.States.Accounts.{
  StorageWithOriginalValues, CacheAccount, BundleAccount, TransitionAccount, AccountRevert,
  revert_to, some_value, infos_eq, is_empty, account_info,
}
use baron_evm.States.Bundle.{revert, update_and_create_revert}
use baron_evm.States.Meaning.{SameAs, IsConsistent, GoesOnFrom}
use baron_evm.States.RoundTrip.{revert-update_and_create_revert}
use baron_evm.States.Operations.{CacheOperation, changes, destroys, increments, operate}
use baron_evm.States.BundleState.{BundleState, reverts, default, account_size_hint}
use baron_evm.States.BundleState.Extend.{extend}
use baron_evm.States.BundleState.Sizes.{Sized, total}
use baron_evm.States.BundleState.Exact.{BundleOperation, applies, reverts_blocks, run, run-Sized}
use baron_evm.States.Refines.{Follows, run_blocks, run_blocks-Follows}

-- Every slot holds 5 in the database.
abbrev fives : ℕ → ℕ
fives k = 5

abbrev rich : AccountInfo
rich = record { balance = 90; nonce = 1; code_hash = 7; code = none }

abbrev poor : AccountInfo
poor = record { balance = 20; nonce = 2; code_hash = 7; code = none }

abbrev written : StorageWithOriginalValues
written = (1, record { previous_or_original_value = 5; present_value = 8 }) ∷ []

abbrev before : BundleAccount
before = record { info = some rich; original_info = some rich; storage = []; status = loaded }

abbrev after : BundleAccount
after = record { info = some poor; original_info = some rich; storage = written; status = changed }

abbrev transition : TransitionAccount
transition = record {
  info = some poor;
  status = changed;
  previous_info = some rich;
  previous_status = loaded;
  storage = written;
  storage_was_destroyed = false;
}

abbrev undo : AccountRevert
undo = record {
  account = revert_to rich;
  storage = (1, some_value 5) ∷ [];
  previous_status = loaded;
  wipe_storage = false;
}

before-IsConsistent : IsConsistent fives before
before-IsConsistent = record { info = refl; clean = λ e. absurd (cc); keys = tt }

written_five :
    (k : ℕ) (s : StorageSlot) → lookup k written ≡ some s → s.previous_or_original_value ≡ 5
unfolding lookup
written_five k s e = ground (arith, e)

transition-GoesOnFrom : GoesOnFrom fives before transition
unfolding lookup
transition-GoesOnFrom = record {
  info = refl;
  slots = λ k s f e. written_five k s e;
  keys = (refl, tt);
  wiped = λ e. absurd (cc);
}

updated : update_and_create_revert before transition ≡ some (after, some undo)
unfolding update_and_create_revert infos_eq is_empty lookup store for_entries map_values
    filter_values is_changed
updated = refl

revert-update_and_create_revert_example : SameAs fives (revert after undo).0 before
revert-update_and_create_revert_example =
    revert-update_and_create_revert fives before after transition undo before-IsConsistent
      transition-GoesOnFrom updated

abbrev cached : CacheAccount
cached = record { account = some (record { info = rich; storage = [] }); status = loaded }

abbrev blocks : List (List CacheOperation)
blocks = (changes poor written ∷ destroys ∷ []) ∷ (increments 3 ∷ []) ∷ []

cached-Follows : Follows cached before
unfolding account_info
cached-Follows = record { status = refl; info = refl; fits = refl }

abbrev ended : CacheAccount
ended = record {
  account = some (record { info = record default_info { balance = 3 }; storage = [] });
  status = destroyed_changed;
}

abbrev bundled : BundleAccount
bundled = record {
  info = some (record default_info { balance = 3 });
  original_info = some rich;
  storage = [];
  status = destroyed_changed;
}

ran : run_blocks cached before blocks ≡ some (ended, some bundled)
unfolding run_blocks operate account_info on_changed on_selfdestructed has_no_code_and_nonce
    default_info infos_eq is_empty lookup store delete for_entries map_values filter_values
    is_changed
ran = refl

run_blocks-Follows_example : (b' : BundleAccount) × (some bundled ≡ some b') × Follows ended b'
run_blocks-Follows_example =
    run_blocks-Follows cached ended before (some bundled) blocks cached-Follows ran

abbrev operations : List BundleOperation
operations =
    applies ((6, transition) ∷ []) reverts
    ∷ applies ((6, record transition { previous_info = some poor; previous_status = changed }) ∷ [])
        reverts
    ∷ reverts_blocks 1
    ∷ []

abbrev held : BundleState
held = record {
  state = (6, record after { info = some poor }) ∷ [];
  contracts = [];
  undo = ((6, undo) ∷ []) ∷ [];
  state_size = 2;
  reverts_size = 2;
}

abbrev kept : Option BundleState → BundleState
kept none = held
kept (some s) = s

made : run default operations ≡ some (kept (run default operations))
unfolding run default infos_eq is_empty lookup store delete for_entries map_values filter_values
    is_changed
made = refl

run-Sized_example : Sized 0 (kept (run default operations))
run-Sized_example = run-Sized operations (kept (run default operations)) made

-- `extend` moves the storage of a destroyed account into the revert, and counts it on.
abbrev wiping : AccountRevert
wiping = record {
  account = revert_to rich;
  storage = [];
  previous_status = changed;
  wipe_storage = true;
}

abbrev destroying : BundleState
destroying = record {
  state =
      (6, record { info = none; original_info = some rich; storage = []; status = destroyed }) ∷ [];
  contracts = [];
  undo = ((6, wiping) ∷ []) ∷ [];
  state_size = 1;
  reverts_size = 1;
}

extend_oversized :
    (total (extend held destroying).state ≡ 1) × ((extend held destroying).state_size ≡ 2)
unfolding extend account_size_hint lookup store for_entries
extend_oversized = (refl, refl)
