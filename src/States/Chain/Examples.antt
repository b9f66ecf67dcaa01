-- ===== src/States/Chain/Examples.antt =====
-- An account of the database that is asked for, paid and drained.
use baron_evm.Base.{ℕ, true, false, none, some, List, [], ◌∷◌, ◌≡◌, refl}
use baron_evm.Base.Outcome.{ok, Safe, ◌>>=◌}
use baron_evm.Base.Dict.{lookup, store}
use baron_evm.Journal.Accounts.{AccountInfo, Database}
use baron_evm.Journal.{Fallible}
use baron_evm.States.Cache.{new_loaded}
use baron_evm.States.CacheState.{new}
use baron_evm.States.BundleState.{default, reverts}
use baron_evm.States.Chain.{
  State, put_account, basic, storage, put_slot, increment_balances, drain_balances,
  merge_transitions, take_bundle,
}
use baron_evm.States.Chain.Reads.{storage-storage}
use baron_evm.States.Chain.Loads.{basic_repeats}

abbrev rich : AccountInfo
rich = record { balance = 90; nonce = 1; code_hash = 7; code = none }

-- Every account is rich, and every slot holds 5.
abbrev db : Database
db = record { basic = λ a. some (some rich); storage_at = λ a k. some 5; code_by_hash = λ h. none }

-- Nobody answers.
abbrev down : Database
down = record { basic = λ a. none; storage_at = λ a k. none; code_by_hash = λ h. none }

abbrev start : State
start = record {
  cache = new true;
  transition_state = some [];
  bundle_state = default;
  use_preloaded_bundle = false;
}

abbrev cached : State
cached = put_account start 3 (new_loaded rich [])

abbrev read : State
read = put_slot cached 3 (new_loaded rich []) (record { info = rich; storage = [] }) 1 5

cached_basic : basic db start 3 ≡ ok (cached, some rich)
unfolding basic new new_loaded
cached_basic = refl

read_storage : storage db cached 3 1 ≡ ok (read, 5)
unfolding storage new new_loaded store lookup
read_storage = refl

storage-storage_example : storage down read 3 1 ≡ ok (read, 5)
storage-storage_example = storage-storage db down cached read 3 1 5 read_storage

basic_repeats_example :
    (basic down cached 3 ≡ ok (cached, some rich)) × Safe (storage down cached 3 1)
basic_repeats_example = basic_repeats db down start cached 3 1 (some rich) cached_basic

-- A block that pays 10 and drains the account, and the size of its bundle.
abbrev block : Fallible (State × List ℕ)
block = do
  paid ← increment_balances db start ((3, 10) ∷ (4, 0) ∷ [])
  drain_balances db paid (3 ∷ [])

abbrev drained : Fallible (List ℕ)
drained = do (last, balances) ← block; ok balances

drained_example : drained ≡ ok (100 ∷ [])
unfolding increment_balances drain_balances new
drained_example = refl

abbrev bundled : Fallible ℕ
bundled = do
  (last, balances) ← block
  merged ← merge_transitions last reverts
  let (left, bundle) = take_bundle merged
  ok bundle.state_size

bundled_example : bundled ≡ ok 1
unfolding increment_balances drain_balances merge_transitions take_bundle new default
bundled_example = refl
