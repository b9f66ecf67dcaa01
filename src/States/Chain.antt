-- ===== src/States/Chain.antt =====
-- crates/bcevm/src/db/states/state.rs: the state of the chain, which answers what the transactions
-- ask of a database and takes their results in. The database behind it is a parameter. The block hashes
-- are not modelled.
pub mod Reads
pub mod Loads
mod Examples
use baron_evm.Base.{
  ℕ, Bool, true, false, not, Option, none, some, List, [], ◌∷◌, ◌++◌, if◌then◌else◌, ◌==◌,
}
use baron_evm.Base.Outcome.{Outcome, ok, err, panic, unwrap, ok_or, ◌>>=◌}
use baron_evm.Base.Dict.{Dict, lookup, store}
use baron_evm.Bytecode.{Bytecode}
use baron_evm.Journal.Accounts.{AccountInfo, Database, info_is_empty}
use baron_evm.Journal.{Fallible, DatabaseError, database}
use baron_evm.States.Status.{is_storage_known}
use baron_evm.States.Accounts.{
  CacheAccount, PlainAccount, TransitionAccount, BundleAccount, account_info,
}
use baron_evm.States.Cache.{
  from_bundle, new_loaded, new_loaded_empty_eip161, new_loaded_not_existing, increment_balance,
  drain_balance,
}
use baron_evm.States.CacheState.{CacheState, EvmAccount, apply_evm_state, loaded_with}
use baron_evm.States.Transition.{TransitionState, add_transitions}
use baron_evm.States.BundleState.{
  BundleState, BundleRetention, default, apply_transitions_and_create_reverts,
}

pub record State : Type 0 where
  pub cache : CacheState
  pub transition_state : Option TransitionState
  pub bundle_state : BundleState
  pub use_preloaded_bundle : Bool

abbrev pub put_account : State → ℕ → CacheAccount → State
put_account s address c = record s {
  cache = record (s.cache) { accounts = store address c s.cache.accounts };
}

-- An account of the database, or its absence.
abbrev pub from_database : Option AccountInfo → CacheAccount
from_database none = new_loaded_not_existing
from_database (some info) = loaded_with info []

abbrev preloaded : Bool → Option BundleAccount → Option CacheAccount
preloaded true (some b) = some (from_bundle b)
preloaded true none = none
preloaded false b = none

abbrev pub fill_account :
    Database → State → ℕ → Option CacheAccount → Fallible (State × CacheAccount)
fill_account db s address (some c) = ok (put_account s address c, c)
fill_account db s address none = do
  info ← ok_or (db.basic address) database
  ok (put_account s address (from_database info), from_database info)

abbrev pub load_from : Database → State → ℕ → Option CacheAccount → Fallible (State × CacheAccount)
load_from db s address (some c) = ok (s, c)
load_from db s address none =
    fill_account db s address
      (preloaded s.use_preloaded_bundle (lookup address s.bundle_state.state))

unfoldable pub load_cache_account : Database → State → ℕ → Fallible (State × CacheAccount)
unfolding lookup store from_bundle loaded_with new_loaded_not_existing
load_cache_account db s address = load_from db s address (lookup address s.cache.accounts)

unfoldable pub basic : Database → State → ℕ → Fallible (State × Option AccountInfo)
unfolding load_cache_account account_info
basic db s address = do (loaded, c) ← load_cache_account db s address; ok (loaded, account_info c)

abbrev pub put_slot : State → ℕ → CacheAccount → PlainAccount → ℕ → ℕ → State
put_slot s address c plain index value =
    put_account s address
      (record c { account = some (record plain { storage = store index value plain.storage }) })

-- A slot that the cache does not have is zero where the storage is known, and else the database's.
abbrev pub read_slot :
    Database → State → ℕ → CacheAccount → PlainAccount → ℕ → Option ℕ → Fallible (State × ℕ)
read_slot db s address c plain index (some value) = ok (s, value)
read_slot db s address c plain index none = do
  value ← if is_storage_known c.status then ok 0 else ok_or (db.storage_at address index) database
  ok (put_slot s address c plain index value, value)

abbrev pub read_account :
    Database → State → ℕ → CacheAccount → ℕ → Option PlainAccount → Fallible (State × ℕ)
read_account db s address c index none = ok (s, 0)
read_account db s address c index (some plain) =
    read_slot db s address c plain index (lookup index plain.storage)

abbrev pub read_cache : Database → State → ℕ → ℕ → Option CacheAccount → Fallible (State × ℕ)
read_cache db s address index none = panic
read_cache db s address index (some c) = read_account db s address c index c.account

-- The account has to be in the cache.
unfoldable pub storage : Database → State → ℕ → ℕ → Fallible (State × ℕ)
unfolding is_storage_known lookup store
storage db s address index = read_cache db s address index (lookup address s.cache.accounts)

abbrev put_code : State → ℕ → Bytecode → State
put_code s hash code = record s {
  cache = record (s.cache) { contracts = store hash code s.cache.contracts };
}

abbrev preloaded_code : Bool → Option Bytecode → Option Bytecode
preloaded_code true code = code
preloaded_code false code = none

abbrev fill_code : Database → State → ℕ → Option Bytecode → Fallible (State × Bytecode)
fill_code db s hash (some code) = ok (put_code s hash code, code)
fill_code db s hash none = do
  code ← ok_or (db.code_by_hash hash) database
  ok (put_code s hash code, code)

unfoldable pub code_by_hash : Database → State → ℕ → Fallible (State × Bytecode)
unfolding lookup store
code_by_hash db s hash = elim (lookup hash s.cache.contracts) [
  | some code ↦ ok (s, code)
  | none ↦
      fill_code db s hash
        (preloaded_code s.use_preloaded_bundle (lookup hash s.bundle_state.contracts))
]

abbrev added : Option TransitionState → List (ℕ × TransitionAccount) → Option TransitionState
added none transitions = none
added (some t) transitions = some (add_transitions t transitions)

unfoldable pub apply_transition : State → List (ℕ × TransitionAccount) → State
unfolding add_transitions
apply_transition s transitions = record s {
  transition_state = added s.transition_state transitions;
}

unfoldable pub commit : State → Dict EvmAccount → Fallible State
unfolding apply_evm_state apply_transition
commit s evm_state = do
  (cache, transitions) ← unwrap (apply_evm_state s.cache evm_state)
  ok (apply_transition (record s { cache = cache }) transitions)

abbrev merged : State → BundleRetention → Option TransitionState → Fallible State
merged s retention none = ok s
merged s retention (some t) = do
  bundle ← unwrap (apply_transitions_and_create_reverts s.bundle_state t retention)
  ok (record s { transition_state = some []; bundle_state = bundle })

unfoldable pub merge_transitions : State → BundleRetention → Fallible State
unfolding apply_transitions_and_create_reverts
merge_transitions s retention = merged s retention s.transition_state

unfoldable pub take_bundle : State → State × BundleState
take_bundle s = (record s { bundle_state = default }, s.bundle_state)

-- The loop of `increment_balances`; the transition is expected to be there.
unfoldable pub increment_all :
    Database → State → List (ℕ × ℕ) → Fallible (State × List (ℕ × TransitionAccount))
unfolding load_cache_account increment_balance
increment_all db s [] = ok (s, [])
increment_all db s ((address, balance) ∷ balances) =
    let skipped = increment_all db s balances in
    let incremented = do
      (loaded, c) ← load_cache_account db s address
      let (c', t) = increment_balance c balance
      transition ← unwrap t
      (last, ts) ← increment_all db (put_account loaded address c') balances
      ok (last, (address, transition) ∷ ts)
    in if balance == 0 then skipped else incremented

unfoldable pub increment_balances : Database → State → List (ℕ × ℕ) → Fallible State
unfolding increment_all apply_transition
increment_balances db s balances = do
  (last, transitions) ← increment_all db s balances
  ok (apply_transition last transitions)

unfoldable pub drain_all :
    Database → State → List ℕ → Fallible (State × List ℕ × List (ℕ × TransitionAccount))
unfolding load_cache_account drain_balance
drain_all db s [] = ok (s, [], [])
drain_all db s (address ∷ addresses) = do
  (loaded, c) ← load_cache_account db s address
  (balance, c', t) ← unwrap (drain_balance c)
  (last, balances, ts) ← drain_all db (put_account loaded address c') addresses
  ok (last, balance ∷ balances, (address, t) ∷ ts)

unfoldable pub drain_balances : Database → State → List ℕ → Fallible (State × List ℕ)
unfolding drain_all apply_transition
drain_balances db s addresses = do
  (last, balances, transitions) ← drain_all db s addresses
  ok (apply_transition last transitions, balances)
