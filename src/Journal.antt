-- ===== src/Journal.antt =====
-- crates/bcevm/src/journaled_state.rs over crates/primitives/src/state.rs: the state of a running
-- transaction and the operations that change it. The journal's vectors are lists with the newest
-- element first; the logs are in order. A database error ends the execution, so it carries no state.
pub mod Accounts
pub mod Entries
pub mod Storage
pub mod Value
pub mod View
pub mod Restores
pub mod Since
pub mod Single
pub mod Touch
pub mod Steps
pub mod Codes
pub mod Slots
pub mod Transient
pub mod Pairs
pub mod Transfers
pub mod Payments
pub mod Destroys
pub mod Revert
pub mod Frame
pub mod Reads
mod Examples
use baron_evm.Base.{
  ℕ, suc, zero, ◌+◌, ◌-◌, ◌^◌, Bool, true, false, not, ◌&&◌, ◌||◌, Option, none, some, List, [],
  ◌∷◌, ◌++◌, ◌==◌, ltb, if◌then◌else◌, ◌⊎◌, inl, inr, length, take, drop, HashMap, insert,
  wrapping_add64, wrapping_sub64, u64_max,
}
use baron_evm.Base.Outcome.{Outcome, ok, err, panic, unwrap, ok_or, ◌>>=◌}
use baron_evm.Spec.{SpecId, enabled, spurious_dragon}
use baron_evm.Bytecode.{Bytecode, new as default_bytecode, hash_slow, keccak_empty}
use Accounts.{
  Account, AccountInfo, State, StorageSlot, Database, from_info, new_not_existing, info_is_empty,
  new_slot, set_touched, set_nonce, set_code_info, set_storage,
}
use Entries.{
  JournalEntry, account_loaded, account_touched, nonce_change, code_change, storage_change,
  transient_storage_change, World, put_transient, revert_lists,
}

pub record Log : Type 0 where
  pub address : ℕ
  pub topics : List ℕ
  pub payload : List ℕ

pub record JournaledState : Type 0 where
  pub world : World
  pub open world use *
  pub logs : List Log
  pub depth : ℕ
  pub journal : List (List JournalEntry)
  pub spec : SpecId
  pub warm_preloaded_addresses : ℕ → Bool

-- The only error of an operation that is not a result of the EVM: the database failed.
pub data DatabaseError : Type 0 where
  database : DatabaseError

abbrev pub Fallible : Type 0 → Type 0
Fallible A = Outcome DatabaseError A

pub record JournalCheckpoint : Type 0 where
  pub log_i : ℕ
  pub journal_i : ℕ

unfoldable pub new : SpecId → (ℕ → Bool) → JournaledState
new spec warm = record {
  world = record { state = λ a. none; transient_storage = λ a k. none };
  logs = [];
  depth = 0;
  journal = [] ∷ [];
  spec = spec;
  warm_preloaded_addresses = warm;
}

unfoldable pub set_spec_id : JournaledState → SpecId → JournaledState
set_spec_id js spec = record js { spec = spec }

unfoldable pub clear : JournaledState → JournaledState
unfolding new
clear js = new js.spec (λ a. false)

unfoldable pub finalize : JournaledState → JournaledState × State × List Log
finalize js = (
  record js {
    world = record { state = λ a. none; transient_storage = λ a k. none };
    logs = [];
    depth = 0;
    journal = [] ∷ [];
  },
  js.state,
  js.logs,
)

abbrev pub set_state : JournaledState → State → JournaledState
set_state js s = record js { world = record (js.world) { state = s } }

-- `journal.last_mut().unwrap().push(entry)`.
abbrev pub push_on :
    JournaledState → JournalEntry → List (List JournalEntry) → Fallible JournaledState
push_on js e [] = panic
push_on js e (es ∷ rest) = ok (record js { journal = (e ∷ es) ∷ rest })

abbrev pub push_entry : JournaledState → JournalEntry → Fallible JournaledState
push_entry js e = push_on js e js.journal

-- `state.get_mut(&address).unwrap()`.
abbrev pub loaded_account : JournaledState → ℕ → Fallible Account
loaded_account js address = unwrap (js.state address)

unfoldable pub touch_account : JournaledState → ℕ → Account → Fallible JournaledState
touch_account js address account =
    if not account.status.touched
    then (do
      pushed ← push_entry js (account_touched address)
      ok (set_state pushed (insert pushed.state address (set_touched true account))))
    else ok js

unfoldable pub touch : JournaledState → ℕ → Fallible JournaledState
touch js address = elim (js.state address) [
  | none ↦ ok js
  | some account ↦ touch_account js address account
]

-- The hash function of the `alloy` crate is the first parameter.
unfoldable pub set_code : (List ℕ → ℕ) → JournaledState → ℕ → Bytecode → Fallible JournaledState
set_code keccak256 js address code = do
  account ← loaded_account js address
  touched ← touch_account js address account
  pushed ← push_entry touched (code_change address)
  hash ← unwrap (hash_slow keccak256 code)
  current ← loaded_account pushed address
  ok (set_state pushed (insert pushed.state address (set_code_info hash (some code) current)))

-- The new nonce, or `none` if it would overflow.
unfoldable pub inc_nonce : JournaledState → ℕ → Fallible (JournaledState × Option ℕ)
inc_nonce js address = do
  account ← loaded_account js address
  let go_on = do
    touched ← touch_account js address account
    pushed ← push_entry touched (nonce_change address)
    current ← loaded_account pushed address
    let nonce = wrapping_add64 current.info.nonce 1
    ok (set_state pushed (insert pushed.state address (set_nonce nonce current)), some nonce)
  if account.info.nonce == u64_max then ok (js, none) else go_on

unfoldable pub checkpoint : JournaledState → JournaledState × JournalCheckpoint
checkpoint js = (
  record js { depth = wrapping_add64 js.depth 1; journal = [] ∷ js.journal },
  record { log_i = length js.logs; journal_i = length js.journal },
)

unfoldable pub checkpoint_commit : JournaledState → JournaledState
checkpoint_commit js = record js { depth = wrapping_sub64 js.depth 1 }

-- `leng - checkpoint.journal_i` on usize: past zero it wraps to a number above every length, and
-- `take` then takes all.
abbrev pub lists_since : ℕ → ℕ → ℕ
lists_since leng journal_i = if ltb leng journal_i then leng else leng - journal_i

unfoldable pub checkpoint_revert : JournaledState → JournalCheckpoint → Fallible JournaledState
checkpoint_revert js cp = do
  let sd = enabled js.spec spurious_dragon
  let leng = length js.journal
  reverted ← unwrap (revert_lists sd (lists_since leng cp.journal_i) js.journal js.world)
  ok (record js {
    world = reverted;
    logs = take cp.log_i js.logs;
    depth = wrapping_sub64 js.depth 1;
    journal = drop (leng - cp.journal_i) js.journal;
  })

-- `db.basic(address)`, and the account that its answer stands for.
unfoldable pub fetch_account : Database → ℕ → Fallible Account
fetch_account db address = do
  answer ← ok_or (db.basic address) database
  ok (elim answer [ none ↦ new_not_existing | some info ↦ from_info info ])

-- The account is cold exactly when it was neither loaded before nor among the preloaded ones.
unfoldable pub load_account :
    JournaledState → ℕ → Database → Fallible (JournaledState × Account × Bool)
load_account js address db = elim (js.state address) [
  | some account ↦ ok (js, account, false)
  | none ↦ do
    account ← fetch_account db address
    pushed ← push_entry js (account_loaded address)
    ok (
      set_state pushed (insert pushed.state address account),
      account,
      not (js.warm_preloaded_addresses address),
    )
]

pub record LoadAccountResult : Type 0 where
  pub is_empty : Bool
  pub is_cold : Bool

unfoldable pub load_account_exist :
    JournaledState → ℕ → Database → Fallible (JournaledState × LoadAccountResult)
load_account_exist js address db = do
  (js', acc, is_cold) ← load_account js address db
  let is_empty =
      if enabled js.spec spurious_dragon
      then info_is_empty acc.info
      else acc.status.loaded_as_not_existing && not acc.status.touched
  ok (js', record { is_empty = is_empty; is_cold = is_cold })

-- The code that belongs to an account whose `code` is not there yet.
unfoldable pub fetch_code : Account → Database → Fallible Account
fetch_code acc db = elim acc.info.code [
  | some code ↦ ok acc
  | none ↦
      if acc.info.code_hash == keccak_empty
      then ok (set_code_info acc.info.code_hash (some default_bytecode) acc)
      else (do
        code ← ok_or (db.code_by_hash acc.info.code_hash) database
        ok (set_code_info acc.info.code_hash (some code) acc))
]

unfoldable pub load_code :
    JournaledState → ℕ → Database → Fallible (JournaledState × Account × Bool)
load_code js address db = do
  (js', acc, is_cold) ← load_account js address db
  filled ← fetch_code acc db
  ok (set_state js' (insert js'.state address filled), filled, is_cold)

-- The slots of an access list; those that are not there yet are read from the database.
unfoldable pub preload_slots : Database → ℕ → List ℕ → Account → Fallible Account
preload_slots db address [] account = ok account
preload_slots db address (slot ∷ slots) account =
    let kept = preload_slots db address slots account in
    let fetched = (do
      value ← ok_or (db.storage_at address slot) database
      preload_slots db address slots
          (set_storage (insert account.storage slot (new_slot value)) account)) in
    elim (account.storage slot) [ some s ↦ kept | none ↦ fetched ]

-- Not journaled.
unfoldable pub initial_account_load :
    JournaledState → ℕ → List ℕ → Database → Fallible (JournaledState × Account)
initial_account_load js address slots db = do
  account ← elim (js.state address) [ some a ↦ ok a | none ↦ fetch_account db address ]
  filled ← preload_slots db address slots account
  ok (set_state js (insert js.state address filled), filled)
