-- ===== src/Journal/Frame.antt =====
-- The code of a call frame as a sequence of the journal's operations, with the frames that it calls:
-- what the interpreter does between `checkpoint` and `checkpoint_commit` or `checkpoint_revert`
-- (crates/bcevm/src/context/inner_evm_context.rs and crates/bcevm/src/evm.rs). Contract creation is
-- not among the operations here.
pub mod Atomic
use baron_evm.Base.{ℕ, Bool, List, Option, none, some, ◌≡◌, ◌≢◌}
use baron_evm.Base.Outcome.{Outcome, ok, ◌>>=◌}
use baron_evm.Bytecode.{Bytecode}
use baron_evm.Journal.Accounts.{Account, Database}
use baron_evm.Journal.{
  JournaledState, Log, Fallible, touch, set_code, inc_nonce, checkpoint, checkpoint_commit,
  checkpoint_revert, load_account, load_account_exist, load_code,
}
use baron_evm.Journal.Storage.{sload, sstore, tstore, log}
use baron_evm.Journal.Value.{transfer, selfdestruct, InstructionResult, overflow_payment}
use baron_evm.Journal.Since.{Ensures}
use baron_evm.Journal.Steps.{LacksCode}
use baron_evm.Journal.Touch.{IsSound}

-- One call of a method of the journal, with its arguments.
pub data Operation : Type 0 where
  touches : ℕ → Operation
  loads_account : ℕ → Operation
  loads_account_exist : ℕ → Operation
  loads_code : ℕ → Operation
  increments_nonce : ℕ → Operation
  sets_code : ℕ → Bytecode → Operation
  loads_slot : ℕ → ℕ → Operation
  stores_slot : ℕ → ℕ → ℕ → Operation
  stores_transient : ℕ → ℕ → ℕ → Operation
  logs_entry : Log → Operation
  transfers : ℕ → ℕ → ℕ → Operation
  destroys : ℕ → ℕ → Operation

module _ (keccak256 : List ℕ → ℕ) where
  -- The state that the operation leaves, without its result.
  unfoldable pub perform : Database → JournaledState → Operation → Fallible JournaledState
  perform db js (touches address) = touch js address
  perform db js (loads_account address) = do r ← load_account js address db; ok r.0
  perform db js (loads_account_exist address) = do r ← load_account_exist js address db; ok r.0
  perform db js (loads_code address) = do r ← load_code js address db; ok r.0
  perform db js (increments_nonce address) = do r ← inc_nonce js address; ok r.0
  perform db js (sets_code address code) = set_code keccak256 js address code
  perform db js (loads_slot address key) = do r ← sload js address key db; ok r.0
  perform db js (stores_slot address key new) = do r ← sstore js address key new db; ok r.0
  perform db js (stores_transient address key new) = tstore js address key new
  perform db js (logs_entry entry) = ok (log js entry)
  perform db js (transfers from to balance) = do r ← transfer js from to balance db; ok r.0
  perform db js (destroys address target) = do r ← selfdestruct js address target db; ok r.0

-- Where the callers use the operation: code is set on accounts without code, and no transfer makes a
-- balance overflow, which it cannot while all balances together stay below 2 ^ 256.
unfoldable pub Allowed : Database → JournaledState → Operation → Type 0
Allowed db js (sets_code address code) =
    (acc : Account) → js.state address ≡ some acc → LacksCode acc
Allowed db js (transfers from to balance) =
    Ensures (λ r. r.1 ≢ some overflow_payment) (transfer js from to balance db)
Allowed db js (touches address) = Unit {0}
Allowed db js (loads_account address) = Unit {0}
Allowed db js (loads_account_exist address) = Unit {0}
Allowed db js (loads_code address) = Unit {0}
Allowed db js (increments_nonce address) = Unit {0}
Allowed db js (loads_slot address key) = Unit {0}
Allowed db js (stores_slot address key new) = Unit {0}
Allowed db js (stores_transient address key new) = Unit {0}
Allowed db js (logs_entry entry) = Unit {0}
Allowed db js (destroys address target) = Unit {0}

-- What a frame can do: operations, and calls that are committed or reverted, to any depth.
pub data Runs (keccak256 : List ℕ → ℕ) : JournaledState → JournaledState → Type 0 where
  start : {a : JournaledState} → Runs keccak256 a a
  step :
      {a b c : JournaledState} (db : Database) (o : Operation)
      → Runs keccak256 a b
      → IsSound keccak256 db
      → Allowed db b o
      → perform keccak256 db b o ≡ ok c
      → Runs keccak256 a c
  committed :
      {a b c : JournaledState}
      → Runs keccak256 a b
      → Runs keccak256 (checkpoint b).0 c
      → Runs keccak256 a (checkpoint_commit c)
  rolled_back :
      {a b c d : JournaledState}
      → Runs keccak256 a b
      → Runs keccak256 (checkpoint b).0 c
      → checkpoint_revert c (checkpoint b).1 ≡ ok d
      → Runs keccak256 a d
