-- ===== src/Journal/Storage.antt =====
-- Storage, transient storage and logs: the second half of crates/bcevm/src/journaled_state.rs.
use baron_evm.Base.{
  ℕ, Bool, true, false, not, Option, none, some, [], ◌∷◌, ◌++◌, ◌==◌, if◌then◌else◌, insert,
}
use baron_evm.Base.Outcome.{ok, unwrap, ok_or, ◌>>=◌}
use baron_evm.Journal.Accounts.{Account, Database, new_slot, set_storage}
use baron_evm.Journal.Entries.{storage_change, transient_storage_change, put_transient}
use baron_evm.Journal.{
  JournaledState, Log, Fallible, database, set_state, push_entry, loaded_account,
}

-- The value of a slot that is not loaded: that of a new account is zero, with no database call.
unfoldable pub fetch_slot : Account → ℕ → ℕ → Database → Fallible ℕ
fetch_slot account address key db =
    if account.status.created then ok 0 else ok_or (db.storage_at address key) database

-- The value, and whether the slot was cold.
unfoldable pub sload : JournaledState → ℕ → ℕ → Database → Fallible (JournaledState × ℕ × Bool)
sload js address key db = do
  account ← loaded_account js address
  let cold = do
    value ← fetch_slot account address key db
    pushed ← push_entry js (storage_change address key none)
    let filled = set_storage (insert account.storage key (new_slot value)) account
    ok (set_state pushed (insert pushed.state address filled), value, true)
  elim (account.storage key) [ some slot ↦ ok (js, slot.present_value, false) | none ↦ cold ]

pub record SStoreResult : Type 0 where
  pub original_value : ℕ
  pub present_value : ℕ
  pub new_value : ℕ
  pub is_cold : Bool

-- The part of `sstore` behind its `sload`.
unfoldable pub store_slot :
    JournaledState → ℕ → ℕ → ℕ → ℕ → Bool → Fallible (JournaledState × SStoreResult)
store_slot js address key present new is_cold = do
  acc ← loaded_account js address
  slot ← unwrap (acc.storage key)
  let result : SStoreResult = record {
    original_value = slot.previous_or_original_value;
    present_value = present;
    new_value = new;
    is_cold = is_cold;
  }
  let changed = do
    pushed ← push_entry js (storage_change address key (some present))
    let filled = set_storage (insert acc.storage key (record slot { present_value = new })) acc
    ok (set_state pushed (insert pushed.state address filled), result)
  if present == new then ok (js, result) else changed

unfoldable pub sstore :
    JournaledState → ℕ → ℕ → ℕ → Database → Fallible (JournaledState × SStoreResult)
unfolding store_slot
sstore js address key new db = do
  (js', present, is_cold) ← sload js address key db
  store_slot js' address key present new is_cold

unfoldable pub tload : JournaledState → ℕ → ℕ → ℕ
tload js address key = elim (js.transient_storage address key) [ none ↦ 0 | some v ↦ v ]

-- What `tstore` puts into its journal entry, if it makes one.
unfoldable pub previous_transient : Option ℕ → ℕ → Option ℕ
previous_transient old new =
    let previous_value : ℕ = elim old [ none ↦ 0 | some v ↦ v ] in
    if new == 0 then old else if not (previous_value == new) then some previous_value else none

unfoldable pub tstore : JournaledState → ℕ → ℕ → ℕ → Fallible JournaledState
tstore js address key new =
    let old = js.transient_storage address key in
    let stored = if new == 0 then none else some new in
    let written = record js {
      world = record (js.world) {
        transient_storage = put_transient js.transient_storage address key stored;
      };
    } in
    elim (previous_transient old new) [
      | none ↦ ok written
      | some had_value ↦ push_entry written (transient_storage_change address key had_value)
    ]

unfoldable pub log : JournaledState → Log → JournaledState
log js entry = record js { logs = js.logs ++ entry ∷ [] }
