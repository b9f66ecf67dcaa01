-- ===== src/Journal/Examples.antt =====
-- A frame that loads accounts, sets code, writes storage and transfers funds, with a reverted call inside, and
-- reads after writes.
use baron_evm.Base.{
  ℕ, ◌<◌, true, false, List, [], ◌∷◌, Option, none, some, ◌≡◌, refl, subst, arith, u64_mod,
  u256_mod,
}
use baron_evm.Base.Outcome.{ok, err, panic}
use baron_evm.Spec.{cancun}
use baron_evm.Bytecode.{Bytecode, legacy_raw, hash_slow, keccak_empty}
use baron_evm.Journal.Accounts.{Account, AccountInfo, Database, from_info}
use baron_evm.Journal.Entries.{World, revert_lists, journal_revert, revert_entry}
use baron_evm.Journal.Value.{transfer, debit, credit, pay}
use baron_evm.Journal.{
  JournaledState, Fallible, checkpoint, checkpoint_revert, load_account, touch_account,
  fetch_account, set_code,
}
use baron_evm.Journal.Storage.{
  store_slot, fetch_slot, sload, sstore, SStoreResult, tload, tstore, previous_transient,
}
use baron_evm.Journal.Since.{IsValid, sd_of}
use baron_evm.Journal.View.{Hasher, view}
use baron_evm.Journal.Revert.{reverted}
use baron_evm.Journal.Touch.{IsSound}
use baron_evm.Journal.Steps.{LacksCode}
use baron_evm.Journal.Frame.{
  Operation, loads_account, sets_code, stores_slot, stores_transient, transfers, perform, Allowed,
  Runs, start, step, rolled_back,
}
use baron_evm.Journal.Frame.Atomic.{frame_atomic}
use baron_evm.Journal.Reads.{tload-tstore, sload-sstore, load_account-load_account}

-- Every account has 50 wei and no code, and every slot holds 1.
abbrev info : AccountInfo
info = record { balance = 50; nonce = 0; code_hash = keccak_empty; code = none }

abbrev db : Database
db = record { basic = λ a. some (some info); storage_at = λ a k. some 1; code_by_hash = λ h. none }

abbrev InRange : Option (Option AccountInfo) → Type 0
InRange (some (some i)) = (i.balance < u256_mod) × (i.nonce < u64_mod)
InRange o = Unit {0}

abbrev hash : List ℕ → ℕ
hash bytes = 0

instance abbrev hasher : Hasher
hasher = record { keccak256 = hash }

db-IsSound : IsSound hash db
db-IsSound = record {
  integers = λ a i e. subst InRange e (omega arith, omega arith);
  codes = λ h c e. absurd (cc);
}

abbrev base : JournaledState
base = record {
  world = record { state = λ a. none; transient_storage = λ a k. none };
  logs = [];
  depth = 0;
  journal = [] ∷ [];
  spec = cancun;
  warm_preloaded_addresses = λ a. false;
}

base-IsValid : IsValid base.world
base-IsValid = record { accounts = λ a. tt; transient = λ a k e. absurd (cc) }

abbrev got : Fallible JournaledState → JournaledState
got (ok a) = a
got (err e) = base
got panic = base

abbrev ran : JournaledState → Operation → JournaledState
ran js o = got (perform hash db js o)

abbrev frame : JournaledState
frame = (checkpoint base).0

abbrev loaded : JournaledState
loaded = ran frame (loads_account 7)

abbrev code : Bytecode
code = legacy_raw (1 ∷ [])

abbrev coded : JournaledState
coded = ran loaded (sets_code 7 code)

abbrev stored : JournaledState
stored = ran coded (stores_slot 7 1 9)

abbrev paid : JournaledState
paid = ran stored (transfers 7 8 20)

-- A call that writes transient storage and is reverted.
abbrev callee : JournaledState
callee = ran (checkpoint paid).0 (stores_transient 7 1 5)

abbrev returned : JournaledState
returned = got (checkpoint_revert callee (checkpoint paid).1)

loaded_runs : Runs hash frame loaded
unfolding perform Allowed load_account checkpoint fetch_account from_info
loaded_runs = step {b = frame} {c = loaded} db (loads_account 7) start db-IsSound tt refl

abbrev Lack : Option Account → Type 0
Lack none = Unit {0}
Lack (some acc) = LacksCode acc

coded_runs : Runs hash frame coded
unfolding perform Allowed load_account checkpoint fetch_account from_info set_code touch_account
    hash_slow
coded_runs =
    step {b = loaded} {c = coded} db (sets_code 7 code) loaded_runs db-IsSound
      (λ acc e. subst Lack e (refl, tt)) refl

stored_runs : Runs hash frame stored
unfolding perform Allowed load_account checkpoint fetch_account from_info set_code hash_slow
    touch_account sstore sload store_slot fetch_slot
stored_runs = step {b = coded} {c = stored} db (stores_slot 7 1 9) coded_runs db-IsSound tt refl

paid_runs : Runs hash frame paid
unfolding perform Allowed load_account checkpoint fetch_account from_info set_code hash_slow
    touch_account sstore sload store_slot fetch_slot transfer debit credit pay
paid_runs =
    step {b = stored} {c = paid} db (transfers 7 8 20) stored_runs db-IsSound (λ h. absurd (cc))
      refl

callee_runs : Runs hash (checkpoint paid).0 callee
unfolding perform Allowed load_account checkpoint fetch_account from_info set_code hash_slow
    touch_account sstore sload store_slot fetch_slot transfer debit credit pay tstore
    previous_transient
callee_runs =
    step {b = (checkpoint paid).0} {c = callee} db (stores_transient 7 1 5) start db-IsSound tt refl

returned_runs : Runs hash frame returned
unfolding perform Allowed load_account checkpoint fetch_account from_info set_code hash_slow
    touch_account sstore sload store_slot fetch_slot transfer debit credit pay tstore
    previous_transient checkpoint_revert revert_lists journal_revert revert_entry
returned_runs = rolled_back {b = paid} {c = callee} {d = returned} paid_runs callee_runs refl

frame_atomic_example :
    (w : World) × (checkpoint_revert returned (checkpoint base).1 ≡ ok (reverted base returned w))
    × (view (sd_of base) w ≡ view (sd_of base) base.world)
frame_atomic_example = frame_atomic base returned base-IsValid returned_runs

-- The reverted write is gone and the storage of the caller is still there.
returned_test : tload returned 7 1 ≡ 0
unfolding tload perform load_account checkpoint fetch_account from_info set_code hash_slow
    touch_account sstore sload store_slot fetch_slot transfer debit credit pay tstore
    previous_transient checkpoint_revert revert_lists journal_revert revert_entry
returned_test = refl

abbrev noted : JournaledState
noted = got (tstore base 7 1 5)

tstored : tstore base 7 1 5 ≡ ok noted
unfolding tstore previous_transient
tstored = refl

tload-tstore_example : tload noted 7 1 ≡ 5
tload-tstore_example = tload-tstore base noted 7 1 5 7 1 tstored

abbrev stored_result : SStoreResult
stored_result = record { original_value = 1; present_value = 1; new_value = 9; is_cold = true }

slot_stored : sstore coded 7 1 9 db ≡ ok (stored, stored_result)
unfolding perform load_account checkpoint fetch_account from_info set_code hash_slow touch_account
    sstore sload store_slot fetch_slot
slot_stored = refl

sload-sstore_example : sload stored 7 1 db ≡ ok (stored, 9, false)
sload-sstore_example = sload-sstore coded stored 7 1 9 db db stored_result slot_stored

abbrev account : Account
account = record {
  info = info;
  storage = λ k. none;
  status = record {
    created = false;
    selfdestructed = false;
    touched = false;
    loaded_as_not_existing = false;
  };
}

account_loaded : load_account frame 7 db ≡ ok (loaded, account, true)
unfolding perform load_account checkpoint fetch_account from_info
account_loaded = refl

load_account-load_account_example : load_account loaded 7 db ≡ ok (loaded, account, false)
load_account-load_account_example =
    load_account-load_account frame loaded 7 db db account true account_loaded
