-- ===== src/Journal/Reads.antt =====
-- What is read after a write: accounts, storage slots and transient storage.
use baron_evm.Base.{
  ℕ, Bool, false, ◌&&◌, none, some, List, [], ◌∷◌, ◌≡◌, refl, ap, ◌∙◌, subst, arith, insert,
  Bool-cases, Option-cases, inl, inr, ◌==◌, if◌then◌else◌, ==_refl, ==_iff,
}
use baron_evm.Base.Outcome.{ok}
use baron_evm.Journal.Accounts.{Account, Database, StorageSlot, new_slot, set_storage}
use baron_evm.Journal.Entries.{
  JournalEntry, World, account_loaded, storage_change, transient_storage_change, put_transient,
}
use baron_evm.Journal.{JournaledState, set_state, push_entry, push_on, load_account, fetch_account}
use baron_evm.Journal.Storage.{
  fetch_slot, sload, sstore, store_slot, SStoreResult, tload, tstore, previous_transient,
}
use baron_evm.Journal.Since.{Ensures, Ensures-bind, Ensures-map}
use baron_evm.Journal.Slots.{HasSlot}
use baron_evm.Journal.Steps.{Ensures-any}

-- A push that goes through leaves the world.
pub push_entry-world :
    (js : JournaledState) (e : JournalEntry) → Ensures (λ p. p.world ≡ js.world) (push_entry js e)
push_entry-world js e = go js.journal
  where
    go : (j : List (List JournalEntry)) → Ensures (λ p. p.world ≡ js.world) (push_on js e j)
    go [] = tt
    go (es ∷ rest) = refl

tstore-world :
    (js : JournaledState) (address key new : ℕ)
    → Ensures
        (λ p.
          p.transient_storage
          ≡ put_transient js.transient_storage address key (if new == 0 then none else some new))
        (tstore js address key new)
unfolding tstore
tstore-world js address key new =
    let written : World = record (js.world) {
      transient_storage =
          put_transient js.transient_storage address key (if new == 0 then none else some new);
    } in
    elim (Option-cases (previous_transient (js.transient_storage address key) new)) [
      | inl e ↦ rw (e, tstore) refl
      | inr (had, e) ↦
          rw (e, tstore)
            (Ensures-map (λ p. p.world ≡ written) _
              (push_entry (record js { world = written })
                (transient_storage_change address key had))
              (λ p h. ap (λ w. w.transient_storage) h)
              (push_entry-world (record js { world = written })
                (transient_storage_change address key had)))
    ]

-- When a write of transient storage returns, a read gives the value written for that slot of that
-- address, and the former value for every other slot and address.
pub tload-tstore :
    (js js' : JournaledState) (address key new b j : ℕ)
    → tstore js address key new ≡ ok js'
    → tload js' b j ≡ (if b == address && j == key then new else tload js b j)
unfolding tload
tload-tstore js js' address key new b j e =
    let written = subst (Ensures _) e (tstore-world js address key new) in
    rw (tload, ap (λ t. t b j) written)
      (elim (Bool-cases (b == address)) [
        | inr other ↦ rw other refl
        | inl same ↦ elim (Bool-cases (j == key)) [
          | inl at ↦ rw (same, at) (ground arith)
          | inr elsewhere ↦ rw (same, elsewhere) refl
        ]
      ])

-- A slot that is there is read without a change, and is warm.
sload-warm :
    (js : JournaledState) (address key : ℕ) (db : Database) (acc : Account) (slot : StorageSlot)
    → js.state address ≡ some acc
    → acc.storage key ≡ some slot
    → sload js address key db ≡ ok (js, slot.present_value, false)
unfolding sload
sload-warm js address key db acc slot here held = rw (here, held) refl

sload-HasSlot :
    (js : JournaledState) (address key : ℕ) (db : Database)
    → Ensures (λ r. HasSlot r.0 address key r.1) (sload js address key db)
unfolding sload
sload-HasSlot js address key db = elim (Option-cases (js.state address)) [
  | inl e ↦ rw e tt
  | inr (acc, here) ↦ elim (Option-cases (acc.storage key)) [
    | inr (slot, held) ↦ rw (here, held) (acc, slot, here, held, refl)
    | inl absent ↦
        rw (here, absent)
          (Ensures-bind (λ v. Unit) (λ r. HasSlot r.0 address key r.1)
            (fetch_slot acc address key db) _ (Ensures-any _)
            λ value t.
              Ensures-bind (λ p. Unit) (λ r. HasSlot r.0 address key r.1)
                (push_entry js (storage_change address key none)) _ (Ensures-any _)
                λ p t. (
                  set_storage (insert acc.storage key (new_slot value)) acc,
                  new_slot value,
                  rw (==_refl address) refl,
                  rw (==_refl key) refl,
                  refl,
                ))
  ]
]

-- The slot that `store_slot` wrote has the new value, and is warm.
abbrev Reads : ℕ → ℕ → ℕ → JournaledState × SStoreResult → Type 0
Reads address key new r = (db : Database) → sload r.0 address key db ≡ ok (r.0, new, false)

store_slot-Reads :
    (js : JournaledState) (address key present new : ℕ) (is_cold : Bool)
    → HasSlot js address key present
    → Ensures (Reads address key new) (store_slot js address key present new is_cold)
unfolding store_slot
store_slot-Reads js address key present new is_cold (acc, slot, here, held, same) =
    elim (Bool-cases (present == new)) [
      | inl e ↦
          rw (here, held, e)
            λ db.
              sload-warm js address key db acc slot here held
              ∙ ap (λ n. ok (js, n, false)) (same ∙ (==_iff present new).0 e)
      | inr e ↦
          let written = record slot { present_value = new } in
          let filled = set_storage (insert acc.storage key written) acc in
          rw (here, held, e)
            (Ensures-bind (λ p. Unit) (Reads address key new)
              (push_entry js (storage_change address key (some present))) _ (Ensures-any _)
              λ p t db.
                sload-warm (set_state p (insert p.state address filled)) address key db filled
                  written (rw (==_refl address) refl) (rw (==_refl key) refl))
    ]

-- When a storage write returns, a read of the slot gives the value written, changes nothing, does
-- not depend on the database, and finds the slot warm.
pub sload-sstore :
    (js js' : JournaledState) (address key new : ℕ) (db db' : Database) (result : SStoreResult)
    → sstore js address key new db ≡ ok (js', result)
    → sload js' address key db' ≡ ok (js', new, false)
unfolding sstore
sload-sstore js js' address key new db db' result e =
    subst (Ensures (Reads address key new)) e
      (Ensures-bind (λ r. HasSlot r.0 address key r.1) (Reads address key new)
        (sload js address key db) _ (sload-HasSlot js address key db)
        λ r h. store_slot-Reads r.0 address key r.1 new r.2 h)
      db'

-- When an account was loaded, cold or warm, loading it again changes nothing, gives the same
-- account without the database, and finds it warm.
pub load_account-load_account :
    (js js' : JournaledState) (address : ℕ) (db db' : Database) (acc : Account) (is_cold : Bool)
    → load_account js address db ≡ ok (js', acc, is_cold)
    → load_account js' address db' ≡ ok (js', acc, false)
unfolding load_account
load_account-load_account js js' address db db' acc is_cold e = subst (Ensures Again) e again db'
  where
    Again : JournaledState × Account × Bool → Type 0
    Again r = (d : Database) → load_account r.0 address d ≡ ok (r.0, r.1, false)

    again : Ensures Again (load_account js address db)
    again = elim (Option-cases (js.state address)) [
      | inr (acc, here) ↦ rw (here, load_account) (λ d. rw (here, load_account) refl)
      | inl absent ↦
          rw (absent, load_account)
            (Ensures-bind (λ a. Unit) Again (fetch_account db address) _ (Ensures-any _)
              λ new t.
                Ensures-bind (λ p. Unit) Again (push_entry js (account_loaded address)) _
                  (Ensures-any _) λ p t d. rw (load_account, ==_refl address) refl)
    ]
