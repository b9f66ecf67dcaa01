-- ===== src/Journal/Slots.antt =====
-- Reads and writes of storage keep the invariant of the frame.
use baron_evm.Journal.View.{Hasher}
use baron_evm.Base.{
  ℕ, Bool, true, none, some, ◌≡◌, refl, ap, ◌∙◌, fun_ext, arith, insert, remove, Bool-cases,
  Option-cases, inl, inr, ◌==◌, ==_refl, ==_iff, put-put_back,
}
use baron_evm.Base.Outcome.{ok, ◌>>=◌}
use baron_evm.Journal.Accounts.{Account, Database, StorageSlot, new_slot, set_storage}
use baron_evm.Journal.Entries.{storage_change, revert_slot, revert_entry}
use baron_evm.Journal.View.{view_account}
use baron_evm.Journal.{JournaledState, set_state, push_entry}
use baron_evm.Journal.Storage.{fetch_slot, sload, sstore, store_slot}
use baron_evm.Journal.Since.{
  Since, Ensures, Ensures-bind, Ensures-map, Kept, KeptTriple, push-then, sd_of,
}
use baron_evm.Journal.Single.{replaced, IsValid-replaced, Fits-loaded, Restores-modify}
use baron_evm.Journal.Steps.{Ensures-any}

-- The slot is in the state, with the value given.
abbrev pub HasSlot : JournaledState → ℕ → ℕ → ℕ → Type 0
HasSlot js address key value =
    (acc : Account) × (slot : StorageSlot) × (js.state address ≡ some acc)
    × (acc.storage key ≡ some slot)
    × (slot.present_value ≡ value)

module _ ⦃hasher : Hasher⦄ where
  -- What `sload` ensures of the state and the value that it returns.
  abbrev Slotted : JournaledState → ℕ → ℕ → JournaledState × ℕ × Bool → Type 0
  Slotted base address key r = Since base r.0 × HasSlot r.0 address key r.1

  cold_slot :
      (base js : JournaledState) (address key value : ℕ) (acc : Account)
      → Since base js
      → js.state address ≡ some acc
      → acc.storage key ≡ none
      → Ensures (Slotted base address key) (do
        pushed ← push_entry js (storage_change address key none)
        let filled = set_storage (insert acc.storage key (new_slot value)) acc
        ok (set_state pushed (insert pushed.state address filled), value, true))
  unfolding revert_entry
  cold_slot base js address key value acc s here absent =
      let filled = set_storage (insert acc.storage key (new_slot value)) acc in
      let back : remove filled.storage key ≡ acc.storage =
        fun_ext λ k. ground (arith, ==_iff k key) in
      push-then base js (replaced js.world address filled) (storage_change address key none)
        (Slotted base address key) _ s
        (Restores-modify (sd_of base) (storage_change address key none) js.world address filled
          (set_storage (remove filled.storage key) acc) (revert_slot key none) refl here refl
          (ap (λ m. view_account (sd_of base) address (set_storage m acc)) back))
        (IsValid-replaced js.world address filled s.valid
          (Fits-loaded js.world address s.valid here))
        λ j since.
          (since, (filled, new_slot value, rw (==_refl address) refl, rw (==_refl key) refl, refl))

  sload-Slotted :
      (base js : JournaledState) (address key : ℕ) (db : Database)
      → Since base js
      → Ensures (Slotted base address key) (sload js address key db)
  unfolding sload
  sload-Slotted base js address key db s = elim (Option-cases (js.state address)) [
    | inl e ↦ rw e tt
    | inr (acc, e) ↦ elim (Option-cases (acc.storage key)) [
      | inr (slot, h) ↦ rw (e, h) (s, (acc, slot, e, h, refl))
      | inl h ↦
          rw (e, h)
            (Ensures-bind (λ v. Unit) (Slotted base address key) (fetch_slot acc address key db) _
              (Ensures-any _) λ value t. cold_slot base js address key value acc s e h)
    ]
  ]

  pub sload-Since :
      (base js : JournaledState) (address key : ℕ) (db : Database)
      → Since base js
      → Ensures (KeptTriple base) (sload js address key db)
  sload-Since base js address key db s =
      Ensures-map (Slotted base address key) (KeptTriple base) (sload js address key db)
        (λ r h. h.0) (sload-Slotted base js address key db s)

  -- The rest of `sstore` behind its `sload`.
  stored :
      (base js : JournaledState) (address key present new : ℕ) (is_cold : Bool)
      → Since base js
      → HasSlot js address key present
      → Ensures (Kept base) (store_slot js address key present new is_cold)
  unfolding store_slot revert_entry
  stored base js address key present new is_cold s (acc, slot, here, held, same) =
      elim (Bool-cases (present == new)) [
        | inl e ↦ rw (here, held, e) s
        | inr e ↦
            let filled =
              set_storage (insert acc.storage key (record slot { present_value = new })) acc in
            let undone =
              set_storage (insert filled.storage key (record slot { present_value = present }))
                acc in
            let before : acc.storage key ≡ some (record slot { present_value = present }) =
              held ∙ (λ i. some (record slot { present_value = same i })) in
            let back : undone.storage ≡ acc.storage =
              put-put_back acc.storage key (some (record slot { present_value = new }))
                (some (record slot { present_value = present })) before in
            rw (here, held, e)
              (push-then base js (replaced js.world address filled)
                (storage_change address key (some present)) (Kept base) _ s
                (Restores-modify (sd_of base) (storage_change address key (some present)) js.world
                  address filled undone (revert_slot key (some present)) refl here
                  (rw (==_refl key) refl)
                  (ap (λ m. view_account (sd_of base) address (set_storage m acc)) back))
                (IsValid-replaced js.world address filled s.valid
                  (Fits-loaded js.world address s.valid here))
                λ j since. since)
      ]

  pub sstore-Since :
      (base js : JournaledState) (address key new : ℕ) (db : Database)
      → Since base js
      → Ensures (Kept base) (sstore js address key new db)
  unfolding sstore
  sstore-Since base js address key new db s =
      Ensures-bind (Slotted base address key) (Kept base) (sload js address key db) _
        (sload-Slotted base js address key db s)
        λ r h. stored base r.0 address key r.1 new r.2 h.0 h.1
