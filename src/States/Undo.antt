-- ===== src/States/Undo.antt =====
-- How the revert of one slot undoes its update.
use baron_evm.Base.{
  ℕ, false, Option, none, some, ◌≡◌, refl, sym, ap, ◌∙◌, arith, inl, inr, Bool-cases,
}
use mathlib.Core.Option
use baron_evm.Base.Dict.{
  Distinct, lookup, filter_values, kept, after, lookup-map_values, lookup-filter_values,
  map_values-Distinct, filter_values-Distinct,
}
use baron_evm.Journal.Accounts.{StorageSlot, is_changed}
use baron_evm.States.Accounts.{StorageWithOriginalValues, RevertToSlot}
use baron_evm.States.Meaning.{slot_value}
use baron_evm.States.Reverts.{or_destroyed, to_present}
use baron_evm.States.Bundle.{extend_slot, previous_storage_from_update, to_original, revert_slot}

-- The revert that a slot of the transition gives.
abbrev pub slot_revert : Option StorageSlot → Option RevertToSlot
slot_revert o = Option.map to_original (kept is_changed o)

pub unchanged :
    (s : StorageSlot) → is_changed s ≡ false → s.previous_or_original_value ≡ s.present_value
unfolding is_changed
unchanged s e = ground (arith, e)

-- The slot is written to the transition's value and set back to the original one.
pub slot_back :
    (v : ℕ) (o new : Option StorageSlot)
    → ((s : StorageSlot) → new ≡ some s → s.previous_or_original_value ≡ slot_value v o)
    → slot_value v (after revert_slot (slot_revert new) (after extend_slot new o)) ≡ slot_value v o
slot_back v o none h = refl
slot_back v none (some s) h = elim (Bool-cases (is_changed s)) [
  | inl e ↦ rw e (h s refl)
  | inr e ↦ rw e (sym (unchanged s e) ∙ h s refl)
]
slot_back v (some old) (some s) h = elim (Bool-cases (is_changed s)) [
  | inl e ↦ rw e (h s refl)
  | inr e ↦ rw e (sym (unchanged s e) ∙ h s refl)
]

-- The slot is left alone, and set back to the original value if the transition changed it.
pub slot_kept :
    (v : ℕ) (o new : Option StorageSlot)
    → ((s : StorageSlot) → new ≡ some s → s.previous_or_original_value ≡ slot_value v o)
    → slot_value v (after revert_slot (slot_revert new) o) ≡ slot_value v o
slot_kept v o none h = refl
slot_kept v none (some s) h = elim (Bool-cases (is_changed s)) [
  | inl e ↦ rw e (h s refl)
  | inr e ↦ rw e (refl)
]
slot_kept v (some old) (some s) h = elim (Bool-cases (is_changed s)) [
  | inl e ↦ rw e (h s refl)
  | inr e ↦ rw e (refl)
]

-- The slot's storage was destroyed; `held` is the slot afterwards.
pub slot_undestroyed :
    (v : ℕ) (o new held : Option StorageSlot)
    → (new ≡ none → held ≡ none)
    → slot_value v (after revert_slot (after or_destroyed new (Option.map to_present o)) held)
      ≡ slot_value v o
slot_undestroyed v none none held h = ap (slot_value v) (h refl)
slot_undestroyed v none (some s) held h = refl
slot_undestroyed v (some s) none none h = refl
slot_undestroyed v (some s) none (some u) h = refl
slot_undestroyed v (some s) (some w) none h = refl
slot_undestroyed v (some s) (some w) (some u) h = refl

pub lookup-previous :
    (k : ℕ) (u : StorageWithOriginalValues)
    → Distinct u
    → lookup k (previous_storage_from_update u) ≡ slot_revert (lookup k u)
unfolding previous_storage_from_update
lookup-previous k u d =
    lookup-map_values to_original k (filter_values is_changed u)
    ∙ ap (Option.map to_original) (lookup-filter_values is_changed k u d)

pub previous-Distinct :
    (u : StorageWithOriginalValues) → Distinct u → Distinct (previous_storage_from_update u)
unfolding previous_storage_from_update
previous-Distinct u d =
    map_values-Distinct to_original (filter_values is_changed u)
      (filter_values-Distinct is_changed u d)
