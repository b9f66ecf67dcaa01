-- ===== src/States/Restore.antt =====
-- crates/bcevm/src/db/states/bundle_account.rs: the revert that an update makes takes the account
-- back.
use baron_evm.Base.{
  ℕ, true, Option, none, some, ◌≡◌, refl, sym, ap, ◌∙◌, arith, inl, inr, Bool-cases,
}
use baron_evm.Base.Dict.{
  Distinct, lookup, map_values, for_entries, after, lookup-map_values, lookup-for_entries,
  map_values-Distinct, for_entries-Distinct,
}
use baron_evm.Journal.Accounts.{AccountInfo, StorageSlot}
use baron_evm.States.Accounts.{
  StorageWithOriginalValues, BundleAccount, TransitionAccount, AccountInfoRevert, do_nothing,
  delete_it, revert_to, info_eq, infos_eq,
}
use baron_evm.States.Reverts.{destroyed_storage, or_destroyed, to_present}
use baron_evm.States.Bundle.{
  extend_storage, extend_slot, previous_storage_from_update, revert_slot, info_revert, or_default,
}
use baron_evm.States.Meaning.{essence, has_info, slot_value}
use baron_evm.States.Undo.{
  slot_back, slot_kept, slot_undestroyed, slot_revert, lookup-previous, previous-Distinct,
}

pub info_eq-essence : (i j : AccountInfo) → info_eq i j ≡ true → essence (some i) ≡ essence (some j)
unfolding info_eq
info_eq-essence i j e = ground (arith, e)

pub infos_eq-essence : (o p : Option AccountInfo) → infos_eq o p ≡ true → essence o ≡ essence p
unfolding infos_eq
infos_eq-essence none none e = refl
infos_eq-essence none (some j) e = absurd (cc)
infos_eq-essence (some i) none e = absurd (cc)
infos_eq-essence (some i) (some j) e = info_eq-essence i j e

-- The information after the revert that `info_revert` asks for.
abbrev pub reverted_info : AccountInfoRevert → Option AccountInfo → Option AccountInfo
reverted_info do_nothing o = o
reverted_info delete_it o = none
reverted_info (revert_to i) o = some i

pub or_default-essence :
    (o : Option AccountInfo) → has_info o ≡ true → essence (some (or_default o)) ≡ essence o
or_default-essence none h = absurd (cc)
or_default-essence (some i) h = refl

pub info_back :
    (b : BundleAccount) (t : TransitionAccount)
    → has_info b.info ≡ true
    → essence (reverted_info (info_revert b t) t.info) ≡ essence b.info
unfolding info_revert
info_back b t h = elim (Bool-cases (infos_eq b.info t.info)) [
  | inl e ↦ rw e (sym (infos_eq-essence b.info t.info e))
  | inr e ↦ rw e (or_default-essence b.info h)
]

module _ (s u : StorageWithOriginalValues) (keys : Distinct s) (new_keys : Distinct u) where
  pub values_back :
      (v k : ℕ)
      → ((x : StorageSlot)
          → lookup k u ≡ some x
          → x.previous_or_original_value ≡ slot_value v (lookup k s))
      → slot_value v
          (lookup k (for_entries revert_slot (previous_storage_from_update u) (extend_storage s u)))
        ≡ slot_value v (lookup k s)
  unfolding extend_storage
  values_back v k h =
      ap (slot_value v) (
        lookup-for_entries revert_slot k (previous_storage_from_update u)
          (for_entries extend_slot u s) (previous-Distinct u new_keys)
        ∙ ap (λ o. after revert_slot o (lookup k (for_entries extend_slot u s)))
            (lookup-previous k u new_keys)
        ∙ ap (after revert_slot (slot_revert (lookup k u)))
            (lookup-for_entries extend_slot k u s new_keys))
      ∙ slot_back v (lookup k s) (lookup k u) h

  pub values_kept :
      (v k : ℕ) (m : StorageWithOriginalValues)
      → ((x : StorageSlot)
          → lookup k u ≡ some x
          → x.previous_or_original_value ≡ slot_value v (lookup k m))
      → slot_value v (lookup k (for_entries revert_slot (previous_storage_from_update u) m))
        ≡ slot_value v (lookup k m)
  values_kept v k m h =
      ap (slot_value v) (
        lookup-for_entries revert_slot k (previous_storage_from_update u) m
          (previous-Distinct u new_keys)
        ∙ ap (λ o. after revert_slot o (lookup k m)) (lookup-previous k u new_keys))
      ∙ slot_kept v (lookup k m) (lookup k u) h

  pub values_undestroyed :
      (v k : ℕ) (held : StorageWithOriginalValues)
      → (lookup k u ≡ none → lookup k held ≡ none)
      → slot_value v (lookup k (for_entries revert_slot (destroyed_storage s u) held))
        ≡ slot_value v (lookup k s)
  unfolding destroyed_storage
  values_undestroyed v k held h =
      ap (slot_value v) (
        lookup-for_entries revert_slot k (destroyed_storage s u) held (
          for_entries-Distinct or_destroyed u (map_values to_present s)
            (map_values-Distinct to_present s keys))
        ∙ ap (λ o. after revert_slot o (lookup k held))
            (lookup-for_entries or_destroyed k u (map_values to_present s) new_keys
              ∙ ap (after or_destroyed (lookup k u)) (lookup-map_values to_present k s)))
      ∙ slot_undestroyed v (lookup k s) (lookup k u) (lookup k held) h

  -- The storage was replaced by the transition's; `v` is the value of every slot before.
  pub values_replaced :
      (v k : ℕ)
      → ((x : StorageSlot) → lookup k u ≡ some x → x.previous_or_original_value ≡ v)
      → slot_value v (lookup k (for_entries revert_slot (previous_storage_from_update u) u)) ≡ v
  values_replaced v k h =
      ap (slot_value v) (
        lookup-for_entries revert_slot k (previous_storage_from_update u) u
          (previous-Distinct u new_keys)
        ∙ ap (λ o. after revert_slot o (lookup k u)) (lookup-previous k u new_keys)
        ∙ ap (after revert_slot (slot_revert (lookup k u))) (sym (extend_none (lookup k u))))
      ∙ slot_back v none (lookup k u) h
    where
      extend_none : (n : Option StorageSlot) → after extend_slot n none ≡ n
      extend_none none = refl
      extend_none (some x) = refl
