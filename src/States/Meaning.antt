-- ===== src/States/Meaning.antt =====
-- What an account of the bundle means: its information up to the code, its status, and the value of
-- each storage slot over the database; and which accounts and transitions occur.
use baron_evm.Base.{ℕ, Bool, true, false, Option, none, some, ◌≡◌}
use baron_evm.Base.Dict.{Distinct, lookup}
use baron_evm.Journal.Accounts.{AccountInfo, StorageSlot}
use baron_evm.States.Status.{
  AccountStatus, loaded, loaded_not_existing, loaded_empty_eip161, in_memory_change, changed,
  destroyed, destroyed_changed, destroyed_again,
}
use baron_evm.States.Accounts.{BundleAccount, TransitionAccount}

-- The balance, the nonce and the code hash.
abbrev pub essence : Option AccountInfo → Option (ℕ × ℕ × ℕ)
essence none = none
essence (some i) = some (i.balance, i.nonce, i.code_hash)

-- The account exists in this state.
abbrev pub exists_in : AccountStatus → Bool
exists_in loaded_not_existing = false
exists_in loaded = true
exists_in loaded_empty_eip161 = true
exists_in in_memory_change = true
exists_in changed = true
exists_in destroyed = false
exists_in destroyed_changed = true
exists_in destroyed_again = false

abbrev pub has_info : Option AccountInfo → Bool
has_info none = false
has_info (some i) = true

-- The value of a slot that is not in memory: the database's, unless the database has nothing of the
-- account that counts.
abbrev pub unlisted : AccountStatus → ℕ → ℕ
unlisted loaded_not_existing v = 0
unlisted loaded v = v
unlisted loaded_empty_eip161 v = v
unlisted in_memory_change v = 0
unlisted changed v = v
unlisted destroyed v = 0
unlisted destroyed_changed v = 0
unlisted destroyed_again v = 0

abbrev pub slot_value : ℕ → Option StorageSlot → ℕ
slot_value v none = v
slot_value v (some s) = s.present_value

-- The states in which no slot of the account was written.
abbrev pub is_clean : AccountStatus → Bool
is_clean loaded_not_existing = true
is_clean loaded = false
is_clean loaded_empty_eip161 = true
is_clean in_memory_change = false
is_clean changed = false
is_clean destroyed = true
is_clean destroyed_changed = false
is_clean destroyed_again = true

-- The states of an account that was destroyed.
abbrev pub is_gone_once : AccountStatus → Bool
is_gone_once loaded_not_existing = false
is_gone_once loaded = false
is_gone_once loaded_empty_eip161 = false
is_gone_once in_memory_change = false
is_gone_once changed = false
is_gone_once destroyed = true
is_gone_once destroyed_changed = true
is_gone_once destroyed_again = true

-- The database's storage of the account.
module _ (db : ℕ → ℕ) where
  abbrev pub value_at : BundleAccount → ℕ → ℕ
  value_at b k = slot_value (unlisted b.status (db k)) (lookup k b.storage)

  pub record SameAs (a b : BundleAccount) : Type 0 where
    pub info : essence a.info ≡ essence b.info
    pub status : a.status ≡ b.status
    pub values : (k : ℕ) → value_at a k ≡ value_at b k

  -- An account that a bundle holds.
  pub record IsConsistent (b : BundleAccount) : Type 0 where
    pub info : has_info b.info ≡ exists_in b.status
    pub clean : is_clean b.status ≡ true → (k : ℕ) → value_at b k ≡ unlisted b.status (db k)
    pub keys : Distinct b.storage

  -- A transition that goes on from the account: its slots' original values are the account's, unless
  -- the storage was destroyed in between.
  pub record GoesOnFrom (b : BundleAccount) (t : TransitionAccount) : Type 0 where
    pub info : has_info t.info ≡ exists_in t.status
    pub slots :
        (k : ℕ) (s : StorageSlot)
        → t.storage_was_destroyed ≡ false
        → lookup k t.storage ≡ some s
        → s.previous_or_original_value ≡ value_at b k
    pub keys : Distinct t.storage
    pub wiped : t.storage_was_destroyed ≡ true → is_gone_once t.status ≡ true
