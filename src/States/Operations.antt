-- ===== src/States/Operations.antt =====
-- crates/bcevm/src/db/states/cache_account.rs: the changes of a cached account, and the transition that
-- each gives.
use baron_evm.Base.{
  ℕ, Bool, true, false, Option, none, some, ◌≡◌, refl, inl, inr, Bool-cases, if◌then◌else◌, ◌>>=◌,
  ◌==◌, ltb, ◌^◌,
}
use baron_evm.Journal.Accounts.{AccountInfo, info_is_empty, has_no_code_and_nonce}
use baron_evm.States.Status.{
  AccountStatus, loaded, loaded_not_existing, loaded_empty_eip161, in_memory_change, changed,
  destroyed, destroyed_changed, destroyed_again, on_changed, on_created,
}
use baron_evm.States.Accounts.{
  StorageWithOriginalValues, CacheAccount, PlainAccount, TransitionAccount, account_info,
}
use baron_evm.States.Cache.{
  Change, touch_create_pre_eip161, touch_empty_eip161, selfdestruct, newly_created,
  increment_balance, drain_balance, change, account_info_change, test_info, taken,
}
use baron_evm.States.Meaning.{essence, has_info, exists_in}
use baron_evm.States.Moves.{same, moves}
use baron_evm.States.Takes.{none-essence}

-- The changes of a cached account.
pub data CacheOperation : Type 0 where
  touches_created : StorageWithOriginalValues → CacheOperation
  touches_empty destroys drains : CacheOperation
  creates changes : AccountInfo → StorageWithOriginalValues → CacheOperation
  increments : ℕ → CacheOperation

abbrev always : CacheAccount × TransitionAccount → Option Change
always (c, t) = some (c, some t)

abbrev drained : ℕ × CacheAccount × TransitionAccount → Option Change
drained (n, c, t) = some (c, some t)

-- A contract is not created where an account with code or a nonce is.
unfoldable pub operate : CacheAccount → CacheOperation → Option Change
unfolding touch_create_pre_eip161 touch_empty_eip161 selfdestruct newly_created increment_balance
    drain_balance change
operate c (touches_created s) = touch_create_pre_eip161 c s
operate c touches_empty = touch_empty_eip161 c
operate c destroys = some (selfdestruct c)
operate c drains = drain_balance c >>= drained
operate c (creates i s) = if same c.status changed then none else always (newly_created c i s)
operate c (changes i s) = always (change c i s)
operate c (increments n) = some (increment_balance c n)

abbrev pub InfoFits : CacheAccount → Type 0
InfoFits c = has_info (account_info c) ≡ exists_in c.status

-- What one change makes of an account in the state `s`.
abbrev pub Moved : CacheAccount → Option Change → Type 0
Moved c none = Unit {0}
Moved c (some (c', none)) =
    (c'.status ≡ c.status) × (essence (account_info c') ≡ essence (account_info c))
Moved c (some (c', some t)) =
    (t.status ≡ c'.status)
    × (t.info ≡ account_info c')
    × (moves c.status c'.status ≡ true)
    × (has_info (account_info c') ≡ exists_in c'.status)

on_changed-moves :
    (st : AccountStatus) (b : Bool)
    → (moves st (on_changed st b) ≡ true) × (true ≡ exists_in (on_changed st b))
unfolding on_changed
on_changed-moves loaded_not_existing b = (refl, refl)
on_changed-moves loaded true = (refl, refl)
on_changed-moves loaded false = (refl, refl)
on_changed-moves loaded_empty_eip161 b = (refl, refl)
on_changed-moves in_memory_change b = (refl, refl)
on_changed-moves changed b = (refl, refl)
on_changed-moves destroyed b = (refl, refl)
on_changed-moves destroyed_changed b = (refl, refl)
on_changed-moves destroyed_again b = (refl, refl)

on_created-moves :
    (st : AccountStatus)
    → same st changed ≡ false
    → (moves st (on_created st) ≡ true) × (true ≡ exists_in (on_created st))
unfolding on_created
on_created-moves loaded_not_existing h = (refl, refl)
on_created-moves loaded h = (refl, refl)
on_created-moves loaded_empty_eip161 h = (refl, refl)
on_created-moves in_memory_change h = (refl, refl)
on_created-moves changed h = absurd (cc)
on_created-moves destroyed h = (refl, refl)
on_created-moves destroyed_changed h = (refl, refl)
on_created-moves destroyed_again h = (refl, refl)

selfdestruct-Moved :
    (a : Option PlainAccount) (st : AccountStatus)
    → InfoFits (record { account = a; status = st })
    → Moved
        (record { account = a; status = st })
        (some (selfdestruct (record { account = a; status = st })))
unfolding selfdestruct account_info
selfdestruct-Moved a loaded_not_existing h =
    (refl, none-essence (account_info (record { account = a; status = loaded_not_existing })) h)
selfdestruct-Moved a loaded h = (refl, refl, refl, refl)
selfdestruct-Moved a loaded_empty_eip161 h = (refl, refl, refl, refl)
selfdestruct-Moved a in_memory_change h = (refl, refl, refl, refl)
selfdestruct-Moved a changed h = (refl, refl, refl, refl)
selfdestruct-Moved a destroyed h = (refl, refl, refl, refl)
selfdestruct-Moved a destroyed_changed h = (refl, refl, refl, refl)
selfdestruct-Moved a destroyed_again h = (refl, refl, refl, refl)

touch_empty-Moved :
    (a : Option PlainAccount) (st : AccountStatus)
    → InfoFits (record { account = a; status = st })
    → Moved
        (record { account = a; status = st })
        (touch_empty_eip161 (record { account = a; status = st }))
unfolding touch_empty_eip161 account_info
touch_empty-Moved a loaded_not_existing h =
    (refl, none-essence (account_info (record { account = a; status = loaded_not_existing })) h)
touch_empty-Moved a loaded h = tt
touch_empty-Moved a loaded_empty_eip161 h = (refl, refl, refl, refl)
touch_empty-Moved a in_memory_change h = (refl, refl, refl, refl)
touch_empty-Moved a changed h = tt
touch_empty-Moved a destroyed h =
    (refl, none-essence (account_info (record { account = a; status = destroyed })) h)
touch_empty-Moved a destroyed_changed h = (refl, refl, refl, refl)
touch_empty-Moved a destroyed_again h =
    (refl, none-essence (account_info (record { account = a; status = destroyed_again })) h)

touch_create-Moved :
    (a : Option PlainAccount) (st : AccountStatus) (s : StorageWithOriginalValues)
    → Moved
        (record { account = a; status = st })
        (touch_create_pre_eip161 (record { account = a; status = st }) s)
unfolding touch_create_pre_eip161 account_info
touch_create-Moved a loaded_not_existing s = (refl, refl, refl, refl)
touch_create-Moved a loaded s = tt
touch_create-Moved a loaded_empty_eip161 s = (refl, refl)
touch_create-Moved a in_memory_change s = (refl, refl, refl, refl)
touch_create-Moved a changed s = tt
touch_create-Moved a destroyed s = (refl, refl, refl, refl)
touch_create-Moved a destroyed_changed s =
    let c : CacheAccount = record { account = a; status = destroyed_changed } in
    elim (Bool-cases (test_info info_is_empty (account_info c))) [
      | inl e ↦ rw e (refl, refl)
      | inr e ↦ rw e (refl, refl, refl, refl)
    ]
touch_create-Moved a destroyed_again s = (refl, refl, refl, refl)

changed_moves :
    (c : CacheAccount)
    → (let st = on_changed c.status (test_info has_no_code_and_nonce (account_info c)) in
        (moves c.status st ≡ true) × (true ≡ exists_in st))
changed_moves c = on_changed-moves c.status (test_info has_no_code_and_nonce (account_info c))

pub operate-Moved : (c : CacheAccount) (op : CacheOperation) → InfoFits c → Moved c (operate c op)
unfolding operate drain_balance account_info_change increment_balance newly_created change
    account_info
operate-Moved c (touches_created s) h = touch_create-Moved c.account c.status s
operate-Moved c touches_empty h = touch_empty-Moved c.account c.status h
operate-Moved c destroys h = selfdestruct-Moved c.account c.status h
operate-Moved c drains h = elim (Bool-cases (ltb (taken c.account).info.balance (2 ^ 128))) [
  | inl e ↦ rw e (refl, refl, (changed_moves c).0, (changed_moves c).1)
  | inr e ↦ rw e tt
]
operate-Moved c (creates i s) h = elim (Bool-cases (same c.status changed)) [
  | inl e ↦ rw e tt
  | inr e ↦ let (m, x) = on_created-moves c.status e in rw e (refl, refl, m, x)
]
operate-Moved c (changes i s) h = (refl, refl, (changed_moves c).0, (changed_moves c).1)
operate-Moved c (increments n) h = elim (Bool-cases (n == 0)) [
  | inl e ↦ rw e (refl, refl)
  | inr e ↦ rw e (refl, refl, (changed_moves c).0, (changed_moves c).1)
]
