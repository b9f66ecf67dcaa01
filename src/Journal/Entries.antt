-- ===== src/Journal/Entries.antt =====
-- The journal entries of crates/bcevm/src/journaled_state.rs and how they are undone.
use baron_evm.Base.{
  ℕ, suc, zero, Bool, false, not, ◌&&◌, Option, none, some, List, [], ◌∷◌, ◌==◌, if◌then◌else◌,
  HashMap, insert, remove, put, ◌>>=◌, wrapping_add256, wrapping_sub256, wrapping_sub64,
}
use baron_evm.Bytecode.{keccak_empty}
use baron_evm.Journal.Accounts.{
  Account, State, set_touched, set_selfdestructed, set_created, set_balance, set_nonce,
  set_code_info, set_storage,
}

pub data JournalEntry : Type 0 where
  account_loaded : ℕ → JournalEntry
  account_destroyed : ℕ → ℕ → Bool → ℕ → JournalEntry
  account_touched : ℕ → JournalEntry
  balance_transfer : ℕ → ℕ → ℕ → JournalEntry
  nonce_change : ℕ → JournalEntry
  account_created : ℕ → JournalEntry
  storage_change : ℕ → ℕ → Option ℕ → JournalEntry
  transient_storage_change : ℕ → ℕ → ℕ → JournalEntry
  code_change : ℕ → JournalEntry

-- The two maps that an entry can change. Transient storage is keyed by address and slot.
pub record World : Type 0 where
  pub state : State
  pub transient_storage : ℕ → HashMap ℕ

abbrev pub precompile3 : ℕ
precompile3 = 3

abbrev pub put_transient : (ℕ → HashMap ℕ) → ℕ → ℕ → Option ℕ → ℕ → HashMap ℕ
put_transient t address key o a = if a == address then put (t a) key o else t a

-- `state.get_mut(&address).unwrap()` and a change of that account; `none` is the panic.
abbrev pub modify : State → ℕ → (Account → Option Account) → Option State
modify s address f = do account ← s address; changed ← f account; some (insert s address changed)

abbrev pub add_balance : ℕ → Account → Option Account
add_balance n a = some (set_balance (wrapping_add256 a.info.balance n) a)

abbrev pub sub_balance : ℕ → Account → Option Account
sub_balance n a = some (set_balance (wrapping_sub256 a.info.balance n) a)

-- The match arm of `StorageChange` on the account's storage.
abbrev pub revert_slot : ℕ → Option ℕ → Account → Option Account
revert_slot key none a = some (set_storage (remove a.storage key) a)
revert_slot key (some had_value) a = do
  slot ← a.storage key
  some (set_storage (insert a.storage key (record slot { present_value = had_value })) a)

-- The changes of one account that the match arms make.
abbrev pub undestroy : Bool → ℕ → Account → Option Account
undestroy was_destroyed had_balance a = add_balance had_balance (set_selfdestructed was_destroyed a)

abbrev pub untouch : Account → Option Account
untouch a = some (set_touched false a)

abbrev pub decrement_nonce : Account → Option Account
decrement_nonce a = some (set_nonce (wrapping_sub64 a.info.nonce 1) a)

abbrev pub uncreate : Account → Option Account
uncreate a = some (set_nonce 0 (set_created false a))

abbrev pub remove_code : Account → Option Account
remove_code a = some (set_code_info keccak_empty none a)

abbrev pub with_state : World → Option State → Option World
with_state w s = do t ← s; some (record w { state = t })

-- One round of the loop of `journal_revert`; the first argument is `is_spurious_dragon_enabled`.
unfoldable pub revert_entry : Bool → JournalEntry → World → Option World
revert_entry sd (account_loaded address) w = some (record w { state = remove w.state address })
revert_entry sd (account_touched address) w =
    if sd && address == precompile3 then some w else with_state w (modify w.state address untouch)
revert_entry sd (account_destroyed address target was_destroyed had_balance) w = do
  s ← modify w.state address (undestroy was_destroyed had_balance)
  if not (address == target)
      then with_state w (modify s target (sub_balance had_balance))
      else some (record w { state = s })
revert_entry sd (balance_transfer from to balance) w = do
  s ← modify w.state from (add_balance balance)
  with_state w (modify s to (sub_balance balance))
revert_entry sd (nonce_change address) w = with_state w (modify w.state address decrement_nonce)
revert_entry sd (account_created address) w = with_state w (modify w.state address uncreate)
revert_entry sd (storage_change address key had_value) w =
    with_state w (modify w.state address (revert_slot key had_value))
revert_entry sd (transient_storage_change address key had_value) w =
    let restored = if had_value == 0 then none else some had_value in
    some (record w { transient_storage = put_transient w.transient_storage address key restored })
revert_entry sd (code_change address) w = with_state w (modify w.state address remove_code)

-- `journal_revert`: the entries are undone newest first, and the list holds the newest first.
unfoldable pub journal_revert : Bool → List JournalEntry → World → Option World
journal_revert sd [] w = some w
journal_revert sd (e ∷ es) w = do v ← revert_entry sd e w; journal_revert sd es v

-- The loop of `checkpoint_revert` over the last `n` lists of the journal, newest first.
unfoldable pub revert_lists : Bool → ℕ → List (List JournalEntry) → World → Option World
revert_lists sd zero js w = some w
revert_lists sd (suc n) [] w = some w
revert_lists sd (suc n) (es ∷ js) w = do v ← journal_revert sd es w; revert_lists sd n js v
