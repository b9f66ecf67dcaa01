-- ===== src/States/Chain/Loads.antt =====
-- crates/bcevm/src/db/states/state.rs: what an account reads as once it was loaded.
use baron_evm.Base.{ℕ, Bool, true, false, Option, none, some, ◌≡◌, refl, subst, if◌then◌else◌}
use baron_evm.Base.Outcome.{ok, bind-ok, ok_or, Safe, bind-Safe}
use baron_evm.Base.Dict.{lookup}
use baron_evm.Journal.Accounts.{AccountInfo, Database}
use baron_evm.Journal.{Fallible, DatabaseError, database}
use baron_evm.States.Status.{is_storage_known}
use baron_evm.States.Accounts.{CacheAccount, PlainAccount, account_info}
use baron_evm.States.Chain.{
  State, preloaded, put_account, from_database, fill_account, load_cache_account, load_from, basic,
  read_slot, read_account, storage,
}
use baron_evm.States.Chain.Reads.{lookup-same}

ok_or-Safe : {A : Type 0} (o : Option A) (x : DatabaseError) → Safe (ok_or o x)
ok_or-Safe none x = tt
ok_or-Safe (some a) x = tt

abbrev returned : State × CacheAccount → Fallible (State × CacheAccount)
returned p = ok p

known-Safe : (t : Bool) (o : Option ℕ) → Safe (if t then ok 0 else ok_or o database)
known-Safe true o = tt
known-Safe false o = ok_or-Safe o database

read_slot-Safe :
    (db : Database) (s : State) (a k : ℕ) (c : CacheAccount) (plain : PlainAccount) (o : Option ℕ)
    → Safe (read_slot db s a c plain k o)
read_slot-Safe db s a k c plain (some v) = tt
read_slot-Safe db s a k c plain none =
    bind-Safe (if is_storage_known c.status then ok 0 else ok_or (db.storage_at a k) database)
      (λ value. ok (_, value)) (known-Safe (is_storage_known c.status) (db.storage_at a k))
      (λ value. tt)

read_account-Safe :
    (db : Database) (s : State) (a k : ℕ) (c : CacheAccount) (o : Option PlainAccount)
    → Safe (read_account db s a c k o)
read_account-Safe db s a k c none = tt
read_account-Safe db s a k c (some plain) = read_slot-Safe db s a k c plain (lookup k plain.storage)

-- The storage of an account that the cache has can be asked for.
storage-Safe :
    (db : Database) (s : State) (a k : ℕ) (c : CacheAccount)
    → lookup a s.cache.accounts ≡ some c
    → Safe (storage db s a k)
unfolding storage
storage-Safe db s a k c found = rw found (read_account-Safe db s a k c c.account)

module _ (db : Database) (s s' : State) (a : ℕ) (c : CacheAccount) where
  same_load :
      (p q : State × CacheAccount)
      → returned p ≡ returned q
      → lookup a p.0.cache.accounts ≡ some p.1
      → lookup a q.0.cache.accounts ≡ some q.1
  same_load p q e h =
      let same : p ≡ q = cc in subst (λ r. lookup a r.0.cache.accounts ≡ some r.1) same h

  fill_account-Holds :
      (o : Option CacheAccount)
      → fill_account db s a o ≡ returned (s', c)
      → lookup a s'.cache.accounts ≡ some c
  fill_account-Holds (some d) e =
      same_load (put_account s a d, d) (s', c) e (lookup-same a d s.cache.accounts)
  fill_account-Holds none e =
      let (info, _, last) =
        bind-ok (ok_or (db.basic a) database)
          (λ info. returned (put_account s a (from_database info), from_database info)) e in
      let d = from_database info in
      same_load (put_account s a d, d) (s', c) last (lookup-same a d s.cache.accounts)

  load_from-Holds :
      (o : Option CacheAccount)
      → lookup a s.cache.accounts ≡ o
      → load_from db s a o ≡ returned (s', c)
      → lookup a s'.cache.accounts ≡ some c
  load_from-Holds (some d) found e = same_load (s, d) (s', c) e found
  load_from-Holds none found e =
      fill_account-Holds (preloaded s.use_preloaded_bundle (lookup a s.bundle_state.state)) e

  -- The account that was loaded is the one that the cache has.
  load_cache_account-Holds :
      load_cache_account db s a ≡ returned (s', c) → lookup a s'.cache.accounts ≡ some c
  unfolding load_cache_account
  load_cache_account-Holds e = load_from-Holds (lookup a s.cache.accounts) refl e

abbrev answered : State × Option AccountInfo → Fallible (State × Option AccountInfo)
answered p = ok p

module _ (db' : Database) (a k : ℕ) where
  -- Another database gives the same account, and its storage can be asked for.
  abbrev Repeats : State × Option AccountInfo → Type 0
  Repeats (s, info) = (basic db' s a ≡ answered (s, info)) × Safe (storage db' s a k)

  loaded-Repeats :
      (s : State) (c : CacheAccount)
      → lookup a s.cache.accounts ≡ some c
      → Repeats (s, account_info c)
  unfolding basic load_cache_account
  loaded-Repeats s c found = (rw found refl, storage-Safe db' s a k c found)

  same_answer : (p q : State × Option AccountInfo) → answered p ≡ answered q → Repeats p → Repeats q
  same_answer p q e h = let same : p ≡ q = cc in subst Repeats same h

-- When the state answers for an account from one database, preloaded bundle included, the state
-- it leaves answers for that account with the same information and without a further change,
-- whatever the database then says, and reading any of its slots does not panic.
pub basic_repeats :
    (db db' : Database) (s s' : State) (a k : ℕ) (info : Option AccountInfo)
    → basic db s a ≡ ok (s', info)
    → (basic db' s' a ≡ ok (s', info)) × Safe (storage db' s' a k)
unfolding basic
basic_repeats db db' s s' a k info e =
    let ((loaded, c), loads, last) =
      bind-ok (load_cache_account db s a) (λ (loaded, c). answered (loaded, account_info c)) e in
    let found = load_cache_account-Holds db s loaded a c loads in
    same_answer db' a k (loaded, account_info c) (s', info) last
      (loaded-Repeats db' a k loaded c found)
