-- ===== src/States/Chain/Reads.antt =====
-- crates/bcevm/src/db/states/state.rs: what a slot reads as once it was read.
use baron_evm.Base.{ℕ, Option, none, some, ◌≡◌, refl, subst, ap, ◌∙◌, if◌then◌else◌, ==_refl}
use baron_evm.Base.Outcome.{ok, bind-ok, ok_or}
use baron_evm.Base.Dict.{Dict, lookup, store, lookup-store}
use baron_evm.Journal.Accounts.{Database}
use baron_evm.Journal.{Fallible, database}
use baron_evm.States.Status.{is_storage_known}
use baron_evm.States.Accounts.{CacheAccount, PlainAccount}
use baron_evm.States.Chain.{State, read_slot, read_account, read_cache, storage, put_slot}

pub lookup-same : {V : Type 0} (k : ℕ) (v : V) (m : Dict V) → lookup k (store k v m) ≡ some v
lookup-same k v m = lookup-store k k v m ∙ ap (λ t. if t then some v else lookup k m) (==_refl k)

-- A slot that the cache has is read from there.
storage_cached :
    (db : Database) (s : State) (a k v : ℕ) (c : CacheAccount) (plain : PlainAccount)
    → lookup a s.cache.accounts ≡ some c
    → c.account ≡ some plain
    → lookup k plain.storage ≡ some v
    → storage db s a k ≡ ok (s, v)
unfolding storage
storage_cached db s a k v c plain found filled slot = rw (found, filled, slot) refl

-- A slot that was read is in the cache.
storage-put_slot :
    (db : Database) (s : State) (a k v : ℕ) (c : CacheAccount) (plain : PlainAccount)
    → storage db (put_slot s a c plain k v) a k ≡ ok (put_slot s a c plain k v, v)
storage-put_slot db s a k v c plain =
    storage_cached db (put_slot s a c plain k v) a k v
      (record c { account = some (record plain { storage = store k v plain.storage }) })
      (record plain { storage = store k v plain.storage })
      (lookup-same a
        (record c { account = some (record plain { storage = store k v plain.storage }) })
        s.cache.accounts)
      refl (lookup-same k v plain.storage)

abbrev returned : State × ℕ → Fallible (State × ℕ)
returned p = ok p

-- What holds of a result holds of an equal one.
kept :
    (db : Database) (a k : ℕ) (p q : State × ℕ)
    → storage db p.0 a k ≡ ok p
    → returned p ≡ returned q
    → storage db q.0 a k ≡ ok q
kept db a k p q h e = let same : p ≡ q = cc in subst (λ r. storage db r.0 a k ≡ ok r) same h

module _ (db db' : Database) (s s' : State) (a k v : ℕ) where
  again_slot :
      (c : CacheAccount) (plain : PlainAccount) (o : Option ℕ)
      → lookup a s.cache.accounts ≡ some c
      → c.account ≡ some plain
      → lookup k plain.storage ≡ o
      → read_slot db s a c plain k o ≡ ok (s', v)
      → storage db' s' a k ≡ ok (s', v)
  again_slot c plain (some w) found filled slot e =
      kept db' a k (s, w) (s', v) (storage_cached db' s a k w c plain found filled slot) e
  again_slot c plain none found filled slot e =
      let (value, _, last) =
        bind-ok (if is_storage_known c.status then ok 0 else ok_or (db.storage_at a k) database)
          (λ value. ok (put_slot s a c plain k value, value)) e in
      kept db' a k (put_slot s a c plain k value, value) (s', v)
        (storage-put_slot db' s a k value c plain) last

  again_account :
      (c : CacheAccount) (o : Option PlainAccount)
      → lookup a s.cache.accounts ≡ some c
      → c.account ≡ o
      → read_account db s a c k o ≡ ok (s', v)
      → storage db' s' a k ≡ ok (s', v)
  unfolding storage
  again_account c (some plain) found filled e =
      again_slot c plain (lookup k plain.storage) found filled refl e
  again_account c none found filled e = kept db' a k (s, 0) (s', v) (rw (found, filled) refl) e

  again_cache :
      (o : Option CacheAccount)
      → lookup a s.cache.accounts ≡ o
      → read_cache db s a k o ≡ ok (s', v)
      → storage db' s' a k ≡ ok (s', v)
  again_cache (some c) found e = again_account c c.account found refl e
  again_cache none found e = absurd (cc)

-- When the state answers a storage slot from one database, the state it leaves answers the same
-- slot with the same value and without a further change, whatever the database then says.
pub storage-storage :
    (db db' : Database) (s s' : State) (a k v : ℕ)
    → storage db s a k ≡ ok (s', v)
    → storage db' s' a k ≡ ok (s', v)
unfolding storage
storage-storage db db' s s' a k v e =
    again_cache db db' s s' a k v (lookup a s.cache.accounts) refl e
