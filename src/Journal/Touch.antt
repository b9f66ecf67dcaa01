-- ===== src/Journal/Touch.antt =====
-- Touching and loading keep the invariant of the frame, and what they make of the state.
use baron_evm.Journal.View.{Hasher}
use baron_evm.Base.{
  ℕ, Bool, true, none, some, List, ◌≡◌, refl, sym, ap, ◌∙◌, subst, arith, insert, put, put_same,
  Bool-cases, Option-cases, inl, inr, ◌==◌, ◌<◌, u256_mod, u64_mod, ==_refl, ==_iff,
}
use baron_evm.Base.Outcome.{ok, ◌>>=◌, >>=_assoc}
use baron_evm.Bytecode.{Bytecode, hash_slow}
use baron_evm.Journal.Accounts.{
  Account, AccountInfo, Database, set_touched, default_info, new_not_existing, from_info,
}
use baron_evm.Journal.Entries.{JournalEntry, World, account_touched, account_loaded}
use baron_evm.Journal.{
  JournaledState, Fallible, set_state, push_entry, touch_account, touch, fetch_account,
  load_account,
}
use baron_evm.Journal.Since.{
  Since, Fits, Ensures, Ensures-bind, Ensures-map, push-then, push-changed, sd_of,
}
use baron_evm.Journal.Single.{
  replaced, IsValid-replaced, Fits-loaded, Restores-touched, Restores-loaded,
}

-- The database answers with integers of their types, and with code that has the hash.
pub record IsSound (keccak256 : List ℕ → ℕ) (db : Database) : Type 0 where
  pub integers :
      (address : ℕ) (i : AccountInfo)
      → db.basic address ≡ some (some i)
      → (i.balance < u256_mod) × (i.nonce < u64_mod)
  pub codes :
      (hash : ℕ) (code : Bytecode)
      → db.code_by_hash hash ≡ some code
      → hash_slow keccak256 code ≡ some hash

module _ ⦃hasher : Hasher⦄ where
  -- A changed world over an unchanged rest; the path that a step ensures about the world.
  abbrev pub After : JournaledState → World → JournaledState → Type 0
  After base w p = Since base p × (p.world ≡ w)

  set_touched-same : (a : Account) → a.status.touched ≡ true → set_touched true a ≡ a
  set_touched-same a e i = record a { status = record (a.status) { touched = sym e i } }

  pub replaced_same :
      (w : World) (address : ℕ) (acc : Account)
      → w.state address ≡ some acc
      → replaced w address acc ≡ w
  replaced_same w address acc e =
      ap (λ s. record w { state = s }) (ap (put w.state address) (sym e) ∙ put_same w.state address)

  pub touch_account-Since :
      (base js : JournaledState) (address : ℕ) (acc : Account)
      → Since base js
      → js.state address ≡ some acc
      → Ensures
          (After base (replaced js.world address (set_touched true acc)))
          (touch_account js address acc)
  unfolding touch_account
  touch_account-Since base js address acc s here = elim (Bool-cases acc.status.touched) [
    | inl e ↦ rw e (
      s,
      sym (
          ap (replaced js.world address) (set_touched-same acc e)
          ∙ replaced_same js.world address acc here),
    )
    | inr e ↦ rw e (
        push-then base js (replaced js.world address (set_touched true acc))
          (account_touched address) (After base (replaced js.world address (set_touched true acc)))
          (λ p. ok (set_state p (insert p.state address (set_touched true acc)))) s
          (Restores-touched (sd_of base) js.world address acc here e)
          (IsValid-replaced js.world address (set_touched true acc) s.valid
            (Fits-loaded js.world address s.valid here))
          (λ j since. (since, refl)))
  ]

  abbrev mark_touched : JournaledState → ℕ → Account → Fallible JournaledState
  mark_touched p address x = ok (set_state p (insert p.state address (set_touched true x)))

  -- Touching in front of the rest of a `do` block, where the world was changed to `before` already but
  -- not the touched mark of the account.
  pub touch-changed :
      (base js : JournaledState) (before : World) (address : ℕ) (acc x : Account) {B : Type 0}
      (P : B → Type 0) (k : JournaledState → Fallible B)
      → Since base js
      → js.state address ≡ some acc
      → before.state address ≡ some x
      → x.status.touched ≡ acc.status.touched
      → ((j : List (List JournalEntry))
          → Since base
              (record js { world = replaced js.world address (set_touched true acc); journal = j })
          → Ensures P
              (k (record js { world = replaced before address (set_touched true x); journal = j })))
      → Ensures P (touch_account (record js { world = before }) address x >>= k)
  unfolding touch_account
  touch-changed base js before address acc x P k s here there same rest =
      elim (Bool-cases x.status.touched) [
        | inr e ↦
            let mark = λ (p : JournaledState). mark_touched p address x in
            rw e (
              subst (λ m. Ensures P m)
                (sym (
                  >>=_assoc (push_entry (record js { world = before }) (account_touched address))
                    mark k))
                (push-changed base js before (replaced js.world address (set_touched true acc))
                  (account_touched address) P (λ p. mark p >>= k) s
                  (Restores-touched (sd_of base) js.world address acc here (sym same ∙ e))
                  (IsValid-replaced js.world address (set_touched true acc) s.valid
                    (Fits-loaded js.world address s.valid here))
                  rest))
        | inl e ↦
            let kept : replaced js.world address (set_touched true acc) ≡ js.world =
              ap (replaced js.world address) (set_touched-same acc (sym same ∙ e))
              ∙ replaced_same js.world address acc here in
            let kept_x : replaced before address (set_touched true x) ≡ before =
              ap (replaced before address) (set_touched-same x e)
              ∙ replaced_same before address x there in
            rw e (
              subst (λ v. Ensures P (k (record js { world = v }))) kept_x
                (rest js.journal (subst (λ v. Since base (record js { world = v })) (sym kept) s)))
      ]

  pub touch-Since :
      (base js : JournaledState) (address : ℕ)
      → Since base js
      → Ensures (Since base) (touch js address)
  unfolding touch
  touch-Since base js address s = elim (Option-cases (js.state address)) [
    | inl e ↦ rw (e, touch) s
    | inr (acc, e) ↦
        rw (e, touch)
          (Ensures-map (After base (replaced js.world address (set_touched true acc))) (Since base)
            (touch_account js address acc) (λ p h. h.0)
            (touch_account-Since base js address acc s e))
  ]

  fetch_account-Fits :
      (db : Database) (address : ℕ)
      → IsSound hasher.keccak256 db
      → Ensures (λ a. Fits (some a)) (fetch_account db address)
  unfolding fetch_account new_not_existing from_info default_info
  fetch_account-Fits db address typed = elim (Option-cases (db.basic address)) [
    | inl e ↦ rw e tt
    | inr (none, e) ↦ rw e (omega arith)
    | inr (some i, e) ↦ rw e (typed.integers address i e)
  ]

  -- The account that was loaded is in the state, and an account that was there before still is.
  abbrev pub Loaded : JournaledState → JournaledState → ℕ → JournaledState × Account × Bool → Type 0
  Loaded base js address r =
      Since base r.0
      × (r.0.state address ≡ some r.1)
      × ((a : ℕ) (acc : Account) → js.state a ≡ some acc → r.0.state a ≡ some acc)

  insert_fresh :
      (js : JournaledState) (address : ℕ) (new : Account)
      → js.state address ≡ none
      → (a : ℕ) (acc : Account) → js.state a ≡ some acc
      → insert js.state address new a ≡ some acc
  insert_fresh js address new absent a acc e = elim (Bool-cases (a == address)) [
    | inl t ↦
        let clash : none ≡ some acc = sym absent ∙ ap js.state (sym ((==_iff a address).0 t)) ∙ e in
        absurd (cc)
    | inr t ↦ rw t e
  ]

  pub load_account-Since :
      (base js : JournaledState) (address : ℕ) (db : Database)
      → IsSound hasher.keccak256 db
      → Since base js
      → Ensures (Loaded base js address) (load_account js address db)
  unfolding load_account
  load_account-Since base js address db typed s = elim (Option-cases (js.state address)) [
    | inr (acc, e) ↦ rw (e, load_account) (s, e, λ a acc' h. h)
    | inl e ↦
        rw (e, load_account)
          (Ensures-bind (λ a. Fits (some a)) (Loaded base js address) (fetch_account db address) _
            (fetch_account-Fits db address typed)
            λ new fits.
              push-then base js (replaced js.world address new) (account_loaded address)
                (Loaded base js address) _ s (Restores-loaded (sd_of base) js.world address new e)
                (IsValid-replaced js.world address new s.valid fits)
                λ j since. (since, rw (==_refl address) refl, insert_fresh js address new e))
  ]
