-- ===== src/Journal/Payments.antt =====
-- `transfer` as a whole: the loads, the touches and the two balances.
use baron_evm.Journal.View.{Hasher}
use baron_evm.Base.{
  ℕ, ◌-◌, ◌≤◌, true, false, some, ◌==◌, ◌≡◌, refl, sym, ap, ◌∙◌, fun_ext, subst, arith, ==_refl,
  ==_iff, put-put, Bool-cases, inl, inr, ltb, checked_add256, checked_sub256,
}
use baron_evm.Journal.Accounts.{Account, Database, set_balance, set_touched}
use baron_evm.Journal.Entries.{World}
use baron_evm.Journal.{JournaledState, touch_account, load_account}
use baron_evm.Journal.Value.{transfer, credit, debit, pay}
use baron_evm.Journal.Since.{Since, Ensures, Ensures-bind}
use baron_evm.Journal.Single.{replaced}
use baron_evm.Journal.Pairs.{ne_comm}
use baron_evm.Journal.Touch.{
  After, Loaded, IsSound, touch_account-Since, touch-changed, load_account-Since,
}
use baron_evm.Journal.Steps.{state_after}
use baron_evm.Journal.Transfers.{Unless, debited, pay_other, pay_self}

module _ ⦃hasher : Hasher⦄ where
  module _ (base js : JournaledState) (from balance rest : ℕ) (f : Account) where
    abbrev start : JournaledState
    start = record js { world = debited js.world from rest f }

    swapped :
        (to : ℕ) (x : Account)
        → (from == to) ≡ false
        → debited (replaced js.world to x) from rest f
          ≡ replaced (debited js.world from rest f) to x
    swapped to x ne =
        ap (λ m. record (js.world) { state = m })
          (fun_ext λ c. ground (arith, ==_iff c from, ==_iff c to))

    collapsed :
        (x : Account)
        → debited (replaced js.world from x) from rest x
          ≡ replaced (debited js.world from rest f) from (set_balance rest x)
    collapsed x =
        ap (λ m. record (js.world) { state = m })
          (put-put js.world.state from (some x) (some (set_balance rest x))
            ∙ sym (
                put-put js.world.state from (some (set_balance rest f))
                  (some (set_balance rest x))))

    credit_other :
        (to : ℕ) (t : Account)
        → Since base js
        → (from == to) ≡ false
        → js.state from ≡ some f
        → js.state to ≡ some t
        → balance ≤ f.info.balance
        → rest ≡ f.info.balance - balance
        → Ensures (Unless base) (credit start from to balance)
    unfolding credit
    credit_other to t s ne here there enough e =
        rw (ne_comm from to ne, there)
          (touch-changed base js (debited js.world from rest f) to t t (Unless base) _ s there
            (rw (ne_comm from to ne) there) refl
            λ j since. rw (==_refl to) (
              subst
                (λ w. Ensures (Unless base) (
                  pay (record js { world = w; journal = j }) from to balance (set_touched true t)
                    (checked_add256 t.info.balance balance)))
                (swapped to (set_touched true t) ne)
                (pay_other base
                  (record js { world = replaced js.world to (set_touched true t); journal = j })
                  from balance rest f to (set_touched true t) since ne (rw ne here)
                  (rw (==_refl to) refl) enough e)))

    credit_self :
        Since base js
        → js.state from ≡ some f
        → balance ≤ f.info.balance
        → rest ≡ f.info.balance - balance
        → Ensures (Unless base) (credit start from from balance)
    unfolding credit
    credit_self s here enough e = rw (==_refl from) (
        touch-changed base js (debited js.world from rest f) from f (set_balance rest f)
          (Unless base) _ s here (rw (==_refl from) refl) refl
          λ j since. rw (==_refl from) (
            subst
              (λ w. Ensures (Unless base) (
                pay (record js { world = w; journal = j }) from from balance
                  (set_balance rest (set_touched true f)) (checked_add256 rest balance)))
              (collapsed (set_touched true f))
              (pay_self base
                (record js { world = replaced js.world from (set_touched true f); journal = j })
                from balance rest (set_touched true f) since (rw (==_refl from) refl) enough e)))

  -- The recipient is in the state too, once the sender has been replaced.
  also_there :
      (p : JournaledState) (w : World) (from to : ℕ) (f t : Account)
      → p.world ≡ replaced w from f
      → w.state to ≡ some t
      → (x : Account) × (p.state to ≡ some x)
  also_there p w from to f t e there = elim (Bool-cases (to == from)) [
    | inl same ↦ (f, ap (λ v. v.state to) e ∙ rw same refl)
    | inr other ↦ (t, ap (λ v. v.state to) e ∙ rw other there)
  ]

  -- The end of `transfer`, from the debit on.
  debit_credit :
      (base js : JournaledState) (from to balance : ℕ) (f : Account)
      → Since base js
      → js.state from ≡ some f
      → (x : Account) × (js.state to ≡ some x)
      → Ensures (Unless base) (debit js from to balance f (checked_sub256 f.info.balance balance))
  unfolding debit
  debit_credit base js from to balance f s here (t, there) =
      elim (Bool-cases (ltb f.info.balance balance)) [
        | inl poor ↦ rw (poor, debit) (λ h. s)
        | inr rich ↦
            let rest = f.info.balance - balance in
            let enough : balance ≤ f.info.balance = ground arith in
            rw (rich, debit)
              (elim (Bool-cases (from == to)) [
                | inr ne ↦ credit_other base js from balance rest f to t s ne here there enough refl
                | inl same ↦
                    subst
                      (λ c. Ensures (Unless base) (
                        credit (record js { world = debited js.world from rest f }) from c balance))
                      ((==_iff from to).0 same)
                      (credit_self base js from balance rest f s here enough refl)
              ])
      ]

  -- A transfer keeps the invariant, unless it ends in an overflow of the recipient's balance.
  pub transfer-Unless :
      (base js : JournaledState) (from to balance : ℕ) (db : Database)
      → IsSound hasher.keccak256 db
      → Since base js
      → Ensures (Unless base) (transfer js from to balance db)
  unfolding transfer
  transfer-Unless base js from to balance db typed s =
      Ensures-bind (Loaded base js from) (Unless base) (load_account js from db) _
        (load_account-Since base js from db typed s)
        λ r h.
          Ensures-bind (Loaded base r.0 to) (Unless base) (load_account r.0 to db) _
            (load_account-Since base r.0 to db typed h.0)
            λ q g. rw (g.2 from r.1 h.1) (
              Ensures-bind (After base (replaced q.0.world from (set_touched true r.1)))
                (Unless base) (touch_account q.0 from r.1) _
                (touch_account-Since base q.0 from r.1 g.0 (g.2 from r.1 h.1))
                λ p t. rw (state_after p q.0.world from (set_touched true r.1) t.1) (
                  debit_credit base p from to balance (set_touched true r.1) t.0
                    (state_after p q.0.world from (set_touched true r.1) t.1)
                    (also_there p q.0.world from to (set_touched true r.1) q.1 t.1 g.1)))
