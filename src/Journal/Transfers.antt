-- ===== src/Journal/Transfers.antt =====
-- Transfers keep the invariant of the frame, unless the recipient's balance overflows.
use baron_evm.Journal.View.{Hasher}
use baron_evm.Base.{
  ℕ, ◌+◌, ◌-◌, ◌≤◌, ◌<◌, true, false, Option, some, [], ◌∷◌, ◌==◌, ◌≡◌, ◌≢◌, refl, sym, ap, subst,
  arith, put-put, Bool-cases, inl, inr, ltb, checked_add256, wrapping_add256, u256_mod,
}
use baron_evm.Journal.Accounts.{Account, set_balance}
use baron_evm.Journal.Entries.{World, balance_transfer, revert_entry, add_balance, sub_balance}
use baron_evm.Journal.Restores.{Restores}
use baron_evm.Journal.{JournaledState}
use baron_evm.Journal.Value.{InstructionResult, overflow_payment, pay}
use baron_evm.Journal.Since.{Since, IsValid, Ensures, push-changed, sd_of}
use baron_evm.Journal.Single.{replaced, IsValid-replaced, Fits-loaded}
use baron_evm.Journal.Pairs.{Restores-pair, Restores-twice}

module _ ⦃hasher : Hasher⦄ where
  -- What a transfer that did not overflow ensures.
  abbrev pub Unless : JournaledState → JournaledState × Option InstructionResult → Type 0
  Unless base r = r.1 ≢ some overflow_payment → Since base r.0

  -- The debit of an account that is in the state.
  abbrev pub debited : World → ℕ → ℕ → Account → World
  debited w from rest acc = replaced w from (set_balance rest acc)

  checked_add_some :
      (a b sum : ℕ) → checked_add256 a b ≡ some sum → (sum ≡ a + b) × (a + b < u256_mod)
  checked_add_some a b sum h = ground arith

  module _ (base js : JournaledState) (from balance rest : ℕ) (f : Account) where
    pub pay_other :
        (to : ℕ) (t : Account)
        → Since base js
        → (from == to) ≡ false
        → js.state from ≡ some f
        → js.state to ≡ some t
        → balance ≤ f.info.balance
        → rest ≡ f.info.balance - balance
        → Ensures (Unless base) (
            pay
              (record js { world = debited js.world from rest f })
              from
              to
              balance
              t
              (checked_add256 t.info.balance balance))
    unfolding revert_entry pay
    pay_other to t s ne here there enough e =
        elim (Bool-cases (ltb (t.info.balance + balance) u256_mod)) [
          | inr over ↦ rw (over, pay) (λ h. absurd (h refl))
          | inl room ↦
              let sum = t.info.balance + balance in
              let fits_f = Fits-loaded js.world from s.valid here in
              let fits_t = Fits-loaded js.world to s.valid there in
              let f' = set_balance rest f in
              let t' = set_balance sum t in
              let back_f : add_balance balance f' ≡ some f =
                ap (λ n. some (set_balance n f)) (omega arith) in
              let back_t : sub_balance balance t' ≡ some t =
                ap (λ n. some (set_balance n t)) (ground arith) in
              rw (room, pay)
                (push-changed base js (debited js.world from rest f)
                  (replaced (debited js.world from rest f) to t') (balance_transfer from to balance)
                  (Unless base) _ s
                  (Restores-pair (sd_of base) (balance_transfer from to balance) js.world from to
                    (add_balance balance) (sub_balance balance) f t f' t' f t ne here there refl
                    back_f back_t refl refl)
                  (IsValid-replaced (debited js.world from rest f) to t'
                    (IsValid-replaced js.world from f' s.valid (omega arith)) (ground arith))
                  λ j since h. since)
        ]

    pub pay_self :
        Since base js
        → js.state from ≡ some f
        → balance ≤ f.info.balance
        → rest ≡ f.info.balance - balance
        → Ensures (Unless base) (
            pay
              (record js { world = debited js.world from rest f })
              from
              from
              balance
              (set_balance rest f)
              (checked_add256 rest balance))
    unfolding revert_entry pay
    pay_self s here enough e =
        let sum = rest + balance in
        let fits_f = Fits-loaded js.world from s.valid here in
        let paid = set_balance sum f in
        let collapse : replaced (debited js.world from rest f) from paid
            ≡ replaced js.world from paid =
          ap (λ m. record (js.world) { state = m })
            (put-put js.world.state from (some (set_balance rest f)) (some paid)) in
        let credited = wrapping_add256 sum balance in
        let back : sub_balance balance (set_balance credited f) ≡ some f =
          ap (λ n. some (set_balance n f)) (omega arith) in
        let room : ltb (rest + balance) u256_mod ≡ true = ground arith in
        rw (room, pay)
          (push-changed base js (debited js.world from rest f)
            (replaced (debited js.world from rest f) from paid) (balance_transfer from from balance)
            (Unless base) _ s
            (subst (λ v. Restores (sd_of base) (balance_transfer from from balance ∷ []) v js.world)
              (sym collapse)
              (Restores-twice (sd_of base) (balance_transfer from from balance) js.world from
                (add_balance balance) (sub_balance balance) f paid (set_balance credited f) f here
                refl refl back refl))
            (subst IsValid (sym collapse)
              (IsValid-replaced js.world from paid s.valid (omega arith)))
            λ j since h. since)
