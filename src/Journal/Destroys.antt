-- ===== src/Journal/Destroys.antt =====
-- Self-destruction keeps the invariant of the frame.
use baron_evm.Journal.View.{Hasher}
use baron_evm.Base.{
  ℕ, true, false, not, ◌||◌, some, [], ◌∷◌, ◌==◌, ◌≡◌, refl, sym, ap, ◌∙◌, fun_ext, subst, arith,
  ==_refl, ==_iff, Bool-cases, Option-cases, inl, inr, wrapping_add256,
}
use baron_evm.Spec.{enabled, cancun}
use baron_evm.Journal.Accounts.{Account, Database, set_balance, set_touched, set_selfdestructed}
use baron_evm.Journal.Entries.{
  JournalEntry, World, account_destroyed, balance_transfer, revert_entry, undestroy, add_balance,
  sub_balance,
}
use baron_evm.Journal.Restores.{Restores}
use baron_evm.Journal.{JournaledState, load_account_exist}
use baron_evm.Journal.Value.{destroy, credit_target, selfdestruct}
use baron_evm.Journal.Since.{Since, Fits, Ensures, Ensures-bind, Kept, push-last, sd_of}
use baron_evm.Journal.Single.{replaced, IsValid-replaced, Fits-loaded, Restores-modify}
use baron_evm.Journal.Pairs.{Restores-pair}
use baron_evm.Journal.Touch.{IsSound, touch-changed}
use baron_evm.Journal.Codes.{Existing, load_account_exist-Since}

module _ ⦃hasher : Hasher⦄ where
  replaced_swap :
      (w : World) (a b : ℕ) (x y : Account)
      → (a == b) ≡ false
      → replaced (replaced w a x) b y ≡ replaced (replaced w b y) a x
  replaced_swap w a b x y ne =
      ap (λ m. record w { state = m }) (fun_ext λ c. ground (arith, ==_iff c a, ==_iff c b))

  module _ (base js : JournaledState) (address target : ℕ) (acc : Account) where
    destroy_self :
        Since base js
        → (address == target) ≡ true
        → js.state address ≡ some acc
        → Ensures (Since base) (destroy js address target acc)
    unfolding destroy revert_entry
    destroy_self s same here =
        elim (Bool-cases (acc.status.created || not (enabled js.spec cancun))) [
          | inr stays ↦ rw (stays, same) s
          | inl goes ↦
              let fits = Fits-loaded js.world address s.valid here in
              let x = set_selfdestructed true (set_balance 0 acc) in
              let entry =
                account_destroyed address target acc.status.selfdestructed acc.info.balance in
              let back : undestroy acc.status.selfdestructed acc.info.balance x ≡ some acc =
                ap (λ n. some (set_balance n acc)) (omega arith) in
              rw goes (
                push-last base js (replaced js.world address x) entry s
                  (Restores-modify (sd_of base) entry js.world address x acc
                    (undestroy acc.status.selfdestructed acc.info.balance) (rw same refl) here back
                    refl)
                  (IsValid-replaced js.world address x s.valid (omega arith)))
        ]

    destroy_other :
        (t : Account)
        → Since base js
        → (address == target) ≡ false
        → js.state address ≡ some acc
        → js.state target ≡ some t
        → let t' = set_balance (wrapping_add256 t.info.balance acc.info.balance) t in
          Ensures
            (Since base)
            (destroy (record js { world = replaced js.world target t' }) address target acc)
    unfolding destroy revert_entry
    destroy_other t s ne here there =
        let fits = Fits-loaded js.world address s.valid here in
        let fits_t = Fits-loaded js.world target s.valid there in
        let had = acc.info.balance in
        let t' = set_balance (wrapping_add256 t.info.balance had) t in
        let back_t : sub_balance had t' ≡ some t = ap (λ n. some (set_balance n t)) (omega arith) in
        let back : add_balance had (set_balance 0 acc) ≡ some acc =
          ap (λ n. some (set_balance n acc)) (omega arith) in
        let valid = λ (x : Account) (h : Fits (some x)).
          IsValid-replaced (replaced js.world target t') address x
            (IsValid-replaced js.world target t' s.valid (omega arith)) h in
        let over = λ (e : JournalEntry) (x : Account).
          subst (λ w. Restores (sd_of base) (e ∷ []) w js.world)
            (replaced_swap js.world address target x t' ne) in
        elim (Bool-cases (acc.status.created || not (enabled js.spec cancun))) [
          | inr stays ↦
              let entry = balance_transfer address target had in
              let x = set_balance 0 acc in
              rw (stays, ne)
                (push-last base js (replaced (replaced js.world target t') address x) entry s
                  (over entry x (
                    Restores-pair (sd_of base) entry js.world address target (add_balance had)
                      (sub_balance had) acc t x t' acc t ne here there refl back back_t refl refl))
                  (valid x (omega arith)))
          | inl goes ↦
              let entry = account_destroyed address target acc.status.selfdestructed had in
              let x = set_selfdestructed true (set_balance 0 acc) in
              rw goes (
                push-last base js (replaced (replaced js.world target t') address x) entry s
                  (over entry x (
                    Restores-pair (sd_of base) entry js.world address target
                      (undestroy acc.status.selfdestructed had) (sub_balance had) acc t x t' acc t
                      ne here there (rw ne refl) back back_t refl refl))
                  (valid x (omega arith)))
        ]

  -- The account may be destroyed from here.
  abbrev Ready : JournaledState → ℕ → ℕ → JournaledState → Type 0
  Ready base address target q =
      (acc : Account)
      → q.state address ≡ some acc
      → Ensures (Since base) (destroy q address target acc)

  some_injective : {a b : Account} → some a ≡ some b → a ≡ b
  some_injective e = cc

  credit_target-Ready :
      (base js : JournaledState) (address target : ℕ)
      → Since base js
      → Ensures (Ready base address target) (credit_target js address target)
  unfolding credit_target
  credit_target-Ready base js address target s = elim (Bool-cases (address == target)) [
    | inl same ↦ rw same (λ acc e. destroy_self base js address target acc s same e)
    | inr ne ↦ elim (Option-cases (js.state address)) [
      | inl e ↦ rw (ne, e) tt
      | inr (acc, here) ↦ elim (Option-cases (js.state target)) [
        | inl e ↦ rw (ne, here, e) tt
        | inr (t, there) ↦
            rw (ne, here, there)
              (touch-changed base js js.world target t t (Ready base address target) _ s there there
                refl
                λ j since. rw (==_refl target) λ acc' e.
                  let same : acc ≡ acc' = some_injective (sym here ∙ (rw ne at e)) in
                  subst
                    (λ a. Ensures (Since base) (
                      destroy
                        (record js {
                          world = replaced (replaced js.world target (set_touched true t)) target (
                              set_balance (wrapping_add256 t.info.balance acc.info.balance)
                                (set_touched true t));
                          journal = j;
                        })
                        address target a))
                    same
                    (destroy_other base
                      (record js {
                        world = replaced js.world target (set_touched true t);
                        journal = j;
                      })
                      address target acc (set_touched true t) since ne (rw ne here)
                      (rw (==_refl target) refl)))
      ]
    ]
  ]

  -- `selfdestruct` as a whole.
  pub selfdestruct-Since :
      (base js : JournaledState) (address target : ℕ) (db : Database)
      → IsSound hasher.keccak256 db
      → Since base js
      → Ensures (Kept base) (selfdestruct js address target db)
  unfolding selfdestruct
  selfdestruct-Since base js address target db typed s =
      Ensures-bind (Existing base js) (Kept base) (load_account_exist js target db) _
        (load_account_exist-Since base js target db typed s)
        λ r h.
          Ensures-bind (Ready base address target) (Kept base) (credit_target r.0 address target) _
            (credit_target-Ready base r.0 address target h.0)
            λ q ready. elim (Option-cases (q.state address)) [
              | inl e ↦ rw e tt
              | inr (acc, e) ↦ rw e (
                  Ensures-bind (Since base) (Kept base) (destroy q address target acc) _
                    (ready acc e) λ p since. since)
            ]
