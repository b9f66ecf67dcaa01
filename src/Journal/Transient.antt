-- ===== src/Journal/Transient.antt =====
-- Writes of transient storage keep the invariant of the frame.
use baron_evm.Journal.View.{Hasher}
use baron_evm.Base.{
  ℕ, Option, none, some, [], ◌∷◌, ◌≡◌, ◌≢◌, refl, sym, ap, ◌∙◌, fun_ext, arith, HashMap, put,
  Bool-cases, Option-cases, inl, inr, ◌==◌, if◌then◌else◌, ==_iff, put_same, put-put_back,
}
use baron_evm.Journal.Entries.{
  World, transient_storage_change, revert_entry, journal_revert, put_transient,
}
use baron_evm.Journal.View.{view}
use baron_evm.Journal.Restores.{Restores}
use baron_evm.Journal.{JournaledState}
use baron_evm.Journal.Storage.{tstore, previous_transient}
use baron_evm.Journal.Since.{Since, IsValid, Ensures, push-last, Since-same, sd_of}

module _ ⦃hasher : Hasher⦄ where
  put_transient_back :
      (t : ℕ → HashMap ℕ) (address key : ℕ) (o : Option ℕ)
      → put_transient (put_transient t address key o) address key (t address key) ≡ t
  put_transient_back t address key o = fun_ext λ b. elim (Bool-cases (b == address)) [
    | inl e ↦
        rw e (put-put_back (t b) key o (t address key) (ap (λ c. t c key) ((==_iff b address).0 e)))
    | inr e ↦ rw e refl
  ]

  put_transient_same :
      (t : ℕ → HashMap ℕ) (address key : ℕ) → put_transient t address key (t address key) ≡ t
  put_transient_same t address key = fun_ext λ b. elim (Bool-cases (b == address)) [
    | inl e ↦
        rw e (ap (λ c. put (t b) key (t c key)) (sym ((==_iff b address).0 e)) ∙ put_same (t b) key)
    | inr e ↦ rw e refl
  ]

  -- What is stored for a value: nothing for zero.
  abbrev stored : ℕ → Option ℕ
  stored new = if new == 0 then none else some new

  stored_unchanged :
      (old : Option ℕ) (new : ℕ)
      → old ≢ some 0
      → previous_transient old new ≡ none
      → stored new ≡ old
  unfolding previous_transient
  stored_unchanged none new h e = ground arith
  stored_unchanged (some v) new h e = ground arith

  stored_previous :
      (old : Option ℕ) (new had : ℕ)
      → old ≢ some 0
      → previous_transient old new ≡ some had
      → stored had ≡ old
  unfolding previous_transient
  stored_previous none new had h e = ground arith
  stored_previous (some v) new had h e = ground (arith, λ (z : v ≡ 0). h (ap some z))

  abbrev written : JournaledState → ℕ → ℕ → ℕ → World
  written js address key new = record (js.world) {
    transient_storage = put_transient js.transient_storage address key (stored new);
  }

  IsValid-written :
      (base js : JournaledState) (address key new : ℕ)
      → Since base js
      → IsValid (written js address key new)
  IsValid-written base js address key new s = record {
    accounts = s.valid.accounts;
    transient = λ b j. elim (Bool-cases (b == address)) [
      | inl e ↦ rw e (ground (arith, s.valid.transient address j))
      | inr e ↦ rw e (s.valid.transient b j)
    ];
  }

  pub tstore-Since :
      (base js : JournaledState) (address key new : ℕ)
      → Since base js
      → Ensures (Since base) (tstore js address key new)
  unfolding tstore journal_revert revert_entry
  tstore-Since base js address key new s =
      let old = js.transient_storage address key in
      elim (Option-cases (previous_transient old new)) [
        | inl e ↦
            rw (e, tstore)
              (Since-same base js (written js address key new) s
                (ap (λ t. view (sd_of base) (record (js.world) { transient_storage = t })) (same e))
                (IsValid-written base js address key new s))
        | inr (had, e) ↦
            rw (e, tstore)
              (push-last base js (written js address key new)
                (transient_storage_change address key had) s (leads_back had e)
                (IsValid-written base js address key new s))
      ]
    where
      same :
          previous_transient (js.transient_storage address key) new ≡ none
          → put_transient js.transient_storage address key (stored new) ≡ js.transient_storage
      same e =
          ap (put_transient js.transient_storage address key) (
            stored_unchanged (js.transient_storage address key) new (s.valid.transient address key)
              e)
          ∙ put_transient_same js.transient_storage address key

      leads_back :
          (had : ℕ)
          → previous_transient (js.transient_storage address key) new ≡ some had
          → Restores
              (sd_of base)
              (transient_storage_change address key had ∷ [])
              (written js address key new)
              js.world
      leads_back had e = (
        js.world,
        ap (λ t. some (record (js.world) { transient_storage = t }))
            (ap
                (put_transient (put_transient js.transient_storage address key (stored new)) address
                  key)
                (stored_previous (js.transient_storage address key) new had
                  (s.valid.transient address key) e)
              ∙ put_transient_back js.transient_storage address key (stored new)),
        refl,
      )
