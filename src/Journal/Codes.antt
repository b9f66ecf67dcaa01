-- ===== src/Journal/Codes.antt =====
-- Loading accounts with their code keeps the invariant of the frame.
use baron_evm.Journal.View.{Hasher}
use baron_evm.Base.{
  ℕ, true, Option, none, some, ◌≡◌, refl, sym, subst, if◌then◌else◌, ap, ◌∙◌, arith, Bool-cases,
  Option-cases, inl, inr, ◌==◌,
}
use baron_evm.Base.Outcome.{ok, ok_or, ◌>>=◌}
use baron_evm.Bytecode.{Bytecode, hash_slow, keccak_empty, new as default_bytecode}
use baron_evm.Journal.Accounts.{Account, Database, set_code_info}
use baron_evm.Journal.View.{
  view_account, view_code, hashes_to, hashes_to-hash_slow, view_code-hashes_to,
}
use baron_evm.Journal.{
  JournaledState, Fallible, database, load_account, fetch_code, load_code, load_account_exist,
  LoadAccountResult,
}
use baron_evm.Journal.Since.{
  Since, Ensures, Ensures-bind, Ensures-map, KeptTriple, Since-same, sd_of,
}
use baron_evm.Journal.Single.{replaced, IsValid-replaced, Fits-loaded, view-replaced}
use baron_evm.Journal.Touch.{Loaded, IsSound, load_account-Since}

module _ ⦃hasher : Hasher⦄ where
  -- Only the code differs, and that of the hash is not seen.
  abbrev SameButCode : Account → Account → Type 0
  SameButCode acc filled =
      (c : Option Bytecode) × (filled ≡ set_code_info acc.info.code_hash c acc)
      × (view_code c acc.info.code_hash ≡ view_code acc.info.code acc.info.code_hash)

  default_hashes_to :
      (hash : ℕ) → (hash == keccak_empty) ≡ true → hashes_to default_bytecode hash ≡ true
  unfolding hash_slow default_bytecode
  default_hashes_to hash e = ground arith

  Ensures-ok_or : {A : Type 0} (o : Option A) → Ensures (λ a. o ≡ some a) (ok_or o database)
  Ensures-ok_or none = tt
  Ensures-ok_or (some a) = refl

  -- The code of an account that has it under its hash only.
  abbrev found_code : Account → Database → Fallible Bytecode
  found_code acc db =
      if acc.info.code_hash == keccak_empty
      then ok default_bytecode
      else ok_or (db.code_by_hash acc.info.code_hash) database

  fetch_code-none :
      (acc : Account) (db : Database)
      → acc.info.code ≡ none
      → fetch_code acc db
        ≡ (found_code acc db >>= λ c. ok (set_code_info acc.info.code_hash (some c) acc))
  unfolding fetch_code
  fetch_code-none acc db e = elim (Bool-cases (acc.info.code_hash == keccak_empty)) [
    | inl h ↦ rw (e, fetch_code, h) refl
    | inr h ↦ rw (e, fetch_code, h) refl
  ]

  found_code-hashes_to :
      (acc : Account) (db : Database)
      → IsSound hasher.keccak256 db
      → Ensures (λ c. hashes_to c acc.info.code_hash ≡ true) (found_code acc db)
  found_code-hashes_to acc db sound = elim (Bool-cases (acc.info.code_hash == keccak_empty)) [
    | inl h ↦ rw h (default_hashes_to acc.info.code_hash h)
    | inr h ↦ rw h (
        Ensures-map (λ c. db.code_by_hash acc.info.code_hash ≡ some c)
          (λ c. hashes_to c acc.info.code_hash ≡ true)
          (ok_or (db.code_by_hash acc.info.code_hash) database)
          (λ c found.
            hashes_to-hash_slow c acc.info.code_hash (sound.codes acc.info.code_hash c found))
          (Ensures-ok_or (db.code_by_hash acc.info.code_hash)))
  ]

  fetch_code-same :
      (acc : Account) (db : Database)
      → IsSound hasher.keccak256 db
      → Ensures (SameButCode acc) (fetch_code acc db)
  unfolding fetch_code
  fetch_code-same acc db sound = elim (Option-cases acc.info.code) [
    | inr (c, e) ↦
        rw (e, fetch_code) (acc.info.code, refl, ap (λ o. view_code o acc.info.code_hash) e)
    | inl e ↦ subst (Ensures (SameButCode acc)) (sym (fetch_code-none acc db e)) (
        Ensures-bind (λ c. hashes_to c acc.info.code_hash ≡ true) (SameButCode acc)
          (found_code acc db) _ (found_code-hashes_to acc db sound)
          λ c same.
            let unseen = view_code-hashes_to c acc.info.code_hash same in
            (some c, refl, unseen ∙ ap (λ o. view_code o acc.info.code_hash) (sym e)))
  ]

  pub load_code-Since :
      (base js : JournaledState) (address : ℕ) (db : Database)
      → IsSound hasher.keccak256 db
      → Since base js
      → Ensures (KeptTriple base) (load_code js address db)
  unfolding load_code
  load_code-Since base js address db typed s =
      Ensures-bind (Loaded base js address) (KeptTriple base) (load_account js address db) _
        (load_account-Since base js address db typed s)
        λ r h.
          Ensures-bind (SameButCode r.1) (KeptTriple base) (fetch_code r.1 db) _
            (fetch_code-same r.1 db typed)
            λ filled same. rw same.1 (
              Since-same base r.0
                (replaced r.0.world address (set_code_info r.1.info.code_hash same.0 r.1)) h.0
                (view-replaced (sd_of base) r.0.world address _ h.1 (
                  ap
                    (λ c. record (view_account (sd_of base) address r.1) {
                      info = record (r.1.info) { code = c };
                    })
                    same.2))
                (IsValid-replaced r.0.world address (set_code_info r.1.info.code_hash same.0 r.1)
                  h.0.valid (Fits-loaded r.0.world address h.0.valid h.1)))

  abbrev pub Existing :
      JournaledState → JournaledState → JournaledState × LoadAccountResult → Type 0
  Existing base js r =
      Since base r.0 × ((a : ℕ) (acc : Account) → js.state a ≡ some acc → r.0.state a ≡ some acc)

  pub load_account_exist-Since :
      (base js : JournaledState) (address : ℕ) (db : Database)
      → IsSound hasher.keccak256 db
      → Since base js
      → Ensures (Existing base js) (load_account_exist js address db)
  unfolding load_account_exist
  load_account_exist-Since base js address db typed s =
      Ensures-bind (Loaded base js address) (Existing base js) (load_account js address db) _
        (load_account-Since base js address db typed s) λ r h. (h.0, h.2)
