-- ===== src/Journal/Steps.antt =====
-- Nonces, code and logs keep the invariant of the frame.
use baron_evm.Journal.View.{Hasher}
use baron_evm.Base.{
  ℕ, Bool, true, Option, none, some, [], ◌∷◌, ◌++◌, ◌≡◌, ◌≢◌, refl, sym, ap, ◌∙◌, arith, insert,
  Bool-cases, Option-cases, inl, inr, ◌==◌, u64_max, wrapping_add64, ==_refl, append_assoc,
}
use baron_evm.Base.Outcome.{ok, err, panic, unwrap, ◌>>=◌}
use baron_evm.Bytecode.{Bytecode, is_empty, hash_slow, keccak_empty}
use baron_evm.Journal.Accounts.{Account, set_touched, set_nonce, set_code_info}
use baron_evm.Journal.Entries.{
  World, nonce_change, code_change, decrement_nonce, remove_code, revert_entry,
}
use baron_evm.Journal.View.{view_account, view_code, hashes_to-hash_slow, view_code-hashes_to}
use baron_evm.Journal.{
  JournaledState, Log, Fallible, set_state, push_entry, touch_account, set_code, inc_nonce,
}
use baron_evm.Journal.Storage.{log}
use baron_evm.Journal.Since.{Since, Ensures, Ensures-bind, Kept, push-then, sd_of}
use baron_evm.Journal.Single.{replaced, IsValid-replaced, Fits-loaded, Restores-modify}
use baron_evm.Journal.Touch.{After, touch_account-Since}

pub Ensures-any : {A : Type 0} (m : Fallible A) → Ensures (λ a. Unit {0}) m
Ensures-any (ok a) = tt
Ensures-any (err e) = tt
Ensures-any panic = tt

-- No code, or code of no bytes.
abbrev pub NoBytes : Option Bytecode → Type 0
NoBytes none = Unit {0}
NoBytes (some code) = is_empty code ≡ true

-- The account has no code.
abbrev pub LacksCode : Account → Type 0
LacksCode acc = (acc.info.code_hash ≡ keccak_empty) × NoBytes acc.info.code

module _ ⦃hasher : Hasher⦄ where
  pub state_after :
      (p : JournaledState) (w : World) (address : ℕ) (x : Account)
      → p.world ≡ replaced w address x
      → p.state address ≡ some x
  state_after p w address x e = ap (λ v. v.state address) e ∙ rw (==_refl address) refl

  nonce_step :
      (base js : JournaledState) (address : ℕ) (acc : Account)
      → Since base js
      → js.state address ≡ some acc
      → acc.info.nonce ≢ u64_max
      → Ensures (Kept base) (do
        pushed ← push_entry js (nonce_change address)
        current ← unwrap (pushed.state address)
        let nonce = wrapping_add64 current.info.nonce 1
        ok (set_state pushed (insert pushed.state address (set_nonce nonce current)), some nonce))
  unfolding revert_entry
  nonce_step base js address acc s here room =
      let fits = Fits-loaded js.world address s.valid here in
      let new = wrapping_add64 acc.info.nonce 1 in
      let back : decrement_nonce (set_nonce new acc) ≡ some acc =
        ap (λ n. some (set_nonce n acc)) (omega arith) in
      push-then base js (replaced js.world address (set_nonce new acc)) (nonce_change address)
        (Kept base) _ s
        (Restores-modify (sd_of base) (nonce_change address) js.world address (set_nonce new acc)
          acc decrement_nonce refl here back refl)
        (IsValid-replaced js.world address (set_nonce new acc) s.valid (omega arith))
        λ j since. rw here since

  pub inc_nonce-Since :
      (base js : JournaledState) (address : ℕ)
      → Since base js
      → Ensures (Kept base) (inc_nonce js address)
  unfolding inc_nonce
  inc_nonce-Since base js address s = elim (Option-cases (js.state address)) [
    | inl e ↦ rw e tt
    | inr (acc, e) ↦ elim (Bool-cases (acc.info.nonce == u64_max)) [
      | inl full ↦ rw (e, full) s
      | inr room ↦
          rw (e, room)
            (Ensures-bind (After base (replaced js.world address (set_touched true acc)))
              (Kept base) (touch_account js address acc) _
              (touch_account-Since base js address acc s e)
              λ p h.
                nonce_step base p address (set_touched true acc) h.0
                  (state_after p js.world address (set_touched true acc) h.1) (ground arith))
    ]
  ]

  hash_slow-empty :
      (code : Bytecode) → is_empty code ≡ true → hash_slow hasher.keccak256 code ≡ some keccak_empty
  unfolding hash_slow is_empty
  hash_slow-empty code h = rw h refl

  view_code-empty : (o : Option Bytecode) → NoBytes o → view_code o keccak_empty ≡ none
  view_code-empty none h = refl
  view_code-empty (some code) h =
      view_code-hashes_to code keccak_empty
        (hashes_to-hash_slow code keccak_empty (hash_slow-empty code h))

  view_account-remove_code :
      (sd : Bool) (address : ℕ) (acc : Account)
      → LacksCode acc
      → view_account sd address (set_code_info keccak_empty none acc) ≡ view_account sd address acc
  view_account-remove_code sd address acc (empty, bytes) =
      let unseen : none ≡ view_code acc.info.code acc.info.code_hash =
        sym (ap (view_code acc.info.code) empty ∙ view_code-empty acc.info.code bytes) in
      λ i. record (view_account sd address acc) {
        info = record (acc.info) { code_hash = sym empty i; code = unseen i };
      }

  code_step :
      (base js : JournaledState) (address : ℕ) (o : Option ℕ) (code : Bytecode) (acc : Account)
      → Since base js
      → js.state address ≡ some acc
      → LacksCode acc
      → Ensures (Since base) (do
        pushed ← push_entry js (code_change address)
        hash ← unwrap o
        current ← unwrap (pushed.state address)
        ok (
            set_state pushed
              (insert pushed.state address (set_code_info hash (some code) current))))
  unfolding revert_entry
  code_step base js address none code acc s here empty =
      Ensures-bind (λ p. Unit) (Since base) (push_entry js (code_change address)) (λ p. panic)
        (Ensures-any (push_entry js (code_change address))) (λ p t. tt)
  code_step base js address (some hash) code acc s here empty =
      push-then base js (replaced js.world address (set_code_info hash (some code) acc))
        (code_change address) (Since base) _ s
        (Restores-modify (sd_of base) (code_change address) js.world address
          (set_code_info hash (some code) acc) (set_code_info keccak_empty none acc) remove_code
          refl here refl (view_account-remove_code (sd_of base) address acc empty))
        (IsValid-replaced js.world address (set_code_info hash (some code) acc) s.valid
          (Fits-loaded js.world address s.valid here))
        λ j since. rw here since

  -- Code may be set on an account that has none.
  pub set_code-Since :
      (base js : JournaledState) (address : ℕ) (code : Bytecode)
      → Since base js
      → ((acc : Account) → js.state address ≡ some acc → LacksCode acc)
      → Ensures (Since base) (set_code hasher.keccak256 js address code)
  unfolding set_code
  set_code-Since base js address code s empty = elim (Option-cases (js.state address)) [
    | inl e ↦ rw e tt
    | inr (acc, e) ↦ rw e (
        Ensures-bind (After base (replaced js.world address (set_touched true acc))) (Since base)
          (touch_account js address acc) _ (touch_account-Since base js address acc s e)
          λ p h.
            code_step base p address (hash_slow hasher.keccak256 code) code (set_touched true acc)
              h.0 (state_after p js.world address (set_touched true acc) h.1) (empty acc e))
  ]

  pub log-Since :
      (base js : JournaledState) (entry : Log) → Since base js → Since base (log js entry)
  unfolding log
  log-Since base js entry s = record {
    top = s.top;
    lists = s.lists;
    new_logs = s.new_logs ++ entry ∷ [];
    journal_grown = s.journal_grown;
    logs_grown =
        ap (λ ls. ls ++ entry ∷ []) s.logs_grown ∙ append_assoc base.logs s.new_logs (entry ∷ []);
    spec_kept = s.spec_kept;
    restores = s.restores;
    valid = s.valid;
  }
