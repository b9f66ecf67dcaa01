-- ===== src/Journal/Frame/Atomic.antt =====
-- The invariant of a frame over all that it runs, and the revert of its checkpoint.
use baron_evm.Journal.View.{Hasher}
use mathlib.Core.Option
use baron_evm.Base.{ℕ, Bool, Option, none, some, ◌++◌, ◌≡◌, ◌≢◌, sym, ap, ◌∙◌, subst}
use baron_evm.Base.Outcome.{ok, err, panic, ◌>>=◌}
use baron_evm.Spec.{enabled, spurious_dragon}
use baron_evm.Journal.Accounts.{Account, Database}
use baron_evm.Journal.Entries.{World}
use baron_evm.Journal.View.{view, view_account}
use baron_evm.Journal.Restores.{Restores-view, concat}
use baron_evm.Journal.{
  JournaledState, Fallible, inc_nonce, checkpoint, checkpoint_commit, checkpoint_revert,
  load_account, load_account_exist, load_code,
}
use baron_evm.Journal.Storage.{sload, sstore}
use baron_evm.Journal.Value.{transfer, selfdestruct, overflow_payment}
use baron_evm.Journal.Since.{
  Since, IsValid, Fits, Ensures, Ensures-bind, Kept, KeptTriple, sd_of, Since-checkpoint,
  Since-checkpoint_self,
}
use baron_evm.Journal.Touch.{IsSound, Loaded, touch-Since, load_account-Since}
use baron_evm.Journal.Steps.{inc_nonce-Since, set_code-Since, log-Since}
use baron_evm.Journal.Codes.{load_code-Since, Existing, load_account_exist-Since}
use baron_evm.Journal.Slots.{sstore-Since, sload-Since}
use baron_evm.Journal.Transient.{tstore-Since}
use baron_evm.Journal.Transfers.{Unless}
use baron_evm.Journal.Payments.{transfer-Unless}
use baron_evm.Journal.Destroys.{selfdestruct-Since}
use baron_evm.Journal.Revert.{checkpoint_revert-Since, reverted}
use baron_evm.Journal.Frame.{
  Operation, touches, loads_account, loads_account_exist, loads_code, increments_nonce, sets_code,
  loads_slot, stores_slot, stores_transient, logs_entry, transfers, destroys, perform, Allowed,
  Runs, start, step, committed, rolled_back,
}

module _ ⦃hasher : Hasher⦄ where
  -- Dropping a result.
  first :
      {A : Type 0} (base : JournaledState) (Q : JournaledState × A → Type 0)
      (m : Fallible (JournaledState × A))
      → ((r : JournaledState × A) → Q r → Since base r.0)
      → Ensures Q m
      → Ensures (Since base) (m >>= (λ r. ok r.0))
  first base Q m f h = Ensures-bind Q (Since base) m (λ r. ok r.0) h f

  transfer-first :
      (base : JournaledState) (m : Fallible (JournaledState × Option _))
      → Ensures (Unless base) m
      → Ensures (λ r. r.1 ≢ some overflow_payment) m
      → Ensures (Since base) (m >>= (λ r. ok r.0))
  transfer-first base (ok r) h k = h k
  transfer-first base (err e) h k = tt
  transfer-first base panic h k = tt

  perform-Since :
      (base js : JournaledState) (db : Database) (o : Operation)
      → IsSound hasher.keccak256 db
      → Since base js
      → Allowed db js o
      → Ensures (Since base) (perform hasher.keccak256 db js o)
  unfolding perform Allowed
  perform-Since base js db (touches address) typed s allowed = touch-Since base js address s
  perform-Since base js db (loads_account address) typed s allowed =
      Ensures-bind (Loaded base js address) (Since base) (load_account js address db) (λ r. ok r.0)
        (load_account-Since base js address db typed s) (λ r h. h.0)
  perform-Since base js db (loads_account_exist address) typed s allowed =
      first base (Existing base js) (load_account_exist js address db) (λ r h. h.0)
        (load_account_exist-Since base js address db typed s)
  perform-Since base js db (loads_code address) typed s allowed =
      Ensures-bind (KeptTriple base) (Since base) (load_code js address db) (λ r. ok r.0)
        (load_code-Since base js address db typed s) (λ r h. h)
  perform-Since base js db (increments_nonce address) typed s allowed =
      first base (Kept base) (inc_nonce js address) (λ r h. h) (inc_nonce-Since base js address s)
  perform-Since base js db (sets_code address code) typed s allowed =
      set_code-Since base js address code s allowed
  perform-Since base js db (loads_slot address key) typed s allowed =
      Ensures-bind (KeptTriple base) (Since base) (sload js address key db) (λ r. ok r.0)
        (sload-Since base js address key db s) (λ r h. h)
  perform-Since base js db (stores_slot address key new) typed s allowed =
      first base (Kept base) (sstore js address key new db) (λ r h. h)
        (sstore-Since base js address key new db s)
  perform-Since base js db (stores_transient address key new) typed s allowed =
      tstore-Since base js address key new s
  perform-Since base js db (logs_entry entry) typed s allowed = log-Since base js entry s
  perform-Since base js db (transfers from to balance) typed s allowed =
      transfer-first base (transfer js from to balance db)
        (transfer-Unless base js from to balance db typed s) allowed
  perform-Since base js db (destroys address target) typed s allowed =
      first base (Kept base) (selfdestruct js address target db) (λ r h. h)
        (selfdestruct-Since base js address target db typed s)

  -- Two worlds with one view have the same balances, nonces and transient storage.
  IsValid-view : (sd : Bool) (v w : World) → view sd v ≡ view sd w → IsValid w → IsValid v
  IsValid-view sd v w e valid = record {
    accounts = λ address. seen address (v.state address) (
        subst Fits (sym (ap (λ x. x.state address) e))
          (shown address (w.state address) (valid.accounts address)));
    transient =
        subst (λ t. (address key : ℕ) → t address key ≢ some 0)
          (sym (ap (λ x. x.transient_storage) e)) valid.transient;
  }
    where
      shown :
          (address : ℕ) (o : Option Account)
          → Fits o
          → Fits (Option.map (view_account sd address) o)
      shown address none h = h
      shown address (some a) h = h

      seen :
          (address : ℕ) (o : Option Account)
          → Fits (Option.map (view_account sd address) o)
          → Fits o
      seen address none h = h
      seen address (some a) h = h

  -- A frame that was called and reverted, seen from its caller.
  Since-reverted :
      (base b c : JournaledState) (w : World)
      → Since base b
      → Since b c
      → view (sd_of b) w ≡ view (sd_of b) b.world
      → Since base (reverted b c w)
  Since-reverted base b c w s t e = record {
    top = s.top;
    lists = s.lists;
    new_logs = s.new_logs;
    journal_grown = s.journal_grown;
    logs_grown = s.logs_grown;
    spec_kept = t.spec_kept ∙ s.spec_kept;
    restores =
        Restores-view (sd_of base) (s.top ++ concat s.lists) w b.world base.world
          (subst
            (λ p. view (enabled p spurious_dragon) w ≡ view (enabled p spurious_dragon) b.world)
            s.spec_kept e)
          s.restores;
    valid = IsValid-view (sd_of b) w b.world e s.valid;
  }

  Since-commit : (base c : JournaledState) → Since base c → Since base (checkpoint_commit c)
  unfolding checkpoint_commit
  Since-commit base c s = record {
    top = s.top;
    lists = s.lists;
    new_logs = s.new_logs;
    journal_grown = s.journal_grown;
    logs_grown = s.logs_grown;
    spec_kept = s.spec_kept;
    restores = s.restores;
    valid = s.valid;
  }

  Runs-Since : (base a b : JournaledState) → Since base a → Runs hasher.keccak256 a b → Since base b
  Runs-Since base a b s start = s
  Runs-Since base a c s (step {b = b} db o runs typed allowed e) =
      subst (Ensures (Since base)) e
        (perform-Since base b db o typed (Runs-Since base a b s runs) allowed)
  Runs-Since base a _ s (committed {b = b} {c = c} runs inner) = Since-commit base c (
      Runs-Since base (checkpoint b).0 c (Since-checkpoint base b (Runs-Since base a b s runs))
        inner)
  Runs-Since base a d s (rolled_back {b = b} {c = c} runs inner e) =
      let before = Runs-Since base a b s runs in
      let t = Runs-Since b (checkpoint b).0 c (Since-checkpoint_self b before.valid) inner in
      let (w, done, same) = checkpoint_revert-Since b c t in
      subst (Ensures (Since base)) (sym done ∙ e) (Since-reverted base b c w before t same)

-- From a valid state, whatever a call frame does after its checkpoint (any sequence of the
-- journal's operations other than contract creation, with nested calls that are committed or
-- reverted, where code is set only on accounts without code, no transfer overflows a balance, and
-- the database answers in the integer ranges and with code that has the hash asked for),
-- reverting the checkpoint does not panic and gives back the logs, the journal and the state,
-- code hashes and code included, up to whether code that has the account's code hash is filled in
-- and, from Spurious Dragon on, the touched mark of the third precompile.
pub frame_atomic :
    ⦃hasher : Hasher⦄ (base js : JournaledState)
    → IsValid base.world
    → Runs hasher.keccak256 (checkpoint base).0 js
    → (w : World) × (checkpoint_revert js (checkpoint base).1 ≡ ok (reverted base js w))
      × (view (sd_of base) w ≡ view (sd_of base) base.world)
frame_atomic base js valid runs =
    checkpoint_revert-Since base js
      (Runs-Since base (checkpoint base).0 js (Since-checkpoint_self base valid) runs)
