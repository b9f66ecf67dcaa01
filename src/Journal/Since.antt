-- ===== src/Journal/Since.antt =====
-- The invariant of a call frame: what the state of a transaction looks like since a checkpoint was
-- taken at `base`, so that the checkpoint can be reverted.
use baron_evm.Journal.View.{Hasher}
use baron_evm.Base.{
  ℕ, ◌<◌, Bool, Option, none, some, List, [], ◌∷◌, ◌++◌, ◌≡◌, ◌≢◌, refl, sym, ap, u64_mod, u256_mod,
  append-nil, subst,
}
use baron_evm.Base.Outcome.{ok, err, panic, ◌>>=◌}
use baron_evm.Spec.{enabled, spurious_dragon}
use baron_evm.Journal.Accounts.{Account}
use baron_evm.Journal.Entries.{JournalEntry, World}
use baron_evm.Journal.View.{view}
use baron_evm.Journal.Restores.{Restores, Restores-none, Restores-trans, Restores-view, concat}
use baron_evm.Journal.{JournaledState, Log, Fallible, push_entry, push_on, checkpoint}

-- The ranges of the machine integers, and no zero in the transient storage.
abbrev pub Fits : Option Account → Type 0
Fits none = Unit {0}
Fits (some a) = (a.info.balance < u256_mod) × (a.info.nonce < u64_mod)

pub record IsValid (w : World) : Type 0 where
  pub accounts : (address : ℕ) → Fits (w.state address)
  pub transient : (address key : ℕ) → w.transient_storage address key ≢ some 0

abbrev pub sd_of : JournaledState → Bool
sd_of js = enabled js.spec spurious_dragon

-- What holds of the result, if the operation returns one.
abbrev pub Ensures : {A : Type 0} → (A → Type 0) → Fallible A → Type 0
Ensures P (ok a) = P a
Ensures P (err e) = Unit
Ensures P panic = Unit

-- A `do` block: what its first step ensures, the rest may assume.
pub Ensures-bind :
    {A B : Type 0} (Q : A → Type 0) (P : B → Type 0) (m : Fallible A) (f : A → Fallible B)
    → Ensures Q m
    → ((a : A) → Q a → Ensures P (f a))
    → Ensures P (m >>= f)
Ensures-bind Q P (ok a) f h k = k a h
Ensures-bind Q P (err e) f h k = tt
Ensures-bind Q P panic f h k = tt

pub Ensures-map :
    {A : Type 0} (P Q : A → Type 0) (m : Fallible A)
    → ((a : A) → P a → Q a)
    → Ensures P m
    → Ensures Q m
Ensures-map P Q (ok a) f h = f a h
Ensures-map P Q (err e) f h = tt
Ensures-map P Q panic f h = tt

module _ ⦃hasher : Hasher⦄ where
  -- `top` is the newest list of entries and `lists` are the others since the checkpoint.
  pub record Since (base js : JournaledState) : Type 0 where
    pub top : List JournalEntry
    pub lists : List (List JournalEntry)
    pub new_logs : List Log
    pub journal_grown : js.journal ≡ top ∷ lists ++ base.journal
    pub logs_grown : js.logs ≡ base.logs ++ new_logs
    pub spec_kept : js.spec ≡ base.spec
    pub restores : Restores (sd_of base) (top ++ concat lists) js.world base.world
    pub valid : IsValid js.world

  pub Since-checkpoint_self :
      (base : JournaledState) → IsValid base.world → Since base (checkpoint base).0
  unfolding checkpoint concat
  Since-checkpoint_self base v = record {
    top = [];
    lists = [];
    new_logs = [];
    journal_grown = refl;
    logs_grown = sym (append-nil base.logs);
    spec_kept = refl;
    restores = Restores-none (sd_of base) base.world;
    valid = v;
  }

  -- The state that comes with a result keeps the invariant.
  abbrev pub Kept : {A : Type 0} → JournaledState → JournaledState × A → Type 0
  Kept base r = Since base r.0

  abbrev pub KeptTriple : {A B : Type 0} → JournaledState → JournaledState × A × B → Type 0
  KeptTriple base r = Since base r.0

  -- A journaled change of the world: the entry leads back over it.
  pub Since-push :
      (base js : JournaledState) (w : World) (e : JournalEntry)
      → Since base js
      → Restores (sd_of base) (e ∷ []) w js.world
      → IsValid w
      → Ensures (λ p. Since base (record p { world = w })) (push_entry js e)
  Since-push base js w e s back v = rw s.journal_grown (record {
    top = e ∷ s.top;
    lists = s.lists;
    new_logs = s.new_logs;
    journal_grown = refl;
    logs_grown = s.logs_grown;
    spec_kept = s.spec_kept;
    restores =
        Restores-trans (sd_of base) (e ∷ []) (s.top ++ concat s.lists) base.world js.world w back
          s.restores;
    valid = v;
  })

  -- A change that the view forgets needs no entry.
  pub Since-same :
      (base js : JournaledState) (w : World)
      → Since base js
      → view (sd_of base) w ≡ view (sd_of base) js.world
      → IsValid w
      → Since base (record js { world = w })
  Since-same base js w s e v = record {
    top = s.top;
    lists = s.lists;
    new_logs = s.new_logs;
    journal_grown = s.journal_grown;
    logs_grown = s.logs_grown;
    spec_kept = s.spec_kept;
    restores =
        Restores-view (sd_of base) (s.top ++ concat s.lists) w js.world base.world e s.restores;
    valid = v;
  }

  -- A checkpoint inside the frame.
  pub Since-checkpoint : (base js : JournaledState) → Since base js → Since base (checkpoint js).0
  unfolding checkpoint concat
  Since-checkpoint base js s = record {
    top = [];
    lists = s.top ∷ s.lists;
    new_logs = s.new_logs;
    journal_grown = ap (λ j. [] ∷ j) s.journal_grown;
    logs_grown = s.logs_grown;
    spec_kept = s.spec_kept;
    restores = s.restores;
    valid = s.valid;
  }

  -- The same in front of the rest of a `do` block, where the world may have been changed before the
  -- entry is pushed and be changed further behind it: from `before` on the way to `w`.
  pub push-changed :
      (base js : JournaledState) (before w : World) (e : JournalEntry) {B : Type 0} (P : B → Type 0)
      (k : JournaledState → Fallible B)
      → Since base js
      → Restores (sd_of base) (e ∷ []) w js.world
      → IsValid w
      → ((j : List (List JournalEntry))
          → Since base (record js { world = w; journal = j })
          → Ensures P (k (record js { world = before; journal = j })))
      → Ensures P (push_entry (record js { world = before }) e >>= k)
  push-changed base js before w e P k s back v rest =
      let pushed = Since-push base js w e s back v in
      subst (λ m. Ensures P (m >>= k))
        (sym (ap (push_on (record js { world = before }) e) s.journal_grown))
        (rest ((e ∷ s.top) ∷ s.lists ++ base.journal) (
          subst (λ m. Ensures (λ p. Since base (record p { world = w })) m)
            (ap (push_on js e) s.journal_grown) pushed))

  pub push-then :
      (base js : JournaledState) (w : World) (e : JournalEntry) {B : Type 0} (P : B → Type 0)
      (k : JournaledState → Fallible B)
      → Since base js
      → Restores (sd_of base) (e ∷ []) w js.world
      → IsValid w
      → ((j : List (List JournalEntry))
          → Since base (record js { world = w; journal = j })
          → Ensures P (k (record js { journal = j })))
      → Ensures P (push_entry js e >>= k)
  push-then base js w e P k s back v rest = push-changed base js js.world w e P k s back v rest

  -- A push that ends the operation, behind the change of the world.
  pub push-last :
      (base js : JournaledState) (w : World) (e : JournalEntry)
      → Since base js
      → Restores (sd_of base) (e ∷ []) w js.world
      → IsValid w
      → Ensures (Since base) (push_entry (record js { world = w }) e)
  push-last base js w e s back v =
      subst (λ m. Ensures (Since base) m) (swap js.journal)
        (push-then base js w e (Since base) (λ p. ok (record p { world = w })) s back v
          (λ j since. since))
    where
      swap :
          (j : List (List JournalEntry))
          → (push_on js e j >>= (λ p. ok (record p { world = w })))
            ≡ push_on (record js { world = w }) e j
      swap [] = refl
      swap (es ∷ rest) = refl
