-- ===== src/Journal/Revert.antt =====
-- `checkpoint_revert` on a state that keeps the invariant of the frame.
use baron_evm.Journal.View.{Hasher}
use baron_evm.Base.{
  ◌-◌, some, List, ◌∷◌, ◌++◌, ◌≡◌, refl, ap, ◌∙◌, arith, length, take, drop, length-append,
  take-append, drop-append, wrapping_sub64,
}
use baron_evm.Base.Outcome.{ok, unwrap, ◌>>=◌}
use baron_evm.Journal.Entries.{JournalEntry, World, revert_lists, journal_revert}
use baron_evm.Spec.{SpecId, enabled, spurious_dragon}
use baron_evm.Journal.View.{view}
use baron_evm.Journal.Restores.{concat, revert_lists-concat}
use baron_evm.Journal.{
  JournaledState, JournalCheckpoint, Log, Fallible, checkpoint, checkpoint_revert, lists_since,
}
use baron_evm.Journal.Since.{Since, sd_of}

module _ ⦃hasher : Hasher⦄ where
  rounds :
      (ess rest : List (List JournalEntry))
      → lists_since (length (ess ++ rest)) (length rest) ≡ length ess
  rounds ess rest = ground (arith, length-append ess rest)

  dropped :
      (ess rest : List (List JournalEntry))
      → drop (length (ess ++ rest) - length rest) (ess ++ rest) ≡ rest
  dropped ess rest =
      let n : length (ess ++ rest) - length rest ≡ length ess =
        omega (arith, length-append ess rest) in
      rw n (drop-append ess rest)

  -- What the revert of the checkpoint taken at `base` leaves.
  abbrev pub reverted : (base js : JournaledState) → World → JournaledState
  reverted base js w = record js {
    world = w;
    logs = base.logs;
    depth = wrapping_sub64 js.depth 1;
    journal = base.journal;
  }

  -- The revert with what it reads of the state as arguments.
  rolled :
      JournaledState
      → JournalCheckpoint
      → SpecId
      → List Log
      → List (List JournalEntry)
      → Fallible JournaledState
  rolled js cp spec logs journal = do
    reverted ← unwrap (
        revert_lists (enabled spec spurious_dragon) (lists_since (length journal) cp.journal_i)
          journal js.world)
    ok (record js {
      world = reverted;
      logs = take cp.log_i logs;
      depth = wrapping_sub64 js.depth 1;
      journal = drop (length journal - cp.journal_i) journal;
    })

  rolled-Since :
      (base js : JournaledState) (ess : List (List JournalEntry)) (new_logs : List Log) (u : World)
      → journal_revert (sd_of base) (concat ess) js.world ≡ some u
      → rolled js (checkpoint base).1 base.spec (base.logs ++ new_logs) (ess ++ base.journal)
        ≡ ok (reverted base js u)
  unfolding checkpoint rolled
  rolled-Since base js ess new_logs u back =
      rw
        (
          rounds ess base.journal,
          revert_lists-concat (sd_of base) ess base.journal js.world,
          back,
          dropped ess base.journal,
          take-append base.logs new_logs,
        )
        refl

  -- Whatever was done since a checkpoint, reverting it does not panic, and gives back the logs, the
  -- journal and the state, up to whether code that has its hash is filled in and, from Spurious Dragon on,
  -- the touched mark of the third precompile.
  pub checkpoint_revert-Since :
      (base js : JournaledState)
      → Since base js
      → (w : World) × (checkpoint_revert js (checkpoint base).1 ≡ ok (reverted base js w))
        × (view (sd_of base) w ≡ view (sd_of base) base.world)
  unfolding checkpoint_revert rolled concat
  checkpoint_revert-Since base js s = let (u, back, same) = s.restores in (u, whole u back, same)
    where
      whole :
          (u : World)
          → journal_revert (sd_of base) (concat (s.top ∷ s.lists)) js.world ≡ some u
          → checkpoint_revert js (checkpoint base).1 ≡ ok (reverted base js u)
      whole u back =
          ap (λ p. rolled js (checkpoint base).1 p js.logs js.journal) s.spec_kept
          ∙ ap (λ l. rolled js (checkpoint base).1 base.spec l js.journal) s.logs_grown
          ∙ ap (rolled js (checkpoint base).1 base.spec (base.logs ++ s.new_logs)) s.journal_grown
          ∙ rolled-Since base js (s.top ∷ s.lists) s.new_logs u back
