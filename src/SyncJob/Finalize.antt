-- ===== src/SyncJob/Finalize.antt =====
-- `_finalize_reviewed_run` and `finalize_sync_review` (backend/app/jobs/sync.py): a run whose
-- review is resolved is completed. The items of the migration job of a run, if it has one, are an
-- argument.
use open_playlist_engine.Prelude.{
  ◌>>=◌, ℕ, Option, none, some, List, [], Text, codes, Result, ok, or_else, if◌then◌else◌,
}
use open_playlist_engine.Models.Normalize.{TextOps}
use open_playlist_engine.Migration.{JobItem}
use open_playlist_engine.Sync.Snapshot.{Snapshot, build_playlist_snapshot}
use open_playlist_engine.Runs.{
  SyncStatus, SyncMode, add_only, mirror, SyncRun, SyncRule, Checkpoint, Store, find_checkpoint,
  set_checkpoint,
}
use open_playlist_engine.Runs.Faults.{SyncFault, unexpected, RunError}
use open_playlist_engine.Runs.Operations.{run_and_rule, complete_run, start_run}
use open_playlist_engine.Runs.Outcome.{checkpoint_review_resolved, job_item_mappings}
use open_playlist_engine.Mirror.{apply_mirror}
use open_playlist_engine.SyncJob.{and_then, from_provider, from_mirror, committed, stopped, rows_of}
use open_playlist_engine.SyncJob.Calls.{SyncOutcome, SyncCalls, update_mappings}
use open_playlist_engine.SyncJob.Enter.{after_execute}

abbrev pub is_missing : RunError
is_missing = unexpected (codes "RuntimeError") (codes "sync review state is missing")

abbrev pub is_unresolved : RunError
is_unresolved = unexpected (codes "RuntimeError") (codes "sync review still has unresolved tracks")

-- The checkpoint with what the review decided.
unfoldable pub reviewed_checkpoint : Checkpoint → List JobItem → Checkpoint
unfolding update_mappings job_item_mappings
reviewed_checkpoint c items = record c {
  mappings = update_mappings c.mappings (job_item_mappings items);
  unresolved = [];
}

unfoldable pub save_checkpoint : Checkpoint → Store → Store
unfolding set_checkpoint
save_checkpoint c st = record st { checkpoints = set_checkpoint c st.checkpoints }

module _ ⦃ops : TextOps⦄ {W : Type 0} (calls : SyncCalls W)
    (items_of : Text → Option (List JobItem))
    -- The run and its lease, and the time.
    (id token : Text) (now : ℕ) where
  -- `_complete_run` with the source that the run has read, or the checkpoint.
  unfoldable pub complete_reviewed : Store → SyncRun → Checkpoint → Snapshot → W → SyncOutcome W
  unfolding committed complete_run
  complete_reviewed st r c after w = committed calls id token now st w (
      complete_run st id token now (or_else r.source_snapshot c.source_snapshot) (some after)
        c.mappings)

  unfoldable pub settle : SyncMode → Store → SyncRun → Checkpoint → Snapshot → W → SyncOutcome W
  unfolding and_then from_mirror complete_reviewed apply_mirror
  settle mirror st r c before w =
      and_then calls id token now st
        (from_mirror calls id token now (
          apply_mirror calls.target calls.fingerprint calls.target_playlist calls.target_provider st
            id token before c.mappings w))
        (complete_reviewed st r c)
  settle add_only st r c before w = complete_reviewed st r c before w

  -- The target is read after the checkpoint is committed.
  unfoldable pub after_review : Store → SyncRun → SyncRule → Checkpoint → W → SyncOutcome W
  unfolding and_then from_provider settle build_playlist_snapshot
  after_review st r rule c w = and_then calls id token now st (calls.target_credential w) (λ _ w1.
      and_then calls id token now st (from_provider calls id token now (calls.read_target w1))
        (λ q w2.
          settle rule.mode st r c
            (build_playlist_snapshot calls.fingerprint q calls.target_provider) w2))

  unfoldable pub with_review :
      Store → SyncRun → SyncRule → Option Checkpoint → Option (List JobItem) → W → SyncOutcome W
  unfolding after_review checkpoint_review_resolved reviewed_checkpoint save_checkpoint
  with_review st r rule none items w = stopped calls id token now st w is_missing
  with_review st r rule (some c) none w = stopped calls id token now st w is_missing
  with_review st r rule (some c) (some items) w =
      let after = reviewed_checkpoint c items in
      if checkpoint_review_resolved c items
      then after_review (save_checkpoint after st) r rule after w
      else stopped calls id token now st w is_unresolved

  unfoldable pub finalize_reviewed_run : Store → W → SyncOutcome W
  unfolding and_then rows_of run_and_rule find_checkpoint with_review
  finalize_reviewed_run st w =
      and_then calls id token now st (rows_of calls id token now (run_and_rule st id), w)
        (λ rows v.
          let (r, rule) = rows in
          with_review st r rule (find_checkpoint rule.id st.checkpoints) (items_of r.id) v)

  unfoldable pub after_claim : ℕ → Option Text × Store → W → Result SyncFault (Store × W)
  unfolding after_execute finalize_reviewed_run
  after_claim delay (none, st) w = ok (st, w)
  after_claim delay (some lease, st) w =
      let out = finalize_reviewed_run st w in after_execute calls id token now delay out out.error

  -- The new lease is the token.
  unfoldable pub finalize_sync_review : ℕ → Store → W → Result SyncFault (Store × W)
  unfolding start_run after_claim
  finalize_sync_review delay st w = do
    claimed ← start_run st id SyncStatus.review_required now token
    after_claim delay claimed w
