-- ===== src/SyncJob/Reviewed.antt =====
-- What `_finalize_reviewed_run` leaves of the rows of its run, and how every run that was started
-- lets go of its lease.
use open_playlist_engine.Prelude.{ℕ, Option, List, Text, Result}
use open_playlist_engine.Models.Normalize.{TextOps}
use open_playlist_engine.Migration.{JobItem}
use open_playlist_engine.Sync.Snapshot.{Snapshot}
use open_playlist_engine.Runs.{SyncStatus, Store}
use open_playlist_engine.Runs.Faults.{SyncFault}
use open_playlist_engine.Runs.Rows.{Rows}
use open_playlist_engine.SyncJob.Calls.{SyncCalls}
use open_playlist_engine.SyncJob.Enter.{run_sync}
use open_playlist_engine.SyncJob.Finalize.{finalize_sync_review}

-- The two ways into a run.
pub data Task : Type 0 where
  queued_run : Task
  resolved_review : Task

-- The status that a run must have for its start.
abbrev pub expected_status : Task → SyncStatus
expected_status queued_run = SyncStatus.queued
expected_status resolved_review = SyncStatus.review_required

module _ ⦃ops : TextOps⦄ {W : Type 0} (calls : SyncCalls W)
    (items_of : Text → Option (List JobItem)) (id token : Text) (now : ℕ) where
  -- What a worker does for a task.
  unfoldable pub perform : Task → ℕ → Store → W → Result SyncFault (Store × W)
  unfolding run_sync finalize_sync_review
  perform queued_run delay st w = run_sync calls id token now delay st w
  perform resolved_review delay st w = finalize_sync_review calls items_of id token now delay st w
