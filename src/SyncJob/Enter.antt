-- ===== src/SyncJob/Enter.antt =====
-- `run_sync` (backend/app/jobs/sync.py): a run is started, executed, and failed where it raises.
use open_playlist_engine.Prelude.{◌>>=◌, ℕ, Option, none, some, Text, text_eq, nat_eq, Result, ok}
use open_playlist_engine.Models.Normalize.{TextOps}
use open_playlist_engine.Runs.{SyncStatus, Store}
use open_playlist_engine.Runs.Faults.{SyncFault, RunError}
use open_playlist_engine.Runs.Operations.{fail_run, start_run}
use open_playlist_engine.SyncJob.Calls.{SyncOutcome, SyncCalls}
use open_playlist_engine.SyncJob.{execute_sync}

module _ ⦃ops : TextOps⦄ {W : Type 0} (calls : SyncCalls W)
    -- The run and its lease, and the time.
    (id token : Text) (now : ℕ) where
  -- `_fail_run` for the error of a run.
  unfoldable pub after_execute : ℕ → SyncOutcome W → Option RunError → Result SyncFault (Store × W)
  unfolding fail_run
  after_execute delay out none = ok (out.store, out.world)
  after_execute delay out (some e) = do
    after ← fail_run out.store id token now delay e
    ok (after, out.world)

  unfoldable pub after_start : ℕ → Option Text × Store → W → Result SyncFault (Store × W)
  unfolding after_execute execute_sync
  after_start delay (none, st) w = ok (st, w)
  after_start delay (some lease, st) w =
      let out = execute_sync calls id token now st w in after_execute delay out out.error

  -- `run_sync`; the new lease is the token.
  unfoldable pub run_sync : ℕ → Store → W → Result SyncFault (Store × W)
  unfolding start_run after_start
  run_sync delay st w = do
    started ← start_run st id SyncStatus.queued now token
    after_start delay started w
