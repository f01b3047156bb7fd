-- ===== src/SyncJob/Release.antt =====
-- What `_execute_sync` leaves of the rows of its run.
use open_playlist_engine.Prelude.{
  ℕ, ◌≡◌, ◌⊎◌, inl, inr, refl, Option, none, some, List, Text, Result, ok, raised, Bool-cases,
}
use open_playlist_engine.Models.{Playlist}
use open_playlist_engine.Models.Normalize.{TextOps}
use open_playlist_engine.Migration.{JobItem}
use open_playlist_engine.Sync.Snapshot.{Snapshot, build_playlist_snapshot, carry_target_mappings}
use open_playlist_engine.Sync.Diff.{diff_snapshots, SyncDiff}
use open_playlist_engine.Runs.{
  SyncStatus, SyncMode, add_only, mirror, SyncRun, SyncRule, Checkpoint, Store, set_run,
  find_checkpoint,
}
use open_playlist_engine.Runs.Faults.{SyncFault, RunError}
use open_playlist_engine.Runs.Operations.{lease_is_current, complete_run}
use open_playlist_engine.Runs.Outcome.{SyncJobOutcome, classify_job_items, job_item_mappings}
use open_playlist_engine.Runs.Rows.{Rows, Rows-run_and_rule, find-set_run, found_id}
use open_playlist_engine.Runs.Lease.{Closed, finish, completing, attending, finish-Closed}
use open_playlist_engine.Mirror.{apply_mirror}
use open_playlist_engine.SyncJob.{
  and_then, from_provider, from_zip, from_mirror, committed, complete, finish_by_mode, attention,
  by_status, with_state, rows_of, after_migration, migrate_added, read_run, with_diff,
  with_playlists, with_access, with_reason, reason_for, with_checkpoint, with_rows, execute_sync,
}
use open_playlist_engine.SyncJob.Calls.{SyncOutcome, SyncCalls, update_mappings, is_mirror_mode}

module _ ⦃ops : TextOps⦄ {W : Type 0} (calls : SyncCalls W) (id token : Text) (now : ℕ) where
  -- The run let go of its lease, or it raised an error and its rows are there.
  abbrev pub Ends : SyncOutcome W → Type 0
  Ends out =
      ((out.error ≡ none) × Closed out.store id token)
      ⊎ ((e : RunError) × (r : SyncRun) × (rule : SyncRule) × (out.error ≡ some e)
          × Rows out.store id r rule)

  pub and_then-Ends :
      {A : Type 0} (st : Store) (r : SyncRun) (rule : SyncRule) (step : Result RunError A × W)
      (next : A → W → SyncOutcome W)
      → Rows st id r rule
      → ((a : A) (w : W) → Ends (next a w))
      → Ends (and_then calls id token now st step next)
  unfolding and_then
  and_then-Ends st r rule (raised e, w) next rows h = inr (e, r, rule, refl, rows)
  and_then-Ends st r rule (ok a, w) next rows h = h a w

  pub committed-Ends :
      (st : Store) (r : SyncRun) (rule : SyncRule) (w : W) (m : Result SyncFault Store)
      → Rows st id r rule
      → ((after : Store) → m ≡ ok after → Closed after id token)
      → Ends (committed calls id token now st w m)
  unfolding committed
  committed-Ends st r rule w (raised f) rows h = inr (_, r, rule, refl, rows)
  committed-Ends st r rule w (ok after) rows h = inl (refl, h after refl)

  complete-Ends :
      (st : Store) (r : SyncRun) (rule : SyncRule) (source after : Snapshot)
      (mappings : List (Text × Option Text)) (w : W)
      → Rows st id r rule
      → Ends (complete calls id token now st source mappings after w)
  unfolding complete finish
  complete-Ends st r rule source after mappings w rows =
      committed-Ends st r rule w (complete_run st id token now (some source) (some after) mappings)
        rows
        (λ out h.
          finish-Closed st out id token (completing now (some source) (some after) mappings) h)

  finish_by_mode-Ends :
      (mode : SyncMode) (st : Store) (r : SyncRun) (rule : SyncRule) (source before : Snapshot)
      (mappings : List (Text × Option Text)) (w : W)
      → Rows st id r rule
      → Ends (finish_by_mode calls id token now mode st source before mappings w)
  unfolding finish_by_mode
  finish_by_mode-Ends mirror st r rule source before mappings w rows =
      and_then-Ends st r rule
        (from_mirror calls id token now (
          apply_mirror calls.target calls.fingerprint calls.target_playlist calls.target_provider st
            id token before mappings w))
        (complete calls id token now st source mappings) rows
        (λ after v. complete-Ends st r rule source after mappings v rows)
  finish_by_mode-Ends add_only st r rule source before mappings w rows =
      and_then-Ends st r rule (from_provider calls id token now (calls.read_target w))
        (λ p after.
          complete calls id token now st source mappings
            (build_playlist_snapshot calls.fingerprint p calls.target_provider) after)
        rows
        (λ p v.
          complete-Ends st r rule source
            (build_playlist_snapshot calls.fingerprint p calls.target_provider) mappings v rows)

  attention-Ends :
      (st : Store) (r : SyncRun) (rule : SyncRule) (c : Checkpoint)
      (mappings : List (Text × Option Text)) (items : List JobItem) (why : Text) (w : W)
      → Rows st id r rule
      → Ends (attention calls id token now st r c mappings items why w)
  unfolding attention finish
  attention-Ends st r rule c mappings items why w rows =
      elim (Bool-cases (lease_is_current r token)) [
        | inl held ↦ rw held (
            committed-Ends st r rule w _ rows
              (λ out h. finish-Closed _ out id token (attending now why) h))
        | inr lost ↦
            rw lost (inl (refl, record { run = r; rule = rule; rows = rows; let_go = lost }))
      ]

  by_status-Ends :
      (s : SyncStatus) (o : SyncJobOutcome) (st : Store) (r : SyncRun) (rule : SyncRule)
      (c : Checkpoint) (source before : Snapshot) (mappings : List (Text × Option Text))
      (items : List JobItem) (w : W)
      → Rows st id r rule
      → Ends (by_status calls id token now s o st (r, rule) c source before mappings items w)
  unfolding by_status
  by_status-Ends SyncStatus.partial_failure o st r rule c source before mappings items w rows =
      inr (_, r, rule, refl, rows)
  by_status-Ends SyncStatus.review_required o st r rule c source before mappings items w rows =
      attention-Ends st r rule c mappings items _ w rows
  by_status-Ends SyncStatus.idle o st r rule c source before mappings items w rows =
      finish_by_mode-Ends rule.mode st r rule source before mappings w rows
  by_status-Ends SyncStatus.queued o st r rule c source before mappings items w rows =
      finish_by_mode-Ends rule.mode st r rule source before mappings w rows
  by_status-Ends SyncStatus.running o st r rule c source before mappings items w rows =
      finish_by_mode-Ends rule.mode st r rule source before mappings w rows
  by_status-Ends SyncStatus.succeeded o st r rule c source before mappings items w rows =
      finish_by_mode-Ends rule.mode st r rule source before mappings w rows
  by_status-Ends SyncStatus.failed o st r rule c source before mappings items w rows =
      finish_by_mode-Ends rule.mode st r rule source before mappings w rows
  by_status-Ends SyncStatus.reconnect_required o st r rule c source before mappings items w rows =
      finish_by_mode-Ends rule.mode st r rule source before mappings w rows
  by_status-Ends SyncStatus.paused o st r rule c source before mappings items w rows =
      finish_by_mode-Ends rule.mode st r rule source before mappings w rows

  with_state-Ends :
      (st : Store) (r : SyncRun) (rule : SyncRule) (source before : Snapshot)
      (mappings : List (Text × Option Text)) (items : List JobItem) (c : Option Checkpoint) (w : W)
      → Rows st id r rule
      → Ends (with_state calls id token now st source before mappings items (r, rule) c w)
  unfolding with_state
  with_state-Ends st r rule source before mappings items none w rows = inr (_, r, rule, refl, rows)
  with_state-Ends st r rule source before mappings items (some c) w rows =
      by_status-Ends (classify_job_items items).status (classify_job_items items) st r rule c source
        before (update_mappings mappings (job_item_mappings items)) items w rows

  after_migration-Ends :
      (st : Store) (r : SyncRun) (rule : SyncRule) (source before : Snapshot)
      (mappings : List (Text × Option Text)) (answer : (Option RunError × List JobItem) × W)
      → Rows st id r rule
      → Ends (after_migration calls id token now st source before mappings answer)
  unfolding after_migration rows_of and_then
  after_migration-Ends st r rule source before mappings ((some e, items), w) rows =
      inr (e, r, rule, refl, rows)
  after_migration-Ends st r rule source before mappings ((none, items), w) rows =
      rw (Rows-run_and_rule st id r rule rows) (
        with_state-Ends st r rule source before mappings items
          (find_checkpoint rule.id st.checkpoints) w rows)

  -- The rows are there with what the run has read.
  read_run-Rows :
      (st : Store) (r : SyncRun) (rule : SyncRule) (source before : Snapshot) (d : SyncDiff)
      → Rows st id r rule
      → Rows
          (record st { runs = set_run (read_run calls id token now r source before d) st.runs })
          id
          (read_run calls id token now r source before d)
          rule
  unfolding read_run
  read_run-Rows st r rule source before d rows = record {
    run_found = find-set_run id st.runs r _ rows.run_found (found_id id st.runs r rows.run_found);
    rule_found = rows.rule_found;
  }

  with_diff-Ends :
      (st : Store) (r : SyncRun) (rule : SyncRule) (c : Checkpoint) (source before : Snapshot)
      (d : SyncDiff) (w : W)
      → Rows st id r rule
      → Ends (with_diff calls id token now st r rule c source before d w)
  unfolding with_diff
  with_diff-Ends st r rule c source before d w rows =
      after_migration-Ends _ _ rule source before
        (carry_target_mappings c.source_snapshot (some source) c.mappings)
        (migrate_added calls id token now d.added_positions source (is_mirror_mode rule.mode) w)
        (read_run-Rows st r rule source before d rows)

  with_playlists-Ends :
      (st : Store) (r : SyncRun) (rule : SyncRule) (c : Checkpoint) (p q : Playlist) (w : W)
      → Rows st id r rule
      → Ends (with_playlists calls id token now st r rule c p q w)
  unfolding with_playlists
  with_playlists-Ends st r rule c p q w rows =
      let source = build_playlist_snapshot calls.fingerprint p calls.source_provider in
      let before = build_playlist_snapshot calls.fingerprint q calls.target_provider in
      and_then-Ends st r rule
        (from_zip calls id token now (diff_snapshots c.source_snapshot (some source)), w)
        (λ d v. with_diff calls id token now st r rule c source before d v) rows
        (λ d v. with_diff-Ends st r rule c source before d v rows)

  with_target-Ends :
      (st : Store) (r : SyncRun) (rule : SyncRule) (c : Checkpoint) (p : Playlist) (w : W)
      → Rows st id r rule
      → Ends (
          and_then calls id token now st
            (from_provider calls id token now (calls.read_target w))
            (λ q v. with_playlists calls id token now st r rule c p q v))
  with_target-Ends st r rule c p w rows =
      and_then-Ends st r rule (from_provider calls id token now (calls.read_target w))
        (λ q v. with_playlists calls id token now st r rule c p q v) rows
        (λ q v. with_playlists-Ends st r rule c p q v rows)

  with_source-Ends :
      (st : Store) (r : SyncRun) (rule : SyncRule) (c : Checkpoint) (w : W)
      → Rows st id r rule
      → Ends (
          and_then calls id token now st
            (from_provider calls id token now (calls.read_source w))
            (λ p w3.
              and_then calls id token now st
                (from_provider calls id token now (calls.read_target w3))
                (λ q w4. with_playlists calls id token now st r rule c p q w4)))
  with_source-Ends st r rule c w rows =
      and_then-Ends st r rule (from_provider calls id token now (calls.read_source w))
        (λ p w3.
          and_then calls id token now st (from_provider calls id token now (calls.read_target w3))
            (λ q w4. with_playlists calls id token now st r rule c p q w4))
        rows (λ p v. with_target-Ends st r rule c p v rows)

  with_access-Ends :
      (st : Store) (r : SyncRun) (rule : SyncRule) (c : Checkpoint) (w : W)
      → Rows st id r rule
      → Ends (with_access calls id token now st r rule c w)
  unfolding with_access
  with_access-Ends st r rule c w rows =
      and_then-Ends {A = Unit} st r rule (calls.source_credential w) _ rows (λ _ w1.
        and_then-Ends {A = Unit} st r rule (calls.target_credential w1) _ rows
          (λ _ w2. with_source-Ends st r rule c w2 rows))

  with_reason-Ends :
      (why : Option Text) (st : Store) (r : SyncRun) (rule : SyncRule) (c : Checkpoint) (w : W)
      → Rows st id r rule
      → Ends (with_reason calls id token now why st r rule c w)
  unfolding with_reason
  with_reason-Ends (some why) st r rule c w rows = inr (_, r, rule, refl, rows)
  with_reason-Ends none st r rule c w rows = with_access-Ends st r rule c w rows

  with_checkpoint-Ends :
      (st : Store) (r : SyncRun) (rule : SyncRule) (c : Option Checkpoint) (w : W)
      → Rows st id r rule
      → Ends (with_checkpoint calls id token now st r rule c w)
  unfolding with_checkpoint
  with_checkpoint-Ends st r rule none w rows = inr (_, r, rule, refl, rows)
  with_checkpoint-Ends st r rule (some c) w rows =
      with_reason-Ends (reason_for calls id token now rule.mode c) st r rule c w rows

  pub execute_sync-Ends :
      (st : Store) (r : SyncRun) (rule : SyncRule) (w : W)
      → Rows st id r rule
      → Ends (execute_sync calls id token now st w)
  unfolding execute_sync with_rows
  execute_sync-Ends st r rule w rows =
      rw (Rows-run_and_rule st id r rule rows)
        (with_checkpoint-Ends st r rule (find_checkpoint rule.id st.checkpoints) w rows)
