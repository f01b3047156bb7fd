-- ===== src/SyncJob.antt =====
-- One run of a synchronisation: `_execute_sync` (backend/app/jobs/sync.py), which reads both
-- playlists, migrates what was added, and completes the run. What was committed before an error
-- stays. The adapters that the rule names are taken as registered, and the job of the run as there.
pub mod Calls
pub mod Enter
pub mod Release
pub mod LetGo
pub mod Finalize
pub mod Reviewed
mod Tests
use open_playlist_engine.Prelude.{
  ◌>>=◌, ℕ, Bool, true, false, Option, none, some, List, [], ◌∷◌, ◌++◌, any, filter, length, map,
  if◌then◌else◌, Text, text_eq, codes, numeral, nat_eq, ◌==◌, Result, ok, raised,
}
use open_playlist_engine.Models.{Playlist, PlaylistKind, put}
use open_playlist_engine.Models.Normalize.{TextOps}
use open_playlist_engine.Providers.{AdapterError, other}
use open_playlist_engine.Migration.{JobItem, needs_review, failed}
use open_playlist_engine.Sync.Snapshot.{
  Entry, Snapshot, build_playlist_snapshot, carry_target_mappings,
}
use open_playlist_engine.Sync.Diff.{SyncDiff, ZipError, diff_snapshots}
use open_playlist_engine.Runs.{
  SyncStatus, SyncMode, add_only, mirror, SyncRun, SyncRule, Checkpoint, Store, set_run,
  find_checkpoint, set_checkpoint,
}
use open_playlist_engine.Runs.Faults.{
  SyncFault, key_error, sync_already_running, integrity_error, checkpoint_missing, value_error,
  RunError, provider, unexpected, sync_partial_failure,
}
use open_playlist_engine.Runs.Operations.{
  run_and_rule, lease_is_current, finish_attention, complete_run, fail_run, start_run,
}
use open_playlist_engine.Runs.Outcome.{SyncJobOutcome, classify_job_items, job_item_mappings}
use open_playlist_engine.Mirror.{
  MirrorTarget, MirrorFault, MirrorOutcome, mirror_unavailable_reason, apply_mirror,
}
use open_playlist_engine.SyncJob.Calls.{
  update_mappings, mirror_error, is_open, is_mirror_mode, fault_error, checkpoint_kind,
  added_entries, SyncOutcome, SyncCalls,
}

module _ ⦃ops : TextOps⦄ {W : Type 0} (calls : SyncCalls W)
    -- The run and its lease, and the time.
    (id token : Text) (now : ℕ) where
  abbrev pub stopped : Store → W → RunError → SyncOutcome W
  stopped st w e = record { store = st; world = w; error = some e }

  abbrev pub finished : Store → W → SyncOutcome W
  finished st w = record { store = st; world = w; error = none }

  -- A step that raises ends the run.
  unfoldable pub and_then :
      {A : Type 0} → Store → Result RunError A × W → (A → W → SyncOutcome W) → SyncOutcome W
  and_then st (raised e, w) next = stopped st w e
  and_then st (ok a, w) next = next a w

  unfoldable pub from_provider : {A : Type 0} → Result AdapterError A × W → Result RunError A × W
  from_provider (raised e, w) = (raised (provider e), w)
  from_provider (ok a, w) = (ok a, w)

  unfoldable pub from_zip : Result ZipError SyncDiff → Result RunError SyncDiff
  from_zip (raised e) = raised (unexpected (codes "ValueError") [])
  from_zip (ok d) = ok d

  unfoldable pub from_mirror : MirrorOutcome W → Result RunError Snapshot × W
  unfolding mirror_error
  from_mirror out = (result_of out.result, out.world)
    where
      result_of : Result MirrorFault Snapshot → Result RunError Snapshot
      result_of (raised f) = raised (mirror_error f)
      result_of (ok s) = ok s

  -- A transaction that raises leaves the tables as they were.
  unfoldable pub committed : Store → W → Result SyncFault Store → SyncOutcome W
  unfolding fault_error
  committed st w (raised f) = stopped st w (fault_error f)
  committed st w (ok after) = finished after w

  unfoldable pub complete :
      Store → Snapshot → List (Text × Option Text) → Snapshot → W → SyncOutcome W
  unfolding committed complete_run
  complete st source mappings after w =
      committed st w (complete_run st id token now (some source) (some after) mappings)

  -- The write of the mirror, or the reading of a target that only grows.
  unfoldable pub finish_by_mode :
      SyncMode → Store → Snapshot → Snapshot → List (Text × Option Text) → W → SyncOutcome W
  unfolding and_then from_mirror from_provider complete apply_mirror build_playlist_snapshot
  finish_by_mode mirror st source before mappings w =
      and_then st
        (from_mirror (
          apply_mirror calls.target calls.fingerprint calls.target_playlist calls.target_provider st
            id token before mappings w))
        (complete st source mappings)
  finish_by_mode add_only st source before mappings w =
      and_then st (from_provider (calls.read_target w)) (λ p after.
        complete st source mappings
          (build_playlist_snapshot calls.fingerprint p calls.target_provider) after)

  -- The checkpoint that waits for a review is written with the end of the run, under the lease only.
  unfoldable pub attention :
      Store
      → SyncRun
      → Checkpoint
      → List (Text × Option Text)
      → List JobItem
      → Text
      → W
      → SyncOutcome W
  unfolding committed finish_attention lease_is_current set_checkpoint
  attention st r c mappings items why w =
      if lease_is_current r token
      then committed st w (
          finish_attention
            (record st {
              checkpoints =
                  set_checkpoint
                    (record c {
                      source_snapshot = r.source_snapshot;
                      target_snapshot = r.target_before;
                      mappings = mappings;
                      unresolved = map (λ (i : JobItem). i.id) (filter is_open items);
                    })
                    st.checkpoints;
            })
            id token now why)
      else finished st w

  -- By the status of the outcome.
  unfoldable pub by_status :
      SyncStatus
      → SyncJobOutcome
      → Store
      → SyncRun × SyncRule
      → Checkpoint
      → Snapshot
      → Snapshot
      → List (Text × Option Text)
      → List JobItem
      → W
      → SyncOutcome W
  unfolding attention finish_by_mode numeral
  by_status SyncStatus.partial_failure o st rows c source before mappings items w = stopped st w (
      sync_partial_failure
        (numeral o.failed_count ++ codes " track writes failed; retry is scheduled"))
  by_status SyncStatus.review_required o st (r, rule) c source before mappings items w =
      attention st r c mappings items (numeral o.review_count ++ codes " tracks require review") w
  by_status _ o st (r, rule) c source before mappings items w =
      finish_by_mode rule.mode st source before mappings w

  -- The second session, which reads the rows again.
  unfoldable pub with_state :
      Store
      → Snapshot
      → Snapshot
      → List (Text × Option Text)
      → List JobItem
      → SyncRun × SyncRule
      → Option Checkpoint
      → W
      → SyncOutcome W
  unfolding by_status classify_job_items job_item_mappings update_mappings
  with_state st source before mappings items rows none w =
      stopped st w
        (unexpected (codes "RuntimeError") (codes "sync state disappeared during execution"))
  with_state st source before mappings items rows (some c) w =
      let o = classify_job_items items in
      by_status o.status o st rows c source before
        (update_mappings mappings (job_item_mappings items)) items w

  unfoldable pub rows_of :
      Result SyncFault (SyncRun × SyncRule) → Result RunError (SyncRun × SyncRule)
  unfolding fault_error
  rows_of (raised f) = raised (fault_error f)
  rows_of (ok rows) = ok rows

  unfoldable pub after_migration :
      Store
      → Snapshot
      → Snapshot
      → List (Text × Option Text)
      → (Option RunError × List JobItem) × W
      → SyncOutcome W
  unfolding with_state run_and_rule find_checkpoint and_then rows_of
  after_migration st source before mappings ((some e, items), w) = stopped st w e
  after_migration st source before mappings ((none, items), w) =
      and_then st (rows_of (run_and_rule st id), w)
        (λ rows v.
          with_state st source before mappings items rows (find_checkpoint rows.1.id st.checkpoints)
            v)

  -- `if diff.added_positions`
  unfoldable pub migrate_added : List ℕ → Snapshot → Bool → W → (Option RunError × List JobItem) × W
  unfolding added_entries
  migrate_added [] s match_only w = ((none, []), w)
  migrate_added (p ∷ ps) s match_only w = calls.migrate (added_entries (p ∷ ps) s) match_only w

  -- The run with what was read, which the first session commits.
  unfoldable pub read_run : SyncRun → Snapshot → Snapshot → SyncDiff → SyncRun
  read_run r source before d = record r {
    source_snapshot = some source;
    target_before = some before;
    added = length d.added_positions;
    removed = d.removed_count;
    reordered = d.reordered_count;
    heartbeat_at = some now;
  }

  unfoldable pub with_diff :
      Store → SyncRun → SyncRule → Checkpoint → Snapshot → Snapshot → SyncDiff → W → SyncOutcome W
  unfolding read_run set_run migrate_added after_migration carry_target_mappings
  with_diff st r rule c source before d w =
      after_migration (record st { runs = set_run (read_run r source before d) st.runs }) source
        before (carry_target_mappings c.source_snapshot (some source) c.mappings)
        (migrate_added d.added_positions source (is_mirror_mode rule.mode) w)

  -- Both playlists are read.
  unfoldable pub with_playlists :
      Store → SyncRun → SyncRule → Checkpoint → Playlist → Playlist → W → SyncOutcome W
  unfolding and_then from_zip with_diff diff_snapshots build_playlist_snapshot
  with_playlists st r rule c p q w =
      let source = build_playlist_snapshot calls.fingerprint p calls.source_provider in
      let before = build_playlist_snapshot calls.fingerprint q calls.target_provider in
      and_then st (from_zip (diff_snapshots c.source_snapshot (some source)), w)
        (λ d v. with_diff st r rule c source before d v)

  unfoldable pub with_access : Store → SyncRun → SyncRule → Checkpoint → W → SyncOutcome W
  unfolding and_then from_provider with_playlists
  with_access st r rule c w = and_then st (calls.source_credential w) (λ _ w1.
      and_then st (calls.target_credential w1) (λ _ w2.
        and_then st (from_provider (calls.read_source w2)) (λ p w3.
          and_then st (from_provider (calls.read_target w3))
            (λ q w4. with_playlists st r rule c p q w4))))

  unfoldable pub with_reason :
      Option Text → Store → SyncRun → SyncRule → Checkpoint → W → SyncOutcome W
  unfolding with_access
  with_reason (some why) st r rule c w = stopped st w (provider (other why))
  with_reason none st r rule c w = with_access st r rule c w

  -- The reason against a mirror, which the mode `add_only` does not ask for.
  unfoldable pub reason_for : SyncMode → Checkpoint → Option Text
  unfolding mirror_unavailable_reason checkpoint_kind
  reason_for mirror c = mirror_unavailable_reason calls.target (checkpoint_kind c.source_snapshot)
  reason_for add_only c = none

  unfoldable pub with_checkpoint :
      Store → SyncRun → SyncRule → Option Checkpoint → W → SyncOutcome W
  unfolding with_reason reason_for fault_error
  with_checkpoint st r rule none w = stopped st w (fault_error checkpoint_missing)
  with_checkpoint st r rule (some c) w = with_reason (reason_for rule.mode c) st r rule c w

  unfoldable pub with_rows : Store → Result SyncFault (SyncRun × SyncRule) → W → SyncOutcome W
  unfolding with_checkpoint find_checkpoint fault_error
  with_rows st (raised f) w = stopped st w (fault_error f)
  with_rows st (ok (r, rule)) w =
      with_checkpoint st r rule (find_checkpoint rule.id st.checkpoints) w

  unfoldable pub execute_sync : Store → W → SyncOutcome W
  unfolding with_rows run_and_rule
  execute_sync st w = with_rows st (run_and_rule st id) w
