-- ===== src/Runs/Operations.antt =====
-- The operations on runs: queueing, starting, finishing and failing (backend/app/jobs/sync.py).
-- Each is one transaction, from the store that it reads to the store that it commits. Fresh
-- UUIDs and the time are arguments.
use open_playlist_engine.Prelude.{
  ℕ, ◌+◌, ◌*◌, Bool, false, not, ◌&&◌, Option, none, some, List, [], ◌∷◌, ◌++◌, any, if◌then◌else◌,
  Text, ltb, text_eq, codes, ◌==◌, Result, ok, raised, or_else, nat_eq, ◌>>=◌,
}
use mathlib.Core.Option.{get_or}
use open_playlist_engine.Models.{truthy_number}
use open_playlist_engine.Sync.Snapshot.{Snapshot}
use open_playlist_engine.Runs.Faults.{
  SyncFault, key_error, sync_already_running, integrity_error, checkpoint_missing, value_error,
  overflow_error, RunError, SyncErrorPolicy, sync_error_policy, error_message,
}
use open_playlist_engine.Runs.{
  SyncStatus, queued, running, succeeded, review_required, paused, Trigger, SyncRun, SyncRule,
  Checkpoint, Store, status_beq, active_for, find_run, set_run, find_rule, set_rule,
  find_checkpoint, set_checkpoint, index_holds,
}

-- `next_run_after`: None stands for the ValueError of a cadence that is not positive.
unfoldable pub next_run_after : ℕ → ℕ → Option ℕ
next_run_after now minutes = if minutes == 0 then none else some (now + 60 * minutes)

unfoldable pub lease_is_current : SyncRun → Text → Bool
lease_is_current r token = status_beq r.status running && r.lease_token == token

-- `_run_and_rule`: the foreign key makes the rule of a run exist.
unfoldable pub with_rule : SyncRun → Option SyncRule → Result SyncFault (SyncRun × SyncRule)
with_rule r none = raised key_error
with_rule r (some rule) = ok (r, rule)

unfoldable pub with_run : List SyncRule → Option SyncRun → Result SyncFault (SyncRun × SyncRule)
unfolding with_rule find_rule
with_run rules none = raised key_error
with_run rules (some r) = with_rule r (find_rule r.rule_id rules)

unfoldable pub run_and_rule : Store → Text → Result SyncFault (SyncRun × SyncRule)
unfolding with_run find_run
run_and_rule st id = with_run st.rules (find_run id st.runs)

abbrev pub write_rows : Store → SyncRun → SyncRule → Store
write_rows st r rule = record st { rules = set_rule rule st.rules; runs = set_run r st.runs }

unfoldable pub new_run : Text → Text → Trigger → ℕ → Text → SyncRun
new_run id rule_id trigger now lease = record {
  id = id;
  rule_id = rule_id;
  trigger = trigger;
  status = queued;
  lease_token = lease;
  queue_job_id = codes "sync-run:" ++ id;
  source_snapshot = none;
  target_before = none;
  target_after = none;
  added = 0;
  removed = 0;
  reordered = 0;
  error = none;
  started_at = none;
  heartbeat_at = none;
  finished_at = none;
  created_at = some now;
}

unfoldable pub create_queued_run : Store → Text → Trigger → ℕ → Text → Text → Result SyncFault Store
unfolding find_rule active_for new_run set_rule
create_queued_run st rule_id trigger now id lease = elim (find_rule rule_id st.rules) [
  | none ↦ raised key_error
  | some rule ↦
      if any (active_for rule_id) st.runs
      then raised sync_already_running
      else ok (record st {
        rules =
            set_rule
              (record rule {
                status = queued;
                last_run_at = some now;
                next_run_at = none;
                last_error = none;
              })
              st.rules;
        runs = st.runs ++ new_run id rule_id trigger now lease ∷ [];
      })
]

-- The commit of a start, which the unique index may refuse.
unfoldable pub commit_start :
    Store → SyncRun → SyncRule → Text → Result SyncFault (Option Text × Store)
unfolding index_holds set_run set_rule
commit_start st r rule lease =
    let after = write_rows st r rule in
    if index_holds r.rule_id after.runs then ok (some lease, after) else raised integrity_error

unfoldable pub start_run :
    Store → Text → SyncStatus → ℕ → Text → Result SyncFault (Option Text × Store)
unfolding run_and_rule commit_start
start_run st id expected now lease = do
  (r, rule) ← run_and_rule st id
  if status_beq r.status expected
      then commit_start st
          (record r {
            status = running;
            lease_token = lease;
            started_at = or_else r.started_at (some now);
            heartbeat_at = some now;
            error = none;
          })
          (record rule { status = running; last_error = none }) lease
      else ok (none, st)

-- The rows that `_complete_run` writes.
unfoldable pub completed_run : SyncRun → ℕ → Option Snapshot → SyncRun
completed_run r now target = record r {
  status = succeeded;
  target_after = target;
  error = none;
  finished_at = some now;
  heartbeat_at = some now;
}

unfoldable pub completed_rule : SyncRule → SyncRun → ℕ → SyncRule
unfolding next_run_after
completed_rule rule r now = record rule {
  status = if rule.enabled then succeeded else paused;
  last_success_at = some now;
  last_error = none;
  last_added = r.added;
  last_removed = r.removed;
  last_reordered = r.reordered;
  next_run_at = if rule.enabled then next_run_after now rule.cadence_minutes else none;
}

-- The commit of a completion, with the checkpoint of the rule if there is one. An enabled rule
-- whose cadence is not positive has no next run: the `ValueError` leaves the transaction.
unfoldable pub commit_completion :
    Store
    → SyncRun
    → SyncRule
    → ℕ
    → Option Snapshot
    → Option Snapshot
    → List (Text × Option Text)
    → Option Checkpoint
    → Result SyncFault Store
unfolding set_checkpoint completed_run completed_rule set_run set_rule
commit_completion st r rule now source target mappings none = raised checkpoint_missing
commit_completion st r rule now source target mappings (some c) =
    if rule.enabled && rule.cadence_minutes == 0
    then raised value_error
    else ok (record (write_rows st (completed_run r now target) (completed_rule rule r now)) {
      checkpoints =
          set_checkpoint
            (record c {
              source_snapshot = source;
              target_snapshot = target;
              mappings = mappings;
              unresolved = [];
            })
            st.checkpoints;
    })

unfoldable pub complete_run :
    Store
    → Text
    → Text
    → ℕ
    → Option Snapshot
    → Option Snapshot
    → List (Text × Option Text)
    → Result SyncFault Store
unfolding run_and_rule lease_is_current find_checkpoint commit_completion
complete_run st id token now source target mappings = do
  (r, rule) ← run_and_rule st id
  if not (lease_is_current r token)
      then ok st
      else commit_completion st r rule now source target mappings
          (find_checkpoint rule.id st.checkpoints)

unfoldable pub attended_run : SyncRun → ℕ → Text → SyncRun
attended_run r now why = record r {
  status = review_required;
  error = some why;
  finished_at = some now;
  heartbeat_at = some now;
}

unfoldable pub attended_rule : SyncRule → SyncRun → Text → SyncRule
attended_rule rule r why = record rule {
  status = review_required;
  last_error = some why;
  last_added = r.added;
  last_removed = r.removed;
  last_reordered = r.reordered;
  next_run_at = none;
}

unfoldable pub finish_attention : Store → Text → Text → ℕ → Text → Result SyncFault Store
unfolding run_and_rule lease_is_current set_run set_rule attended_run attended_rule
finish_attention st id token now why = do
  (r, rule) ← run_and_rule st id
  if not (lease_is_current r token)
      then ok st
      else ok (write_rows st (attended_run r now why) (attended_rule rule r why))

-- The rule behind a failed run: paused until it is reconnected, or retried after a delay.
unfoldable pub failed_rule : SyncRule → SyncRun → SyncErrorPolicy → ℕ → ℕ → Text → SyncRule
failed_rule rule r policy now retry_delay why = record rule {
  status = policy.status;
  last_error = some why;
  last_added = r.added;
  last_removed = r.removed;
  last_reordered = r.reordered;
  enabled = if policy.pause_rule then false else rule.enabled;
  next_run_at =
      if policy.pause_rule
      then none
      else some (now + get_or (truthy_number policy.retry_after_s) retry_delay);
}

unfoldable pub failed_run : SyncRun → SyncErrorPolicy → ℕ → Text → SyncRun
failed_run r policy now why = record r {
  status = policy.status;
  error = some why;
  finished_at = some now;
  heartbeat_at = some now;
}

-- `datetime.max` in seconds, from the start of year 1; a later time is an `OverflowError`.
abbrev pub end_of_time : ℕ
end_of_time = 315537897599

-- The delay until the next run, if the rule goes on.
unfoldable pub retry_delay_of : SyncErrorPolicy → ℕ → ℕ
retry_delay_of p delay = if p.pause_rule then 0 else get_or (truthy_number p.retry_after_s) delay

-- The commit of a failure; the rows stay where the next run would be after the last date.
unfoldable pub commit_failure :
    Store → SyncRun → SyncRule → ℕ → ℕ → SyncErrorPolicy → Text → Result SyncFault Store
unfolding failed_run failed_rule set_run set_rule retry_delay_of
commit_failure st r rule now retry_delay p why =
    if ltb end_of_time (now + retry_delay_of p retry_delay)
    then raised overflow_error
    else ok (write_rows st (failed_run r p now why) (failed_rule rule r p now retry_delay why))

unfoldable pub fail_run : Store → Text → Text → ℕ → ℕ → RunError → Result SyncFault Store
unfolding run_and_rule lease_is_current sync_error_policy error_message commit_failure
fail_run st id token now retry_delay error = do
  (r, rule) ← run_and_rule st id
  if not (lease_is_current r token)
      then ok st
      else commit_failure st r rule now retry_delay (sync_error_policy error) (error_message error)
