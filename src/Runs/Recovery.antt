-- ===== src/Runs/Recovery.antt =====
-- `recover_stale_runs` (backend/app/jobs/sync.py): active runs whose heartbeat is too old are
-- ended, and their leases are replaced.
use open_playlist_engine.Prelude.{
  ℕ, suc, ◌+◌, Bool, true, false, ◌&&◌, Option, none, some, List, [], ◌∷◌, if◌then◌else◌, ltb, Text,
  codes, or_else, length, nat_eq,
}
use open_playlist_engine.Migration.{JobItem}
use open_playlist_engine.Runs.{
  review_required, failed, SyncRun, SyncRule, Store, is_active, find_rule, set_rule, set_run,
  find_checkpoint,
}
use open_playlist_engine.Runs.Operations.{write_rows}
use open_playlist_engine.Runs.Outcome.{review_ready_for_run}

-- `run.heartbeat_at or run.started_at or run.created_at`
unfoldable pub last_sign : SyncRun → Option ℕ
last_sign r = or_else r.heartbeat_at (or_else r.started_at r.created_at)

-- Not (`heartbeat is None` or `heartbeat >= now - stale_after`).
unfoldable pub is_stale : ℕ → ℕ → SyncRun → Bool
unfolding last_sign
is_stale now stale_after r = elim (last_sign r) [
  | none ↦ false
  | some t ↦ ltb (t + stale_after) now
]

module _ (items_of : Text → Option (List JobItem)) (fresh : SyncRun → Text)
    (now stale_after retry_delay : ℕ) where
  -- `bool(checkpoint and checkpoint.unresolved and await _review_ready_for_run(…))`
  pub resolved_review : Store → SyncRun → Bool
  unfolding find_checkpoint review_ready_for_run
  resolved_review st r = elim (find_checkpoint r.rule_id st.checkpoints) [
    | none ↦ false
    | some c ↦ ltb 0 (length c.unresolved) && review_ready_for_run items_of st r
  ]

  unfoldable pub ended_run : Bool → SyncRun → SyncRun
  ended_run reviewed r = record r {
    status = if reviewed then review_required else failed;
    error = some (
        if reviewed
        then codes "review was saved but finalization was interrupted"
        else codes "sync worker stopped before the run completed");
    finished_at = some now;
    lease_token = fresh r;
  }

  unfoldable pub ended_rule : Bool → SyncRule → SyncRule
  ended_rule true rule = record rule {
    status = review_required;
    last_error = some (codes "review was saved but finalization was interrupted");
    next_run_at = none;
  }
  ended_rule false rule = record rule {
    status = failed;
    last_error = some (codes "sync worker stopped before the run completed");
    next_run_at = some (now + retry_delay);
  }

  -- One stale run; without its rule, which the foreign key rules out, nothing is written.
  unfoldable pub end_with : Store → SyncRun → Option SyncRule → Store
  unfolding resolved_review ended_run ended_rule set_rule set_run
  end_with st r none = st
  end_with st r (some rule) =
      write_rows st (ended_run (resolved_review st r) r) (ended_rule (resolved_review st r) rule)

  unfoldable pub end_run : Store → SyncRun → Store
  unfolding end_with find_rule
  end_run st r = end_with st r (find_rule r.rule_id st.rules)

  -- The loop over the runs that the query returned, with the count of those recovered.
  unfoldable pub recover_each : Store → List SyncRun → ℕ × Store
  unfolding is_stale end_run
  recover_each st [] = (0, st)
  recover_each st (r ∷ rs) =
      let stale = is_active r.status && is_stale now stale_after r in
      let (n, after) = recover_each (if stale then end_run st r else st) rs in
      (if stale then suc n else n, after)

  unfoldable pub recover_stale_runs : Store → ℕ × Store
  unfolding recover_each
  recover_stale_runs st = recover_each st st.runs
