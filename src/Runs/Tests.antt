-- ===== src/Runs/Tests.antt =====
-- A short life of one rule, and instances of the theorems on runs.
use open_playlist_engine.Prelude.{
  some, ℕ, map, Option, ◌≡◌, refl, true, none, List, [], ◌∷◌, Text, codes, ok, arith, text_beq,
}
use open_playlist_engine.Migration.{JobItem, needs_review}
use open_playlist_engine.Runs.Outcome.{classify_job_items, review_finalization_ready}
use open_playlist_engine.Runs.Ready.{classify_job_items-ready}
use open_playlist_engine.Runs.{status_beq, succeeded}
use open_playlist_engine.Runs.{
  idle, queued, running, failed, SyncRun, SyncRule, Store, Trigger, add_only,
}
use open_playlist_engine.Runs.Faults.{unexpected, RunError}
use open_playlist_engine.Runs.Operations.{run_and_rule, new_run}
use open_playlist_engine.Runs.Unique.{ActiveUnique}
use open_playlist_engine.Runs.Histories.{
  Operation, create, start, fail, recover, schedule, perform_all, perform_all-ActiveUnique,
}
use open_playlist_engine.Runs.Lease.{failing, attending, finish, finish-finish, finish-end_run}
use open_playlist_engine.Runs.Recovery.{end_run}

abbrev rule : SyncRule
rule = record {
  id = codes "r";
  mode = add_only;
  cadence_minutes = 60;
  enabled = true;
  status = idle;
  last_run_at = none;
  last_success_at = none;
  next_run_at = none;
  last_error = none;
  last_added = 0;
  last_removed = 0;
  last_reordered = 0;
}

abbrev empty : Store
empty = record { rules = rule ∷ []; runs = []; checkpoints = [] }

abbrev no_items : Text → Option (List JobItem)
no_items id = none

abbrev new_lease : SyncRun → Text
new_lease r = codes "fresh"

abbrev life : List Operation
life =
    create (codes "r") Trigger.manual 10 (codes "a") (codes "l1")
    ∷ create (codes "r") Trigger.scheduled 11 (codes "b") (codes "l2")
    ∷ start (codes "a") queued 12 (codes "l3")
    ∷ recover no_items new_lease 5000 900 900
    ∷ create (codes "r") Trigger.scheduled 5001 (codes "b") (codes "l4")
    ∷ []

-- The second request is refused, the third comes after the recovery.
life_statuses : map (λ (r : SyncRun). r.status) (perform_all empty life).runs ≡ failed ∷ queued ∷ []
unfolding perform_all text_beq
life_statuses = refl

abbrev rule_due : Text → ℕ → SyncRule
rule_due id at = record rule { id = id; next_run_at = some at }

-- Of three rules, one is not due, and a batch of one takes the one that waits longest.
abbrev due : Store
due = record {
  rules = rule_due (codes "p") 90 ∷ rule_due (codes "q") 40 ∷ rule_due (codes "s") 200 ∷ [];
  runs = [];
  checkpoints = [];
}

abbrev fresh : SyncRule → Text × Text
fresh r = (r.id, codes "l")

due_once :
    map (λ (r : SyncRun). r.rule_id) (perform_all due (schedule fresh 100 1 ∷ [])).runs
    ≡ codes "q" ∷ []
unfolding perform_all text_beq
due_once = refl

-- A rule that was queued is not due any more.
due_twice :
    map
      (λ (r : SyncRun). r.rule_id)
      (perform_all due (schedule fresh 100 1 ∷ schedule fresh 100 9 ∷ [])).runs
    ≡ codes "q" ∷ codes "p" ∷ []
unfolding perform_all text_beq
due_twice = refl

no_runs : ActiveUnique empty.runs
no_runs = record { at_most = λ k. omega arith }

perform_all-ActiveUnique_example : ActiveUnique (perform_all empty life).runs
perform_all-ActiveUnique_example = perform_all-ActiveUnique empty life no_runs

abbrev started : SyncRun
started = record (new_run (codes "a") (codes "r") Trigger.manual 10 (codes "l")) {
  status = running;
}

abbrev working : Store
working = record { rules = rule ∷ []; runs = started ∷ []; checkpoints = [] }

abbrev broken : RunError
broken = unexpected (codes "ValueError") (codes "boom")

-- The store that the failure leaves.
abbrev after_failure : Store
after_failure = perform_all working (fail (codes "a") (codes "l") 20 900 broken ∷ [])

failure_returns : finish working (codes "a") (codes "l") (failing 20 900 broken) ≡ ok after_failure
unfolding finish perform_all text_beq
failure_returns = refl

finish-finish_example :
    finish after_failure (codes "a") (codes "l") (attending 30 (codes "late")) ≡ ok after_failure
finish-finish_example =
    finish-finish working after_failure (codes "a") (codes "l") (failing 20 900 broken)
      (attending 30 (codes "late")) failure_returns

rows_there : run_and_rule working (codes "a") ≡ ok (started, rule)
unfolding run_and_rule text_beq new_run
rows_there = refl

finish-end_run_example :
    finish
      (end_run no_items new_lease 5000 900 900 working started)
      (codes "a")
      (codes "l")
      (failing 5001 900 broken)
    ≡ ok (end_run no_items new_lease 5000 900 900 working started)
finish-end_run_example =
    finish-end_run no_items new_lease 5000 900 900 working (codes "a") (codes "l") started rule
      (failing 5001 900 broken) rows_there

abbrev reviewed : JobItem
reviewed = record {
  id = codes "i";
  position = 0;
  title = codes "x";
  artist = codes "A";
  album = none;
  duration_s = none;
  isrc = none;
  source_metadata = record {
    title = none;
    artist = none;
    album = none;
    duration_s = none;
    isrc = none;
    id = none;
    source_item_id = none;
    provider_uris = [];
    metadata = [];
  };
  target_playlist_id = none;
  target_uri = none;
  confidence = none;
  status = needs_review;
  reason = none;
}

classify_job_items-ready_example :
    status_beq (classify_job_items (reviewed ∷ [])).status succeeded
    ≡ review_finalization_ready (reviewed ∷ [])
classify_job_items-ready_example = classify_job_items-ready (reviewed ∷ [])
