-- ===== src/Runs/Schedule.antt =====
-- The queueing of the rules that are due, by `schedule_syncs` (backend/app/jobs/sync.py): one
-- transaction. Fresh UUIDs for the run of a rule are an argument.
use open_playlist_engine.Prelude.{
  ℕ, not, ◌&&◌, ◌||◌, ◌==◌, nat_eq, Option, none, some, List, [], ◌∷◌, if◌then◌else◌, Text, Result,
  ok, raised, ltb, leb, text_ltb, take, ◌>>=◌,
}
use open_playlist_engine.Runs.{SyncStatus, SyncRule, Store, scheduled, status_beq}
use open_playlist_engine.Runs.Faults.{SyncFault, sync_already_running}
use open_playlist_engine.Runs.Operations.{create_queued_run}

-- `next_run_at` of a rule that may run and is due.
unfoldable pub due_at : ℕ → SyncRule → Option ℕ
due_at now r = elim r.next_run_at [
  | none ↦ none
  | some t ↦
      if r.enabled
        && leb t now
        && not (
            status_beq r.status SyncStatus.review_required
            || status_beq r.status SyncStatus.reconnect_required)
      then some t
      else none
]

unfoldable pub due_rules : ℕ → List SyncRule → List (ℕ × SyncRule)
unfolding due_at
due_rules now [] = []
due_rules now (r ∷ rs) =
    let rest = due_rules now rs in elim (due_at now r) [ none ↦ rest | some t ↦ (t, r) ∷ rest ]

-- `order_by(next_run_at, id)`
unfoldable pub insert_due : ℕ × SyncRule → List (ℕ × SyncRule) → List (ℕ × SyncRule)
unfolding text_ltb
insert_due x [] = x ∷ []
insert_due x (y ∷ ys) =
    let rest = insert_due x ys in
    if ltb y.0 x.0 || (y.0 == x.0 && text_ltb y.1.id x.1.id) then y ∷ rest else x ∷ y ∷ ys

unfoldable pub sort_due : List (ℕ × SyncRule) → List (ℕ × SyncRule)
unfolding insert_due
sort_due [] = []
sort_due (x ∷ xs) = insert_due x (sort_due xs)

-- A rule that has an active run is passed over; any other error leaves the loop.
unfoldable pub queued_or_passed : Store → Result SyncFault Store → Result SyncFault Store
queued_or_passed st (raised sync_already_running) = ok st
queued_or_passed st m = m

-- `fresh` gives the new run of a rule its id and its lease.
unfoldable pub queue_each :
    (SyncRule → Text × Text) → ℕ → Store → List (ℕ × SyncRule) → Result SyncFault Store
unfolding create_queued_run queued_or_passed
queue_each fresh now st [] = ok st
queue_each fresh now st ((t, rule) ∷ rest) = do
  after ←
      queued_or_passed st (create_queued_run st rule.id scheduled now (fresh rule).0 (fresh rule).1)
  queue_each fresh now after rest

unfoldable pub queue_due : (SyncRule → Text × Text) → ℕ → ℕ → Store → Result SyncFault Store
unfolding due_rules sort_due queue_each
queue_due fresh now batch st =
    queue_each fresh now st (take batch (sort_due (due_rules now st.rules)))
