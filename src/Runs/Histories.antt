-- ===== src/Runs/Histories.antt =====
-- Sequences of transactions on the sync tables; one that raises is rolled back.
use open_playlist_engine.Prelude.{
  ℕ, ◌≡◌, refl, Bool, true, false, ◌&&◌, Option, none, some, List, [], ◌∷◌, if◌then◌else◌, Text,
  Result, ok, raised,
}
use open_playlist_engine.Migration.{JobItem}
use open_playlist_engine.Sync.Snapshot.{Snapshot}
use open_playlist_engine.Runs.{SyncStatus, SyncRun, SyncRule, Store, Trigger, is_active, find_rule}
use open_playlist_engine.Runs.Faults.{SyncFault, RunError}
use open_playlist_engine.Runs.Operations.{
  create_queued_run, start_run, complete_run, finish_attention, fail_run,
}
use open_playlist_engine.Runs.Recovery.{
  recover_stale_runs, recover_each, end_with, end_run, ended_run, is_stale,
}
use open_playlist_engine.Runs.Queueing.{queue_each-Leaves}
use open_playlist_engine.Runs.Schedule.{queue_due}
use open_playlist_engine.Runs.Unique.{
  ActiveUnique, ActiveUnique-set_run, Leaves, create_queued_run-Leaves, finish_attention-Leaves,
  fail_run-Leaves, complete_run-Leaves, start_run-runs,
}

-- The transactions of `create_queued_run`, `_start_run`, `_complete_run`, `_finish_attention`,
-- `_fail_run`, the queueing of `schedule_syncs` and `recover_stale_runs`, with what each is called
-- with.
pub data Operation : Type 0 where
  create : Text → Trigger → ℕ → Text → Text → Operation
  start : Text → SyncStatus → ℕ → Text → Operation
  complete :
      Text → Text → ℕ → Option Snapshot → Option Snapshot → List (Text × Option Text) → Operation
  attend : Text → Text → ℕ → Text → Operation
  fail : Text → Text → ℕ → ℕ → RunError → Operation
  schedule : (SyncRule → Text × Text) → ℕ → ℕ → Operation
  recover : (Text → Option (List JobItem)) → (SyncRun → Text) → ℕ → ℕ → ℕ → Operation

-- A transaction that raises leaves the store as it was.
unfoldable pub committed : Store → Result SyncFault Store → Store
committed st (ok after) = after
committed st (raised _) = st

unfoldable pub committed_start : Store → Result SyncFault (Option Text × Store) → Store
committed_start st (ok (_, after)) = after
committed_start st (raised _) = st

unfoldable pub perform : Store → Operation → Store
unfolding committed committed_start create_queued_run start_run complete_run finish_attention
    fail_run queue_due recover_stale_runs
perform st (create rule trigger now id lease) =
    committed st (create_queued_run st rule trigger now id lease)
perform st (start id expected now lease) = committed_start st (start_run st id expected now lease)
perform st (complete id token now source target mappings) =
    committed st (complete_run st id token now source target mappings)
perform st (attend id token now why) = committed st (finish_attention st id token now why)
perform st (fail id token now delay error) = committed st (fail_run st id token now delay error)
perform st (schedule fresh now batch) = committed st (queue_due fresh now batch st)
perform st (recover items_of fresh now stale_after delay) =
    (recover_stale_runs items_of fresh now stale_after delay st).1

unfoldable pub perform_all : Store → List Operation → Store
unfolding perform
perform_all st [] = st
perform_all st (o ∷ os) = perform_all (perform st o) os

committed-ActiveUnique :
    (st : Store) (m : Result SyncFault Store)
    → ActiveUnique st.runs
    → Leaves ActiveUnique m
    → ActiveUnique (committed st m).runs
unfolding committed
committed-ActiveUnique st (ok after) u l = l.at after refl
committed-ActiveUnique st (raised _) u l = u

committed_start-ActiveUnique :
    (st : Store) (m : Result SyncFault (Option Text × Store))
    → ActiveUnique st.runs
    → ((o : Option Text) (st' : Store) → m ≡ ok (o, st') → ActiveUnique st'.runs)
    → ActiveUnique (committed_start st m).runs
unfolding committed_start
committed_start-ActiveUnique st (ok (o, after)) u l = l o after refl
committed_start-ActiveUnique st (raised _) u l = u

module _ (items_of : Text → Option (List JobItem)) (fresh : SyncRun → Text)
    (now stale_after retry_delay : ℕ) where
  ended_inactive :
      (b : Bool) (r : SyncRun)
      → is_active (ended_run items_of fresh now stale_after retry_delay b r).status ≡ false
  unfolding ended_run
  ended_inactive true r = refl
  ended_inactive false r = refl

  end_with-ActiveUnique :
      (st : Store) (r : SyncRun) (o : Option SyncRule)
      → ActiveUnique st.runs
      → ActiveUnique (end_with items_of fresh now stale_after retry_delay st r o).runs
  unfolding end_with
  end_with-ActiveUnique st r none u = u
  end_with-ActiveUnique st r (some rule) u = ActiveUnique-set_run st.runs _ u (ended_inactive _ r)

  if-ActiveUnique :
      (b : Bool) (m n : Store)
      → ActiveUnique m.runs
      → ActiveUnique n.runs
      → ActiveUnique (if b then m else n).runs
  if-ActiveUnique true m n p q = p
  if-ActiveUnique false m n p q = q

  recover_each-ActiveUnique :
      (st : Store) (rs : List SyncRun)
      → ActiveUnique st.runs
      → ActiveUnique (recover_each items_of fresh now stale_after retry_delay st rs).1.runs
  unfolding recover_each end_run
  recover_each-ActiveUnique st [] u = u
  recover_each-ActiveUnique st (r ∷ rs) u =
      recover_each-ActiveUnique
        (if is_active r.status && is_stale now stale_after r
          then end_run items_of fresh now stale_after retry_delay st r
          else st)
        rs
        (if-ActiveUnique (is_active r.status && is_stale now stale_after r) _ st
          (end_with-ActiveUnique st r (find_rule r.rule_id st.rules) u) u)

perform-ActiveUnique :
    (st : Store) (o : Operation) → ActiveUnique st.runs → ActiveUnique (perform st o).runs
unfolding perform recover_stale_runs queue_due
perform-ActiveUnique st (create rule trigger now id lease) u =
    committed-ActiveUnique st _ u (create_queued_run-Leaves st rule trigger now id lease u)
perform-ActiveUnique st (start id expected now lease) u =
    committed_start-ActiveUnique st _ u (start_run-runs st id expected now lease u)
perform-ActiveUnique st (complete id token now source target mappings) u =
    committed-ActiveUnique st _ u (complete_run-Leaves st id token now u source target mappings)
perform-ActiveUnique st (attend id token now why) u =
    committed-ActiveUnique st _ u (finish_attention-Leaves st id token now u why)
perform-ActiveUnique st (fail id token now delay error) u =
    committed-ActiveUnique st _ u (fail_run-Leaves st id token now u delay error)
perform-ActiveUnique st (schedule fresh now batch) u =
    committed-ActiveUnique st _ u (queue_each-Leaves fresh now st _ u)
perform-ActiveUnique st (recover items_of fresh now stale_after delay) u =
    recover_each-ActiveUnique items_of fresh now stale_after delay st st.runs u

-- From a store in which each rule has at most one queued or running run, every sequence of the
-- transactions create, start, complete, finish, fail, schedule and recover leaves such a store,
-- where a transaction that raises is rolled back.
pub perform_all-ActiveUnique :
    (st : Store) (os : List Operation)
    → ActiveUnique st.runs
    → ActiveUnique (perform_all st os).runs
unfolding perform_all
perform_all-ActiveUnique st [] u = u
perform_all-ActiveUnique st (o ∷ os) u =
    perform_all-ActiveUnique (perform st o) os (perform-ActiveUnique st o u)
