-- ===== src/Runs/Unique.antt =====
-- The unique index on active runs, through the operations.
use mathlib.Core.Path.{subst}
use open_playlist_engine.Prelude.{
  ltb, ◌&&◌, ◌==◌, nat_eq, inr, >>=-eq-ok, inl, Option-cases, ℕ, ◌+◌, ◌≤◌, ◌≡◌, refl, Bool, true,
  false, not, Option, none, some, List, [], ◌∷◌, ◌++◌, any, count_if, if◌then◌else◌, arith, Text,
  text_eq, text_beq_iff, Result, ok, raised, ◌>>=◌,
}
use open_playlist_engine.Runs.{
  status_beq, index_holds, SyncStatus, SyncRun, SyncRule, Store, Checkpoint, Trigger, is_active,
  active_for, find_run, set_run, find_checkpoint,
}
use open_playlist_engine.Runs.Faults.{
  overflow_error, checkpoint_missing, value_error, SyncFault, RunError, sync_error_policy,
}
use open_playlist_engine.Runs.Operations.{
  commit_failure, end_of_time, retry_delay_of, start_run, commit_start, create_queued_run, new_run,
  complete_run, commit_completion, finish_attention, attended_run, fail_run, failed_run,
  run_and_rule, lease_is_current, completed_run,
}
use open_playlist_engine.Sync.Snapshot.{Snapshot}

abbrev active_count : Text → List SyncRun → ℕ
active_count rule rs = count_if (active_for rule) rs

-- The rows satisfy the partial unique index.
pub record ActiveUnique (rs : List SyncRun) : Type 0 where
  pub at_most : (rule : Text) → active_count rule rs ≤ 1

count-append :
    (rule : Text) (rs : List SyncRun) (r : SyncRun)
    → active_count rule (rs ++ r ∷ []) ≡ active_count rule rs + (if active_for rule r then 1 else 0)
count-append rule [] r = ground arith
count-append rule (x ∷ rs) r = ground (arith, count-append rule rs r)

none_active :
    (rule : Text) (rs : List SyncRun) → any (active_for rule) rs ≡ false → active_count rule rs ≡ 0
none_active rule [] h = refl
none_active rule (r ∷ rs) h = ground (arith, none_active rule rs)

-- Writing one row changes the count by that row.
count-set_run :
    (rule : Text) (x : SyncRun) (rs : List SyncRun) (r : SyncRun)
    → find_run x.id rs ≡ some r
    → active_count rule (set_run x rs) + (if active_for rule r then 1 else 0)
      ≡ active_count rule rs + (if active_for rule x then 1 else 0)
unfolding find_run set_run
count-set_run rule x [] r h = cc
count-set_run rule x (y ∷ rs) r h = ground (arith, count-set_run rule x rs r)

no_row : (x : SyncRun) (rs : List SyncRun) → find_run x.id rs ≡ none → set_run x rs ≡ rs
unfolding find_run set_run
no_row x [] h = refl
no_row x (y ∷ rs) h = ground (arith, no_row x rs)

-- A row that is written for a run that is over keeps the index.
pub ActiveUnique-set_run :
    (rs : List SyncRun) (x : SyncRun)
    → ActiveUnique rs
    → is_active x.status ≡ false
    → ActiveUnique (set_run x rs)
unfolding active_for
ActiveUnique-set_run rs x u a = elim (Option-cases (find_run x.id rs)) [
  | inl absent ↦ rw (no_row x rs absent) u
  | inr (r, found) ↦ record {
    at_most = λ rule. ground (arith, u.at_most rule, count-set_run rule x rs r found);
  }
]

-- A new run is active for its rule and for no other.
new_run-active :
    (rule k id : Text) (trigger : Trigger) (now : ℕ) (lease : Text)
    → active_for k (new_run id rule trigger now lease) ≡ true
    → rule ≡ k
unfolding active_for new_run
new_run-active rule k id trigger now lease h = ground (arith, text_beq_iff rule k)

-- What an operation leaves, if it does not raise, satisfies a predicate on the runs.
pub record Leaves (P : List SyncRun → Type 0) (m : Result SyncFault Store) : Type 0 where
  pub at : (st : Store) → m ≡ ok st → P st.runs

module _ {P : List SyncRun → Type 0} where
  Leaves-ok : (st : Store) → P st.runs → Leaves P (ok st)
  Leaves-ok st p = record { at = λ st' h. let e : st.runs ≡ st'.runs = cc in subst P e p }

  Leaves-raised : (f : SyncFault) → Leaves P (raised f)
  Leaves-raised f = record { at = λ st' h. cc }

  Leaves-if :
      (b : Bool) (m n : Result SyncFault Store)
      → Leaves P m
      → Leaves P n
      → Leaves P (if b then m else n)
  Leaves-if true m n p q = p
  Leaves-if false m n p q = q

  Leaves-rows :
      (m : Result SyncFault (SyncRun × SyncRule)) (f : SyncRun × SyncRule → Result SyncFault Store)
      → ((r : SyncRun) (rule : SyncRule) → m ≡ ok (r, rule) → Leaves P (f (r, rule)))
      → Leaves P (m >>= f)
  Leaves-rows (raised e) f k = Leaves-raised e
  Leaves-rows (ok (r, rule)) f k = k r rule refl

-- Queueing a run.
pub create_queued_run-Leaves :
    (st : Store) (rule : Text) (trigger : Trigger) (now : ℕ) (id lease : Text)
    → ActiveUnique st.runs
    → Leaves ActiveUnique (create_queued_run st rule trigger now id lease)
unfolding create_queued_run
create_queued_run-Leaves st rule trigger now id lease u = record {
  at = λ st' h. record {
    at_most = λ k. ground (
      arith,
      u.at_most k,
      count-append k st.runs (new_run id rule trigger now lease),
      none_active rule st.runs,
      new_run-active rule k id trigger now lease,
    );
  };
}

policy_inactive : (e : RunError) → is_active (sync_error_policy e).status ≡ false
unfolding sync_error_policy
policy_inactive e = ground arith

module _ (st : Store) (id token : Text) (now : ℕ) (u : ActiveUnique st.runs) where
  pub finish_attention-Leaves :
      (why : Text) → Leaves ActiveUnique (finish_attention st id token now why)
  unfolding finish_attention attended_run
  finish_attention-Leaves why = Leaves-rows (run_and_rule st id) _ λ r rule e.
      Leaves-if (not (lease_is_current r token)) (ok st) _ (Leaves-ok st u)
        (Leaves-ok _ (ActiveUnique-set_run st.runs _ u refl))

  pub fail_run-Leaves :
      (retry_delay : ℕ) (error : RunError)
      → Leaves ActiveUnique (fail_run st id token now retry_delay error)
  unfolding fail_run commit_failure failed_run
  fail_run-Leaves retry_delay error = Leaves-rows (run_and_rule st id) _ λ r rule e.
      let p = sync_error_policy error in
      Leaves-if (not (lease_is_current r token)) (ok st) _ (Leaves-ok st u) (
        Leaves-if (ltb end_of_time (now + retry_delay_of p retry_delay)) (raised overflow_error) _
          (record { at = λ st' h. cc })
          (Leaves-ok _ (ActiveUnique-set_run st.runs _ u (policy_inactive error))))

  commit_completion-Leaves :
      (r : SyncRun) (rule : SyncRule) (at : ℕ) (source target : Option Snapshot)
      (mappings : List (Text × Option Text)) (o : Option Checkpoint)
      → Leaves ActiveUnique (commit_completion st r rule at source target mappings o)
  unfolding commit_completion completed_run
  commit_completion-Leaves r rule at source target mappings none = Leaves-raised checkpoint_missing
  commit_completion-Leaves r rule at source target mappings (some c) =
      Leaves-if (rule.enabled && rule.cadence_minutes == 0) (raised value_error) _
        (Leaves-raised value_error) (Leaves-ok _ (ActiveUnique-set_run st.runs _ u refl))

  pub complete_run-Leaves :
      (source target : Option Snapshot) (mappings : List (Text × Option Text))
      → Leaves ActiveUnique (complete_run st id token now source target mappings)
  unfolding complete_run
  complete_run-Leaves source target mappings = Leaves-rows (run_and_rule st id) _ λ r rule e.
      Leaves-if (not (lease_is_current r token)) (ok st) _ (Leaves-ok st u) (
        commit_completion-Leaves r rule now source target mappings
          (find_checkpoint rule.id st.checkpoints))

-- A start passes the index, or its commit is refused.
commit_start-runs :
    (st : Store) (x : SyncRun) (rule : SyncRule) (lease : Text)
    → ActiveUnique st.runs
    → (o : Option Text) (st' : Store) → commit_start st x rule lease ≡ ok (o, st')
    → ActiveUnique st'.runs
unfolding commit_start active_for index_holds
commit_start-runs st x rule lease u o st' h = elim (Option-cases (find_run x.id st.runs)) [
  | inl absent ↦ record { at_most = λ k. ground (arith, u.at_most k, no_row x st.runs absent) }
  | inr (r, found) ↦ record {
    at_most = λ k.
        ground (arith, u.at_most k, count-set_run k x st.runs r found, text_beq_iff x.rule_id k);
  }
]

start_branch :
    (b : Bool) (st : Store) (m : Result SyncFault (Option Text × Store)) (o : Option Text)
    (st' : Store)
    → ActiveUnique st.runs
    → (m ≡ ok (o, st') → ActiveUnique st'.runs)
    → (if b then m else ok (none, st)) ≡ ok (o, st')
    → ActiveUnique st'.runs
start_branch true st m o st' u k h = k h
start_branch false st m o st' u k h = let e : st.runs ≡ st'.runs = cc in subst ActiveUnique e u

pub start_run-runs :
    (st : Store) (id : Text) (expected : SyncStatus) (now : ℕ) (lease : Text)
    → ActiveUnique st.runs
    → (o : Option Text) (st' : Store) → start_run st id expected now lease ≡ ok (o, st')
    → ActiveUnique st'.runs
unfolding start_run
start_run-runs st id expected now lease u o st' h =
    let (p, e, q) = >>=-eq-ok (run_and_rule st id) _ h in
    start_branch (status_beq p.0.status expected) st _ o st' u
      (λ k. commit_start-runs st _ _ lease u o st' k) q
