-- ===== src/Runs/Lease.antt =====
-- The transactions that end a run under a lease, and those that come after.
use open_playlist_engine.Prelude.{
  ◌&&◌, ◌==◌, nat_eq, raised, true, not, if◌then◌else◌, ◌∙◌, Bool, >>=-eq-ok, ℕ, ◌≡◌, refl, false,
  Option, none, some, List, arith, Text, Result, ok, text_eq,
}
use open_playlist_engine.Sync.Snapshot.{Snapshot}
use open_playlist_engine.Runs.{
  running, status_beq, Checkpoint, SyncRun, SyncRule, Store, set_run, set_rule,
}
use mathlib.Core.Path.{subst}
use open_playlist_engine.Runs.Faults.{value_error, error_message}
use open_playlist_engine.Runs.Operations.{
  write_rows, attended_run, attended_rule, failed_run, failed_rule,
}
use open_playlist_engine.Runs.Faults.{error_message, sync_error_policy, SyncFault, RunError}
use open_playlist_engine.Runs.Operations.{
  attended_run, attended_rule, failed_run, failed_rule, completed_rule, completed_run,
  commit_completion, complete_run, finish_attention, fail_run, run_and_rule, lease_is_current,
}
use open_playlist_engine.Migration.{JobItem}
use open_playlist_engine.Runs.Recovery.{end_run, end_with, ended_run, ended_rule, resolved_review}
use open_playlist_engine.Runs.Rows.{
  commit_failure-ok, found_id, found_rule_id, find-set_run, find-set_rule, Rows, run_and_rule-Rows,
  Rows-run_and_rule,
}

-- The transactions with which a worker ends its run, without the run and the lease.
pub data Ending : Type 0 where
  completing : ℕ → Option Snapshot → Option Snapshot → List (Text × Option Text) → Ending
  attending : ℕ → Text → Ending
  failing : ℕ → ℕ → RunError → Ending

unfoldable pub finish : Store → Text → Text → Ending → Result SyncFault Store
unfolding complete_run finish_attention fail_run
finish st id token (completing now source target mappings) =
    complete_run st id token now source target mappings
finish st id token (attending now why) = finish_attention st id token now why
finish st id token (failing now delay error) = fail_run st id token now delay error

-- A worker whose lease is not current changes nothing.
settled :
    (st : Store) (id token : Text) (r : SyncRun) (rule : SyncRule) (e : Ending)
    → Rows st id r rule
    → lease_is_current r token ≡ false
    → finish st id token e ≡ ok st
unfolding finish
settled st id token r rule (completing now source target mappings) h c =
    rw (Rows-run_and_rule st id r rule h, c) refl
settled st id token r rule (attending now why) h c = rw (Rows-run_and_rule st id r rule h, c) refl
settled st id token r rule (failing now delay error) h c =
    rw (Rows-run_and_rule st id r rule h, c) refl

-- The run is there and the lease does not hold it.
pub record Closed (st : Store) (id token : Text) : Type 0 where
  pub run : SyncRun
  pub rule : SyncRule
  pub rows : Rows st id run rule
  pub let_go : lease_is_current run token ≡ false

Closed-if :
    (b : Bool) (st : Store) (id token : Text) (r : SyncRun) (rule : SyncRule)
    (m : Result SyncFault Store) (st' : Store)
    → lease_is_current r token ≡ b
    → Rows st id r rule
    → (if not b then ok st else m) ≡ ok st'
    → (m ≡ ok st' → Closed st' id token)
    → Closed st' id token
Closed-if true st id token r rule m st' c rows h k = k h
Closed-if false st id token r rule m st' c rows h k =
    let e : st ≡ st' = cc in
    subst (λ s. Closed s id token) e (record { run = r; rule = rule; rows = rows; let_go = c })

Closed-Rows :
    (st st' : Store) (id token : Text) (r x : SyncRun) (rule y : SyncRule)
    → Rows st id r rule
    → st'.runs ≡ set_run x st.runs
    → st'.rules ≡ set_rule y st.rules
    → x.id ≡ r.id
    → x.rule_id ≡ r.rule_id
    → y.id ≡ rule.id
    → lease_is_current x token ≡ false
    → Closed st' id token
Closed-Rows st st' id token r x rule y rows runs rules same same_rule same_id over = record {
  run = x;
  rule = y;
  rows = record {
    run_found =
        rw runs (
          find-set_run id st.runs r x rows.run_found (same ∙ found_id id st.runs r rows.run_found));
    rule_found =
        rw (rules, same_rule)
          (find-set_rule r.rule_id st.rules rule y rows.rule_found
            (same_id ∙ found_rule_id r.rule_id st.rules rule rows.rule_found));
  };
  let_go = over;
}

policy_over : (e : RunError) → status_beq (sync_error_policy e).status running ≡ false
unfolding sync_error_policy
policy_over e = ground arith

not_refused :
    (b : Bool) (f : SyncFault) (m : Result SyncFault Store) (st' : Store)
    → (if b then raised f else m) ≡ ok st'
    → m ≡ ok st'
not_refused true f m st' h = cc
not_refused false f m st' h = h

commit_completion-Closed :
    (st st' : Store) (id token : Text) (r : SyncRun) (rule : SyncRule) (now : ℕ)
    (source target : Option Snapshot) (mappings : List (Text × Option Text)) (o : Option Checkpoint)
    → Rows st id r rule
    → commit_completion st r rule now source target mappings o ≡ ok st'
    → Closed st' id token
unfolding commit_completion
commit_completion-Closed st st' id token r rule now source target mappings none rows h = (cc)
commit_completion-Closed st st' id token r rule now source target mappings (some c) rows h =
    let k = not_refused (rule.enabled && rule.cadence_minutes == 0) value_error _ st' h in
    Closed-Rows st st' id token r (completed_run r now target) rule (completed_rule rule r now) rows
      (cc) (cc) refl refl refl (unfold completed_run lease_is_current in refl)

pub finish-Closed :
    (st st' : Store) (id token : Text) (e : Ending)
    → finish st id token e ≡ ok st'
    → Closed st' id token
unfolding finish complete_run finish_attention fail_run
finish-Closed st st' id token (completing now source target mappings) h =
    let ((r, rule), e, q) = >>=-eq-ok (run_and_rule st id) _ h in
    let rows = run_and_rule-Rows st id r rule e in
    Closed-if (lease_is_current r token) st id token r rule _ st' refl rows q
      (commit_completion-Closed st st' id token r rule now source target mappings _ rows)
finish-Closed st st' id token (attending now why) h =
    let ((r, rule), e, q) = >>=-eq-ok (run_and_rule st id) _ h in
    let rows = run_and_rule-Rows st id r rule e in
    Closed-if (lease_is_current r token) st id token r rule _ st' refl rows q (λ k.
      Closed-Rows st st' id token r (attended_run r now why) rule (attended_rule rule r why) rows
        (cc) (cc) refl refl refl (unfold attended_run lease_is_current in refl))
finish-Closed st st' id token (failing now delay error) h =
    let ((r, rule), e, q) = >>=-eq-ok (run_and_rule st id) _ h in
    let rows = run_and_rule-Rows st id r rule e in
    let p = sync_error_policy error in
    let why = error_message error in
    Closed-if (lease_is_current r token) st id token r rule _ st' refl rows q (λ k.
      let wrote = commit_failure-ok st st' r rule now delay p why k in
      subst (λ s. Closed s id token) wrote
        (Closed-Rows st
          (write_rows st (failed_run r p now why) (failed_rule rule r p now delay why)) id token r
          (failed_run r p now why) rule (failed_rule rule r p now delay why) rows refl refl refl
          refl refl (unfold failed_run lease_is_current in rw (policy_over error) refl)))

-- Once a transaction that ends a run under a lease (completing, asking for attention or failing)
-- has returned, every further such transaction of that run under that lease leaves the store as it
-- is.
pub finish-finish :
    (st st' : Store) (id token : Text) (e e' : Ending)
    → finish st id token e ≡ ok st'
    → finish st' id token e' ≡ ok st'
finish-finish st st' id token e e' h =
    let c = finish-Closed st st' id token e h in
    settled st' id token c.run c.rule e' c.rows c.let_go

module _ (items_of : Text → Option (List JobItem)) (fresh : SyncRun → Text)
    (now stale_after retry_delay : ℕ) where
  ended_run-Closed :
      (st : Store) (b : Bool) (id token : Text) (r : SyncRun) (rule : SyncRule)
      → Rows st id r rule
      → Closed
          (write_rows st
            (ended_run items_of fresh now stale_after retry_delay b r)
            (ended_rule items_of fresh now stale_after retry_delay b rule))
          id
          token
  ended_run-Closed st true id token r rule rows =
      Closed-Rows st _ id token r (ended_run items_of fresh now stale_after retry_delay true r) rule
        (ended_rule items_of fresh now stale_after retry_delay true rule) rows refl refl
        (unfold ended_run in refl) (unfold ended_run in refl) (unfold ended_rule in refl)
        (unfold ended_run lease_is_current in refl)
  ended_run-Closed st false id token r rule rows =
      Closed-Rows st _ id token r (ended_run items_of fresh now stale_after retry_delay false r)
        rule (ended_rule items_of fresh now stale_after retry_delay false rule) rows refl refl
        (unfold ended_run in refl) (unfold ended_run in refl) (unfold ended_rule in refl)
        (unfold ended_run lease_is_current in refl)

  -- After the recovery of a stale run whose rows are there, every transaction that would end that
  -- run, under any lease, leaves the store as it is.
  pub finish-end_run :
      (st : Store) (id token : Text) (r : SyncRun) (rule : SyncRule) (e : Ending)
      → run_and_rule st id ≡ ok (r, rule)
      → finish (end_run items_of fresh now stale_after retry_delay st r) id token e
        ≡ ok (end_run items_of fresh now stale_after retry_delay st r)
  unfolding end_run end_with
  finish-end_run st id token r rule e h =
      let rows = run_and_rule-Rows st id r rule h in
      rw rows.rule_found (
        let c =
          ended_run-Closed st (resolved_review items_of fresh now stale_after retry_delay st r) id
            token r rule rows in
        settled _ id token c.run c.rule e c.rows c.let_go)
