-- ===== src/SyncJob/LetGo.antt =====
-- How a run that was started lets go of its lease.
use mathlib.Core.Path.{subst}
use open_playlist_engine.Prelude.{
  true, ltb, ◌+◌, ◌∙◌, ℕ, ◌≡◌, ◌⊎◌, inl, inr, refl, Option, none, some, Text, Result, ok, raised,
  Bool-cases, or_else, >>=-eq-ok,
}
use open_playlist_engine.Models.Normalize.{TextOps}
use open_playlist_engine.Runs.{SyncStatus, SyncRun, SyncRule, Store, status_beq, index_holds}
use open_playlist_engine.Runs.Faults.{
  overflow_error, SyncFault, integrity_error, RunError, sync_error_policy, error_message,
}
use open_playlist_engine.Runs.Operations.{
  commit_failure, end_of_time, retry_delay_of, run_and_rule, lease_is_current, fail_run, start_run,
  commit_start, write_rows, failed_run, failed_rule,
}
use open_playlist_engine.Runs.Rows.{
  Rows, Rows-run_and_rule, run_and_rule-Rows, find-set_run, find-set_rule, found_id, found_rule_id,
}
use open_playlist_engine.Runs.Lease.{failing, Closed, finish, finish-Closed}
use open_playlist_engine.SyncJob.{execute_sync}
use open_playlist_engine.SyncJob.Calls.{SyncOutcome, SyncCalls}
use open_playlist_engine.SyncJob.Enter.{after_execute, after_start, run_sync}
use open_playlist_engine.SyncJob.Release.{Ends, execute_sync-Ends}

raised-ok {ℓ} : {E T : Type ℓ} (e : E) (t : T) → ◌≡◌ {A = Result E T} (raised e) (ok t) → ⊥
raised-ok e t h = cc

none-some :
    (s t : Store) (l : Text)
    → ◌≡◌ {A = Result SyncFault (Option Text × Store)} (ok (none, s)) (ok (some l, t))
    → ⊥
none-some s t l h = cc

start_ok-eq :
    (s t : Store) (l m : Text)
    → ◌≡◌ {A = Result SyncFault (Option Text × Store)} (ok (some l, s)) (ok (some m, t))
    → s ≡ t
start_ok-eq s t l m h = cc

commit_start-Rows :
    (st started : Store) (id token : Text) (r x : SyncRun) (rule y : SyncRule)
    → Rows st id r rule
    → x.id ≡ r.id
    → x.rule_id ≡ r.rule_id
    → y.id ≡ rule.id
    → commit_start st x y token ≡ ok (some token, started)
    → Rows started id x y
unfolding commit_start
commit_start-Rows st started id token r x rule y rows same same_rule same_id h =
    let after = write_rows st x y in
    let there : Rows after id x y = record {
      run_found =
          find-set_run id st.runs r x rows.run_found (same ∙ found_id id st.runs r rows.run_found);
      rule_found = rw same_rule (
          find-set_rule r.rule_id st.rules rule y rows.rule_found
            (same_id ∙ found_rule_id r.rule_id st.rules rule rows.rule_found));
    } in
    elim (Bool-cases (index_holds x.rule_id after.runs)) [
      | inl holds ↦
          subst (λ (s : Store). Rows s id x y)
            (start_ok-eq after started token token (rw holds at h)) there
      | inr broken ↦ absurd (raised-ok integrity_error (some token, started) (rw broken at h))
    ]

-- A run that was started has its rows.
pub start_run-Rows :
    (st started : Store) (id token : Text) (expected : SyncStatus) (now : ℕ)
    → start_run st id expected now token ≡ ok (some token, started)
    → (r : SyncRun) × (rule : SyncRule) × Rows started id r rule
unfolding start_run
start_run-Rows st started id token expected now h =
    let ((r, rule), e, q) = >>=-eq-ok (run_and_rule st id) _ h in
    let rows = run_and_rule-Rows st id r rule e in
    elim (Bool-cases (status_beq r.status expected)) [
      | inl fits ↦
          let x : SyncRun = record r {
            status = SyncStatus.running;
            lease_token = token;
            started_at = or_else r.started_at (some now);
            heartbeat_at = some now;
            error = none;
          } in
          let y : SyncRule = record rule { status = SyncStatus.running; last_error = none } in
          (
            x,
            y,
            commit_start-Rows st started id token r x rule y rows refl refl refl (rw fits at q),
          )
      | inr other ↦ absurd (none-some st started token (rw other at q))
    ]

module _ ⦃ops : TextOps⦄ {W : Type 0} (calls : SyncCalls W) (id token : Text) (now : ℕ) where
  -- The next run after the error would be after the last date.
  abbrev pub IsTooLate : ℕ → RunError → Type 0
  IsTooLate delay e = ltb end_of_time (now + retry_delay_of (sync_error_policy e) delay) ≡ true

  fail_run-cases :
      (st : Store) (r : SyncRun) (rule : SyncRule) (delay : ℕ) (e : RunError)
      → Rows st id r rule
      → ((after : Store) × (fail_run st id token now delay e ≡ ok after))
        ⊎ (IsTooLate delay e × (fail_run st id token now delay e ≡ raised overflow_error))
  unfolding fail_run commit_failure
  fail_run-cases st r rule delay e rows =
      let p = sync_error_policy e in
      elim (Bool-cases (lease_is_current r token)) [
        | inl held ↦ elim (Bool-cases (ltb end_of_time (now + retry_delay_of p delay))) [
          | inl late ↦ inr (late, rw (Rows-run_and_rule st id r rule rows) (rw held (rw late refl)))
          | inr soon ↦ inl (
            write_rows st (failed_run r p now (error_message e))
                (failed_rule rule r p now delay (error_message e)),
            rw (Rows-run_and_rule st id r rule rows) (rw held (rw soon refl)),
          )
        ]
        | inr lost ↦ inl (st, rw (Rows-run_and_rule st id r rule rows) (rw lost refl))
      ]

  -- What a run returns: it let go of its lease, or an error asked for a wait beyond the last date.
  abbrev pub LetsGo : ℕ → Result SyncFault (Store × W) → Type 0
  LetsGo delay (raised f) = (e : RunError) × IsTooLate delay e × (f ≡ overflow_error)
  LetsGo delay (ok (st, w)) = Closed st id token

  pub after_execute-LetsGo :
      (delay : ℕ) (out : SyncOutcome W)
      → Ends calls id token now out
      → LetsGo delay (after_execute calls id token now delay out out.error)
  unfolding after_execute
  after_execute-LetsGo delay out (inl (none_raised, closed)) = rw none_raised closed
  after_execute-LetsGo delay out (inr (e, r, rule, is_error, rows)) =
      elim (fail_run-cases out.store r rule delay e rows) [
        | inl (after, h) ↦ rw is_error (
            rw h
              (finish-Closed out.store after id token (failing now delay e) (unfold finish in h)))
        | inr (late, h) ↦ rw is_error (rw h (e, late, refl))
      ]

  pub run_sync-LetsGo :
      (delay : ℕ) (st started : Store) (w : W)
      → start_run st id SyncStatus.queued now token ≡ ok (some token, started)
      → LetsGo delay (run_sync calls id token now delay st w)
  unfolding run_sync after_start
  run_sync-LetsGo delay st started w is_started =
      let (r, rule, rows) = start_run-Rows st started id token SyncStatus.queued now is_started in
      rw is_started (
        after_execute-LetsGo delay (execute_sync calls id token now started w)
          (execute_sync-Ends calls id token now started r rule w rows))
