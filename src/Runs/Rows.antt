-- ===== src/Runs/Rows.antt =====
-- The rows of a run and of its rule, after they were written.
use open_playlist_engine.Prelude.{
  raised, Result, ℕ, Bool-cases, inl, inr, ltb, ◌+◌, nat_eq, sym, ◌≡◌, refl, Option, none, some,
  List, [], ◌∷◌, arith, Text, ok, text_beq_iff, text_eq,
}
use open_playlist_engine.Runs.{SyncRun, SyncRule, Store, find_run, set_run, find_rule, set_rule}
use open_playlist_engine.Runs.Faults.{SyncFault, overflow_error, SyncErrorPolicy}
use open_playlist_engine.Runs.Operations.{
  commit_failure, write_rows, failed_run, failed_rule, end_of_time, retry_delay_of, run_and_rule,
  with_run, with_rule,
}

pub found_id : (id : Text) (rs : List SyncRun) (r : SyncRun) → find_run id rs ≡ some r → r.id ≡ id
unfolding find_run
found_id id [] r h = cc
found_id id (x ∷ rs) r h = ground (arith, text_beq_iff x.id id, found_id id rs r)

pub found_rule_id :
    (id : Text) (rs : List SyncRule) (r : SyncRule) → find_rule id rs ≡ some r → r.id ≡ id
unfolding find_rule
found_rule_id id [] r h = cc
found_rule_id id (x ∷ rs) r h = ground (arith, text_beq_iff x.id id, found_rule_id id rs r)

pub find-set_run :
    (id : Text) (rs : List SyncRun) (r x : SyncRun)
    → find_run id rs ≡ some r
    → x.id ≡ id
    → find_run id (set_run x rs) ≡ some x
unfolding find_run set_run
find-set_run id [] r x h e = cc
find-set_run id (y ∷ rs) r x h e = ground (
  arith,
  text_beq_iff y.id id,
  text_beq_iff x.id id,
  text_beq_iff y.id x.id,
  find-set_run id rs r x,
)

pub find-set_rule :
    (id : Text) (rs : List SyncRule) (r x : SyncRule)
    → find_rule id rs ≡ some r
    → x.id ≡ id
    → find_rule id (set_rule x rs) ≡ some x
unfolding find_rule set_rule
find-set_rule id [] r x h e = cc
find-set_rule id (y ∷ rs) r x h e = ground (
  arith,
  text_beq_iff y.id id,
  text_beq_iff x.id id,
  text_beq_iff y.id x.id,
  find-set_rule id rs r x,
)

-- The rows of the run and of its rule.
pub record Rows (st : Store) (id : Text) (r : SyncRun) (rule : SyncRule) : Type 0 where
  pub run_found : find_run id st.runs ≡ some r
  pub rule_found : find_rule r.rule_id st.rules ≡ some rule

with_rule-Rows :
    (r x : SyncRun) (o : Option SyncRule) (rule : SyncRule)
    → with_rule x o ≡ ok (r, rule)
    → (x ≡ r) × (o ≡ some rule)
unfolding with_rule
with_rule-Rows r x none rule h = cc
with_rule-Rows r x (some y) rule h = (cc, cc)

with_run-Rows :
    (st : Store) (id : Text) (o : Option SyncRun) (r : SyncRun) (rule : SyncRule)
    → find_run id st.runs ≡ o
    → with_run st.rules o ≡ ok (r, rule)
    → Rows st id r rule
unfolding with_run
with_run-Rows st id none r rule e h = cc
with_run-Rows st id (some x) r rule e h =
    let (p, q) = with_rule-Rows r x (find_rule x.rule_id st.rules) rule h in
    record { run_found = cc; rule_found = rw (sym p) q }

pub run_and_rule-Rows :
    (st : Store) (id : Text) (r : SyncRun) (rule : SyncRule)
    → run_and_rule st id ≡ ok (r, rule)
    → Rows st id r rule
unfolding run_and_rule
run_and_rule-Rows st id r rule h = with_run-Rows st id (find_run id st.runs) r rule refl h

pub Rows-run_and_rule :
    (st : Store) (id : Text) (r : SyncRun) (rule : SyncRule)
    → Rows st id r rule
    → run_and_rule st id ≡ ok (r, rule)
unfolding run_and_rule with_run with_rule
Rows-run_and_rule st id r rule h = rw (h.run_found, h.rule_found) refl

-- What a failure that is committed writes.
pub commit_failure-ok :
    (st after : Store) (r : SyncRun) (rule : SyncRule) (now delay : ℕ) (p : SyncErrorPolicy)
    (why : Text)
    → commit_failure st r rule now delay p why ≡ ok after
    → write_rows st (failed_run r p now why) (failed_rule rule r p now delay why) ≡ after
unfolding commit_failure
commit_failure-ok st after r rule now delay p why h =
    elim (Bool-cases (ltb end_of_time (now + retry_delay_of p delay))) [
      | inl late ↦ absurd (fault_or_ok overflow_error after (rw late at h))
      | inr soon ↦ ok_ok _ after (rw soon at h)
    ]
  where
    fault_or_ok :
        (f : SyncFault) (s : Store) → ◌≡◌ {A = Result SyncFault Store} (raised f) (ok s) → ⊥
    fault_or_ok f s h = cc

    ok_ok : (s t : Store) → ◌≡◌ {A = Result SyncFault Store} (ok s) (ok t) → s ≡ t
    ok_ok s t h = cc
