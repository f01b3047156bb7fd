-- ===== src/Runs/Queueing.antt =====
-- The unique index on active runs, through the queueing of the rules that are due.
use mathlib.Core.Path.{subst}
use open_playlist_engine.Prelude.{>>=-eq-ok, ℕ, ◌≡◌, List, [], ◌∷◌, Text, Result, ok, raised}
use open_playlist_engine.Runs.{SyncRule, Store, scheduled}
use open_playlist_engine.Runs.Faults.{
  SyncFault, key_error, sync_already_running, integrity_error, checkpoint_missing, value_error,
  overflow_error,
}
use open_playlist_engine.Runs.Operations.{create_queued_run}
use open_playlist_engine.Runs.Schedule.{queue_each, queued_or_passed}
use open_playlist_engine.Runs.Unique.{ActiveUnique, Leaves, create_queued_run-Leaves}

queued_or_passed-Leaves :
    (st : Store) (m : Result SyncFault Store)
    → ActiveUnique st.runs
    → Leaves ActiveUnique m
    → Leaves ActiveUnique (queued_or_passed st m)
unfolding queued_or_passed
queued_or_passed-Leaves st (ok after) u l = l
queued_or_passed-Leaves st (raised key_error) u l = l
queued_or_passed-Leaves st (raised sync_already_running) u l = record {
  at = λ st' h. let e : st ≡ st' = cc in subst (λ s. ActiveUnique s.runs) e u;
}
queued_or_passed-Leaves st (raised integrity_error) u l = l
queued_or_passed-Leaves st (raised checkpoint_missing) u l = l
queued_or_passed-Leaves st (raised value_error) u l = l
queued_or_passed-Leaves st (raised overflow_error) u l = l

-- Queueing the rules that are due.
pub queue_each-Leaves :
    (fresh : SyncRule → Text × Text) (now : ℕ) (st : Store) (rules : List (ℕ × SyncRule))
    → ActiveUnique st.runs
    → Leaves ActiveUnique (queue_each fresh now st rules)
unfolding queue_each
queue_each-Leaves fresh now st [] u = record {
  at = λ st' h. let e : st ≡ st' = cc in subst (λ s. ActiveUnique s.runs) e u;
}
queue_each-Leaves fresh now st ((t, rule) ∷ rest) u = record {
  at = λ st' h.
      let (after, e, q) =
        >>=-eq-ok
          (queued_or_passed st
            (create_queued_run st rule.id scheduled now (fresh rule).0 (fresh rule).1))
          _ h in
      let u' =
        (queued_or_passed-Leaves st _ u
            (create_queued_run-Leaves st rule.id scheduled now (fresh rule).0 (fresh rule).1 u)).at
          after e in
      (queue_each-Leaves fresh now after rest u').at st' q;
}
