-- ===== src/History/Details.antt =====
-- How long the details of a finished job are there, and the sum of its counts.
use mathlib.Core.Path.{subst}
use open_playlist_engine.Prelude.{
  Bool-cases, inl, inr, ℕ, ◌+◌, ◌*◌, ◌≡◌, refl, Bool, true, false, not, ◌||◌, none, some, List,
  if◌then◌else◌, ltb, Text, ok, raised, arith,
}
use open_playlist_engine.History.{
  JobStatus, MigrationJob, value_error, is_terminal, mark_job_terminal,
  effective_details_expires_at, details_available, before_expiry, sum_counts, known_counts,
  add_pending, status_counts,
}

-- The job as a terminal status leaves it.
abbrev finished : MigrationJob → JobStatus → ℕ → ℕ → MigrationJob
finished job status days now = record job {
  status = status;
  completed_at = some now;
  details_expires_at = if ltb 0 days then some (now + days * 86400) else none;
}

finished-details_available :
    (job : MigrationJob) (status : JobStatus) (days now later : ℕ)
    → job.details_purged_at ≡ none
    → details_available (finished job status days now) days later
      ≡ not (ltb 0 days) || ltb later (now + days * 86400)
unfolding details_available effective_details_expires_at before_expiry
finished-details_available job status days now later h = elim (Bool-cases (ltb 0 days)) [
  | inl kept ↦ rw (h, kept) refl
  | inr forever ↦ rw (h, forever) refl
]

terminal_is :
    (b : Bool) (m ended : MigrationJob)
    → (if b then ok m else raised value_error) ≡ ok ended
    → m ≡ ended
terminal_is true m ended e = cc
terminal_is false m ended e = cc

-- A job whose details were not purged and that is marked as finished at a time: its details are
-- available later exactly when there is no retention, or the retention of so many days from that
-- time is not over.
pub mark_job_terminal-details_available :
    (job ended : MigrationJob) (status : JobStatus) (days now later : ℕ)
    → job.details_purged_at ≡ none
    → mark_job_terminal job status days now ≡ ok ended
    → details_available ended days later ≡ not (ltb 0 days) || ltb later (now + days * 86400)
unfolding mark_job_terminal
mark_job_terminal-details_available job ended status days now later h e =
    let same = terminal_is (is_terminal status) (finished job status days now) ended e in
    subst
      (λ (j : MigrationJob).
        details_available j days later ≡ not (ltb 0 days) || ltb later (now + days * 86400))
      same (finished-details_available job status days now later h)

-- The total of the status counts is the sum of the known and of the other counts, whatever hint of
-- the total is given.
pub status_counts_total :
    (rows : List (Text × ℕ)) (hint : ℕ)
    → (status_counts rows hint).total
      ≡ sum_counts (status_counts rows hint).known + sum_counts (status_counts rows hint).other
unfolding status_counts known_counts add_pending
status_counts_total rows hint = ground arith
