-- ===== src/History.antt =====
-- The history of migration jobs (backend/app/db/migration_history.py): the outcome and the counts of a
-- job, and how long its details are kept. Times are seconds in UTC.
pub mod Details
mod Tests
use open_playlist_engine.Prelude.{
  ℕ, ◌+◌, ◌-◌, ◌*◌, max, Bool, true, false, not, ◌&&◌, ◌||◌, Option, none, some, List, [], ◌∷◌, map,
  filter, if◌then◌else◌, ltb, is_some, Text, text_eq, codes, ◌==◌, Result, ok, raised, or_else,
}
use mathlib.Core.Option.{get_or}
use open_playlist_engine.Counter.{mem}
use open_playlist_engine.Models.{get, put}

pub data JobStatus : Type 0 where
  job_pending job_running job_done job_failed : JobStatus

pub record MigrationJob : Type 0 where
  pub status : JobStatus
  pub error : Option Text
  pub started_at : Option ℕ
  pub completed_at : Option ℕ
  pub created_at : Option ℕ
  pub details_expires_at : Option ℕ
  pub details_purged_at : Option ℕ

pub data HistoryError : Type 0 where
  value_error : HistoryError

-- `status in TERMINAL_JOB_STATUSES`
abbrev pub is_terminal : JobStatus → Bool
is_terminal job_done = true
is_terminal job_failed = true
is_terminal _ = false

unfoldable pub mark_job_started : MigrationJob → ℕ → MigrationJob
mark_job_started job now = record job {
  status = job_running;
  error = none;
  started_at = or_else job.started_at (some now);
}

unfoldable pub mark_job_terminal :
    MigrationJob → JobStatus → ℕ → ℕ → Result HistoryError MigrationJob
mark_job_terminal job status days now =
    if is_terminal status
    then ok (record job {
      status = status;
      completed_at = some now;
      details_expires_at = if ltb 0 days then some (now + days * 86400) else none;
    })
    else raised value_error

expires_from : ℕ → Option ℕ → Option ℕ
expires_from days none = none
expires_from days (some t) = some (t + days * 86400)

unfoldable pub effective_details_expires_at : MigrationJob → ℕ → Option ℕ
unfolding expires_from
effective_details_expires_at job days =
    if is_some job.details_expires_at
    then job.details_expires_at
    else if not (ltb 0 days) || not (is_terminal job.status)
    then none
    else expires_from days (or_else job.completed_at job.created_at)

before_expiry : Option ℕ → ℕ → Bool
before_expiry none now = true
before_expiry (some t) now = ltb now t

unfoldable pub details_available : MigrationJob → ℕ → ℕ → Bool
unfolding effective_details_expires_at before_expiry
details_available job days now =
    if is_some job.details_purged_at
    then false
    else before_expiry (effective_details_expires_at job days) now

-- `KNOWN_ITEM_STATUSES`
abbrev pub known_item_statuses : List Text
known_item_statuses =
    codes "pending"
    ∷ codes "matched"
    ∷ codes "needs_review"
    ∷ codes "written"
    ∷ codes "skipped"
    ∷ codes "failed"
    ∷ []

abbrev pub sum_counts : List (Text × ℕ) → ℕ
sum_counts [] = 0
sum_counts ((k, n) ∷ c) = n + sum_counts c

-- `Counter({status: int(count) for status, count in rows})`
raw_counts : List (Text × ℕ) → List (Text × ℕ) → List (Text × ℕ)
unfolding put
raw_counts c [] = c
raw_counts c ((status, n) ∷ rows) = raw_counts (put status n c) rows

known_counts : List (Text × ℕ) → List Text → List (Text × ℕ)
unfolding get
known_counts raw [] = []
known_counts raw (s ∷ ss) = (s, get_or (get s raw) 0) ∷ known_counts raw ss

pub record StatusCounts : Type 0 where
  pub total : ℕ
  pub known : List (Text × ℕ)
  pub other : List (Text × ℕ)

-- `known["pending"] += extra`
add_pending : ℕ → List (Text × ℕ) → List (Text × ℕ)
add_pending extra [] = []
add_pending extra ((s, n) ∷ c) = (s, n + extra) ∷ c

unfoldable pub status_counts : List (Text × ℕ) → ℕ → StatusCounts
unfolding raw_counts known_counts add_pending mem
status_counts rows hint =
    let raw = raw_counts [] rows in
    let known = known_counts raw known_item_statuses in
    let others = filter (λ (p : Text × ℕ). not (mem p.0 known_item_statuses) && ltb 0 p.1) raw in
    let observed = sum_counts known + sum_counts others in
    record {
      total = max hint observed;
      known = if ltb observed hint then add_pending (hint - observed) known else known;
      other = others;
    }

-- `sum(counts.get(status, 0) for status in PROBLEM_STATUSES)`
problem_count : List (Text × ℕ) → ℕ
unfolding get
problem_count counts =
    get_or (get (codes "needs_review") counts) 0
    + get_or (get (codes "skipped") counts) 0
    + get_or (get (codes "failed") counts) 0

pub data MigrationOutcome : Type 0 where
  outcome_pending outcome_running outcome_failed outcome_partial outcome_completed :
      MigrationOutcome

unfoldable pub migration_outcome : JobStatus → List (Text × ℕ) → MigrationOutcome
unfolding problem_count
migration_outcome job_pending counts = outcome_pending
migration_outcome job_running counts = outcome_running
migration_outcome job_failed counts = outcome_failed
migration_outcome job_done counts =
    if ltb 0 (problem_count counts) then outcome_partial else outcome_completed
