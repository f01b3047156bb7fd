-- ===== src/History/Tests.antt =====
-- A job that is finished, and instances of the theorems.
use open_playlist_engine.Prelude.{
  ℕ, ◌+◌, ◌*◌, ◌≡◌, refl, not, ◌||◌, ltb, none, some, List, [], ◌∷◌, Text, codes, ok,
}
use open_playlist_engine.History.{
  MigrationJob, job_running, job_done, mark_job_terminal, details_available, status_counts,
  sum_counts,
}
use open_playlist_engine.History.Details.{mark_job_terminal-details_available, status_counts_total}

abbrev job : MigrationJob
job = record {
  status = job_running;
  error = none;
  started_at = some 5;
  completed_at = none;
  created_at = some 1;
  details_expires_at = none;
  details_purged_at = none;
}

abbrev ended : MigrationJob
ended = record job { status = job_done; completed_at = some 10; details_expires_at = some 86410 }

ended_there : mark_job_terminal job job_done 1 10 ≡ ok ended
unfolding mark_job_terminal
ended_there = refl

mark_job_terminal-details_available_example :
    details_available ended 1 90000 ≡ not (ltb 0 1) || ltb 90000 (10 + 1 * 86400)
mark_job_terminal-details_available_example =
    mark_job_terminal-details_available job ended job_done 1 10 90000 refl ended_there

abbrev rows : List (Text × ℕ)
rows = (codes "written", 3) ∷ (codes "paused", 1) ∷ []

status_counts_total_example :
    (status_counts rows 6).total
    ≡ sum_counts (status_counts rows 6).known + sum_counts (status_counts rows 6).other
status_counts_total_example = status_counts_total rows 6
