-- ===== src/Runs.antt =====
-- Synchronisation runs (backend/app/jobs/sync.py): the rows of the database and their lookup.
-- Times are seconds since an epoch, all of them in UTC. The operations are in `Runs.Operations`.
pub mod Faults
pub mod Operations
pub mod Unique
pub mod Histories
pub mod Rows
pub mod Lease
pub mod Outcome
pub mod Recovery
pub mod Schedule
pub mod Queueing
pub mod Ready
mod Tests
use open_playlist_engine.Prelude.{
  ℕ, Bool, true, false, ◌&&◌, Option, none, some, List, [], ◌∷◌, any, all, count_if, leb,
  if◌then◌else◌, Text, text_eq, ◌==◌,
}
use open_playlist_engine.Sync.Snapshot.{Snapshot}

-- The statuses of runs and of rules.
pub data SyncStatus : Type 0 where
  idle queued running succeeded review_required failed partial_failure reconnect_required paused :
      SyncStatus

pub data Trigger : Type 0 where
  manual scheduled : Trigger

pub data SyncMode : Type 0 where
  add_only mirror : SyncMode

pub record SyncRun : Type 0 where
  pub id : Text
  pub rule_id : Text
  pub trigger : Trigger
  pub status : SyncStatus
  pub lease_token : Text
  pub queue_job_id : Text
  pub source_snapshot : Option Snapshot
  pub target_before : Option Snapshot
  pub target_after : Option Snapshot
  pub added : ℕ
  pub removed : ℕ
  pub reordered : ℕ
  pub error : Option Text
  pub started_at : Option ℕ
  pub heartbeat_at : Option ℕ
  pub finished_at : Option ℕ
  pub created_at : Option ℕ

pub record SyncRule : Type 0 where
  pub id : Text
  pub mode : SyncMode
  pub cadence_minutes : ℕ
  pub enabled : Bool
  pub status : SyncStatus
  pub last_run_at : Option ℕ
  pub last_success_at : Option ℕ
  pub next_run_at : Option ℕ
  pub last_error : Option Text
  pub last_added : ℕ
  pub last_removed : ℕ
  pub last_reordered : ℕ

pub record Checkpoint : Type 0 where
  pub rule_id : Text
  pub source_snapshot : Option Snapshot
  pub target_snapshot : Option Snapshot
  pub mappings : List (Text × Option Text)
  pub unresolved : List Text

pub record Store : Type 0 where
  pub rules : List SyncRule
  pub runs : List SyncRun
  pub checkpoints : List Checkpoint

-- `status in ACTIVE_RUN_STATUSES`
abbrev pub is_active : SyncStatus → Bool
is_active queued = true
is_active running = true
is_active _ = false

abbrev pub status_beq : SyncStatus → SyncStatus → Bool
status_beq idle idle = true
status_beq queued queued = true
status_beq running running = true
status_beq succeeded succeeded = true
status_beq review_required review_required = true
status_beq failed failed = true
status_beq partial_failure partial_failure = true
status_beq reconnect_required reconnect_required = true
status_beq paused paused = true
status_beq _ _ = false

unfoldable pub active_for : Text → SyncRun → Bool
active_for rule r = r.rule_id == rule && is_active r.status

-- Rows by primary key; a row that is written replaces the row with its key.
unfoldable pub find_run : Text → List SyncRun → Option SyncRun
find_run id [] = none
find_run id (r ∷ rs) = if r.id == id then some r else find_run id rs

unfoldable pub set_run : SyncRun → List SyncRun → List SyncRun
set_run x [] = []
set_run x (r ∷ rs) = if r.id == x.id then x ∷ rs else r ∷ set_run x rs

unfoldable pub find_rule : Text → List SyncRule → Option SyncRule
find_rule id [] = none
find_rule id (r ∷ rs) = if r.id == id then some r else find_rule id rs

unfoldable pub set_rule : SyncRule → List SyncRule → List SyncRule
set_rule x [] = []
set_rule x (r ∷ rs) = if r.id == x.id then x ∷ rs else r ∷ set_rule x rs

unfoldable pub find_checkpoint : Text → List Checkpoint → Option Checkpoint
find_checkpoint id [] = none
find_checkpoint id (c ∷ cs) = if c.rule_id == id then some c else find_checkpoint id cs

unfoldable pub set_checkpoint : Checkpoint → List Checkpoint → List Checkpoint
set_checkpoint x [] = []
set_checkpoint x (c ∷ cs) = if c.rule_id == x.rule_id then x ∷ cs else c ∷ set_checkpoint x cs

-- The partial unique index `uq_sync_run_active_rule` (backend/app/db/models.py), for one rule.
unfoldable pub index_holds : Text → List SyncRun → Bool
unfolding active_for
index_holds rule rs = leb (count_if (active_for rule) rs) 1
