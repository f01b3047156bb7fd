-- ===== src/SyncJob/Calls.antt =====
-- What a synchronisation run calls, and what it leaves (backend/app/jobs/sync.py). The providers,
-- the credentials and `run_migration` are parameters; `W` is their state.
use open_playlist_engine.Prelude.{
  ℕ, Bool, true, false, Option, none, some, List, [], ◌∷◌, any, filter, Text, text_eq, codes,
  nat_eq, ◌==◌, Result,
}
use open_playlist_engine.Models.{Playlist, PlaylistKind, put}
use open_playlist_engine.Providers.{AdapterError}
use open_playlist_engine.Migration.{JobItem, needs_review, failed}
use open_playlist_engine.Sync.Snapshot.{Entry, Snapshot}
use open_playlist_engine.Runs.{SyncMode, add_only, mirror, Store}
use open_playlist_engine.Runs.Faults.{
  SyncFault, key_error, sync_already_running, integrity_error, checkpoint_missing, value_error,
  overflow_error, RunError, provider, unexpected,
}
use open_playlist_engine.Mirror.{MirrorTarget, MirrorFault}

-- The exception that a fault of the tables is.
unfoldable pub fault_error : SyncFault → RunError
fault_error key_error = unexpected (codes "KeyError") []
fault_error sync_already_running = unexpected (codes "SyncAlreadyRunning") []
fault_error integrity_error = unexpected (codes "IntegrityError") []
fault_error checkpoint_missing =
    unexpected (codes "RuntimeError") (codes "sync checkpoint is missing")
fault_error value_error = unexpected (codes "ValueError") []
fault_error overflow_error = unexpected (codes "OverflowError") []

unfoldable pub mirror_error : MirrorFault → RunError
unfolding fault_error
mirror_error (MirrorFault.provider e) = provider e
mirror_error (MirrorFault.runtime why) = unexpected (codes "RuntimeError") why
mirror_error (MirrorFault.store f) = fault_error f

-- What a run leaves: the tables, the providers, and the error that it raised, if any.
pub record SyncOutcome (W : Type 0) : Type 0 where
  pub store : Store
  pub world : W
  pub error : Option RunError

-- The providers and the calls of a run; `migrate entries match_only` is `run_migration` on the job of those entries,
-- with the error it raises and the items that it leaves.
pub record SyncCalls (W : Type 0) : Type 0 where
  pub target : MirrorTarget W
  pub fingerprint : Snapshot → Text
  pub target_playlist : Text
  pub source_provider : Text
  pub target_provider : Text
  pub source_credential : W → Result RunError Unit × W
  pub target_credential : W → Result RunError Unit × W
  pub read_source : W → Result AdapterError Playlist × W
  pub read_target : W → Result AdapterError Playlist × W
  pub migrate : List Entry → Bool → W → (Option RunError × List JobItem) × W

-- The entries of `_sync_migration_job`: those at the positions that were added.
unfoldable pub added_entries : List ℕ → Snapshot → List Entry
added_entries positions s = filter (λ (e : Entry). any (λ p. p == e.position) positions) s.tracks

-- `dict.update`
unfoldable pub update_mappings :
    List (Text × Option Text) → List (Text × Option Text) → List (Text × Option Text)
unfolding put
update_mappings m [] = m
update_mappings m ((token, uri) ∷ rest) = update_mappings (put token uri m) rest

abbrev pub is_open : JobItem → Bool
is_open i = elim i.status [ needs_review ↦ true | failed ↦ true | _ ↦ false ]

abbrev pub is_mirror_mode : SyncMode → Bool
is_mirror_mode add_only = false
is_mirror_mode mirror = true

-- The kind of the playlist at the last checkpoint.
unfoldable pub checkpoint_kind : Option Snapshot → PlaylistKind
checkpoint_kind none = PlaylistKind.standard
checkpoint_kind (some s) = s.kind
