-- ===== src/Lib.antt =====
-- Open Playlist Engine: the parts of the backend that decide what is copied between music
-- providers, and when.
--
-- A playlist is read through the adapter of a provider (backend/app/core/adapter.py), its tracks
-- are matched on another provider, and the matches are written there in chunks
-- (backend/app/jobs/migration.py). A synchronisation rule repeats this: each run takes snapshots
-- of both playlists, compares them (backend/app/core/sync.py), and moves through the states of
-- backend/app/jobs/sync.py under a lease. An organizer job removes playlists and songs
-- (backend/app/jobs/organizer.py). The modules:
--
-- - Prelude: numbers, texts (lists of code points), lists, and Result for code that may raise.
--   Counter: the Counter of Python.
-- - Models, Models.Normalize: Track, Playlist and the capabilities
--   (backend/app/core/models.py, backend/app/core/capabilities.py); normalize_text.
-- - Keys: the identity keys of a track (backend/app/core/migration_state.py).
-- - Sync: build_playlist_snapshot, diff_snapshots and the readers of a snapshot
--   (backend/app/core/sync.py), with Sync.Silence for what a difference says.
-- - Providers: the errors and answers of an adapter.
-- - Migration: the rows; Write for _write_matched_items and its helpers, ReviewHistory for
--   _apply_review_history_bonus, Loop for the loop of _run over the items of one playlist with
--   _flush_matched_chunk. Target for _resolve_target_playlist, with Choice for the choices that
--   are allowed. Terminal, Completion and Manual hold the proofs.
-- - Runs: the tables of the synchronisation as a Store; Operations for _start_run,
--   _complete_run, _finish_attention, _fail_run and create_queued_run, Recovery for
--   recover_stale_runs, Schedule for the rules that schedule_syncs queues, Outcome for what the
--   items of a job say. Each operation is a transaction from a store to a store; Histories runs
--   them in any order, and one that raises is rolled back.
-- - SyncJob: _execute_sync (backend/app/jobs/sync.py). Calls for what a run calls, Enter for
--   run_sync, Finalize for _finalize_reviewed_run and finalize_sync_review; Release, LetGo and
--   Reviewed hold the proofs.
-- - Mirror: _apply_mirror with its ledger row and its rollback.
-- - Organizer: backend/app/core/organizer.py; Execute and Job for _execute_item, _run_item and
--   _run (backend/app/jobs/organizer.py).
-- - Match: score and resolve (backend/app/core/match_service.py). Generator:
--   resolve_generated_plan and ensure_confirmable (backend/app/core/generator.py).
-- - Library: saved albums and followed artists. Scores and Match for
--   backend/app/core/library_match.py; Rows, Review, Write and Migrate for
--   _migrate_library_entities and its helpers (backend/app/jobs/migration.py). Ended, Placed,
--   Course, Whole and Ranking hold the proofs.
-- - Unified: backend/app/core/unified_playlists.py. Groups for find and union of
--   build_unified_playlists, Merge for _merge_tracks, Project for the rest; Sources, Forest and
--   Partition hold the proofs.
-- - Session: sign_session and verify_session (backend/app/core/session_tokens.py).
-- - Exports: backend/app/exports/serializers.py. Names for the file names, Lines for
--   _write_m3u8, Tables for the rows of the tables; Attempts, Ascii, Fresh and OneLine hold the
--   proofs.
-- - History: the life and the counts of a migration job (backend/app/db/migration_history.py).
-- - Retention: retention_candidates (backend/app/snapshots/retention.py).
-- - RateLimit: the token buckets (backend/app/core/rate_limit.py).
--
-- State is passed explicitly: W is the state of a provider, and an adapter is a record or a
-- function whose calls answer with a result and the next state. Loops are recursion on lists;
-- the final flush of a playlist has the length of the buffer as its fuel, which is enough since
-- each flush takes one item at least, the attempts at an organizer item have the number of
-- attempts of the settings, the search for a root in Unified has one more than the number of
-- keys, since each parent comes before its child, and the search for a free file name has one
-- more than the number of names in use. A handler that leaves rows behind when it raises returns
-- the rows and the error beside them.
--
-- Parameters stand for what is not in the repository: the case mappings of Unicode and the
-- pattern engine (TextOps), the URL parser (UrlOps), SHA-256 over canonical JSON, float
-- arithmetic with the ratio of difflib (FloatOps), base64, HMAC and JSON, fresh identifiers, the
-- clock, and the providers. Times are whole seconds in UTC, confidences count ten-thousandths,
-- and the token buckets count in whole units where the program uses floats. A call of an adapter
-- answers, or raises an AdapterError: a ProviderError, or any other exception, which the
-- handlers of the program do not catch. URIs are those that urlparse reads; the times that are
-- computed keep within the calendar, except for the next run after a failed one and the limit of
-- days of the retention, whose OverflowErrors are modelled. Positions and durations of tracks
-- are not negative.
--
-- Not modelled: the HTTP interface, SQL, the queue and its workers, imports, XSPF and JSON
-- exports, the prompts of the playlist generator, sharing, the cancellation of a job, and the
-- adapters themselves.
pub mod Counter
pub mod Exports
pub mod Generator
pub mod History
pub mod Keys
pub mod Library
pub mod Match
pub mod Migration
pub mod Mirror
pub mod Models
pub mod Organizer
pub mod Prelude
pub mod Providers
pub mod RateLimit
pub mod Retention
pub mod Runs
pub mod Session
pub mod Sync
pub mod SyncJob
pub mod Unified
