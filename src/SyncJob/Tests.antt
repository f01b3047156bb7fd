-- ===== src/SyncJob/Tests.antt =====
-- A run that migrates one added track, one whose source cannot be read, one whose review is
-- resolved, and an instance of the theorem on runs that let go of their lease.
use open_playlist_engine.Prelude.{
  Option, ◌≡◌, refl, true, none, some, List, [], ◌∷◌, map, Text, text_beq, codes, ok, raised, ℕ,
  ◌++◌, Result,
}
use open_playlist_engine.Models.{Track, get}
use open_playlist_engine.Models.Samples.{ascii, song, playlist_of}
use open_playlist_engine.Counter.{bump, count_of, mem, tally}
use open_playlist_engine.Sync.Snapshot.{Snapshot, build_playlist_snapshot}
use open_playlist_engine.Runs.{
  queued, SyncStatus, add_only, idle, Trigger, SyncRun, SyncRule, Store, Checkpoint,
}
use open_playlist_engine.Runs.Faults.{SyncFault, overflow_error}
use open_playlist_engine.Runs.Operations.{new_run, start_run}
use open_playlist_engine.Mirror.{MirrorTarget}
use open_playlist_engine.Providers.{other, rate_limited}
use open_playlist_engine.SyncJob.Calls.{SyncCalls}
use open_playlist_engine.SyncJob.Enter.{run_sync}
use open_playlist_engine.SyncJob.Finalize.{finalize_sync_review}
use open_playlist_engine.Migration.{JobItem, skipped}

abbrev spotify : Text
spotify = codes "spotify"

abbrev held : Text → Track
held uri = record (song uri uri) { provider_uris = (spotify, uri) ∷ [] }

-- The state of the target is the list of its URIs.
abbrev target : MirrorTarget (List Text)
target = record {
  display_name = codes "T";
  capabilities = record {
    capabilities = [];
    max_add_batch = 1;
    max_library_batch = 1;
    write_quota_cost = 1;
  };
  is_mirror = true;
  replace_playlist_tracks = λ p uris w. (ok tt, uris);
  read_playlist = λ p w. (ok (playlist_of (map held w)), w);
}

abbrev no_items : Text → Option (List JobItem)
no_items id = none

abbrev unmarked : Snapshot → Text
unmarked s = []

abbrev source_uris : List Text
source_uris = codes "x" ∷ codes "y" ∷ []

abbrev calls : SyncCalls (List Text)
calls = record {
  target = target;
  fingerprint = unmarked;
  target_playlist = codes "p";
  source_provider = spotify;
  target_provider = spotify;
  source_credential = λ w. (ok tt, w);
  target_credential = λ w. (ok tt, w);
  read_source = λ w. (ok (playlist_of (map held source_uris)), w);
  read_target = λ w. (ok (playlist_of (map held w)), w);
  migrate = λ entries match_only w. ((none, []), w ++ (codes "y" ∷ []));
}

abbrev silent : SyncCalls (List Text)
silent = record calls { read_source = λ w. (raised (other (codes "down")), w) }

abbrev rule : SyncRule
rule = record {
  id = codes "r";
  mode = add_only;
  cadence_minutes = 60;
  enabled = true;
  status = idle;
  last_run_at = none;
  last_success_at = none;
  next_run_at = none;
  last_error = none;
  last_added = 0;
  last_removed = 0;
  last_reordered = 0;
}

abbrev waiting : Store
waiting = record {
  rules = rule ∷ [];
  runs = new_run (codes "a") (codes "r") Trigger.manual 10 (codes "l") ∷ [];
  checkpoints =
      (record {
        rule_id = codes "r";
        source_snapshot = some (
            build_playlist_snapshot ⦃ops = ascii⦄ unmarked (playlist_of (held (codes "x") ∷ []))
              spotify);
        target_snapshot = none;
        mappings = [];
        unresolved = [];
      })
      ∷ [];
}

abbrev run_with : SyncCalls (List Text) → Result SyncFault (Store × List Text)
run_with c = run_sync ⦃ops = ascii⦄ c (codes "a") (codes "m") 20 900 waiting (codes "x" ∷ [])

abbrev statuses : Result SyncFault (Store × List Text) → List (SyncStatus × ℕ)
statuses (raised f) = []
statuses (ok (st, w)) = map (λ (r : SyncRun). (r.status, r.added)) st.runs

abbrev started_from : Result SyncFault (Option Text × Store) → Store
started_from (raised f) = waiting
started_from (ok (lease, st)) = st

abbrev started : Store
started = started_from (start_run waiting (codes "a") queued 20 (codes "m"))

added_one : statuses (run_with calls) ≡ (SyncStatus.succeeded, 1) ∷ []
unfolding run_sync build_playlist_snapshot text_beq new_run get count_of bump mem tally
added_one = refl

unread : statuses (run_with silent) ≡ (SyncStatus.failed, 0) ∷ []
unfolding run_sync build_playlist_snapshot text_beq new_run get count_of bump
unread = refl

-- An item that a review left out.
abbrev decided : JobItem
decided = record {
  id = codes "i";
  position = 0;
  title = codes "x";
  artist = codes "A";
  album = none;
  duration_s = none;
  isrc = none;
  source_metadata = record {
    title = none;
    artist = none;
    album = none;
    duration_s = none;
    isrc = none;
    id = none;
    source_item_id = none;
    provider_uris = [];
    metadata = [];
  };
  target_playlist_id = none;
  target_uri = none;
  confidence = none;
  status = skipped;
  reason = none;
}

-- The same run, which waited for a review of that item.
abbrev resolved : Store
resolved = record waiting {
  runs = map (λ (r : SyncRun). record r { status = SyncStatus.review_required }) waiting.runs;
  checkpoints =
      map (λ (c : Checkpoint). record c { unresolved = codes "i" ∷ [] }) waiting.checkpoints;
}

abbrev finalized : List JobItem → Result SyncFault (Store × List Text)
finalized items =
    finalize_sync_review ⦃ops = ascii⦄ calls (λ id. some items) (codes "a") (codes "m") 20 900
      resolved (codes "x" ∷ [])

reviewed : statuses (finalized (decided ∷ [])) ≡ (SyncStatus.succeeded, 0) ∷ []
unfolding finalize_sync_review build_playlist_snapshot text_beq new_run get count_of bump mem tally
reviewed = refl

unreviewed : statuses (finalized []) ≡ (SyncStatus.failed, 0) ∷ []
unfolding finalize_sync_review build_playlist_snapshot text_beq new_run get count_of bump mem tally
unreviewed = refl

-- A source that asks for a wait beyond the last date: the run fails to fail.
abbrev asking : SyncCalls (List Text)
asking = record calls {
  read_source = λ w. (raised (rate_limited (some 1000000000000) (codes "later")), w);
}

kept : run_with asking ≡ raised overflow_error
unfolding run_sync build_playlist_snapshot text_beq new_run get count_of bump mem tally
kept = refl
