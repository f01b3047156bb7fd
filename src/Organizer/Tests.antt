-- ===== src/Organizer/Tests.antt =====
-- The organizer on two playlists, and instances of the theorems.
use open_playlist_engine.Prelude.{
  ◌≤◌, length, ◌≡◌, refl, Bool, true, false, none, some, List, [], ◌∷◌, ◌++◌, Text, text_beq, codes,
  Result, ok, raised, if◌then◌else◌, arith,
}
use open_playlist_engine.Models.{Playlist, PlaylistRef, PlaylistKind, is_true}
use open_playlist_engine.Models.Samples.{playlist_of, song}
use open_playlist_engine.Counter.{mem}
use open_playlist_engine.Organizer.Duplicates.{detect_duplicate_candidates}
use open_playlist_engine.Providers.{AdapterError, rate_limited}
use open_playlist_engine.Organizer.{map, OrganizerAction, unfollow_it, delete_it}
use open_playlist_engine.Organizer.Adapter.{
  PlaylistMutationResult, other_provider, Adapter, empty, OrganizerItem, pending,
}
use open_playlist_engine.Organizer.Execute.{execute_item}
use open_playlist_engine.Organizer.Job.{Settings, run_job}
use open_playlist_engine.Organizer.Safety.{execute_item-owned}
use open_playlist_engine.Organizer.Ending.{JobEnds, run_job-ended}

abbrev ref : Text → Bool → PlaylistRef
ref id owned = record {
  id = id;
  name = codes "Mix";
  is_owned = some owned;
  collaborative = none;
  snapshot_id = none;
  kind = PlaylistKind.standard;
}

abbrev accepted : PlaylistMutationResult
accepted = record { is_ok = true; already_absent = false }

-- The state of the provider is the list of playlists that were deleted.
abbrev provider : Adapter (List Text)
provider = record {
  name = other_provider;
  display_name = codes "P";
  write_quota_cost = 1;
  acquire = λ cost w. w;
  iter_playlists = λ w. (ok (ref (codes "a") true) ∷ ok (ref (codes "b") false) ∷ [], w);
  read_playlist = λ p w. (ok (playlist_of []), w);
  unfollow_playlist = λ p w. (raised (rate_limited none (codes "slow")), w);
  delete_playlist = λ p w. (ok accepted, w ++ p.id ∷ []);
  remove_tracks = λ p rs w. (ok (record { items = []; snapshot_id = none }), w);
}

-- A delete that leaves a mark where the playlist is not owned.
abbrev marking : PlaylistRef → List Text → Result AdapterError PlaylistMutationResult × List Text
marking p w = (ok accepted, if is_true p.is_owned then w ++ p.id ∷ [] else codes "mark" ∷ [])

abbrev item : Text → OrganizerAction → OrganizerItem
item id action = record {
  id = id;
  action = action;
  playlist = ref id false;
  tracks = [];
  expected_sequence_hash = none;
  baseline_sequence_hash = none;
  result_payload = empty;
  status = pending;
  attempts = 0;
  retryable = true;
  error = none;
}

abbrev same : Text → Text
same s = s

abbrev joined : List Text → Text
joined ts = []

abbrev defaults : Settings
defaults = record { retry_attempts = 3; retry_max_delay_s = 30 }

abbrev items : List OrganizerItem
items = item (codes "a") delete_it ∷ item (codes "b") delete_it ∷ item (codes "c") unfollow_it ∷ []

attempts_used :
    map (λ (i : OrganizerItem). i.attempts) (run_job provider same joined defaults items []).items
    ≡ 1 ∷ 1 ∷ 3 ∷ []
unfolding run_job text_beq
attempts_used = refl

delete_agrees :
    (p : PlaylistRef) (w : List Text)
    → is_true p.is_owned ≡ true
    → marking p w ≡ provider.delete_playlist p w
delete_agrees p w h = rw h refl

execute_item-owned_example :
    execute_item
      (record provider { delete_playlist = marking })
      same
      joined
      (item (codes "b") delete_it)
      []
    ≡ execute_item provider same joined (item (codes "b") delete_it) []
execute_item-owned_example =
    execute_item-owned provider same joined marking delete_agrees (item (codes "b") delete_it) []

run_job-ended_example :
    JobEnds provider same joined defaults
      (omega arith)
      (run_job provider same joined defaults items []).items
      (run_job provider same joined defaults items []).result
    × (length (run_job provider same joined defaults items []).items ≡ 3)
run_job-ended_example = run_job-ended provider same joined defaults (omega arith) items []

abbrev twins : List Playlist
twins =
    playlist_of (song (codes "x") (codes "i") ∷ [])
    ∷ playlist_of (song (codes "x") (codes "i") ∷ [])
    ∷ []

one_candidate : length (detect_duplicate_candidates same twins) ≡ 1
unfolding detect_duplicate_candidates text_beq mem
one_candidate = refl

-- The playlists with two tracks or less.
abbrev IsShort : Playlist → Type 0
IsShort p = length p.tracks ≤ 2
