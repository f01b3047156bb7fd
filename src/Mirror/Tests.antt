-- ===== src/Mirror/Tests.antt =====
-- A target that stores what it is given, and instances of the theorems.
use open_playlist_engine.Prelude.{
  ◌≡◌, refl, true, ◌||◌, none, some, List, [], ◌∷◌, map, Text, text_beq, codes, ok,
}
use open_playlist_engine.Models.{Track, remove_tracks, reorder, get}
use open_playlist_engine.Models.Samples.{ascii, song, playlist_of}
use open_playlist_engine.Counter.{bump, count_of}
use open_playlist_engine.Sync.Snapshot.{
  Snapshot, entries_of, target_uri_sequence, build_playlist_snapshot,
}
use open_playlist_engine.Runs.{running, add_only, idle, Trigger, SyncRun, SyncRule, Store}
use open_playlist_engine.Runs.Operations.{new_run, run_and_rule}
use open_playlist_engine.Mirror.{Option, MirrorTarget, desired_uris, apply_mirror}
use open_playlist_engine.Mirror.Laws.{escapes, is_settled, apply_mirror_order, apply_mirror_settled}

abbrev spotify : Text
spotify = codes "spotify"

abbrev held : Text → Track
held uri = record (song uri uri) { provider_uris = (spotify, uri) ∷ [] }

-- The state of the target is the list of its URIs.
abbrev target : MirrorTarget (List Text)
target = record {
  display_name = codes "T";
  capabilities = record {
    capabilities = remove_tracks ∷ reorder ∷ [];
    max_add_batch = 1;
    max_library_batch = 1;
    write_quota_cost = 1;
  };
  is_mirror = true;
  replace_playlist_tracks = λ p uris w. (ok tt, uris);
  read_playlist = λ p w. (ok (playlist_of (map held w)), w);
}

abbrev unmarked : Snapshot → Text
unmarked s = []

abbrev snapshot_of : List Text → Snapshot
snapshot_of uris =
    build_playlist_snapshot ⦃ops = ascii⦄ unmarked (playlist_of (map held uris)) spotify

abbrev rule : SyncRule
rule = record {
  id = codes "r";
  mode = add_only;
  cadence_minutes = 60;
  enabled = true;
  status = idle;
  last_run_at = none;
  last_success_at = none;
  next_run_at = none;
  last_error = none;
  last_added = 0;
  last_removed = 0;
  last_reordered = 0;
}

abbrev run : SyncRun
run = record (new_run (codes "a") (codes "r") Trigger.manual 10 (codes "l")) {
  status = running;
  source_snapshot = some (snapshot_of (codes "x" ∷ codes "y" ∷ []));
}

abbrev store : Store
store = record { rules = rule ∷ []; runs = run ∷ []; checkpoints = [] }

abbrev mappings : List (Text × Option Text)
mappings =
    (codes "provider-uri:x#0", some (codes "u")) ∷ (codes "provider-uri:y#0", some (codes "v")) ∷ []

abbrev final : Snapshot
final = snapshot_of (codes "u" ∷ codes "v" ∷ [])

rows_there : run_and_rule store (codes "a") ≡ ok (run, rule)
unfolding run_and_rule text_beq new_run
rows_there = refl

mirrored :
    (apply_mirror ⦃ops = ascii⦄ target unmarked
      (codes "p")
      spotify
      store
      (codes "a")
      (codes "l")
      (snapshot_of [])
      mappings
      []).result
    ≡ ok final
unfolding apply_mirror build_playlist_snapshot text_beq new_run get entries_of count_of bump
mirrored = refl

apply_mirror_order_example :
    target_uri_sequence final ≡ desired_uris mappings (entries_of run.source_snapshot)
apply_mirror_order_example =
    apply_mirror_order ⦃ops = ascii⦄ target unmarked (codes "p") spotify store (codes "a")
      (codes "l") (snapshot_of []) mappings [] run rule final rows_there mirrored

apply_mirror_settled_example :
    (is_settled
        (apply_mirror ⦃ops = ascii⦄ target unmarked
          (codes "p")
          spotify
          store
          (codes "a")
          (codes "l")
          (snapshot_of [])
          mappings
          []).ledger
      || escapes
          (apply_mirror ⦃ops = ascii⦄ target unmarked
            (codes "p")
            spotify
            store
            (codes "a")
            (codes "l")
            (snapshot_of [])
            mappings
            []).result)
    ≡ true
apply_mirror_settled_example =
    apply_mirror_settled ⦃ops = ascii⦄ target unmarked (codes "p") spotify store (codes "a")
      (codes "l") (snapshot_of []) mappings [] run rule rows_there
