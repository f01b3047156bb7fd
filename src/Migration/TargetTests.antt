-- ===== src/Migration/TargetTests.antt =====
-- A target with one empty playlist, asked for its name and for another; instances of the theorems.
use open_playlist_engine.Prelude.{ℕ, suc, ◌≡◌, refl, none, [], ◌∷◌, Text, codes, ok, text_beq}
use open_playlist_engine.Models.{standard}
use open_playlist_engine.Models.Samples.{ascii, plain_urls, song, playlist_of}
use open_playlist_engine.Migration.Target.{
  PlaylistTarget, TargetRequest, ref_of_id, resolve_target_playlist,
}
use open_playlist_engine.Migration.Choice.{Chosen, resolve_target_playlist-Chosen}

-- The state counts the playlists that were created.
abbrev one_playlist : PlaylistTarget ℕ
one_playlist = record {
  read_playlist = λ ref w. (ok (playlist_of []), w);
  iter_playlists = λ w. (ok (ref_of_id (codes "Mix") ∷ []), w);
  create_playlist = λ name description w. (ok (codes "new"), suc w);
}

abbrev request : Text → TargetRequest
request name = record {
  info = record {
    display_name = codes "T";
    capabilities = record {
      capabilities = [];
      max_add_batch = 1;
      max_library_batch = 1;
      write_quota_cost = 1;
    };
    liked_tracks_playlist_id = none;
    library_read_scope = none;
    library_write_scope = none;
  };
  scopes = [];
  playlist_id = codes "s";
  playlist_name = name;
  description = [];
  kind = standard;
  source_tracks = song (codes "x") (codes "i") ∷ [];
  forced = none;
  previous = none;
}

reuses :
    resolve_target_playlist ⦃ops = ascii⦄ ⦃urls = plain_urls⦄ one_playlist
      (request (codes " Mix"))
      0
    ≡ (ok (record { playlist_id = codes "Mix"; created = none }), 0)
unfolding resolve_target_playlist ref_of_id text_beq
reuses = refl

creates :
    (resolve_target_playlist ⦃ops = ascii⦄ ⦃urls = plain_urls⦄ one_playlist
      (request (codes "Jazz"))
      0).1
    ≡ 1
unfolding resolve_target_playlist ref_of_id text_beq
creates = refl

resolve_target_playlist-Chosen_example :
    Chosen ⦃ops = ascii⦄ ⦃urls = plain_urls⦄ one_playlist
      (request (codes "Jazz"))
      (resolve_target_playlist ⦃ops = ascii⦄ ⦃urls = plain_urls⦄ one_playlist
        (request (codes "Jazz"))
        0).0
resolve_target_playlist-Chosen_example =
    resolve_target_playlist-Chosen ⦃ops = ascii⦄ ⦃urls = plain_urls⦄ one_playlist
      (request (codes "Jazz")) 0
