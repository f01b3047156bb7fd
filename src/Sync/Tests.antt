-- ===== src/Sync/Tests.antt =====
-- Runs of the snapshot code on small playlists, and instances of its theorems.
use open_playlist_engine.Prelude.{
  ◌+◌, ◌≡◌, ◌↔◌, refl, some, [], ◌∷◌, length, Text, codes, ok, text_beq, numeral,
}
use open_playlist_engine.Models.{Playlist, get}
use open_playlist_engine.Models.Samples.{ascii, song, playlist_of}
use open_playlist_engine.Counter.{mem, tally, bump, count_of}
use open_playlist_engine.Sync.Snapshot.{entries_of, Snapshot, build_playlist_snapshot}
use open_playlist_engine.Sync.Diff.{SyncDiff, diff_snapshots, changed_count, tokens}
use open_playlist_engine.Sync.Silence.{diff_snapshots-silent_iff, diff_snapshots_total}

abbrev before : Playlist
before = playlist_of (song (codes "x") (codes "i1") ∷ song (codes "y") (codes "i2") ∷ [])

abbrev after : Playlist
after = playlist_of (
    song (codes "y") (codes "I2")
    ∷ song (codes "x") (codes "i1")
    ∷ song (codes "x") (codes "i1")
    ∷ [])

abbrev unmarked : Snapshot → Text
unmarked s = []

abbrev spotify : Text
spotify = codes "spotify"

abbrev snapshot_of : Playlist → Snapshot
snapshot_of p = build_playlist_snapshot ⦃ops = ascii⦄ unmarked p spotify

abbrev difference : SyncDiff
difference = record { added_positions = 2 ∷ []; removed_count = 0; reordered_count = 2 }

diff_before-after :
    diff_snapshots (some (snapshot_of before)) (some (snapshot_of after)) ≡ ok difference
unfolding diff_snapshots build_playlist_snapshot entries_of mem tally text_beq get count_of numeral
diff_before-after = refl

tokens_numbered :
    tokens (snapshot_of after).tracks
    ≡ codes "isrc:I2#0" ∷ codes "isrc:I1#0" ∷ codes "isrc:I1#1" ∷ []
unfolding build_playlist_snapshot bump text_beq get count_of numeral
tokens_numbered = refl

diff_snapshots_total_example :
    (d : SyncDiff) × (diff_snapshots (some (snapshot_of before)) (some (snapshot_of after)) ≡ ok d)
    × (length d.added_positions + length (snapshot_of before).tracks
        ≡ d.removed_count + length (snapshot_of after).tracks)
diff_snapshots_total_example = diff_snapshots_total ⦃ops = ascii⦄ unmarked spotify before after

diff_snapshots-silent_iff_example :
    (changed_count difference ≡ 0)
    ↔ (tokens (snapshot_of before).tracks ≡ tokens (snapshot_of after).tracks)
diff_snapshots-silent_iff_example =
    diff_snapshots-silent_iff ⦃ops = ascii⦄ unmarked spotify before after difference
      diff_before-after
