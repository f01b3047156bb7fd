-- ===== src/Exports/Lines.antt =====
-- The playlists of players: `_write_m3u8` (backend/app/exports/serializers.py), as the lines that it
-- writes, each ended by a line feed.
use open_playlist_engine.Prelude.{
  ℕ, suc, ◌||◌, Option, none, some, List, [], ◌∷◌, ◌++◌, if◌then◌else◌, nat_eq, Text, codes, ◌==◌,
  numeral,
}
use mathlib.Core.List.{reverse}
use open_playlist_engine.Models.{
  Track, Playlist, MediaType, track, episode, video, local_file, unknown, truthy,
}
use open_playlist_engine.Exports.{single_line, source_uri, portable_location}

-- `media_type.value`
unfoldable pub media_type_name : MediaType → Text
media_type_name track = codes "track"
media_type_name episode = codes "episode"
media_type_name video = codes "video"
media_type_name local_file = codes "local_file"
media_type_name unknown = codes "unknown"

-- `label.strip(" -")`
unfoldable pub lstrip_label : Text → Text
lstrip_label [] = []
lstrip_label (c ∷ s) = let rest = lstrip_label s in if c == b' ' || c == b'-' then rest else c ∷ s

unfoldable pub track_label : Track → Text
unfolding lstrip_label
track_label t =
    reverse (lstrip_label (reverse (lstrip_label (t.artist ++ b' ' ∷ b'-' ∷ b' ' ∷ t.title))))

-- A line with a tag and a value, if the value counts as true.
unfoldable pub tagged : Text → Option Text → List Text
unfolding single_line
tagged tag o = line_of (truthy o)
  where
    line_of : Option Text → List Text
    line_of none = []
    line_of (some value) = (tag ++ single_line value) ∷ []

unfoldable pub duration_text : Option ℕ → Text
duration_text none = codes "-1"
duration_text (some n) = numeral n

-- `isoformat` of a time in UTC, with `+00:00` written `Z`.
module _ (isoformat : ℕ → Text) where
  unfoldable pub added_line : Option ℕ → List Text
  added_line none = []
  added_line (some time) = (codes "#OPE-ADDED-AT:" ++ isoformat time) ∷ []

  unfoldable pub location_line : Option Text → Text
  unfolding single_line
  location_line o = line_of (truthy o)
    where
      line_of : Option Text → Text
      line_of none = codes "#OPE-MISSING-URI"
      line_of (some uri) = single_line uri

  unfoldable pub track_lines : Text → ℕ → Track → List Text
  unfolding single_line duration_text track_label tagged added_line location_line media_type_name
      source_uri portable_location
  track_lines provider order t =
      (codes "#EXTINF:" ++ (duration_text t.duration_s ++ b',' ∷ single_line (track_label t)))
      ∷ (codes "#OPE-ORDER:" ++ numeral order)
      ∷ (tagged (codes "#EXTART:") (some t.artist)
          ++ (tagged (codes "#EXTALB:") t.album
              ++ (tagged (codes "#OPE-ISRC:") t.isrc
                  ++ ((codes "#OPE-MEDIA-TYPE:" ++ media_type_name t.media_type)
                      ∷ (tagged (codes "#OPE-SOURCE-URI:") (source_uri t provider)
                          ++ (added_line t.added_at
                              ++ (tagged (codes "#EXTIMG:") t.artwork_uri
                                  ++ (tagged (codes "#OPE-UNSUPPORTED:") t.unsupported_reason
                                      ++ (location_line (portable_location t provider) ∷ [])))))))))

  unfoldable pub all_track_lines : Text → ℕ → List Track → List Text
  unfolding track_lines
  all_track_lines provider order [] = []
  all_track_lines provider order (t ∷ ts) =
      track_lines provider order t ++ all_track_lines provider (suc order) ts

  unfoldable pub empty_warning : List Track → List Text
  empty_warning [] = codes "#OPE-WARNING:empty_playlist" ∷ []
  empty_warning (t ∷ ts) = []

  unfoldable pub m3u8_lines : Playlist → Text → List Text
  unfolding single_line tagged empty_warning all_track_lines
  m3u8_lines p provider =
      codes "#EXTM3U"
      ∷ codes "#EXTENC:UTF-8"
      ∷ codes "#OPE-SCHEMA:open-playlist-m3u-v1"
      ∷ (codes "#PLAYLIST:" ++ single_line p.name)
      ∷ (tagged (codes "#OPE-PLAYLIST-ID:") p.id
          ++ (empty_warning p.tracks ++ all_track_lines provider 1 p.tracks))

-- Each line with its line feed.
unfoldable pub join_lines : List Text → Text
join_lines [] = []
join_lines (l ∷ ls) = l ++ b'\n' ∷ join_lines ls

-- The text that is written to the stream.
unfoldable pub write_m3u8 : (ℕ → Text) → Playlist → Text → Text
unfolding m3u8_lines join_lines
write_m3u8 isoformat p provider = join_lines (m3u8_lines isoformat p provider)
