-- ===== src/Models/Samples.antt =====
-- Concrete values for the tests: the case mappings on ASCII letters, and a few tracks.
use open_playlist_engine.Prelude.{
  ℕ, ◌+◌, ◌-◌, false, ◌&&◌, none, some, List, [], map, if◌then◌else◌, leb, Text, codes,
}
use open_playlist_engine.Models.{Track, MediaType, Playlist, PlaylistKind}
use open_playlist_engine.Models.Normalize.{TextOps}
use open_playlist_engine.Keys.{UrlOps}

abbrev pub lower_ascii : ℕ → ℕ
lower_ascii c = if leb b'A' c && leb c b'Z' then c + 32 else c

abbrev pub upper_ascii : ℕ → ℕ
upper_ascii c = if leb b'a' c && leb c b'z' then c - 32 else c

abbrev pub ascii : TextOps
ascii = record { lower = map lower_ascii; upper = map upper_ascii; sub_feat = λ s. s }

-- URIs without a query.
abbrev pub plain_urls : UrlOps
plain_urls = record { query = λ _. []; video = λ _. none }

abbrev pub song : Text → Text → Track
song title isrc = record {
  id = none;
  title = title;
  artist = codes "A";
  album = none;
  duration_s = some 181;
  isrc = some isrc;
  artwork_uri = none;
  provider_uris = [];
  metadata = [];
  position = none;
  media_type = MediaType.track;
  is_local = false;
  source_item_id = none;
  added_at = none;
  unsupported_reason = none;
}

abbrev pub playlist_of : List Track → Playlist
playlist_of ts = record {
  id = some (codes "p");
  name = codes "Mix";
  description = none;
  photo = none;
  tracks = ts;
  owner_id = none;
  owner_name = none;
  is_owned = none;
  collaborative = none;
  snapshot_id = none;
  created_at = none;
  updated_at = none;
  kind = PlaylistKind.standard;
}
