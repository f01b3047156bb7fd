-- ===== src/Unified/Merge.antt =====
-- One list of tracks for the members of a unified playlist: `_merge_tracks`
-- (backend/app/core/unified_playlists.py). The set `matched_clusters` of the loop over a member is a
-- flag on each cluster.
use open_playlist_engine.Prelude.{
  ℕ, Bool, true, false, not, ◌&&◌, ◌||◌, Option, none, some, List, [], ◌∷◌, ◌++◌, map,
  if◌then◌else◌, ltb, nat_eq, Text, text_eq, text_ltb, codes, ◌==◌, numeral, or_else,
}
use mathlib.Core.Option.{get_or}
use open_playlist_engine.Models.{Track, truthy, get}
use open_playlist_engine.Models.Normalize.{TextOps}
use open_playlist_engine.Counter.{Counter, count_of, bump}
use open_playlist_engine.Keys.{UrlOps}
use open_playlist_engine.Unified.{
  ProviderPlaylist, position_or_last, by_position, track_isrcs, portable_track_keys, match_by,
  track_identity, preferred_key,
}

pub record UnifiedTrackSource : Type 0 where
  pub provider : Text
  pub account_id : Text
  pub account_label : Text
  pub playlist_id : Text
  pub position : Option ℕ
  pub uri : Option Text

-- The tracks that count as one, and whether the member under way has one among them.
pub record Cluster : Type 0 where
  pub keys : List Text
  pub isrcs : List Text
  pub representative : Track
  pub sources : List UnifiedTrackSource
  pub is_matched : Bool

pub record UnifiedTrack : Type 0 where
  pub key : Text
  pub title : Text
  pub artist : Text
  pub album : Option Text
  pub duration_s : Option ℕ
  pub isrc : Option Text
  pub artwork_uri : Option Text
  pub sources : List UnifiedTrackSource

-- `next(iter(uris.values()), None)`
first_value : List (Text × Text) → Option Text
first_value [] = none
first_value ((_, uri) ∷ _) = some uri

unfoldable pub track_source : ProviderPlaylist → Track → UnifiedTrackSource
unfolding first_value get
track_source m t = record {
  provider = m.provider;
  account_id = m.account_id;
  account_label = m.account_label;
  playlist_id = get_or m.playlist.id [];
  position = t.position;
  uri = or_else (present (get m.provider t.provider_uris)) (first_value t.provider_uris);
}
  where
    present : Option Text → Option Text
    present o = truthy o

-- The order of the sources of a track: position, provider, account.
unfoldable pub source_before : UnifiedTrackSource → UnifiedTrackSource → Bool
unfolding position_or_last text_ltb
source_before s t =
    let m = position_or_last s.position in
    let n = position_or_last t.position in
    ltb m n
    || (m == n
        && (text_ltb s.provider t.provider
            || (s.provider == t.provider && text_ltb s.account_id t.account_id)))

unfoldable pub insert_source :
    UnifiedTrackSource → List UnifiedTrackSource → List UnifiedTrackSource
unfolding source_before
insert_source s [] = s ∷ []
insert_source s (t ∷ ts) =
    let rest = insert_source s ts in if source_before t s then t ∷ rest else s ∷ t ∷ ts

unfoldable pub sort_sources : List UnifiedTrackSource → List UnifiedTrackSource
unfolding insert_source
sort_sources [] = []
sort_sources (s ∷ ss) = insert_source s (sort_sources ss)

module _ ⦃ops : TextOps⦄ ⦃urls : UrlOps⦄ (digest : Text → Text) where
  -- `_portable_track_keys(track) or {_track_identity(track)}`
  unfoldable pub cluster_keys : Track → List Text
  unfolding portable_track_keys track_identity
  cluster_keys t = or_identity (portable_track_keys t)
    where
      or_identity : List Text → List Text
      or_identity [] = track_identity digest t ∷ []
      or_identity (k ∷ ks) = k ∷ ks

  unfoldable pub cluster_matches : Cluster → Track → Bool
  unfolding match_by track_isrcs portable_track_keys
  cluster_matches c t = match_by c.isrcs (track_isrcs t) c.keys (portable_track_keys t)

  -- The first cluster that matches and has no track of this member takes the track; else it begins a
  -- cluster of its own.
  unfoldable pub add_track : Track → UnifiedTrackSource → List Cluster → List Cluster
  unfolding cluster_keys cluster_matches track_isrcs
  add_track t s [] =
      record {
        keys = cluster_keys t;
        isrcs = track_isrcs t;
        representative = t;
        sources = s ∷ [];
        is_matched = true;
      }
      ∷ []
  add_track t s (c ∷ cs) =
      let rest = add_track t s cs in
      if not c.is_matched && cluster_matches c t
      then record c {
        keys = c.keys ++ cluster_keys t;
        isrcs = c.isrcs ++ track_isrcs t;
        sources = c.sources ++ s ∷ [];
        is_matched = true;
      }
        ∷ cs
      else c ∷ rest

  unfoldable pub add_tracks : ProviderPlaylist → List Track → List Cluster → List Cluster
  unfolding add_track track_source
  add_tracks m [] cs = cs
  add_tracks m (t ∷ ts) cs = add_tracks m ts (add_track t (track_source m t) cs)

  unfoldable pub unmatched : List Cluster → List Cluster
  unmatched cs = map (λ (c : Cluster). record c { is_matched = false }) cs

  unfoldable pub add_members : List ProviderPlaylist → List Cluster → List Cluster
  unfolding add_tracks unmatched by_position
  add_members [] cs = cs
  add_members (m ∷ ms) cs =
      add_members ms (add_tracks m (by_position m.playlist.tracks) (unmatched cs))

  unfoldable pub unified_track : Text → Cluster → UnifiedTrack
  unfolding sort_sources
  unified_track key c = record {
    key = key;
    title = c.representative.title;
    artist = c.representative.artist;
    album = c.representative.album;
    duration_s = c.representative.duration_s;
    isrc = c.representative.isrc;
    artwork_uri = c.representative.artwork_uri;
    sources = sort_sources c.sources;
  }

  -- The key of the n-th cluster of a base key.
  unfoldable pub occurrence_key : Text → ℕ → Text
  unfolding numeral
  occurrence_key base n = if n == 1 then base else base ++ codes ":occurrence:" ++ numeral n

  unfoldable pub name_clusters : Counter → List Cluster → List UnifiedTrack
  unfolding preferred_key occurrence_key unified_track bump count_of
  name_clusters counts [] = []
  name_clusters counts (c ∷ cs) =
      let base = preferred_key digest c.keys c.representative in
      let after = bump base counts in
      unified_track (occurrence_key base (count_of after base)) c ∷ name_clusters after cs

  unfoldable pub merge_tracks : List ProviderPlaylist → List UnifiedTrack
  unfolding name_clusters add_members
  merge_tracks ms = name_clusters [] (add_members ms [])
