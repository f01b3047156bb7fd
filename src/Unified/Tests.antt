-- ===== src/Unified/Tests.antt =====
-- Two copies of a playlist on two providers, and one more playlist; instances of the theorems.
use open_playlist_engine.Prelude.{
  suc, ◌≡◌, ◌≤◌, refl, true, List, [], ◌∷◌, map, length, All, Text, codes, text_beq, text_ltb,
}
use open_playlist_engine.Counter.{mem, bump, count_of}
use open_playlist_engine.Models.{get, put}
use open_playlist_engine.Models.Samples.{ascii, plain_urls, song, playlist_of}
use open_playlist_engine.Unified.{ProviderPlaylist}
use open_playlist_engine.Unified.Merge.{UnifiedTrack, merge_tracks}
use open_playlist_engine.Unified.Groups.{ByKey, keys_of, by_key, find, grouping}
use open_playlist_engine.Unified.Project.{UnifiedPlaylist, build_unified_playlists}
use open_playlist_engine.Unified.Sources.{count_sources, count_tracks, merge_tracks-sources}
use open_playlist_engine.Unified.Forest.{IsFound}
use open_playlist_engine.Unified.Partition.{find-grouping}

abbrev copy_on : Text → Text → ProviderPlaylist
copy_on provider isrc = record {
  provider = provider;
  account_id = codes "a";
  account_label = codes "A";
  playlist = playlist_of (song (codes "x") isrc ∷ []);
}

abbrev three : List ProviderPlaylist
three =
    copy_on (codes "s") (codes "i")
    ∷ copy_on (codes "t") (codes "i")
    ∷ copy_on (codes "u") (codes "j")
    ∷ []

abbrev keyed : ByKey
keyed = by_key three []

abbrev plain_digest : Text → Text
plain_digest s = s

sizes :
    map
      (λ (p : UnifiedPlaylist). length p.members)
      (build_unified_playlists ⦃ops = ascii⦄ ⦃urls = plain_urls⦄ plain_digest three [])
    ≡ 2 ∷ 1 ∷ []
unfolding build_unified_playlists text_beq text_ltb mem bump count_of get put
sizes = refl

merge_tracks-sources_example :
    (count_sources (merge_tracks ⦃ops = ascii⦄ ⦃urls = plain_urls⦄ plain_digest three)
      ≡ count_tracks three)
    × All
        (λ (u : UnifiedTrack). length u.sources ≤ 3)
        (merge_tracks ⦃ops = ascii⦄ ⦃urls = plain_urls⦄ plain_digest three)
merge_tracks-sources_example =
    merge_tracks-sources ⦃ops = ascii⦄ ⦃urls = plain_urls⦄ plain_digest three

key_is_there : mem (codes "t:a:p") (keys_of keyed) ≡ true
unfolding by_key text_beq mem put
key_is_there = refl

find-grouping_example : IsFound (keys_of keyed) (codes "t:a:p") (
    find
      (suc (length keyed))
      (codes "t:a:p")
      (grouping ⦃ops = ascii⦄ ⦃urls = plain_urls⦄ keyed []).parents)
find-grouping_example =
    find-grouping ⦃ops = ascii⦄ ⦃urls = plain_urls⦄ keyed [] (codes "t:a:p") key_is_there
