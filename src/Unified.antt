-- ===== src/Unified.antt =====
-- Unified playlists (backend/app/core/unified_playlists.py): the copies of one playlist on several
-- providers, how they compare, and one list of tracks for all of them.
pub mod Merge
pub mod Sources
pub mod Groups
pub mod Forest
pub mod Partition
pub mod Project
mod Tests
use open_playlist_engine.Prelude.{
  ℕ, Bool, true, false, not, ◌&&◌, ◌||◌, Option, none, some, List, [], ◌∷◌, ◌++◌, map, filter, any,
  if◌then◌else◌, ltb, Text, text_eq, text_ltb, codes, ◌==◌, is_some, length, take, nat_eq,
}
use mathlib.Core.Option.{get_or}
use open_playlist_engine.Models.{Track, Playlist, truthy}
use open_playlist_engine.Models.Normalize.{TextOps, normalize_text}
use open_playlist_engine.Keys.{UrlOps, drop_prefix, intersects, track_keys}

-- A playlist on an account of a provider.
pub record ProviderPlaylist : Type 0 where
  pub provider : Text
  pub account_id : Text
  pub account_label : Text
  pub playlist : Playlist

-- f"{provider}:{account_id}:{playlist_id}"
unfoldable pub member_key : Text → Text → Text → Text
member_key provider account id = provider ++ b':' ∷ account ++ b':' ∷ id

unfoldable pub playlist_key : ProviderPlaylist → Text
unfolding member_key
playlist_key m = member_key m.provider m.account_id (get_or m.playlist.id [])

-- `item.position if item.position is not None else 10**9`
unfoldable pub position_or_last : Option ℕ → ℕ
position_or_last o = get_or o 1000000000

-- `sorted(tracks, key=position)`; equal positions keep their order.
unfoldable pub insert_by_position : Track → List Track → List Track
unfolding position_or_last
insert_by_position t [] = t ∷ []
insert_by_position t (u ∷ us) =
    let rest = insert_by_position t us in
    if ltb (position_or_last u.position) (position_or_last t.position) then u ∷ rest else t ∷ u ∷ us

unfoldable pub by_position : List Track → List Track
unfolding insert_by_position
by_position [] = []
by_position (t ∷ ts) = insert_by_position t (by_position ts)

has_prefix : Text → Text → Bool
unfolding drop_prefix
has_prefix prefix key = is_some (drop_prefix prefix key)

-- The first text of the sorted set, if there is one.
unfoldable pub least_text : List Text → Option Text
unfolding text_ltb
least_text [] = none
least_text (s ∷ ss) = smaller s (least_text ss)
  where
    smaller : Text → Option Text → Option Text
    smaller t none = some t
    smaller t (some u) = if text_ltb u t then some u else some t

module _ ⦃ops : TextOps⦄ where
  -- `_track_isrcs`
  unfoldable pub track_isrcs : Track → List Text
  track_isrcs t = upper_of (truthy t.isrc)
    where
      upper_of : Option Text → List Text
      upper_of none = []
      upper_of (some i) = ops.upper i ∷ []

module _ ⦃ops : TextOps⦄ ⦃urls : UrlOps⦄ where
  -- `_portable_track_keys`
  unfoldable pub portable_track_keys : Track → List Text
  unfolding track_keys has_prefix
  portable_track_keys t =
      filter
        (λ k.
          has_prefix (codes "isrc:") k
          || has_prefix (codes "sig:") k
          || has_prefix (codes "song:") k)
        (track_keys t)

  -- Two sets of ISRCs, if both are there, decide alone; else the keys do.
  unfoldable pub match_by : List Text → List Text → List Text → List Text → Bool
  unfolding intersects
  match_by [] right keys other = intersects keys other
  match_by (i ∷ left) [] keys other = intersects keys other
  match_by (i ∷ left) (j ∷ right) keys other = intersects (i ∷ left) (j ∷ right)

  unfoldable pub tracks_match : Track → Track → Bool
  unfolding match_by track_isrcs portable_track_keys
  tracks_match l r =
      match_by (track_isrcs l) (track_isrcs r) (portable_track_keys l) (portable_track_keys r)

  -- `_playlists_overlap`
  unfoldable pub playlists_overlap : Playlist → Playlist → Bool
  unfolding tracks_match
  playlists_overlap l r = any (λ t. any (λ u. tracks_match t u) r.tracks) l.tracks

  -- `_preferred_key`, for the keys and the identity that stands in for them.
  unfoldable pub preferred_or : List Text → Text → Text
  unfolding least_text has_prefix
  preferred_or keys identity =
      get_or (least_of (codes "isrc:"))
        (get_or (least_of (codes "sig:")) (get_or (least_of (codes "song:")) identity))
    where
      least_of : Text → Option Text
      least_of prefix = least_text (filter (has_prefix prefix) keys)

  -- `digest` is `hashlib.sha256(raw.encode()).hexdigest()`
  module _ (digest : Text → Text) where
    unfoldable pub fallback_identity : Track → Text
    unfolding normalize_text
    fallback_identity t =
        codes "fallback:"
        ++ take 20 (
            digest (
              normalize_text (some t.title)
              ++ b'|' ∷ normalize_text (some t.artist)
              ++ b'|' ∷ normalize_text t.album))

    -- `_track_identity`; where there are portable keys one of them is preferred.
    unfoldable pub track_identity : Track → Text
    unfolding preferred_or fallback_identity portable_track_keys
    track_identity t = preferred_or (portable_track_keys t) (fallback_identity t)

    unfoldable pub preferred_key : List Text → Track → Text
    unfolding preferred_or track_identity
    preferred_key keys t = preferred_or keys (track_identity t)

-- The three alignments of the members of a unified playlist.
pub data Alignment : Type 0 where
  single_provider aligned drifted : Alignment

module _ ⦃ops : TextOps⦄ ⦃urls : UrlOps⦄ where
  -- The tracks match one by one, and are as many.
  unfoldable pub all_match : List Track → List Track → Bool
  unfolding tracks_match
  all_match [] [] = true
  all_match (t ∷ ts) (u ∷ us) = tracks_match t u && all_match ts us
  all_match _ _ = false

  -- The first member, whose tracks are the reference, and the others.
  unfoldable pub alignment : ProviderPlaylist → List ProviderPlaylist → Alignment
  unfolding all_match by_position
  alignment m [] = single_provider
  alignment m (n ∷ ms) = compare_all (n ∷ ms)
    where
      compare_all : List ProviderPlaylist → Alignment
      compare_all [] = aligned
      compare_all (k ∷ ks) =
          let rest = compare_all ks in
          if all_match (by_position m.playlist.tracks) (by_position k.playlist.tracks)
          then rest
          else drifted
