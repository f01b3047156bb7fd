-- ===== src/Organizer/Justified.antt =====
-- Why two playlists are candidates for duplicates: the names and the tracks that they share.
use open_playlist_engine.Organizer.Duplicates.{distinct, DuplicateCandidate}
use open_playlist_engine.Prelude.{
  ◌*◌, ◌≤◌, ◌≡◌, List, [], All, length, min, map, ◌&&◌, Text, text_eq,
}
use mathlib.Core.Option.{get_or}
use open_playlist_engine.Counter.{mem}
use open_playlist_engine.Counter.Laws.{Distinct}
use open_playlist_engine.Models.{Playlist, truthy}
use open_playlist_engine.Organizer.{normalize_playlist_name, track_token}

module _ (fold : Text → Text) where
  -- The set `ks`, without repetitions, holds the texts of the list.
  pub record IsSetOf (list ks : List Text) : Type 0 where
    pub distinct : Distinct ks
    pub same : (k : Text) → mem k ks ≡ mem k list

  abbrev pub tokens : Playlist → List Text
  tokens p = map (track_token fold) p.tracks

  -- The candidate names two playlists with `Q`. Both have its name when normalised; there are sets
  -- of the tokens of each and of the tokens that both have, and the counts are those of the sets:
  -- the smaller set has a track, and half of it is shared.
  pub record IsJustified (Q : Playlist → Type 0) (c : DuplicateCandidate) : Type 0 where
    pub left : Playlist
    pub right : Playlist
    pub left_given : Q left
    pub right_given : Q right
    pub left_id : c.left_id ≡ get_or (truthy left.id) []
    pub right_id : c.right_id ≡ get_or (truthy right.id) []
    pub left_named : normalize_playlist_name fold left.name ≡ c.normalized_name
    pub right_named : normalize_playlist_name fold right.name ≡ c.normalized_name
    pub left_set : List Text
    pub right_set : List Text
    pub shared : List Text
    pub left_is : IsSetOf (tokens left) left_set
    pub right_is : IsSetOf (tokens right) right_set
    pub shared_distinct : Distinct shared
    pub shared_both : (k : Text) → mem k shared ≡ (mem k (tokens left) && mem k (tokens right))
    pub overlap_is : c.overlap_count ≡ length shared
    pub smaller_is : c.smaller_count ≡ min (length left_set) (length right_set)
    pub has_tracks : 1 ≤ c.smaller_count
    pub overlaps : c.smaller_count ≤ 2 * c.overlap_count

  module _ (Q : Playlist → Type 0) where
    abbrev Named : Text → Playlist → Type 0
    Named name p = (normalize_playlist_name fold p.name ≡ name) × Q p

    abbrev IsGroup : Text × List Playlist → Type 0
    IsGroup (name, ps) = All (Named name) ps
