-- ===== src/Organizer.antt =====
-- The playlist organizer: what it may do to a playlist, and the tokens of its tracks
-- (backend/app/core/organizer.py). The job that does it is in the modules below.
pub mod Duplicates
pub mod Justified
pub mod Adapter
pub mod Execute
pub mod Job
pub mod Safety
pub mod Ending
mod Tests
use open_playlist_engine.Prelude.{
  ℕ, Bool, true, false, ◌&&◌, ◌||◌, Option, none, some, List, [], ◌∷◌, ◌++◌, map, ltb,
  if◌then◌else◌, Text, codes, numeral, text_ltb, text_eq, nat_eq, ◌==◌,
}
use mathlib.Core.Option
use mathlib.Core.Option.{get_or}
use open_playlist_engine.Models.{
  Track, PlaylistRef, PlaylistKind, CapabilityDescriptor, can, unfollow_playlist, delete_playlist,
  remove_tracks, truthy, truthy_number, is_true,
}
use open_playlist_engine.Models.Normalize.{strip, sub_noise}

pub data OrganizerIntent : Type 0 where
  remove delete remove_songs : OrganizerIntent

pub data OrganizerAction : Type 0 where
  unfollow_it delete_it remove_from_it : OrganizerAction

allowed : Bool → OrganizerAction → Option OrganizerAction
allowed true a = some a
allowed false a = none

-- The intents on a playlist that is not the list of liked tracks.
unfoldable pub action_for :
    OrganizerIntent → CapabilityDescriptor → PlaylistRef → Option OrganizerAction
unfolding allowed can
action_for remove caps p = allowed (can caps unfollow_playlist) unfollow_it
action_for delete caps p = allowed (can caps delete_playlist && is_true p.is_owned) delete_it
action_for remove_songs caps p =
    allowed (can caps remove_tracks && (is_true p.is_owned || is_true p.collaborative))
      remove_from_it

unfoldable pub resolve_playlist_action :
    OrganizerIntent → CapabilityDescriptor → PlaylistRef → Option OrganizerAction
unfolding action_for
resolve_playlist_action intent caps p = elim p.kind [
  | PlaylistKind.liked_tracks ↦ none
  | PlaylistKind.standard ↦ action_for intent caps p
]

unfoldable pub plural : ℕ → Text → Text
plural n noun = if n == 1 then noun else noun ++ codes "S"

-- One part of the phrase, for a count that is not zero.
phrase_part : Text → ℕ → Text → List Text
unfolding plural numeral
phrase_part verb n noun =
    if n == 0 then [] else (verb ++ codes " " ++ numeral n ++ codes " " ++ plural n noun) ∷ []

join_and : List Text → Option Text
join_and [] = none
join_and (a ∷ []) = some a
join_and (a ∷ b ∷ _) = some (a ++ codes " AND " ++ b)

unfoldable pub build_confirmation_phrase : ℕ → ℕ → Option Text
unfolding phrase_part join_and
build_confirmation_phrase deletes songs = join_and (
    phrase_part (codes "DELETE") deletes (codes "PLAYLIST")
    ++ phrase_part (codes "REMOVE") songs (codes "SONG"))

-- The pair with the least key among those with a URI that is not empty.
least_uri : List (Text × Text) → Option (Text × Text)
unfolding text_ltb
least_uri [] = none
least_uri ((k, []) ∷ ps) = least_uri ps
least_uri ((k, c ∷ u) ∷ ps) = elim (least_uri ps) [
  | none ↦ some (k, c ∷ u)
  | some best ↦ if text_ltb best.0 k then some best else some (k, c ∷ u)
]

-- `_NON_ALPHANUMERIC.sub(" ", fold(value)).strip()`; `fold` stands for the NFKD form of the text, its
-- ASCII part and its case folding.
module _ (fold : Text → Text) where
  unfoldable pub normalize_playlist_name : Text → Text
  unfolding sub_noise strip
  normalize_playlist_name name = strip (sub_noise false (fold name))

  meta_token : Track → Text
  unfolding normalize_playlist_name numeral
  meta_token t =
      codes "meta:"
      ++ normalize_playlist_name t.title
      ++ codes "|"
      ++ normalize_playlist_name t.artist
      ++ codes "|"
      ++ normalize_playlist_name (get_or t.album [])
      ++ codes "|"
      ++ get_or (Option.map numeral (truthy_number t.duration_s)) []

  id_token : Track → Option Text → Text
  unfolding meta_token
  id_token t none = meta_token t
  id_token t (some id) = codes "id:" ++ id

  uri_token : Track → Option (Text × Text) → Text
  unfolding id_token
  uri_token t none = id_token t (truthy t.id)
  uri_token t (some (k, uri)) = codes "uri:" ++ uri

  unfoldable pub track_token : Track → Text
  unfolding uri_token least_uri
  track_token t = uri_token t (least_uri t.provider_uris)

  -- The SHA-256 of the JSON array of the tokens is a parameter.
  unfoldable pub playlist_sequence_hash : (List Text → Text) → List Track → Text
  unfolding track_token
  playlist_sequence_hash digest tracks = digest (map track_token tracks)
