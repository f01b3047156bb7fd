-- ===== src/Library/Review.antt =====
-- Decisions of a reviewer on albums and artists that are taken up again:
-- `_prior_library_review_decision` and `_library_review_history_result`, with the guards
-- `_require_saved_album_writer` and `_require_followed_artist_writer`
-- (backend/app/jobs/migration.py).
use open_playlist_engine.Prelude.{
  ℕ, Bool, true, false, ◌&&◌, ◌||◌, Option, none, some, List, [], ◌∷◌, ◌++◌, if◌then◌else◌, Text,
  text_eq, codes, ◌==◌, Result, ok, raised,
}
use mathlib.Core.Option.{get_or}
use open_playlist_engine.Models.{EntityType, track, album, artist, truthy, get}
use open_playlist_engine.Models.Normalize.{TextOps}
use open_playlist_engine.Keys.{UrlOps}
use open_playlist_engine.Providers.{AdapterError, other}
use open_playlist_engine.Migration.ReviewHistory.{provider_track_id}
use open_playlist_engine.Library.{
  Album, Artist, LibraryEntity, saved_album, followed_artist, LibraryCandidate, of_album, of_artist,
  LibraryMatchResult, album_as_candidate, artist_as_candidate,
}
use open_playlist_engine.Library.Match.{LibrarySearch}

-- What the stored `source_metadata` of a decision says of the source; a value that is not a
-- dictionary has neither field.
pub record DecisionMetadata : Type 0 where
  pub provider_uris : List (Text × Text)
  pub upc : Option Text

pub record ReviewDecision : Type 0 where
  pub entity_type : EntityType
  pub source_provider : Text
  pub source_entity_id : Option Text
  pub target_entity_id : Option Text
  pub source_metadata : DecisionMetadata
  pub target_uri : Text
  pub confidence : ℕ

unfoldable pub entity_type_beq : EntityType → EntityType → Bool
entity_type_beq track track = true
entity_type_beq album album = true
entity_type_beq artist artist = true
entity_type_beq _ _ = false

unfoldable pub entity_id : LibraryEntity → Option Text
entity_id (saved_album a) = a.id
entity_id (followed_artist a) = a.id

unfoldable pub entity_uris : LibraryEntity → List (Text × Text)
entity_uris (saved_album a) = a.provider_uris
entity_uris (followed_artist a) = a.provider_uris

-- `present and recorded == present`
unfoldable pub same_present : Option Text → Option Text → Bool
same_present (some present) (some recorded) = recorded == present
same_present _ _ = false

-- The guards on the writer that a target implements.
unfoldable pub require_saved_album_writer : Text → Bool → Result AdapterError Unit
require_saved_album_writer display true = ok tt
require_saved_album_writer display false =
    raised (other (display ++ codes " cannot write saved albums"))

unfoldable pub require_followed_artist_writer : Text → Bool → Result AdapterError Unit
require_followed_artist_writer display true = ok tt
require_followed_artist_writer display false =
    raised (other (display ++ codes " cannot write followed or favorite artists"))

module _ ⦃ops : TextOps⦄ where
  same_upc : EntityType → LibraryEntity → Option Text → Bool
  same_upc album (saved_album a) recorded = equal_upper (truthy a.upc)
    where
      equal_upper : Option Text → Bool
      equal_upper none = false
      equal_upper (some u) = ops.upper (get_or recorded []) == ops.upper u
  same_upc _ _ recorded = false

  -- The tests of the loop on one decision.
  unfoldable pub decision_applies : EntityType → LibraryEntity → ReviewDecision → Bool
  unfolding entity_type_beq entity_id entity_uris same_present same_upc get
  decision_applies kind e d =
      entity_type_beq d.entity_type kind
      && (same_present (truthy (entity_id e)) d.source_entity_id
          || same_present (present (get d.source_provider (entity_uris e)))
              (get d.source_provider d.source_metadata.provider_uris)
          || same_upc kind e d.source_metadata.upc)
    where
      present : Option Text → Option Text
      present o = truthy o

  unfoldable pub prior_library_review_decision :
      EntityType → LibraryEntity → List ReviewDecision → Option ReviewDecision
  unfolding decision_applies
  prior_library_review_decision kind e [] = none
  prior_library_review_decision kind e (d ∷ ds) =
      let later = prior_library_review_decision kind e ds in
      if decision_applies kind e d then some d else later

module _ ⦃ops : TextOps⦄ ⦃urls : UrlOps⦄ {W : Type 0} (target : LibrarySearch W)
    -- The display name of the target and the writers that it implements.
    (display : Text) (writes_albums writes_artists : Bool) where
  -- The identifier of the target entity under a decision.
  decided_id : ReviewDecision → Text
  unfolding provider_track_id
  decided_id d = get_or (truthy d.target_entity_id) (provider_track_id d.target_uri)

  unfoldable pub history_match : ReviewDecision → LibraryCandidate → LibraryMatchResult
  history_match d c = record {
    candidate = some c;
    confidence = d.confidence;
    source = codes "review_history";
    needs_review = false;
    review_reason = none;
  }

  -- The answer of the target on the URI of the decision.
  unfoldable pub confirmed :
      ReviewDecision
      → LibraryCandidate
      → Result AdapterError Bool × W
      → Result AdapterError (Option LibraryMatchResult) × W
  unfolding history_match
  confirmed d c (raised e, w) = (raised e, w)
  confirmed d c (ok true, w) = (ok (some (history_match d c)), w)
  confirmed d c (ok false, w) = (ok none, w)

  unfoldable pub album_under :
      Result AdapterError Unit
      → Album
      → ReviewDecision
      → W
      → Result AdapterError (Option LibraryMatchResult) × W
  unfolding confirmed decided_id album_as_candidate
  album_under (raised e) a d w = (raised e, w)
  album_under (ok _) a d w =
      confirmed d (of_album (album_as_candidate a (decided_id d) d.target_uri))
        (target.validate_album_uri d.target_uri w)

  unfoldable pub artist_under :
      Result AdapterError Unit
      → Artist
      → ReviewDecision
      → W
      → Result AdapterError (Option LibraryMatchResult) × W
  unfolding confirmed decided_id artist_as_candidate
  artist_under (raised e) a d w = (raised e, w)
  artist_under (ok _) a d w =
      confirmed d (of_artist (artist_as_candidate a (decided_id d) d.target_uri))
        (target.validate_artist_uri d.target_uri w)

  -- The result under a decision; an entity of the other kind has none.
  unfoldable pub result_under :
      EntityType
      → LibraryEntity
      → ReviewDecision
      → W
      → Result AdapterError (Option LibraryMatchResult) × W
  unfolding album_under artist_under require_saved_album_writer require_followed_artist_writer
  result_under album (saved_album a) d w =
      album_under (require_saved_album_writer display writes_albums) a d w
  result_under album (followed_artist a) d w = (ok none, w)
  result_under _ (saved_album a) d w = (ok none, w)
  result_under _ (followed_artist a) d w =
      artist_under (require_followed_artist_writer display writes_artists) a d w

  unfoldable pub library_review_history_result :
      EntityType
      → LibraryEntity
      → List ReviewDecision
      → W
      → Result AdapterError (Option LibraryMatchResult) × W
  unfolding result_under prior_library_review_decision
  library_review_history_result kind e history w =
      under (prior_library_review_decision kind e history)
    where
      under : Option ReviewDecision → Result AdapterError (Option LibraryMatchResult) × W
      under none = (ok none, w)
      under (some d) = result_under kind e d w
