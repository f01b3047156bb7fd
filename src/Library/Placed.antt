-- ===== src/Library/Placed.antt =====
-- What one round of the loop of a library migration makes of an item.
use open_playlist_engine.Prelude.{
  Option-cases, ◌≡◌, inl, inr, refl, Bool, true, false, Option, none, some, List, Text, Result, ok,
  raised, Bool-cases, nat_eq,
}
use open_playlist_engine.Models.{EntityType, track, album, artist}
use open_playlist_engine.Models.Normalize.{TextOps}
use open_playlist_engine.Keys.{UrlOps}
use open_playlist_engine.Providers.{is_foreign, IsHandled, AdapterError}
use open_playlist_engine.Library.{
  Artist, Album, LibraryEntity, saved_album, followed_artist, LibraryCandidate, LibraryMatchResult,
}
use open_playlist_engine.Library.Match.{LibrarySearch}
use open_playlist_engine.Library.Review.{
  require_saved_album_writer, require_followed_artist_writer, artist_under, album_under,
  prior_library_review_decision, result_under, confirmed, ReviewDecision,
  library_review_history_result,
}
use open_playlist_engine.Library.Rows.{LibraryItem, populate_library_job_item}
use open_playlist_engine.Library.Write.{LibraryWriter}
use open_playlist_engine.Library.Migrate.{
  failed_or_broken, LibrarySource, Placed, through, to_write, broken, place_candidate, place_result,
  place_answer, after_history, match_populated, after_read, place_item,
}
use open_playlist_engine.Library.Ended.{is_decided, is_written}

-- The kind of an entity is the kind that is migrated.
abbrev pub fits : EntityType → Result AdapterError LibraryEntity → Bool
fits album (ok (saved_album a)) = true
fits artist (ok (followed_artist a)) = true
fits kind (raised e) = true
fits _ _ = false

is_populated : Result Text LibraryItem → Bool
is_populated (ok i) = true
is_populated (raised why) = false

populate_library_job_item-is_populated :
    (k : EntityType) (e : LibraryEntity) (i : LibraryItem)
    → fits k (ok e) ≡ true
    → is_populated (populate_library_job_item i k e) ≡ true
unfolding populate_library_job_item is_populated
populate_library_job_item-is_populated album (saved_album a) i h = refl
populate_library_job_item-is_populated artist (followed_artist a) i h = refl
populate_library_job_item-is_populated track (saved_album a) i h = cc
populate_library_job_item-is_populated track (followed_artist a) i h = cc
populate_library_job_item-is_populated album (followed_artist a) i h = cc
populate_library_job_item-is_populated artist (saved_album a) i h = cc

module _ {W : Type 0} where
  -- A row that is through ends without a write; no round is broken.
  abbrev pub FitsPlace : Placed W → Type 0
  FitsPlace (through i w) = (is_decided i ≡ true) × (is_written i ≡ false)
  FitsPlace (to_write i w) = Unit
  FitsPlace (broken i why w) = ⊥

-- The reads and the searches answer, or raise a `ProviderError`.
pub record IsHandledReading {W : Type 0} (source : LibrarySource W) (search : LibrarySearch W)
    (resolve : LibraryEntity → W → Result AdapterError LibraryMatchResult × W) : Type 0 where
  pub contains_albums : (ids : List Text) (w : W) → IsHandled (source.contains_saved_albums ids w).0
  pub contains_artists :
      (ids : List Text) (w : W) → IsHandled (source.contains_followed_artists ids w).0
  pub reads : (id : Text) (w : W) → IsHandled (source.read_entity id w).0
  pub validates_album : (uri : Text) (w : W) → IsHandled (search.validate_album_uri uri w).0
  pub validates_artist : (uri : Text) (w : W) → IsHandled (search.validate_artist_uri uri w).0
  pub resolves : (e : LibraryEntity) (w : W) → IsHandled (resolve e w).0

module _ ⦃ops : TextOps⦄ ⦃urls : UrlOps⦄ {W : Type 0} (search : LibrarySearch W) (display : Text)
    (writes_albums writes_artists : Bool)
    (album_handled : (uri : Text) (w : W) → IsHandled (search.validate_album_uri uri w).0)
    (artist_handled : (uri : Text) (w : W) → IsHandled (search.validate_artist_uri uri w).0) where
  confirmed-IsHandled :
      (d : ReviewDecision) (c : LibraryCandidate) (answer : Result AdapterError Bool × W)
      → IsHandled answer.0
      → IsHandled (confirmed search display writes_albums writes_artists d c answer).0
  unfolding confirmed
  confirmed-IsHandled d c (raised e, w) h = h
  confirmed-IsHandled d c (ok true, w) h = tt
  confirmed-IsHandled d c (ok false, w) h = tt

  album_under-IsHandled :
      (allowed : Bool) (a : Album) (d : ReviewDecision) (w : W)
      → IsHandled
          (album_under search display writes_albums writes_artists
            (require_saved_album_writer display allowed)
            a
            d
            w).0
  unfolding album_under require_saved_album_writer is_foreign
  album_under-IsHandled false a d w = refl
  album_under-IsHandled true a d w = confirmed-IsHandled d _ _ (album_handled d.target_uri w)

  artist_under-IsHandled :
      (allowed : Bool) (a : Artist) (d : ReviewDecision) (w : W)
      → IsHandled
          (artist_under search display writes_albums writes_artists
            (require_followed_artist_writer display allowed)
            a
            d
            w).0
  unfolding artist_under require_followed_artist_writer is_foreign
  artist_under-IsHandled false a d w = refl
  artist_under-IsHandled true a d w = confirmed-IsHandled d _ _ (artist_handled d.target_uri w)

  result_under-IsHandled :
      (kind : EntityType) (e : LibraryEntity) (d : ReviewDecision) (w : W)
      → IsHandled (result_under search display writes_albums writes_artists kind e d w).0
  unfolding result_under
  result_under-IsHandled album (saved_album a) d w = album_under-IsHandled writes_albums a d w
  result_under-IsHandled album (followed_artist a) d w = tt
  result_under-IsHandled artist (saved_album a) d w = tt
  result_under-IsHandled artist (followed_artist a) d w =
      artist_under-IsHandled writes_artists a d w
  result_under-IsHandled track (saved_album a) d w = tt
  result_under-IsHandled track (followed_artist a) d w = artist_under-IsHandled writes_artists a d w

  history-IsHandled :
      (kind : EntityType) (e : LibraryEntity) (history : List ReviewDecision) (w : W)
      → IsHandled
          (library_review_history_result search display writes_albums writes_artists kind e history
            w).0
  unfolding library_review_history_result
  history-IsHandled kind e history w =
      elim (Option-cases (prior_library_review_decision kind e history)) [
        | inl absent ↦ rw absent tt
        | inr (d, found) ↦ rw found (result_under-IsHandled kind e d w)
      ]

module _ ⦃ops : TextOps⦄ ⦃urls : UrlOps⦄ {W : Type 0} (kind : EntityType) (source : LibrarySource W)
    (target : LibraryWriter W) (search : LibrarySearch W) (display : Text)
    (writes_albums writes_artists : Bool)
    (resolve : LibraryEntity → W → Result AdapterError LibraryMatchResult × W)
    (history : List ReviewDecision) (handled : IsHandledReading source search resolve) where
  failed-FitsPlace :
      (e : AdapterError) (i : LibraryItem) (w : W)
      → is_foreign e ≡ false
      → FitsPlace (
          failed_or_broken kind source target search display writes_albums writes_artists resolve
            history e i w)
  unfolding failed_or_broken
  failed-FitsPlace e i w known = rw known (refl, refl)

  place_candidate-FitsPlace :
      (i : LibraryItem) (m : LibraryMatchResult) (c : LibraryCandidate) (w : W)
      → FitsPlace (
          place_candidate kind source target search display writes_albums writes_artists resolve
            history i m c w)
  unfolding place_candidate
  place_candidate-FitsPlace i m c w = elim (Bool-cases m.needs_review) [
    | inl e ↦ rw e (refl, refl)
    | inr e ↦ rw e tt
  ]

  place_result-FitsPlace :
      (i : LibraryItem) (m : LibraryMatchResult) (c : Option LibraryCandidate) (w : W)
      → FitsPlace (
          place_result kind source target search display writes_albums writes_artists resolve
            history i m c w)
  unfolding place_result
  place_result-FitsPlace i m none w = (refl, refl)
  place_result-FitsPlace i m (some c) w = place_candidate-FitsPlace i m c w

  place_answer-FitsPlace :
      (i : LibraryItem) (answer : Result AdapterError LibraryMatchResult × W)
      → IsHandled answer.0
      → FitsPlace (
          place_answer kind source target search display writes_albums writes_artists resolve
            history i answer)
  unfolding place_answer
  place_answer-FitsPlace i (raised e, w) known = failed-FitsPlace e i w known
  place_answer-FitsPlace i (ok m, w) known = place_result-FitsPlace i m m.candidate w

  after_history-FitsPlace :
      (i : LibraryItem) (e : LibraryEntity)
      (answer : Result AdapterError (Option LibraryMatchResult) × W)
      → IsHandled answer.0
      → FitsPlace (
          after_history kind source target search display writes_albums writes_artists resolve
            history i e answer)
  unfolding after_history
  after_history-FitsPlace i e (raised x, w) known = failed-FitsPlace x i w known
  after_history-FitsPlace i e (ok (some m), w) known = place_answer-FitsPlace i (ok m, w) tt
  after_history-FitsPlace i e (ok none, w) known =
      place_answer-FitsPlace i (resolve e w) (handled.resolves e w)

  -- The answer to the search of a decision for the entity.
  abbrev earlier : LibraryEntity → W → Result AdapterError (Option LibraryMatchResult) × W
  earlier e w =
      library_review_history_result search display writes_albums writes_artists kind e history w

  match_populated-FitsPlace :
      (e : LibraryEntity) (before : LibraryItem) (row : Result Text LibraryItem) (w : W)
      → is_populated row ≡ true
      → FitsPlace (
          match_populated kind source target search display writes_albums writes_artists resolve
            history e before row w)
  unfolding match_populated is_populated
  match_populated-FitsPlace e before (raised why) w h = cc
  match_populated-FitsPlace e before (ok i) w h = after_history-FitsPlace i e (earlier e w) (
      history-IsHandled search display writes_albums writes_artists handled.validates_album
        handled.validates_artist kind e history w)

  after_read-FitsPlace :
      (i : LibraryItem) (answer : Result AdapterError LibraryEntity × W)
      → IsHandled answer.0
      → fits kind answer.0 ≡ true
      → FitsPlace (
          after_read kind source target search display writes_albums writes_artists resolve history
            i answer)
  unfolding after_read
  after_read-FitsPlace i (raised e, w) known h = failed-FitsPlace e i w known
  after_read-FitsPlace i (ok e, w) known h =
      match_populated-FitsPlace e i (populate_library_job_item i kind e) w
        (populate_library_job_item-is_populated kind e i h)

  pub place_item-FitsPlace :
      (typed : (id : Text) (w : W) → fits kind (source.read_entity id w).0 ≡ true) (i : LibraryItem)
      (id : Text) (b : Bool) (w : W)
      → FitsPlace (
          place_item kind source target search display writes_albums writes_artists resolve history
            i id b w)
  unfolding place_item
  place_item-FitsPlace typed i id false w = (refl, refl)
  place_item-FitsPlace typed i id true w =
      after_read-FitsPlace i (source.read_entity id w) (handled.reads id w) (typed id w)
