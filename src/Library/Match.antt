-- ===== src/Library/Match.antt =====
-- The match of an album or an artist on a target (backend/app/core/library_match.py), and the need
-- for a review.
use open_playlist_engine.Prelude.{
  ℕ, Bool, true, false, not, ◌&&◌, ◌||◌, Option, none, some, List, [], ◌∷◌, ◌++◌, if◌then◌else◌,
  ltb, Text, text_eq, codes, ◌==◌, Result, ok, raised,
}
use mathlib.Core.Option.{get_or}
use open_playlist_engine.Models.{truthy, get}
use open_playlist_engine.Models.Normalize.{TextOps}
use open_playlist_engine.Match.{FloatOps}
use open_playlist_engine.Providers.{AdapterError}
use open_playlist_engine.Library.{
  Album, Artist, AlbumCandidate, ArtistCandidate, LibraryCandidate, of_album, of_artist,
  LibraryMatchResult, album_as_candidate, artist_as_candidate,
}
use open_playlist_engine.Library.Scores.{LibraryOps, Ranked, rank, score_album, score_artist}

-- What `search_*` and `validate_*_uri` of a target answer; `W` is the state of the target.
pub record LibrarySearch (W : Type 0) : Type 0 where
  pub name : Text
  pub validate_album_uri : Text → W → Result AdapterError Bool × W
  pub validate_artist_uri : Text → W → Result AdapterError Bool × W
  pub search_albums : Album → W → Result AdapterError (List AlbumCandidate) × W
  pub search_artists : Artist → W → Result AdapterError (List ArtistCandidate) × W

-- `provider_uris.get(target.info.name)`, if it counts as true.
unfoldable pub direct_uri : {W : Type 0} → LibrarySearch W → List (Text × Text) → Option Text
unfolding get
direct_uri target uris = elim (get target.name uris) [ none ↦ none | some uri ↦ truthy (some uri) ]

module _ ⦃text : TextOps⦄ (fl : FloatOps) (ops : LibraryOps) where
  -- Whether the second row of a ranking is as good as the first.
  unfoldable pub rivals : {C : Type 0} → ℕ → List (Ranked C) → Bool
  rivals confidence [] = false
  rivals confidence (r ∷ _) = ops.close confidence r.confidence

  unfoldable pub direct_match : LibraryCandidate → LibraryMatchResult
  direct_match c = record {
    candidate = some c;
    confidence = 10000;
    source = codes "provider_uri";
    needs_review = false;
    review_reason = none;
  }

  unfoldable pub no_library_match : Text → LibraryMatchResult
  no_library_match why = record {
    candidate = none;
    confidence = 0;
    source = codes "none";
    needs_review = true;
    review_reason = some why;
  }

  unfoldable pub album_review_reason : ℕ → ℕ → Bool → Bool → Option Text
  album_review_reason threshold confidence conflicting ambiguous =
      if conflicting
      then some (codes "Source and target album UPCs conflict.")
      else if ambiguous
      then some (codes "Multiple target albums are equally plausible.")
      else if ltb confidence threshold
      then some (
          codes "Album match confidence "
          ++ ops.percent confidence
          ++ codes " is below the review threshold.")
      else none

  unfoldable pub from_ranked_albums : ℕ → List (Ranked AlbumCandidate) → LibraryMatchResult
  unfolding no_library_match rivals album_review_reason
  from_ranked_albums threshold [] = no_library_match (codes "No target album match found.")
  from_ranked_albums threshold (r ∷ rows) =
      let conflicting = r.source == codes "upc_conflict" in
      let ambiguous = not (r.source == codes "upc_exact") && rivals r.confidence rows in
      record {
        candidate = some (of_album r.candidate);
        confidence = r.confidence;
        source = r.source;
        needs_review = ltb r.confidence threshold || ambiguous || conflicting;
        review_reason = album_review_reason threshold r.confidence conflicting ambiguous;
      }

  unfoldable pub from_ranked_artists : List (Ranked ArtistCandidate) → LibraryMatchResult
  unfolding no_library_match rivals
  from_ranked_artists [] = no_library_match (codes "No target artist match found.")
  from_ranked_artists (r ∷ rows) = record {
    candidate = some (of_artist r.candidate);
    confidence = r.confidence;
    source = r.source;
    needs_review = true;
    review_reason = some (
        if rivals r.confidence rows
        then codes "Multiple target artists are equally plausible."
        else codes "Artist names are not stable cross-provider identifiers.");
  }

  module _ {W : Type 0} (threshold : ℕ) (target : LibrarySearch W) where
    unfoldable pub found_albums :
        Album
        → Result AdapterError (List AlbumCandidate) × W
        → Result AdapterError LibraryMatchResult × W
    unfolding from_ranked_albums rank score_album
    found_albums a (raised e, w) = (raised e, w)
    found_albums a (ok cs, w) =
        (ok (from_ranked_albums threshold (rank (score_album fl ops a) cs)), w)

    -- The answer to the validation of the direct URI; a rejected one is searched for.
    unfoldable pub album_by_uri :
        Album → Text → Result AdapterError Bool × W → Result AdapterError LibraryMatchResult × W
    unfolding found_albums direct_match album_as_candidate
    album_by_uri a uri (raised e, w) = (raised e, w)
    album_by_uri a uri (ok true, w) =
        (ok (direct_match (of_album (album_as_candidate a (get_or (truthy a.id) uri) uri))), w)
    album_by_uri a uri (ok false, w) = found_albums a (target.search_albums a w)

    unfoldable pub album_with_uri :
        Album → Option Text → W → Result AdapterError LibraryMatchResult × W
    unfolding album_by_uri found_albums
    album_with_uri a (some uri) w = album_by_uri a uri (target.validate_album_uri uri w)
    album_with_uri a none w = found_albums a (target.search_albums a w)

    unfoldable pub resolve_album : Album → W → Result AdapterError LibraryMatchResult × W
    unfolding album_with_uri direct_uri
    resolve_album a w = album_with_uri a (direct_uri target a.provider_uris) w

    unfoldable pub found_artists :
        Artist
        → Result AdapterError (List ArtistCandidate) × W
        → Result AdapterError LibraryMatchResult × W
    unfolding from_ranked_artists rank score_artist
    found_artists a (raised e, w) = (raised e, w)
    found_artists a (ok cs, w) = (ok (from_ranked_artists (rank (score_artist fl ops a) cs)), w)

    unfoldable pub artist_by_uri :
        Artist → Text → Result AdapterError Bool × W → Result AdapterError LibraryMatchResult × W
    unfolding found_artists direct_match artist_as_candidate
    artist_by_uri a uri (raised e, w) = (raised e, w)
    artist_by_uri a uri (ok true, w) =
        (ok (direct_match (of_artist (artist_as_candidate a (get_or (truthy a.id) uri) uri))), w)
    artist_by_uri a uri (ok false, w) = found_artists a (target.search_artists a w)

    unfoldable pub artist_with_uri :
        Artist → Option Text → W → Result AdapterError LibraryMatchResult × W
    unfolding artist_by_uri found_artists
    artist_with_uri a (some uri) w = artist_by_uri a uri (target.validate_artist_uri uri w)
    artist_with_uri a none w = found_artists a (target.search_artists a w)

    unfoldable pub resolve_artist : Artist → W → Result AdapterError LibraryMatchResult × W
    unfolding artist_with_uri direct_uri
    resolve_artist a w = artist_with_uri a (direct_uri target a.provider_uris) w
