-- ===== src/Library.antt =====
-- Saved albums and followed artists: their data (backend/app/core/models.py,
-- backend/app/core/adapter.py), and the rows of a migration of them
-- (backend/app/jobs/migration.py). Matching, writing and the migration are in the modules below.
pub mod Scores
pub mod Match
pub mod Review
pub mod Rows
pub mod Write
pub mod Migrate
pub mod Ranking
pub mod Ended
pub mod Placed
pub mod Course
pub mod Whole
mod Tests
use open_playlist_engine.Prelude.{
  ℕ, zero, suc, ◌-◌, Bool, Option, none, some, List, [], ◌∷◌, ◌++◌, Text, numeral, length,
  if◌then◌else◌, ltb, nat_eq, ◌==◌,
}
use open_playlist_engine.Models.{EntityType, truthy_number}

-- `datetime.date`
pub record Date : Type 0 where
  pub year : ℕ
  pub month : ℕ
  pub day : ℕ

-- A numeral with zeros before it, up to a width.
unfoldable pub padded : ℕ → ℕ → Text
padded width n = zeros_before width (numeral n)
  where
    zeros : ℕ → Text
    zeros zero = []
    zeros (suc k) = b'0' ∷ zeros k

    zeros_before : ℕ → Text → Text
    zeros_before w s = zeros (w - length s) ++ s

-- `str(date)`
unfoldable pub date_text : Date → Text
unfolding padded
date_text d = padded 4 d.year ++ b'-' ∷ padded 2 d.month ++ b'-' ∷ padded 2 d.day

pub record Album : Type 0 where
  pub id : Option Text
  pub title : Text
  pub artists : List Text
  pub upc : Option Text
  pub release_date : Option Date
  pub release_year : Option ℕ
  pub artwork_uri : Option Text
  pub provider_uris : List (Text × Text)
  pub source_item_id : Option Text

pub record Artist : Type 0 where
  pub id : Option Text
  pub name : Text
  pub artwork_uri : Option Text
  pub provider_uris : List (Text × Text)
  pub source_item_id : Option Text

pub record AlbumCandidate : Type 0 where
  pub provider_album_id : Text
  pub uri : Text
  pub title : Text
  pub artists : List Text
  pub upc : Option Text
  pub release_date : Option Text
  pub artwork_uri : Option Text

pub record ArtistCandidate : Type 0 where
  pub provider_artist_id : Text
  pub uri : Text
  pub name : Text
  pub artwork_uri : Option Text

-- `LibraryEntity` and `LibraryCandidate`
pub data LibraryEntity : Type 0 where
  saved_album : Album → LibraryEntity
  followed_artist : Artist → LibraryEntity

pub data LibraryCandidate : Type 0 where
  of_album : AlbumCandidate → LibraryCandidate
  of_artist : ArtistCandidate → LibraryCandidate

unfoldable pub candidate_uri : LibraryCandidate → Text
candidate_uri (of_album c) = c.uri
candidate_uri (of_artist c) = c.uri

unfoldable pub candidate_id : LibraryCandidate → Text
candidate_id (of_album c) = c.provider_album_id
candidate_id (of_artist c) = c.provider_artist_id

pub record LibraryMatchResult : Type 0 where
  pub candidate : Option LibraryCandidate
  pub confidence : ℕ
  pub source : Text
  pub needs_review : Bool
  pub review_reason : Option Text

-- `album.release_date.year if album.release_date else album.release_year`
unfoldable pub year_of : Option Date → Option ℕ → Option ℕ
year_of (some d) y = some d.year
year_of none y = y

-- The release date that a candidate takes over from an album.
unfoldable pub release_text : Option Date → Option ℕ → Option Text
unfolding date_text
release_text (some d) y = some (date_text d)
release_text none y = year_text (truthy_number y)
  where
    year_text : Option ℕ → Option Text
    year_text none = none
    year_text (some n) = some (numeral n)

-- The candidate that an album is itself on the target, under an identifier and a URI.
unfoldable pub album_as_candidate : Album → Text → Text → AlbumCandidate
unfolding release_text
album_as_candidate a id uri = record {
  provider_album_id = id;
  uri = uri;
  title = a.title;
  artists = a.artists;
  upc = a.upc;
  release_date = release_text a.release_date a.release_year;
  artwork_uri = a.artwork_uri;
}

unfoldable pub artist_as_candidate : Artist → Text → Text → ArtistCandidate
artist_as_candidate a id uri = record {
  provider_artist_id = id;
  uri = uri;
  name = a.name;
  artwork_uri = a.artwork_uri;
}
