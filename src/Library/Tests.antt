-- ===== src/Library/Tests.antt =====
-- A library of two artists and a target that knows one of them; instances of the theorems.
use open_playlist_engine.Prelude.{
  Option-cases, inl, inr, raised, length, ◌/◌, ◌+◌, ◌*◌, leb, ℕ, ◌≡◌, refl, Bool, true, false, none,
  some, List, [], ◌∷◌, ◌++◌, map, Text, codes, Result, ok, text_beq,
}
use open_playlist_engine.Counter.{mem}
use open_playlist_engine.Models.{artist}
use open_playlist_engine.Models.Samples.{ascii, plain_urls}
use open_playlist_engine.Match.{FloatOps}
use open_playlist_engine.Providers.{IsHandled, foreign, is_foreign, AdapterError, AddItemResult}
use open_playlist_engine.Migration.{written, skipped}
use open_playlist_engine.Library.{
  ◌-◌, Album, Artist, LibraryEntity, followed_artist, LibraryMatchResult, AlbumCandidate,
}
use open_playlist_engine.Library.Scores.{LibraryOps}
use open_playlist_engine.Library.Match.{LibrarySearch, resolve_album, resolve_artist, direct_uri}
use open_playlist_engine.Library.Rows.{LibraryItem}
use open_playlist_engine.Library.Write.{LibraryWriter}
use open_playlist_engine.Library.Migrate.{LibrarySource, LibraryRun, migrate_library_entities}
use open_playlist_engine.Library.Scores.{score_album}
use open_playlist_engine.Library.Ranking.{
  Returns, AlbumIsSafe, ArtistIsSafe, resolve_album-AlbumIsSafe, resolve_artist-ArtistIsSafe,
}
use open_playlist_engine.Library.Placed.{IsHandledReading}
use open_playlist_engine.Library.Ended.{IsHandledWriter}
use open_playlist_engine.Library.Whole.{IsComplete, migrate_library_entities-IsComplete}

-- Natural numbers as floats in ten-thousandths; the ratio tells equal texts only.
abbrev exact : FloatOps
exact = record {
  Float = ℕ;
  ratio = λ s t. ratio_of (text_beq s t);
  hundredths = λ n. n * 100;
  thirtieths = λ n. n * 333;
  plus = ◌+◌;
  minus = ◌-◌;
  times = λ a b. a * b / 10000;
  maximum = λ a b. a;
  round4 = λ n. n;
}
  where
    ratio_of : Bool → ℕ
    ratio_of true = 10000
    ratio_of false = 0

abbrev plain_ops : LibraryOps
plain_ops = record {
  fold = λ s. s;
  drop_feature = λ s. s;
  despace = λ s. s;
  close = λ a b. leb (a - b + (b - a)) 200;
  percent = λ n. [];
}

abbrev artist_named : Text → List (Text × Text) → Artist
artist_named name uris = record {
  id = some name;
  name = name;
  artwork_uri = none;
  provider_uris = uris;
  source_item_id = none;
}

abbrev album_named : Text → Album
album_named title = record {
  id = none;
  title = title;
  artists = codes "A" ∷ [];
  upc = some (codes "1");
  release_date = none;
  release_year = some 1999;
  artwork_uri = none;
  provider_uris = [];
  source_item_id = none;
}

abbrev candidate_named : Text → Text → AlbumCandidate
candidate_named uri upc = record {
  provider_album_id = uri;
  uri = uri;
  title = codes "T";
  artists = codes "A" ∷ [];
  upc = some upc;
  release_date = none;
  artwork_uri = none;
}

-- The state of the target is what was written to it.
abbrev search : LibrarySearch (List Text)
search = record {
  name = codes "t";
  validate_album_uri = λ uri w. (ok true, w);
  validate_artist_uri = λ uri w. (ok true, w);
  search_albums = λ a w. (
    ok (candidate_named (codes "u2") (codes "2") ∷ candidate_named (codes "u1") (codes "1") ∷ []),
    w,
  );
  search_artists = λ (a : Artist) w. (
    ok (
        record {
          provider_artist_id = codes "x";
          uri = codes "x";
          name = a.name;
          artwork_uri = none;
        }
        ∷ []),
    w,
  );
}

abbrev taken : Text → AddItemResult
taken uri = record {
  uri = uri;
  is_ok = true;
  already_present = false;
  position = none;
  error = none;
}

abbrev writer : LibraryWriter (List Text)
writer = record {
  is_favorite = false;
  max_library_batch = 1;
  contains_saved_albums = λ uris w. (ok (map (λ u. false) uris), w);
  contains_followed_artists = λ uris w. (ok (map (λ u. mem u w) uris), w);
  save_albums = λ uris w. (ok (map taken uris), w ++ uris);
  follow_artists = λ uris w. (ok (map taken uris), w ++ uris);
}

abbrev linked : Artist
linked = artist_named (codes "b") ((codes "t", codes "t:b") ∷ [])

abbrev source : LibrarySource (List Text)
source = record {
  is_favorite = false;
  contains_saved_albums = λ ids w. (ok (map (λ u. true) ids), w);
  contains_followed_artists = λ ids w. (ok (map (λ u. true) ids), w);
  read_entity =
      λ id w. (ok (followed_artist (artist_named id ((codes "t", codes "t:" ++ id) ∷ []))), w);
}

abbrev resolver : LibraryEntity → List Text → Result AdapterError LibraryMatchResult × List Text
resolver (followed_artist a) w = resolve_artist ⦃text = ascii⦄ exact plain_ops 8000 search a w
resolver (LibraryEntity.saved_album a) w =
    resolve_album ⦃text = ascii⦄ exact plain_ops 8000 search a w

abbrev migrated : LibraryRun (List Text)
migrated =
    migrate_library_entities ⦃ops = ascii⦄ ⦃urls = plain_urls⦄ artist source writer search
      (codes "T") true true resolver [] (codes "a" ∷ codes "b" ∷ []) (codes "t:a" ∷ [])

one_followed : migrated.world ≡ codes "t:a" ∷ codes "t:b" ∷ []
unfolding migrate_library_entities resolve_artist mem text_beq
one_followed = refl

statuses : map (λ (i : LibraryItem). i.status) migrated.finished ≡ skipped ∷ written ∷ []
unfolding migrate_library_entities resolve_artist mem text_beq
statuses = refl

resolver-IsHandled : (e : LibraryEntity) (w : List Text) → IsHandled (resolver e w).0
unfolding resolve_artist resolve_album
resolver-IsHandled (followed_artist a) w = elim (Option-cases (direct_uri search a.provider_uris)) [
  | inl none_held ↦ rw none_held tt
  | inr (uri, held) ↦ rw held tt
]
resolver-IsHandled (LibraryEntity.saved_album a) w =
    elim (Option-cases (direct_uri search a.provider_uris)) [
      | inl none_held ↦ rw none_held tt
      | inr (uri, held) ↦ rw held tt
    ]

reading_handled : IsHandledReading source search resolver
reading_handled = record {
  contains_albums = λ ids w. tt;
  contains_artists = λ ids w. tt;
  reads = λ id w. tt;
  validates_album = λ uri w. tt;
  validates_artist = λ uri w. tt;
  resolves = resolver-IsHandled;
}

writing_handled : IsHandledWriter writer
writing_handled = record {
  contains_albums = λ uris w. tt;
  contains_artists = λ uris w. tt;
  saves = λ uris w. tt;
  follows = λ uris w. tt;
}

migrate_library_entities-IsComplete_example : IsComplete 2 migrated
migrate_library_entities-IsComplete_example =
    migrate_library_entities-IsComplete ⦃ops = ascii⦄ ⦃urls = plain_urls⦄ artist source writer
      search (codes "T") true true resolver [] reading_handled writing_handled (λ id w. refl)
      (codes "a" ∷ codes "b" ∷ []) (codes "t:a" ∷ [])

-- A source that fails with an exception which is no `ProviderError` stops the migration.
abbrev timing_out : LibrarySource (List Text)
timing_out = record source { read_entity = λ id w. (raised (foreign (codes "ReadTimeout") []), w) }

abbrev stopped_short : LibraryRun (List Text)
stopped_short =
    migrate_library_entities ⦃ops = ascii⦄ ⦃urls = plain_urls⦄ artist timing_out writer search
      (codes "T") true true resolver [] (codes "a" ∷ codes "b" ∷ []) []

first_only : length stopped_short.finished ≡ 1
unfolding migrate_library_entities is_foreign
first_only = refl

resolve_album-AlbumIsSafe_example :
    Returns
      (AlbumIsSafe 8000
        (score_album ⦃text = ascii⦄ exact plain_ops (album_named (codes "T")))
        (direct_uri search (album_named (codes "T")).provider_uris))
      (resolve_album ⦃text = ascii⦄ exact plain_ops 8000 search (album_named (codes "T")) []).0
resolve_album-AlbumIsSafe_example =
    resolve_album-AlbumIsSafe ⦃text = ascii⦄ exact plain_ops 8000 search (album_named (codes "T"))
      []

resolve_artist-ArtistIsSafe_example :
    Returns
      (ArtistIsSafe (direct_uri search linked.provider_uris))
      (resolve_artist ⦃text = ascii⦄ exact plain_ops 8000 search linked []).0
resolve_artist-ArtistIsSafe_example =
    resolve_artist-ArtistIsSafe ⦃text = ascii⦄ exact plain_ops 8000 search linked []
