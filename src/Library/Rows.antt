-- ===== src/Library/Rows.antt =====
-- The rows of a library migration: `_pending_library_job_item`, `_populate_library_job_item`,
-- `_library_job_item`, and the reasons that a row may have (backend/app/jobs/migration.py).
use open_playlist_engine.Prelude.{
  ℕ, Bool, Option, none, some, List, [], ◌∷◌, ◌++◌, Text, codes, Result, ok, raised, if◌then◌else◌,
  or_else,
}
use mathlib.Core.Option.{get_or}
use open_playlist_engine.Models.{EntityType, track, album, artist, truthy}
use open_playlist_engine.Migration.{ItemStatus, pending, failed, skipped, LedgerState}
use open_playlist_engine.Library.{
  Album, Artist, LibraryEntity, saved_album, followed_artist, year_of,
}

-- What `source_metadata` holds: the identifier alone, or the dump of the entity.
pub data SourceDump : Type 0 where
  identifier : Text → SourceDump
  dumped : LibraryEntity → SourceDump

-- A `JobItem` row for an album or an artist.
pub record LibraryItem : Type 0 where
  pub entity_type : EntityType
  pub source_entity_id : Option Text
  pub source_entity_name : Text
  pub position : ℕ
  pub title : Text
  pub artist : Text
  pub release_year : Option ℕ
  pub source_metadata : SourceDump
  pub status : ItemStatus
  pub reason : Option Text
  pub confidence : Option ℕ
  pub target_uri : Option Text
  pub target_entity_id : Option Text

-- An `OperationLedger` row for one album or artist.
pub record LibraryLedgerRow : Type 0 where
  pub op : Text
  pub entity_type : EntityType
  pub source_entity_id : Option Text
  pub uri : Text
  pub observed_target_id : Option Text
  pub state : LedgerState

unfoldable pub pending_library_job_item : EntityType → Text → ℕ → LibraryItem
pending_library_job_item kind id n = record {
  entity_type = kind;
  source_entity_id = some id;
  source_entity_name = id;
  position = n;
  title = id;
  artist = id;
  release_year = none;
  source_metadata = identifier id;
  status = pending;
  reason = none;
  confidence = none;
  target_uri = none;
  target_entity_id = none;
}

-- ", ".join
join_artists : List Text → Text
join_artists [] = []
join_artists (s ∷ []) = s
join_artists (s ∷ t ∷ ts) = s ++ b',' ∷ b' ' ∷ join_artists (t ∷ ts)

entity_type_name : EntityType → Text
entity_type_name track = codes "track"
entity_type_name album = codes "album"
entity_type_name artist = codes "artist"

populate_album : LibraryItem → Album → LibraryItem
unfolding join_artists year_of
populate_album i a = record i {
  source_entity_id = or_else (truthy a.source_item_id) a.id;
  source_entity_name = a.title;
  title = a.title;
  artist = get_or (truthy (some (join_artists a.artists))) (codes "Unknown");
  release_year = year_of a.release_date a.release_year;
  source_metadata = dumped (saved_album a);
}

populate_artist : LibraryItem → Artist → LibraryItem
populate_artist i a = record i {
  source_entity_id = or_else (truthy a.source_item_id) a.id;
  source_entity_name = a.name;
  title = a.name;
  artist = a.name;
  release_year = none;
  source_metadata = dumped (followed_artist a);
}

-- The row with what was read, or the message of the `ValueError`.
unfoldable pub populate_library_job_item :
    LibraryItem → EntityType → LibraryEntity → Result Text LibraryItem
unfolding populate_album populate_artist entity_type_name
populate_library_job_item i album (saved_album a) = ok (populate_album i a)
populate_library_job_item i artist (followed_artist a) = ok (populate_artist i a)
populate_library_job_item i kind e =
    raised (codes "invalid " ++ entity_type_name kind ++ codes " entity")

-- `entity.source_item_id or entity.id or ""`
entity_key : LibraryEntity → Text
entity_key (saved_album a) = get_or (truthy a.source_item_id) (get_or (truthy a.id) [])
entity_key (followed_artist a) = get_or (truthy a.source_item_id) (get_or (truthy a.id) [])

unfoldable pub library_job_item : EntityType → LibraryEntity → ℕ → Result Text LibraryItem
unfolding pending_library_job_item populate_library_job_item entity_key
library_job_item kind e n =
    populate_library_job_item (pending_library_job_item kind (entity_key e) n) kind e

-- `source.info.artist_collection_semantics`, as the test for the value "favorite".
action_name : Bool → Text
action_name favorite = if favorite then codes "favorited" else codes "followed"

unfoldable pub source_library_missing_reason : Bool → EntityType → Text
unfolding action_name
source_library_missing_reason favorite album =
    codes "album is no longer saved in the source library"
source_library_missing_reason favorite _ =
    codes "artist is no longer " ++ action_name favorite ++ codes " in the source library"

unfoldable pub library_duplicate_reason : Bool → EntityType → Text
unfolding action_name
library_duplicate_reason favorite album = codes "album already saved in target library"
library_duplicate_reason favorite _ =
    codes "artist already " ++ action_name favorite ++ codes " in target library"

abbrev pub fail_library : Text → LibraryItem → LibraryItem
fail_library why i = record i { status = failed; reason = some why }

abbrev pub skip_library : Text → LibraryItem → LibraryItem
skip_library why i = record i { status = skipped; reason = some why }
