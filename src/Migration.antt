-- ===== src/Migration.antt =====
-- The migration pipeline (backend/app/jobs/migration.py): the rows that it works on. Matching and
-- writing are in the modules below.
pub mod Write
pub mod ReviewHistory
pub mod Loop
pub mod Terminal
pub mod Completion
pub mod Manual
pub mod Target
pub mod Choice
mod Tests
mod TargetTests
use open_playlist_engine.Prelude.{
  ℕ, Bool, true, false, Option, none, some, List, [], ◌++◌, Text, map, or_else,
}
use mathlib.Core.Option
use open_playlist_engine.Keys.{Metadata, KeyValues, UrlOps, keys_from_metadata, uri_keys}
use open_playlist_engine.Models.Normalize.{TextOps}

pub data ItemStatus : Type 0 where
  pending matched needs_review written skipped failed : ItemStatus

pub data JobOrigin : Type 0 where
  manual sync : JobOrigin

pub record JobItem : Type 0 where
  pub id : Text
  pub position : ℕ
  pub title : Text
  pub artist : Text
  pub album : Option Text
  pub duration_s : Option ℕ
  pub isrc : Option Text
  pub source_metadata : Metadata
  pub target_playlist_id : Option Text
  pub target_uri : Option Text
  pub confidence : Option ℕ
  pub status : ItemStatus
  pub reason : Option Text

pub data LedgerState : Type 0 where
  intended done ambiguous : LedgerState

-- An `OperationLedger` row for the write of one track.
pub record LedgerRow : Type 0 where
  pub playlist_id : Text
  pub uri : Text
  pub observed_target_id : Option Text
  pub position : Option ℕ
  pub state : LedgerState

unfoldable pub item_values : JobItem → KeyValues
item_values i = record {
  title = some i.title;
  artist = some i.artist;
  album = i.album;
  duration_s = i.duration_s;
  isrc = i.isrc;
  track_id = none;
  source_item_id = none;
  provider_uris = [];
}

module _ ⦃ops : TextOps⦄ ⦃urls : UrlOps⦄ where
  -- `_source_item_keys`
  unfoldable pub source_item_keys : JobItem → List Text
  unfolding item_values keys_from_metadata
  source_item_keys i = keys_from_metadata i.source_metadata (item_values i)

  -- `_item_target_keys`
  unfoldable pub item_target_keys : JobItem → List Text
  unfolding item_values keys_from_metadata uri_keys
  item_target_keys i = uri_keys i.target_uri ++ keys_from_metadata i.source_metadata (item_values i)
