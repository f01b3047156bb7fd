-- ===== src/Library/Write.antt =====
-- Writing matched albums or artists to the library of a target: `_write_library_items`
-- (backend/app/jobs/migration.py). The adapter is a record of functions; `W` is the state of the
-- target.
use open_playlist_engine.Prelude.{
  ℕ, Bool, none, some, Option, List, [], ◌∷◌, ◌++◌, map, length, if◌then◌else◌, Text, codes, Result,
  ok, raised, nat_eq, ◌==◌,
}
use mathlib.Core.Option.{get_or}
use open_playlist_engine.Models.{EntityType, album, truthy}
use open_playlist_engine.Providers.{is_foreign, AdapterError, AddItemResult, message}
use open_playlist_engine.Migration.{written, done, ambiguous}
use open_playlist_engine.Library.Rows.{
  LibraryItem, LibraryLedgerRow, fail_library, skip_library, library_duplicate_reason,
}

-- `SavedAlbumWriter` and `FollowedArtistWriter`, as far as a write calls them.
pub record LibraryWriter (W : Type 0) : Type 0 where
  pub is_favorite : Bool
  pub max_library_batch : ℕ
  pub contains_saved_albums : List Text → W → Result AdapterError (List Bool) × W
  pub contains_followed_artists : List Text → W → Result AdapterError (List Bool) × W
  pub save_albums : List Text → W → Result AdapterError (List AddItemResult) × W
  pub follow_artists : List Text → W → Result AdapterError (List AddItemResult) × W

pub record LibraryWritten (W : Type 0) : Type 0 where
  pub world : W
  pub items : List LibraryItem
  pub ledger : List LibraryLedgerRow
  pub error : Option AdapterError

abbrev pub target_uris : List LibraryItem → List Text
target_uris items = map (λ (i : LibraryItem). get_or i.target_uri []) items

unfoldable pub operation_name : EntityType → Text
operation_name album = codes "save_album"
operation_name _ = codes "follow_artist"

unfoldable pub library_ledger_row : EntityType → LibraryItem → AddItemResult → LibraryLedgerRow
unfolding operation_name
library_ledger_row kind i r = record {
  op = operation_name kind;
  entity_type = kind;
  source_entity_id = i.source_entity_id;
  uri = r.uri;
  observed_target_id = if r.is_ok then i.target_entity_id else none;
  state = if r.is_ok then done else ambiguous;
}

-- The item under the result of its write.
unfoldable pub apply_library_result : Text → LibraryItem → AddItemResult → LibraryItem
apply_library_result duplicate i r =
    if r.already_present
    then skip_library duplicate i
    else if r.is_ok
    then record i { status = written; reason = none }
    else fail_library (get_or (truthy r.error) (codes "target rejected library item")) i

-- What an error makes of the items that it concerns; what is no `ProviderError` is not caught.
unfoldable pub library_items_after : AdapterError → List LibraryItem → List LibraryItem
unfolding is_foreign message
library_items_after e items = if is_foreign e then items else map (fail_library (message e)) items

unfoldable pub escaping : AdapterError → Option AdapterError
unfolding is_foreign
escaping e = if is_foreign e then some e else none

-- The loop over `zip(write_items, results, strict=False)` and over what is left of the items.
unfoldable pub apply_library_results :
    EntityType
    → Text
    → List LibraryItem
    → List AddItemResult
    → List LibraryItem × List LibraryLedgerRow
unfolding apply_library_result library_ledger_row
apply_library_results kind duplicate [] rs = ([], [])
apply_library_results kind duplicate (i ∷ is) [] =
    let (items, rows) = apply_library_results kind duplicate is [] in
    (fail_library (codes "target did not return a result for this library item") i ∷ items, rows)
apply_library_results kind duplicate (i ∷ is) (r ∷ rs) =
    let (items, rows) = apply_library_results kind duplicate is rs in
    (apply_library_result duplicate i r ∷ items, library_ledger_row kind i r ∷ rows)

-- The items that the target has already, and those to write.
unfoldable pub split_present :
    Text → List LibraryItem → List Bool → List LibraryItem × List LibraryItem
split_present duplicate [] bs = ([], [])
split_present duplicate (i ∷ is) [] = ([], [])
split_present duplicate (i ∷ is) (b ∷ bs) =
    let (dropped, write) = split_present duplicate is bs in
    if b then (skip_library duplicate i ∷ dropped, write) else (dropped, i ∷ write)

module _ {W : Type 0} (target : LibraryWriter W) where
  unfoldable pub target_contains : EntityType → List Text → W → Result AdapterError (List Bool) × W
  target_contains album uris w = target.contains_saved_albums uris w
  target_contains _ uris w = target.contains_followed_artists uris w

  unfoldable pub target_save :
      EntityType → List Text → W → Result AdapterError (List AddItemResult) × W
  target_save album uris w = target.save_albums uris w
  target_save _ uris w = target.follow_artists uris w

  -- The handler of the answer to a write.
  unfoldable pub finish_library_write :
      EntityType
      → List LibraryItem
      → List LibraryItem
      → Result AdapterError (List AddItemResult) × W
      → LibraryWritten W
  unfolding apply_library_results library_duplicate_reason library_items_after escaping
  finish_library_write kind dropped write (raised e, w) = record {
    world = w;
    items = dropped ++ library_items_after e write;
    ledger = [];
    error = escaping e;
  }
  finish_library_write kind dropped write (ok rs, w) =
      let (items, rows) =
        apply_library_results kind (library_duplicate_reason target.is_favorite kind) write rs in
      record { world = w; items = dropped ++ items; ledger = rows; error = none }

  -- `if not write_items: return`
  unfoldable pub write_absent :
      EntityType → List LibraryItem × List LibraryItem → W → LibraryWritten W
  unfolding finish_library_write target_save
  write_absent kind (dropped, []) w = record {
    world = w;
    items = dropped;
    ledger = [];
    error = none;
  }
  write_absent kind (dropped, i ∷ is) w =
      finish_library_write kind dropped (i ∷ is) (target_save kind (target_uris (i ∷ is)) w)

  -- The answer to the question which of the items the target has; it must be of their number.
  unfoldable pub with_presence :
      EntityType → List LibraryItem → Result AdapterError (List Bool) × W → LibraryWritten W
  unfolding split_present write_absent library_duplicate_reason library_items_after escaping
  with_presence kind items (raised e, w) = record {
    world = w;
    items = library_items_after e items;
    ledger = [];
    error = escaping e;
  }
  with_presence kind items (ok bs, w) =
      if length bs == length items
      then write_absent kind
          (split_present (library_duplicate_reason target.is_favorite kind) items bs) w
      else record {
        world = w;
        items =
            map (fail_library (codes "target returned an invalid library contains response")) items;
        ledger = [];
        error = none;
      }

  unfoldable pub write_library_items : EntityType → List LibraryItem → W → LibraryWritten W
  unfolding with_presence target_contains
  write_library_items kind items w =
      with_presence kind items (target_contains kind (target_uris items) w)
