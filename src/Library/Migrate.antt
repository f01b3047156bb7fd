-- ===== src/Library/Migrate.antt =====
-- The migration of saved albums or followed artists: `_migrate_library_entities`
-- (backend/app/jobs/migration.py). A matched item waits in the buffer until a batch is full; what
-- is left at the end is written at once.
use open_playlist_engine.Prelude.{
  ℕ, suc, Bool, true, false, Option, none, some, List, [], ◌∷◌, ◌++◌, map, length, take, drop,
  if◌then◌else◌, leb, Text, codes, Result, ok, raised, nat_eq, ◌==◌,
}
use mathlib.Core.Option.{get_or}
use open_playlist_engine.Models.{EntityType, album, truthy}
use open_playlist_engine.Models.Normalize.{TextOps}
use open_playlist_engine.Keys.{UrlOps}
use open_playlist_engine.Providers.{is_foreign, foreign, AdapterError, message}
use open_playlist_engine.Migration.{matched, needs_review}
use open_playlist_engine.Library.{
  LibraryEntity, LibraryCandidate, LibraryMatchResult, candidate_uri, candidate_id,
}
use open_playlist_engine.Library.Match.{LibrarySearch}
use open_playlist_engine.Library.Review.{ReviewDecision, library_review_history_result}
use open_playlist_engine.Library.Rows.{
  LibraryItem, LibraryLedgerRow, pending_library_job_item, populate_library_job_item, fail_library,
  skip_library, source_library_missing_reason,
}
use open_playlist_engine.Library.Write.{
  library_items_after, escaping, LibraryWriter, write_library_items,
}

-- `SavedAlbumReader` and `FollowedArtistReader`, as far as the migration calls them, with the
-- function that reads one entity.
pub record LibrarySource (W : Type 0) : Type 0 where
  pub is_favorite : Bool
  pub contains_saved_albums : List Text → W → Result AdapterError (List Bool) × W
  pub contains_followed_artists : List Text → W → Result AdapterError (List Bool) × W
  pub read_entity : Text → W → Result AdapterError LibraryEntity × W

-- The state of the loop: the rows that are through, those that wait to be written, the ledger, and
-- an error that left the loop: a `ValueError`, or one that is no `ProviderError`.
pub record LibraryRun (W : Type 0) : Type 0 where
  pub world : W
  pub finished : List LibraryItem
  pub buffer : List LibraryItem
  pub ledger : List LibraryLedgerRow
  pub error : Option AdapterError

-- What one round makes of an item.
pub data Placed (W : Type 0) : Type 0 where
  through : LibraryItem → W → Placed W
  to_write : LibraryItem → W → Placed W
  broken : LibraryItem → AdapterError → W → Placed W

unfoldable pub pending_items : EntityType → ℕ → List Text → List LibraryItem
unfolding pending_library_job_item
pending_items kind n [] = []
pending_items kind n (id ∷ ids) =
    pending_library_job_item kind id n ∷ pending_items kind (suc n) ids

module _ ⦃ops : TextOps⦄ ⦃urls : UrlOps⦄ {W : Type 0} (kind : EntityType) (source : LibrarySource W)
    (target : LibraryWriter W)
    -- The target as `_library_review_history_result` sees it, and the resolver.
    (search : LibrarySearch W) (display : Text) (writes_albums writes_artists : Bool)
    (resolve : LibraryEntity → W → Result AdapterError LibraryMatchResult × W)
    (history : List ReviewDecision) where
  -- The item with a candidate, by the need for a review.
  unfoldable pub place_candidate :
      LibraryItem → LibraryMatchResult → LibraryCandidate → W → Placed W
  unfolding candidate_uri candidate_id
  place_candidate i m c w =
      let found : LibraryItem = record i {
        confidence = some m.confidence;
        target_uri = some (candidate_uri c);
        target_entity_id = some (candidate_id c);
      } in
      if m.needs_review
      then through
          (record found {
            status = needs_review;
            reason = some (get_or (truthy m.review_reason) (codes "target match requires review"));
          })
          w
      else to_write (record found { status = matched }) w

  unfoldable pub place_result :
      LibraryItem → LibraryMatchResult → Option LibraryCandidate → W → Placed W
  unfolding place_candidate
  place_result i m none w =
      through
        (record i {
          confidence = some m.confidence;
          status = needs_review;
          reason = some (get_or (truthy m.review_reason) (codes "no target match found"));
        })
        w
  place_result i m (some c) w = place_candidate i m c w

  -- The handler of an error of a call.
  unfoldable pub failed_or_broken : AdapterError → LibraryItem → W → Placed W
  unfolding is_foreign message
  failed_or_broken e i w =
      if is_foreign e then broken i e w else through (fail_library (message e) i) w

  unfoldable pub place_answer : LibraryItem → Result AdapterError LibraryMatchResult × W → Placed W
  unfolding place_result failed_or_broken
  place_answer i (raised e, w) = failed_or_broken e i w
  place_answer i (ok m, w) = place_result i m m.candidate w

  -- A decision of a reviewer comes before the search.
  unfoldable pub after_history :
      LibraryItem → LibraryEntity → Result AdapterError (Option LibraryMatchResult) × W → Placed W
  unfolding place_answer failed_or_broken
  after_history i e (raised x, w) = failed_or_broken x i w
  after_history i e (ok (some m), w) = place_answer i (ok m, w)
  after_history i e (ok none, w) = place_answer i (resolve e w)

  unfoldable pub match_populated :
      LibraryEntity → LibraryItem → Result Text LibraryItem → W → Placed W
  unfolding after_history library_review_history_result
  match_populated e before (raised why) w = broken before (foreign (codes "ValueError") why) w
  match_populated e before (ok i) w =
      after_history i e
        (library_review_history_result search display writes_albums writes_artists kind e history w)

  unfoldable pub after_read : LibraryItem → Result AdapterError LibraryEntity × W → Placed W
  unfolding match_populated populate_library_job_item failed_or_broken
  after_read i (raised e, w) = failed_or_broken e i w
  after_read i (ok e, w) = match_populated e i (populate_library_job_item i kind e) w

  -- An item, its identifier, and whether the source has it still.
  unfoldable pub place_item : LibraryItem → Text → Bool → W → Placed W
  unfolding after_read source_library_missing_reason
  place_item i id false w =
      through (skip_library (source_library_missing_reason source.is_favorite kind) i) w
  place_item i id true w = after_read i (source.read_entity id w)

  unfoldable pub write_batch : List LibraryItem → List LibraryItem → LibraryRun W → LibraryRun W
  unfolding write_library_items
  write_batch batch rest r =
      let out = write_library_items target kind batch r.world in
      record r {
        world = out.world;
        finished = r.finished ++ out.items;
        buffer = rest;
        ledger = r.ledger ++ out.ledger;
        error = out.error;
      }

  unfoldable pub take_up_library : LibraryRun W → Placed W → LibraryRun W
  unfolding write_batch
  take_up_library r (through i w) = record r { world = w; finished = r.finished ++ i ∷ [] }
  take_up_library r (broken i why w) = record r {
    world = w;
    finished = r.finished ++ i ∷ [];
    error = some why;
  }
  take_up_library r (to_write i w) =
      let waiting = r.buffer ++ i ∷ [] in
      let next : LibraryRun W = record r { world = w; buffer = waiting } in
      if leb target.max_library_batch (length waiting)
      then write_batch (take target.max_library_batch waiting)
          (drop target.max_library_batch waiting) next
      else next

  -- Such an error ends the loop and the migration.
  unfoldable pub unless_broken : Option AdapterError → LibraryRun W → LibraryRun W → LibraryRun W
  unless_broken none stopped later = later
  unless_broken (some why) stopped later = stopped

  unfoldable pub place_items :
      LibraryRun W → List LibraryItem → List Text → List Bool → LibraryRun W
  unfolding place_item take_up_library unless_broken
  place_items r (i ∷ is) (id ∷ ids) (b ∷ bs) =
      let next = take_up_library r (place_item i id b r.world) in
      unless_broken next.error next (place_items next is ids bs)
  place_items r _ _ _ = r

  -- `if matched: write`
  unfoldable pub write_rest : LibraryRun W → List LibraryItem → LibraryRun W
  unfolding write_batch
  write_rest r [] = r
  write_rest r (i ∷ is) = write_batch (i ∷ is) [] r

  unfoldable pub source_contains : List Text → W → Result AdapterError (List Bool) × W
  source_contains ids w = elim kind [
    | album ↦ source.contains_saved_albums ids w
    | _ ↦ source.contains_followed_artists ids w
  ]

  unfoldable pub after_presence : List Text → Result AdapterError (List Bool) × W → LibraryRun W
  unfolding pending_items place_items write_rest unless_broken library_items_after escaping
  after_presence ids (raised e, w) = record {
    world = w;
    finished = library_items_after e (pending_items kind 0 ids);
    buffer = [];
    ledger = [];
    error = escaping e;
  }
  after_presence ids (ok bs, w) =
      let items = pending_items kind 0 ids in
      let start : LibraryRun W = record {
        world = w;
        finished = [];
        buffer = [];
        ledger = [];
        error = none;
      } in
      let loop = place_items start items ids bs in
      if length bs == length items
      then unless_broken loop.error loop (write_rest loop loop.buffer)
      else record start {
        finished =
            map (fail_library (codes "source returned an invalid library membership response"))
              items;
      }

  unfoldable pub migrate_library_entities : List Text → W → LibraryRun W
  unfolding after_presence source_contains
  migrate_library_entities ids w = after_presence ids (source_contains ids w)
