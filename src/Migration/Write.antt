-- ===== src/Migration/Write.antt =====
-- Writing a chunk of matched items to the target playlist: `_write_matched_items`,
-- `_skip_duplicate_items`, `_write_chunk_size` and `commit_job_counts`
-- (backend/app/jobs/migration.py). The adapter is a parameter; `W` is the state of the provider.
-- A function returns the rows as it leaves them, and the error that it raises, if any, beside
-- them.
use open_playlist_engine.Prelude.{
  ℕ, max, Bool, true, false, ◌&&◌, ◌||◌, Option, none, some, List, [], ◌∷◌, ◌++◌, map, length,
  if◌then◌else◌, Text, codes, Result, ok, raised, count_if,
}
use mathlib.Core.Option.{get_or}
use open_playlist_engine.Models.{CapabilityDescriptor, truthy}
use open_playlist_engine.Models.Normalize.{TextOps}
use open_playlist_engine.Providers.{
  AdapterError, AddItemResult, message, is_auth_or_rate, is_foreign,
}
use open_playlist_engine.Keys.{UrlOps, intersects}
use open_playlist_engine.Migration.{
  JobItem, JobOrigin, manual, sync, needs_review, written, skipped, failed, LedgerRow, done,
  ambiguous, item_target_keys,
}

abbrev pub fail : Text → JobItem → JobItem
fail why i = record i { status = failed; reason = some why }

abbrev pub is_sync : JobOrigin → Bool
is_sync manual = false
is_sync sync = true

-- The error that leaves a handler: only a sync job lets expired access and rate limits through,
-- and what is no `ProviderError` is not caught.
unfoldable pub propagated : JobOrigin → AdapterError → Option AdapterError
unfolding is_auth_or_rate is_foreign
propagated origin e = if is_foreign e || is_sync origin && is_auth_or_rate e then some e else none

-- What an error makes of the items that were to be written.
unfoldable pub items_after : AdapterError → List JobItem → List JobItem
unfolding is_foreign message
items_after e items = if is_foreign e then items else map (fail (message e)) items

unfoldable pub write_chunk_size : CapabilityDescriptor → ℕ
write_chunk_size caps = max 1 caps.max_add_batch

-- What the results of one call leave: the items, the ledger rows, the keys of the target.
pub record Written : Type 0 where
  pub items : List JobItem
  pub ledger : List LedgerRow
  pub existing : List Text

pub record WriteOutcome (W : Type 0) : Type 0 where
  pub world : W
  pub items : List JobItem
  pub ledger : List LedgerRow
  pub existing : List Text
  pub error : Option AdapterError

abbrev pub ledger_row : Text → AddItemResult → LedgerRow
ledger_row playlist r = record {
  playlist_id = playlist;
  uri = r.uri;
  observed_target_id = if r.is_ok then some playlist else none;
  position = r.position;
  state = if r.is_ok then done else ambiguous;
}

module _ ⦃ops : TextOps⦄ ⦃urls : UrlOps⦄ where
  -- The items that duplicate a key of the target or of an earlier item, and the items to write.
  unfoldable pub skip_duplicate_items : List Text → List JobItem → List JobItem × List JobItem
  unfolding intersects
  skip_duplicate_items seen [] = ([], [])
  skip_duplicate_items seen (i ∷ is) =
      let keys = item_target_keys i in
      let duplicate = intersects keys seen in
      let (dropped, write) = skip_duplicate_items (if duplicate then seen else seen ++ keys) is in
      if duplicate
      then (
        record i {
          status = skipped;
          reason = some (codes "duplicate already exists in target playlist");
        }
            ∷ dropped,
        write,
      )
      else (dropped, i ∷ write)

  -- The two loops over `zip(write_items, results, strict=False)` and over what is left of the items.
  unfoldable pub apply_results : Text → List Text → List JobItem → List AddItemResult → Written
  apply_results playlist existing [] rs = record { items = []; ledger = []; existing = existing }
  apply_results playlist existing (i ∷ is) [] =
      let rest = apply_results playlist existing is [] in
      record rest {
        items = fail (codes "target did not return a result for this track") i ∷ rest.items;
      }
  apply_results playlist existing (i ∷ is) (r ∷ rs) =
      let rest =
        apply_results playlist (if r.is_ok then existing ++ item_target_keys i else existing) is
          rs in
      record rest {
        items =
            (if r.is_ok
              then record i { status = written; reason = none }
              else fail (get_or (truthy r.error) (codes "target rejected track")) i)
            ∷ rest.items;
        ledger = ledger_row playlist r ∷ rest.ledger;
      }

  module _ {W : Type 0}
      (add_tracks : Text → List Text → W → Result AdapterError (List AddItemResult) × W) where
    -- The handler of the call's outcome.
    unfoldable pub finish_write :
        JobOrigin
        → Text
        → List Text
        → List JobItem
        → List JobItem
        → Result AdapterError (List AddItemResult) × W
        → WriteOutcome W
    unfolding apply_results propagated items_after
    finish_write origin playlist existing dropped write (raised e, w) = record {
      world = w;
      items = dropped ++ items_after e write;
      ledger = [];
      existing = existing;
      error = propagated origin e;
    }
    finish_write origin playlist existing dropped write (ok rs, w) =
        let out = apply_results playlist existing write rs in
        record {
          world = w;
          items = dropped ++ out.items;
          ledger = out.ledger;
          existing = out.existing;
          error = none;
        }

    -- `if not write_items: return`
    unfoldable pub write_remaining :
        JobOrigin → Text → List Text → List JobItem → List JobItem → W → WriteOutcome W
    unfolding finish_write
    write_remaining origin playlist existing dropped [] w = record {
      world = w;
      items = dropped;
      ledger = [];
      existing = existing;
      error = none;
    }
    write_remaining origin playlist existing dropped (i ∷ is) w =
        finish_write origin playlist existing dropped (i ∷ is)
          (add_tracks playlist (map (λ (j : JobItem). get_or j.target_uri []) (i ∷ is)) w)

    unfoldable pub write_matched_items :
        JobOrigin → Text → List Text → List JobItem → W → WriteOutcome W
    unfolding skip_duplicate_items write_remaining
    write_matched_items origin playlist existing items w =
        let (dropped, write) = skip_duplicate_items existing items in
        write_remaining origin playlist existing dropped write w

abbrev pub counts_as_done : JobItem → Bool
counts_as_done i = elim i.status [
  | written ↦ true
  | skipped ↦ true
  | needs_review ↦ true
  | _ ↦ false
]

abbrev pub has_failed : JobItem → Bool
has_failed i = elim i.status [ failed ↦ true | _ ↦ false ]

pub record JobCounts : Type 0 where
  pub total : ℕ
  pub done : ℕ
  pub failed : ℕ

-- `commit_job_counts` over the rows of the job.
unfoldable pub commit_job_counts : List JobItem → JobCounts
commit_job_counts items = record {
  total = length items;
  done = count_if counts_as_done items;
  failed = count_if has_failed items;
}
