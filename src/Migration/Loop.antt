-- ===== src/Migration/Loop.antt =====
-- The loop of `_run` over the items of one playlist, and `_flush_matched_chunk`
-- (backend/app/jobs/migration.py). An item waits in the buffer `matched` until a chunk is full;
-- at the end the buffer is emptied by force.
use open_playlist_engine.Prelude.{
  ℕ, zero, suc, Bool, true, false, not, ◌&&◌, ◌||◌, Option, none, some, List, [], ◌∷◌, ◌++◌, length,
  take, drop, if◌then◌else◌, ltb, Text, codes, Result, ok, raised, is_some,
}
use mathlib.Core.Option.{get_or}
use open_playlist_engine.Models.{Track, CapabilityDescriptor, is_migratable, truthy}
use open_playlist_engine.Models.Normalize.{TextOps}
use open_playlist_engine.Providers.{
  AdapterError, AddItemResult, MatchResult, TrackCandidate, message, is_foreign,
}
use open_playlist_engine.Keys.{UrlOps}
use open_playlist_engine.Migration.{
  JobItem, JobOrigin, ItemStatus, pending, matched, needs_review, written, skipped, failed,
  LedgerRow,
}
use open_playlist_engine.Migration.Write.{fail, propagated, write_chunk_size, write_matched_items}
use open_playlist_engine.Migration.ReviewHistory.{apply_review_history_bonus}

-- The state of the loop: the provider, the items that are through, those that wait to be written
-- and those not reached yet; the ledger, the keys of the target, and an error that left the loop.
pub record Run (W : Type 0) : Type 0 where
  pub world : W
  pub finished : List JobItem
  pub buffer : List JobItem
  pub ledger : List LedgerRow
  pub existing : List Text
  pub error : Option AdapterError

-- What the job and its settings fix for the loop.
pub record JobSettings : Type 0 where
  pub origin : JobOrigin
  pub playlist : Text
  pub capabilities : CapabilityDescriptor
  pub match_only : Bool
  pub review_threshold : ℕ
  pub history : List JobItem

-- What matching makes of one item: through, to be written, or an error that leaves the loop.
pub data Matched (W : Type 0) : Type 0 where
  through : JobItem → W → Matched W
  to_write : JobItem → W → Matched W
  stopped : JobItem → AdapterError → W → Matched W

module _ ⦃ops : TextOps⦄ ⦃urls : UrlOps⦄ {W : Type 0}
    (add_tracks : Text → List Text → W → Result AdapterError (List AddItemResult) × W)
    (resolve : Track → W → Result AdapterError MatchResult × W)
    -- f"match confidence {confidence:.2f} below review threshold"
    (low_confidence : ℕ → Text) (s : JobSettings) where
  unfoldable pub write_chunk : List JobItem → List JobItem → Run W → Run W
  unfolding write_matched_items
  write_chunk chunk rest r =
      let out = write_matched_items add_tracks s.origin s.playlist r.existing chunk r.world in
      record {
        world = out.world;
        finished = r.finished ++ out.items;
        buffer = rest;
        ledger = r.ledger ++ out.ledger;
        existing = out.existing;
        error = out.error;
      }

  unfoldable pub flush_matched_chunk : Bool → Run W → Run W
  unfolding write_chunk write_chunk_size
  flush_matched_chunk force r =
      let size = write_chunk_size s.capabilities in
      if ltb 0 (length r.buffer) && (force || not (ltb (length r.buffer) size))
      then write_chunk (take size r.buffer) (drop size r.buffer) r
      else r

  -- The item with a candidate, by the need for a review.
  unfoldable pub with_candidate : JobItem → MatchResult → W → TrackCandidate → Matched W
  with_candidate i m w c =
      let found : JobItem = record i { target_uri = some c.uri; confidence = some m.confidence } in
      if m.needs_review
      then through
          (record found {
            status = needs_review;
            reason = some (get_or (truthy m.review_reason) (low_confidence m.confidence));
          })
          w
      else if s.match_only
      then through (record found { status = matched }) w
      else to_write (record found { status = matched }) w

  unfoldable pub with_result : JobItem → MatchResult → W → Matched W
  unfolding with_candidate
  with_result i m w = elim m.candidate [
    | none ↦
        through (fail (codes "no target match found") (record i { confidence = some m.confidence }))
          w
    | some c ↦ with_candidate i m w c
  ]

  -- `raise` or `continue` behind an error of the provider.
  unfoldable pub failed_item : JobItem → W → Option AdapterError → Matched W
  failed_item i w none = through i w
  failed_item i w (some e) = stopped i e w

  unfoldable pub resolved : JobItem → Track → Result AdapterError MatchResult × W → Matched W
  unfolding with_result apply_review_history_bonus propagated failed_item is_foreign message
  resolved i t (raised e, w) =
      failed_item (if is_foreign e then i else fail (message e) i) w (propagated s.origin e)
  resolved i t (ok m, w) =
      with_result i (apply_review_history_bonus s.history t m s.review_threshold) w

  -- An item that is matched afresh.
  unfoldable pub match_item : JobItem → Track → W → Matched W
  unfolding resolved is_migratable
  match_item i t w =
      let fresh : JobItem = record i { status = pending; reason = none } in
      if is_migratable t
      then resolved fresh t (resolve t w)
      else through
          (record fresh {
            status = skipped;
            reason =
                some (get_or (truthy t.unsupported_reason) (codes "unsupported playlist item"));
          })
          w

  -- The tests on the status that the item has from an earlier run.
  unfoldable pub by_status : ItemStatus → JobItem → Track → W → Matched W
  unfolding match_item
  by_status written i t w = through i w
  by_status skipped i t w = through i w
  by_status needs_review i t w = through i w
  by_status matched i t w = if is_some (truthy i.target_uri) then to_write i w else match_item i t w
  by_status pending i t w = match_item i t w
  by_status failed i t w = match_item i t w

  unfoldable pub take_up : Run W → Matched W → Run W
  unfolding flush_matched_chunk
  take_up r (through i w) = record r { world = w; finished = r.finished ++ i ∷ [] }
  take_up r (stopped i e w) = record r {
    world = w;
    finished = r.finished ++ i ∷ [];
    error = some e;
  }
  take_up r (to_write i w) =
      flush_matched_chunk false (record r { world = w; buffer = r.buffer ++ i ∷ [] })

  -- One round of the loop.
  unfoldable pub process_item : Run W → JobItem × Track → Run W
  unfolding by_status take_up
  process_item r (i, t) =
      let placed : JobItem = record i { target_playlist_id = some s.playlist } in
      take_up r (by_status i.status placed t r.world)

  -- An error ends a loop with the state that it left.
  unfoldable pub stop_on : Option AdapterError → Run W → Run W → Run W
  stop_on none next later = later
  stop_on (some e) next later = next

  unfoldable pub process_items : Run W → List (JobItem × Track) → Run W
  unfolding process_item stop_on
  process_items r [] = r
  process_items r (p ∷ ps) =
      let next = process_item r p in
      let later = process_items next ps in stop_on next.error next later

  -- `while matched: flush(force=True)`, on fuel; each flush takes one item at least.
  unfoldable pub flush_all : ℕ → Run W → Run W
  unfolding flush_matched_chunk stop_on
  flush_all zero r = r
  flush_all (suc fuel) r =
      let next = flush_matched_chunk true r in
      let later = flush_all fuel next in stop_on next.error next later

  unfoldable pub run_playlist : Run W → List (JobItem × Track) → Run W
  unfolding process_items flush_all stop_on
  run_playlist r ps =
      let loop = process_items r ps in stop_on loop.error loop (flush_all (length loop.buffer) loop)
