-- ===== src/Migration/Manual.antt =====
-- The loop of a job that a user started, when a provider raises an error.
use open_playlist_engine.Prelude.{
  take, ltb, not, ◌&&◌, ◌||◌, Bool-cases, inl, inr, All, ℕ, zero, suc, ◌≡◌, refl, Bool, true, false,
  Option, none, some, List, [], ◌∷◌, length, arith, Text, Result, ok, raised,
}
use open_playlist_engine.Models.{Track, is_migratable}
use open_playlist_engine.Models.Normalize.{TextOps}
use open_playlist_engine.Providers.{is_foreign, IsHandled, AdapterError, AddItemResult, MatchResult}
use open_playlist_engine.Keys.{UrlOps}
use open_playlist_engine.Migration.{
  JobItem, ItemStatus, manual, pending, matched, needs_review, written, skipped, failed,
}
use open_playlist_engine.Migration.Write.{
  skip_duplicate_items, write_chunk_size, propagated, finish_write, write_remaining,
  write_matched_items,
}
use open_playlist_engine.Migration.Loop.{
  Run, JobSettings, Matched, through, to_write, stopped, write_chunk, flush_matched_chunk,
  with_candidate, with_result, resolved, match_item, by_status, take_up, failed_item, stop_on,
  process_item, process_items, flush_all, run_playlist,
}
use open_playlist_engine.Migration.ReviewHistory.{apply_review_history_bonus}
use open_playlist_engine.Migration.Completion.{is_settled, run_playlist_complete}

module _ ⦃ops : TextOps⦄ ⦃urls : UrlOps⦄ {W : Type 0}
    (add_tracks : Text → List Text → W → Result AdapterError (List AddItemResult) × W)
    (resolve : Track → W → Result AdapterError MatchResult × W) (low_confidence : ℕ → Text)
    (s : JobSettings) (by_hand : s.origin ≡ manual)
    (add_handled : (playlist : Text) (uris : List Text) (w : W)
      → IsHandled (add_tracks playlist uris w).0)
    (resolve_handled : (t : Track) (w : W) → IsHandled (resolve t w).0) where
  never_propagated : (e : AdapterError) → is_foreign e ≡ false → propagated s.origin e ≡ none
  unfolding propagated
  never_propagated e known = rw known (rw by_hand refl)

  finish-error :
      (playlist : Text) (existing : List Text) (dropped write : List JobItem)
      (answer : Result AdapterError (List AddItemResult) × W)
      → IsHandled answer.0
      → (finish_write add_tracks s.origin playlist existing dropped write answer).error ≡ none
  unfolding finish_write
  finish-error playlist existing dropped write (raised e, w) h = never_propagated e h
  finish-error playlist existing dropped write (ok rs, w) h = refl

  remaining-error :
      (playlist : Text) (existing : List Text) (dropped write : List JobItem) (w : W)
      → (write_remaining add_tracks s.origin playlist existing dropped write w).error ≡ none
  unfolding write_remaining
  remaining-error playlist existing dropped [] w = refl
  remaining-error playlist existing dropped (i ∷ is) w =
      finish-error playlist existing dropped (i ∷ is) _ (add_handled playlist _ w)

  flush-error :
      (force : Bool) (r : Run W)
      → r.error ≡ none
      → (flush_matched_chunk add_tracks resolve low_confidence s force r).error ≡ none
  unfolding flush_matched_chunk write_chunk write_matched_items
  flush-error force r z =
      let size = write_chunk_size s.capabilities in
      let (dropped, write) = skip_duplicate_items r.existing (take size r.buffer) in
      elim (Bool-cases (ltb 0 (length r.buffer) && (force || not (ltb (length r.buffer) size)))) [
        | inl full ↦ rw full (remaining-error s.playlist r.existing dropped write r.world)
        | inr other ↦ rw other z
      ]

  goes_on : Matched W → Bool
  goes_on (through i w) = true
  goes_on (to_write i w) = true
  goes_on (stopped i e w) = false

  with_result-goes_on :
      (i : JobItem) (m : MatchResult) (w : W)
      → goes_on (with_result add_tracks resolve low_confidence s i m w) ≡ true
  unfolding goes_on with_result with_candidate
  with_result-goes_on i m w = ground arith

  resolved-goes_on :
      (i : JobItem) (t : Track) (answer : Result AdapterError MatchResult × W)
      → IsHandled answer.0
      → goes_on (resolved add_tracks resolve low_confidence s i t answer) ≡ true
  unfolding resolved failed_item goes_on
  resolved-goes_on i t (raised e, w) h = rw (never_propagated e h) refl
  resolved-goes_on i t (ok m, w) h =
      with_result-goes_on i (apply_review_history_bonus s.history t m s.review_threshold) w

  match_item-goes_on :
      (i : JobItem) (t : Track) (w : W)
      → goes_on (match_item add_tracks resolve low_confidence s i t w) ≡ true
  unfolding match_item goes_on
  match_item-goes_on i t w =
      let fresh : JobItem = record i { status = pending; reason = none } in
      elim (Bool-cases (is_migratable t)) [
        | inl fits ↦ rw fits (resolved-goes_on fresh t (resolve t w) (resolve_handled t w))
        | inr other ↦ rw other refl
      ]

  by_status-goes_on :
      (x : ItemStatus) (i : JobItem) (t : Track) (w : W)
      → goes_on (by_status add_tracks resolve low_confidence s x i t w) ≡ true
  unfolding by_status goes_on
  by_status-goes_on written i t w = refl
  by_status-goes_on skipped i t w = refl
  by_status-goes_on needs_review i t w = refl
  by_status-goes_on matched i t w = ground (arith, match_item-goes_on i t w)
  by_status-goes_on pending i t w = match_item-goes_on i t w
  by_status-goes_on failed i t w = match_item-goes_on i t w

  take_up-error :
      (r : Run W) (m : Matched W)
      → r.error ≡ none
      → goes_on m ≡ true
      → (take_up add_tracks resolve low_confidence s r m).error ≡ none
  unfolding take_up goes_on
  take_up-error r (through i w) z g = z
  take_up-error r (to_write i w) z g = flush-error false _ z
  take_up-error r (stopped i e w) z g = cc

  process_item-error :
      (r : Run W) (p : JobItem × Track)
      → r.error ≡ none
      → (process_item add_tracks resolve low_confidence s r p).error ≡ none
  unfolding process_item
  process_item-error r (i, t) z = take_up-error r _ z (by_status-goes_on i.status _ t r.world)

  stop_on-error :
      (e : Option AdapterError) (next later : Run W)
      → e ≡ none
      → later.error ≡ none
      → (stop_on add_tracks resolve low_confidence s e next later).error ≡ none
  unfolding stop_on
  stop_on-error none next later z h = h
  stop_on-error (some e) next later z h = cc

  process_items-error :
      (r : Run W) (ps : List (JobItem × Track))
      → r.error ≡ none
      → (process_items add_tracks resolve low_confidence s r ps).error ≡ none
  unfolding process_items
  process_items-error r [] z = z
  process_items-error r (p ∷ ps) z =
      let next = process_item add_tracks resolve low_confidence s r p in
      let e = process_item-error r p z in
      stop_on-error next.error next (process_items add_tracks resolve low_confidence s next ps) e
        (process_items-error next ps e)

  flush_all-error :
      (fuel : ℕ) (r : Run W)
      → r.error ≡ none
      → (flush_all add_tracks resolve low_confidence s fuel r).error ≡ none
  unfolding flush_all
  flush_all-error zero r z = z
  flush_all-error (suc fuel) r z =
      let next = flush_matched_chunk add_tracks resolve low_confidence s true r in
      let e = flush-error true r z in
      stop_on-error next.error next (flush_all add_tracks resolve low_confidence s fuel next) e
        (flush_all-error fuel next e)

  run_playlist-error :
      (r : Run W) (ps : List (JobItem × Track))
      → r.error ≡ none
      → (run_playlist add_tracks resolve low_confidence s r ps).error ≡ none
  unfolding run_playlist
  run_playlist-error r ps z =
      let loop = process_items add_tracks resolve low_confidence s r ps in
      let e = process_items-error r ps z in
      stop_on-error loop.error loop
        (flush_all add_tracks resolve low_confidence s (length loop.buffer) loop) e
        (flush_all-error (length loop.buffer) loop e)

  -- A job that a user started, where each call of the provider and of the matching answers or
  -- raises a ProviderError, from a state with nothing done, nothing buffered and no error: the
  -- loop over a playlist ends without an error, every item is through and none waits, and each is
  -- written, skipped, failed or up for review, or matched where the job only matches.
  pub run_playlist-manual :
      (r : Run W) (ps : List (JobItem × Track))
      → r.finished ≡ []
      → r.buffer ≡ []
      → r.error ≡ none
      → ((run_playlist add_tracks resolve low_confidence s r ps).error ≡ none)
        × All
            (λ i. is_settled s.match_only i ≡ true)
            (run_playlist add_tracks resolve low_confidence s r ps).finished
        × (length (run_playlist add_tracks resolve low_confidence s r ps).finished ≡ length ps)
        × (length (run_playlist add_tracks resolve low_confidence s r ps).buffer ≡ 0)
  run_playlist-manual r ps f b z =
      let e = run_playlist-error r ps z in
      let (settled, size, empty) =
        run_playlist_complete add_tracks resolve low_confidence s r ps f b e in
      (e, settled, size, empty)
