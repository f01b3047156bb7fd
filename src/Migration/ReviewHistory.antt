-- ===== src/Migration/ReviewHistory.antt =====
-- Matches that a reviewer accepted before: `_prior_reviewed_item`, `_is_non_track_uri`,
-- `_candidate_from_reviewed_item`, `_provider_track_id` and `_apply_review_history_bonus`
-- (backend/app/jobs/migration.py). Confidences count ten-thousandths, so that the rounding to
-- four decimals is exact.
use open_playlist_engine.Prelude.{
  ℕ, ◌+◌, min, max, Bool, true, false, not, ◌&&◌, Option, none, some, List, [], ◌∷◌, any,
  if◌then◌else◌, ltb, Text, codes, is_some,
}
use mathlib.Core.Option.{get_or}
use open_playlist_engine.Models.{Track, truthy}
use open_playlist_engine.Models.Normalize.{TextOps}
use open_playlist_engine.Providers.{TrackCandidate, MatchResult}
use open_playlist_engine.Keys.{UrlOps, intersects, track_keys, uri_keys, after_first, drop_prefix}
use open_playlist_engine.Migration.{JobItem, ItemStatus, written, skipped, source_item_keys}

abbrev pub in_history : ItemStatus → Bool
in_history written = true
in_history skipped = true
in_history _ = false

-- `_REVIEW_HISTORY_CONFIDENCE_BONUS`
abbrev pub history_bonus : ℕ
history_bonus = 1000

abbrev pub full_confidence : ℕ
full_confidence = 10000

-- The key without "id:", of the first key that begins so.
first_id : List Text → Option Text
unfolding drop_prefix
first_id [] = none
first_id (k ∷ ks) =
    let later = first_id ks in
    elim (drop_prefix (codes "id:") k) [ some id ↦ some id | none ↦ later ]

module _ ⦃ops : TextOps⦄ where
  unfoldable pub is_non_track_uri : Text → Bool
  unfolding after_first
  is_non_track_uri uri =
      any (λ marker. is_some (after_first marker (ops.lower uri)))
        (codes ":album:" ∷ codes ":artist:" ∷ codes "/album/" ∷ codes "/artist/" ∷ [])

module _ ⦃ops : TextOps⦄ ⦃urls : UrlOps⦄ where
  unfoldable pub provider_track_id : Text → Text
  unfolding first_id uri_keys
  provider_track_id uri = get_or (first_id (uri_keys (some uri))) uri

  unfoldable pub candidate_from_reviewed_item : JobItem → TrackCandidate
  unfolding provider_track_id
  candidate_from_reviewed_item i =
      let uri = get_or i.target_uri [] in
      record {
        provider_track_id = provider_track_id uri;
        uri = uri;
        title = i.title;
        artist = i.artist;
        album = i.album;
        duration_s = i.duration_s;
        isrc = i.isrc;
      }

  -- The tests on a prior item with a target URI and a confidence, and on the keys it shares.
  is_prior : List Text → ℕ → JobItem → Text → ℕ → Bool
  unfolding is_non_track_uri source_item_keys intersects
  is_prior keys threshold i uri confidence =
      ltb confidence threshold
      && not (is_non_track_uri uri)
      && in_history i.status
      && intersects keys (source_item_keys i)

  test_prior : List Text → ℕ → JobItem → Option Text → Option ℕ → Bool
  unfolding is_prior
  test_prior keys threshold i none c = false
  test_prior keys threshold i (some uri) none = false
  test_prior keys threshold i (some uri) (some c) = is_prior keys threshold i uri c

  find_prior : List Text → ℕ → List JobItem → Option JobItem
  unfolding test_prior
  find_prior keys threshold [] = none
  find_prior keys threshold (i ∷ is) =
      if test_prior keys threshold i (truthy i.target_uri) i.confidence
      then some i
      else find_prior keys threshold is

  unfoldable pub prior_reviewed_item : Track → List JobItem → ℕ → Option JobItem
  unfolding find_prior track_keys
  prior_reviewed_item t items threshold = find_prior (track_keys t) threshold items

  -- The result for a prior item that was found.
  with_bonus : MatchResult → ℕ → JobItem → MatchResult
  unfolding candidate_from_reviewed_item
  with_bonus result threshold prior =
      let confidence =
        min full_confidence (max result.confidence (get_or prior.confidence 0) + history_bonus) in
      record {
        candidate = some (candidate_from_reviewed_item prior);
        confidence = confidence;
        source = codes "review_history";
        needs_review = ltb confidence threshold;
        review_reason =
            if ltb confidence threshold
            then some (codes "Previously accepted in another migration; confirm this match again.")
            else none;
      }

  unfoldable pub apply_review_history_bonus : List JobItem → Track → MatchResult → ℕ → MatchResult
  unfolding prior_reviewed_item with_bonus
  apply_review_history_bonus items t result threshold =
      elim (prior_reviewed_item t items threshold) [
        | none ↦ result
        | some prior ↦
            if is_some (truthy prior.target_uri) then with_bonus result threshold prior else result
      ]
