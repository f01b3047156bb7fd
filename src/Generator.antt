-- ===== src/Generator.antt =====
-- The tracks of a generated playlist (`resolve_generated_plan`, `_candidate_key` and
-- `ensure_confirmable` of backend/app/core/generator.py). The case folding of Unicode and the search of
-- the target are parameters.
pub mod Distinct
mod Tests
use open_playlist_engine.Prelude.{
  ℕ, Bool, true, false, Option, none, some, List, [], ◌∷◌, ◌++◌, any, if◌then◌else◌, Text, codes,
  Result, ok, raised, or_else,
}
use mathlib.Core.Option.{get_or}
use open_playlist_engine.Counter.{mem}
use open_playlist_engine.Models.{Track, MediaType, truthy}
use open_playlist_engine.Models.Normalize.{TextOps, strip}
use open_playlist_engine.Providers.{AdapterError, TrackCandidate, MatchResult}
use open_playlist_engine.Match.{FloatOps, resolve}

pub record GeneratedTrackIntent : Type 0 where
  pub title : Text
  pub artist : Text
  pub album : Option Text

pub data ItemState : Type 0 where
  found_it review_it unresolved_it : ItemState

pub record ResolvedGenerationItem : Type 0 where
  pub intent : GeneratedTrackIntent
  pub candidate : Option TrackCandidate
  pub confidence : ℕ
  pub status : ItemState
  pub reason : Option Text

unfoldable pub intent_track : GeneratedTrackIntent → Track
intent_track i = record {
  id = none;
  title = i.title;
  artist = i.artist;
  album = i.album;
  duration_s = none;
  isrc = none;
  artwork_uri = none;
  provider_uris = [];
  metadata = [];
  position = none;
  media_type = MediaType.track;
  is_local = false;
  source_item_id = none;
  added_at = none;
  unsupported_reason = none;
}

-- `_candidate_key`, over the case folding.
module _ (casefold : Text → Text) where
  text_key : TrackCandidate → Text
  unfolding strip
  text_key c =
      codes "text:"
      ++ casefold (strip c.title)
      ++ codes "|"
      ++ casefold (strip c.artist)
      ++ codes "|"
      ++ casefold (strip (get_or c.album []))

  id_key : TrackCandidate → Option Text → Text
  unfolding text_key strip
  id_key c none = text_key c
  id_key c (some id) = codes "id:" ++ casefold (strip id)

  uri_key : TrackCandidate → Option Text → Text
  unfolding id_key strip
  uri_key c none = id_key c (truthy (some c.provider_track_id))
  uri_key c (some uri) = codes "uri:" ++ casefold (strip uri)

  unfoldable pub candidate_key : TrackCandidate → Text
  unfolding uri_key
  candidate_key c = uri_key c (truthy (some c.uri))

unfoldable pub cons_item :
    {W : Type 0}
    → ResolvedGenerationItem
    → Result AdapterError (List ResolvedGenerationItem) × W
    → Result AdapterError (List ResolvedGenerationItem) × W
cons_item i (ok is, w) = (ok (i ∷ is), w)
cons_item i (raised e, w) = (raised e, w)

module _ ⦃ops : TextOps⦄ (fl : FloatOps) (casefold : Text → Text) {W : Type 0} (threshold : ℕ)
    (search : Track → W → Result AdapterError (List TrackCandidate) × W)
    -- f"Match confidence {confidence:.2f} requires review"
    (low_confidence : ℕ → Text) where
  unfoldable pub resolved_item :
      GeneratedTrackIntent → MatchResult → TrackCandidate → ResolvedGenerationItem
  resolved_item i m c = record {
    intent = i;
    candidate = some c;
    confidence = m.confidence;
    status = if m.needs_review then review_it else found_it;
    reason =
        or_else (truthy m.review_reason)
          (if m.needs_review then some (low_confidence m.confidence) else none);
  }

  unfoldable pub unresolved_item : GeneratedTrackIntent → ResolvedGenerationItem
  unresolved_item i = record {
    intent = i;
    candidate = none;
    confidence = 0;
    status = unresolved_it;
    reason = some (codes "No real track was found on the target provider");
  }

  -- A candidate whose key was seen is dropped; `rest` is the loop over the later intents.
  unfoldable pub keep_new :
      Bool
      → List Text
      → Text
      → ResolvedGenerationItem
      → W
      → (List Text → W → Result AdapterError (List ResolvedGenerationItem) × W)
      → Result AdapterError (List ResolvedGenerationItem) × W
  unfolding cons_item
  keep_new true seen k i w rest = rest seen w
  keep_new false seen k i w rest = cons_item i (rest (k ∷ seen) w)

  unfoldable pub with_candidate :
      List Text
      → GeneratedTrackIntent
      → MatchResult
      → Option TrackCandidate
      → W
      → (List Text → W → Result AdapterError (List ResolvedGenerationItem) × W)
      → Result AdapterError (List ResolvedGenerationItem) × W
  unfolding keep_new candidate_key mem resolved_item unresolved_item cons_item
  with_candidate seen i m none w rest = cons_item (unresolved_item i) (rest seen w)
  with_candidate seen i m (some c) w rest =
      keep_new (mem (candidate_key casefold c) seen) seen (candidate_key casefold c)
        (resolved_item i m c) w rest

  unfoldable pub one_intent :
      List Text
      → GeneratedTrackIntent
      → Result AdapterError MatchResult × W
      → (List Text → W → Result AdapterError (List ResolvedGenerationItem) × W)
      → Result AdapterError (List ResolvedGenerationItem) × W
  unfolding with_candidate
  one_intent seen i (raised e, w) rest = (raised e, w)
  one_intent seen i (ok m, w) rest = with_candidate seen i m m.candidate w rest

  unfoldable pub resolve_intents :
      List GeneratedTrackIntent
      → List Text
      → W
      → Result AdapterError (List ResolvedGenerationItem) × W
  unfolding one_intent resolve intent_track
  resolve_intents [] seen w = (ok [], w)
  resolve_intents (i ∷ is) seen w =
      one_intent seen i (resolve fl threshold search none (λ t m v. v) (intent_track i) w)
        (λ s v. resolve_intents is s v)

  unfoldable pub resolve_generated_plan :
      List GeneratedTrackIntent → W → Result AdapterError (List ResolvedGenerationItem) × W
  unfolding resolve_intents
  resolve_generated_plan plan w = resolve_intents plan [] w

-- `ensure_confirmable`: the ValueErrors.
pub data ConfirmError : Type 0 where
  has_unresolved has_unreviewed : ConfirmError

abbrev pub is_unresolved : ResolvedGenerationItem → Bool
is_unresolved i = elim i.status [ unresolved_it ↦ true | _ ↦ false ]

abbrev pub is_unreviewed : ResolvedGenerationItem → Bool
is_unreviewed i = elim i.status [ review_it ↦ true | _ ↦ false ]

unfoldable pub ensure_confirmable : List ResolvedGenerationItem → Option ConfirmError
ensure_confirmable is =
    if any is_unresolved is
    then some has_unresolved
    else if any is_unreviewed is
    then some has_unreviewed
    else none
