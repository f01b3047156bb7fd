-- ===== src/Match.antt =====
-- The match service (backend/app/core/match_service.py): the score of a candidate, the need for a
-- review, and the choice of the best candidate. Floats are a parameter; a confidence counts
-- ten-thousandths, since the program rounds each to four decimals.
pub mod Best
mod Tests
use open_playlist_engine.Prelude.{
  ℕ, ◌+◌, ◌-◌, Bool, true, false, not, ◌&&◌, ◌||◌, Option, none, some, List, [], ◌∷◌, ◌++◌,
  if◌then◌else◌, ltb, leb, is_some, nat_eq, Text, text_eq, codes, ◌==◌, Result, ok, raised,
}
use mathlib.Core.List.{reverse}
use open_playlist_engine.Models.{Track, truthy, truthy_number}
use open_playlist_engine.Models.Normalize.{TextOps, normalize_text}
use open_playlist_engine.Providers.{AdapterError, TrackCandidate, MatchResult}
use open_playlist_engine.Keys.{drop_prefix}

-- The float arithmetic that a score uses. `ratio` is `SequenceMatcher(None, a, b).ratio()`, `hundredths n`
-- is the literal n / 100, `thirtieths n` is n / 30.0, and `round4` is `max(0.0, round(x, 4))`.
pub record FloatOps : Type 1 where
  pub Float : Type 0
  pub ratio : Text → Text → Float
  pub hundredths : ℕ → Float
  pub thirtieths : ℕ → Float
  pub plus : Float → Float → Float
  pub minus : Float → Float → Float
  pub times : Float → Float → Float
  pub maximum : Float → Float → Float
  pub round4 : Float → ℕ

-- Whether the word stands in a text of words and spaces; the flag says that a word begins here.
word_at : Text → Bool → Text → Bool
unfolding drop_prefix
word_at w start [] = false
word_at w start (c ∷ s) = let rest = word_at w (c == b' ') s in start && begins w (c ∷ s) || rest
  where
    ends : Option Text → Bool
    ends none = false
    ends (some []) = true
    ends (some (d ∷ _)) = d == b' '

    begins : Text → Text → Bool
    begins v t = ends (drop_prefix v t)

ends_with : Text → Text → Bool
unfolding drop_prefix
ends_with suffix s = is_some (drop_prefix (reverse suffix) (reverse s))

module _ ⦃ops : TextOps⦄ (fl : FloatOps) where
  -- `_LIVE.search(_norm(title))`
  unfoldable pub has_live_marker : Option Text → Bool
  unfolding word_at normalize_text
  has_live_marker title = word_at (codes "live") true (normalize_text title)

  unfoldable pub live_version_mismatch : Track → TrackCandidate → Bool
  unfolding has_live_marker
  live_version_mismatch t c = not (has_live_marker (some t.title)) && has_live_marker (some c.title)

  unfoldable pub apply_live_penalty : Track → TrackCandidate → fl.Float → Text → ℕ × Text
  unfolding live_version_mismatch
  apply_live_penalty t c confidence source =
      if live_version_mismatch t c
      then (fl.round4 (fl.minus confidence (fl.hundredths 20)), source ++ codes "_live")
      else (fl.round4 confidence, source)

  unfoldable pub live_review_reason : TrackCandidate → Text
  live_review_reason c =
      codes "Target title \""
      ++ c.title
      ++ codes "\" appears to be a live version; confirm before migrating."

  unfoldable pub needs_review : ℕ → Text → ℕ → Bool
  unfolding ends_with
  needs_review confidence source threshold =
      ltb confidence threshold || ends_with (codes "_live") source

  same_isrc : Option Text → Option Text → Bool
  same_isrc (some i) (some j) = i == j
  same_isrc _ _ = false

  album_ratio : Option Text → Option Text → fl.Float
  unfolding normalize_text
  album_ratio (some a) (some b) = fl.ratio (normalize_text (some a)) (normalize_text (some b))
  album_ratio _ _ = fl.hundredths 0

  duration_score : Option ℕ → Option ℕ → fl.Float
  duration_score (some m) (some n) =
      let delta = (m - n) + (n - m) in
      if leb delta 3
      then fl.hundredths 100
      else fl.maximum (fl.hundredths 0) (fl.minus (fl.hundredths 100) (fl.thirtieths delta))
  duration_score _ _ = fl.hundredths 0

  fuzzy : Track → TrackCandidate → fl.Float
  unfolding album_ratio duration_score normalize_text
  fuzzy t c =
      fl.plus
        (fl.plus
          (fl.plus
            (fl.times (fl.hundredths 45)
              (fl.ratio (normalize_text (some t.title)) (normalize_text (some c.title))))
            (fl.times (fl.hundredths 35)
              (fl.ratio (normalize_text (some t.artist)) (normalize_text (some c.artist)))))
          (fl.times (fl.hundredths 10) (album_ratio (truthy t.album) (truthy c.album))))
        (fl.times (fl.hundredths 10)
          (duration_score (truthy_number t.duration_s) (truthy_number c.duration_s)))

  unfoldable pub score : Track → TrackCandidate → ℕ × Text
  unfolding apply_live_penalty same_isrc fuzzy
  score t c =
      if same_isrc (truthy t.isrc) (truthy c.isrc)
      then apply_live_penalty t c (fl.hundredths 100) (codes "isrc_exact")
      else apply_live_penalty t c (fuzzy t c) (codes "fuzzy")

  -- A candidate with its score. The loop starts below every score; a later candidate replaces the best
  -- one only if its score is higher.
  unfoldable pub best_of : Track → TrackCandidate → List TrackCandidate → TrackCandidate
  unfolding score
  best_of t best [] = best
  best_of t best (c ∷ cs) = best_of t (if ltb (score t best).0 (score t c).0 then c else best) cs

  unfoldable pub result_for : ℕ → TrackCandidate → ℕ × Text → MatchResult
  unfolding needs_review live_review_reason ends_with
  result_for threshold c (confidence, source) = record {
    candidate = some c;
    confidence = confidence;
    source = source;
    needs_review = needs_review confidence source threshold;
    review_reason = if ends_with (codes "_live") source then some (live_review_reason c) else none;
  }

  unfoldable pub no_match : MatchResult
  no_match = record {
    candidate = none;
    confidence = 0;
    source = codes "none";
    needs_review = true;
    review_reason = none;
  }

  -- The search of the target and the evidence graph; `W` is the state of both.
  module _ {W : Type 0} (threshold : ℕ)
      (search : Track → W → Result AdapterError (List TrackCandidate) × W)
      -- The graph, if there is one: its lookup by ISRC and its record of a match.
      (lookup : Option (Text → W → Option TrackCandidate × W))
      (remember : Track → MatchResult → W → W) where
    unfoldable pub recorded : Bool → Track → MatchResult → W → MatchResult × W
    recorded true t m w = if m.needs_review then (m, w) else (m, remember t m w)
    recorded false t m w = (m, w)

    unfoldable pub from_candidates : Track → List TrackCandidate → W → MatchResult × W
    unfolding no_match best_of result_for score recorded
    from_candidates t [] w = (no_match, w)
    from_candidates t (c ∷ cs) w =
        let best = best_of t c cs in
        recorded (is_some lookup) t (result_for threshold best (score t best)) w

    searched :
        Track → Result AdapterError (List TrackCandidate) × W → Result AdapterError MatchResult × W
    unfolding from_candidates
    searched t (raised e, w) = (raised e, w)
    searched t (ok cs, w) = let (m, after) = from_candidates t cs w in (ok m, after)

    cached : Track → Option TrackCandidate × W → Result AdapterError MatchResult × W
    unfolding result_for apply_live_penalty searched
    cached t (some c, w) = (
      ok (
          result_for threshold c
            (apply_live_penalty t c (fl.hundredths 100) (codes "graph_cache"))),
      w,
    )
    cached t (none, w) = searched t (search t w)

    resolve_with :
        Track
        → Option Text
        → Option (Text → W → Option TrackCandidate × W)
        → W
        → Result AdapterError MatchResult × W
    unfolding cached searched
    resolve_with t (some isrc) (some look) w = cached t (look isrc w)
    resolve_with t (some isrc) none w = searched t (search t w)
    resolve_with t none g w = searched t (search t w)

    unfoldable pub resolve : Track → W → Result AdapterError MatchResult × W
    unfolding resolve_with
    resolve t w = resolve_with t (truthy t.isrc) lookup w
