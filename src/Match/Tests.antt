-- ===== src/Match/Tests.antt =====
-- Two candidates for a song, and instances of the theorems. The floats of the test are ten-thousandths.
use open_playlist_engine.Prelude.{
  ℕ, ◌+◌, ◌-◌, ◌*◌, ◌/◌, ◌≤◌, ◌≡◌, max, refl, true, none, some, List, [], ◌∷◌, ◌++◌, All,
  if◌then◌else◌, Text, text_eq, text_beq, ◌==◌, codes, Option, Result, ok,
}
use open_playlist_engine.Models.{Track}
use open_playlist_engine.Models.Samples.{ascii, song}
use open_playlist_engine.Providers.{AdapterError, TrackCandidate, MatchResult}
use open_playlist_engine.Match.{FloatOps, score, best_of, from_candidates, live_version_mismatch}
use open_playlist_engine.Match.Best.{from_candidates_best}

abbrev whole : FloatOps
whole = record {
  Float = ℕ;
  ratio = λ s t. if s == t then 10000 else 0;
  hundredths = λ n. n * 100;
  thirtieths = λ n. n * 10000 / 30;
  plus = λ m n. m + n;
  minus = λ m n. m - n;
  times = λ m n. m * n / 10000;
  maximum = λ m n. max m n;
  round4 = λ n. n;
}

abbrev candidate : Text → TrackCandidate
candidate title = record {
  provider_track_id = title;
  uri = title;
  title = title;
  artist = codes "A";
  album = none;
  duration_s = some 181;
  isrc = none;
}

abbrev wanted : Track
wanted = song (codes "Song") (codes "i1")

abbrev search : Track → List Text → Result AdapterError (List TrackCandidate) × List Text
search t w = (ok [], w)

abbrev remember : Track → MatchResult → List Text → List Text
remember t m w = w ++ t.title ∷ []

abbrev graph : Option (Text → List Text → Option TrackCandidate × List Text)
graph = some (λ isrc w. (none, w))

live_is_live :
    live_version_mismatch ⦃ops = ascii⦄ whole wanted (candidate (codes "Song (Live)")) ≡ true
unfolding live_version_mismatch
live_is_live = refl

abbrev settled : MatchResult × List Text
settled =
    from_candidates ⦃ops = ascii⦄ whole 8000 search graph remember wanted
      (candidate (codes "Song (Live)") ∷ candidate (codes "song") ∷ []) []

from_candidates_best_example :
    (settled.0.candidate
      ≡ some (
          best_of ⦃ops = ascii⦄ whole wanted
            (candidate (codes "Song (Live)"))
            (candidate (codes "song") ∷ [])))
    × All
        (λ d. (score ⦃ops = ascii⦄ whole wanted d).0 ≤ settled.0.confidence)
        (candidate (codes "Song (Live)") ∷ candidate (codes "song") ∷ [])
from_candidates_best_example =
    from_candidates_best ⦃ops = ascii⦄ whole wanted 8000 search graph remember
      (candidate (codes "Song (Live)")) (candidate (codes "song") ∷ []) []

abbrev only_live : MatchResult × List Text
only_live =
    from_candidates ⦃ops = ascii⦄ whole 8000 search graph remember wanted
      (candidate (codes "Song (Live)") ∷ []) []

asks_for_review : only_live.0.needs_review ≡ true
unfolding from_candidates text_beq
asks_for_review = refl
