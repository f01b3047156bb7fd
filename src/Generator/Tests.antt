-- ===== src/Generator/Tests.antt =====
-- A plan that names one track twice, and an instance of the theorem.
use open_playlist_engine.Prelude.{ℕ, none, List, [], ◌∷◌, Text, codes, Result, ok}
use open_playlist_engine.Models.{Track}
use open_playlist_engine.Models.Samples.{ascii}
use open_playlist_engine.Providers.{AdapterError, TrackCandidate}
use open_playlist_engine.Match.{FloatOps}
use open_playlist_engine.Generator.{GeneratedTrackIntent, resolve_generated_plan}
use open_playlist_engine.Generator.Distinct.{FreshAnswer, resolve_generated_plan-FreshAnswer}

-- Every ratio is one and every score is full.
abbrev full : FloatOps
full = record {
  Float = ℕ;
  ratio = λ s t. 10000;
  hundredths = λ n. 0;
  thirtieths = λ n. 0;
  plus = λ m n. 10000;
  minus = λ m n. 10000;
  times = λ m n. 10000;
  maximum = λ m n. 10000;
  round4 = λ n. n;
}

abbrev only : TrackCandidate
only = record {
  provider_track_id = codes "1";
  uri = codes "t:1";
  title = codes "x";
  artist = codes "A";
  album = none;
  duration_s = none;
  isrc = none;
}

abbrev search : Track → List Text → Result AdapterError (List TrackCandidate) × List Text
search t w = (ok (only ∷ []), w)

abbrev intent : GeneratedTrackIntent
intent = record { title = codes "x"; artist = codes "A"; album = none }

abbrev same : Text → Text
same s = s

abbrev no_text : ℕ → Text
no_text n = []

resolve_generated_plan-FreshAnswer_example :
    FreshAnswer same []
      (resolve_generated_plan ⦃ops = ascii⦄ full same 8000 search no_text (intent ∷ intent ∷ []) [])
resolve_generated_plan-FreshAnswer_example =
    resolve_generated_plan-FreshAnswer same ⦃ops = ascii⦄ full 8000 search no_text
      (intent ∷ intent ∷ []) []
