-- ===== src/Migration/Tests.antt =====
-- The migration of two tracks to a target that accepts every track, and instances of the theorems.
use open_playlist_engine.Prelude.{
  ◌≡◌, refl, false, none, some, List, [], ◌∷◌, ◌++◌, map, length, All, count_if, Text, codes,
  Result, ok,
}
use open_playlist_engine.Counter.{mem}
use open_playlist_engine.Prelude.{text_beq}
use open_playlist_engine.Models.{Track}
use open_playlist_engine.Models.Samples.{ascii, plain_urls, song}
use open_playlist_engine.Keys.{Metadata}
use open_playlist_engine.Providers.{AdapterError, AddItemResult, MatchResult}
use open_playlist_engine.Migration.{
  ℕ, true, JobItem, manual, pending, LedgerRow, done, item_target_keys,
}
use open_playlist_engine.Migration.Write.{skip_duplicate_items, apply_results, write_matched_items}
use open_playlist_engine.Migration.Loop.{Run, JobSettings, run_playlist}
use open_playlist_engine.Migration.Terminal.{
  EndsOrEscapes, Fresh, was_written, write_matched_items-IsEnded, skip_duplicate_items-Fresh,
  ledger-written,
}
use open_playlist_engine.Migration.Completion.{is_settled, run_playlist_complete}
use open_playlist_engine.Migration.Manual.{run_playlist-manual}

abbrev no_metadata : Metadata
no_metadata = record {
  title = none;
  artist = none;
  album = none;
  duration_s = none;
  isrc = none;
  id = none;
  source_item_id = none;
  provider_uris = [];
  metadata = [];
}

abbrev item : Text → JobItem
item title = record {
  id = title;
  position = 0;
  title = title;
  artist = codes "A";
  album = none;
  duration_s = none;
  isrc = none;
  source_metadata = no_metadata;
  target_playlist_id = none;
  target_uri = some (codes "t:track:" ++ title);
  confidence = none;
  status = pending;
  reason = none;
}

abbrev accepted : Text → AddItemResult
accepted uri = record {
  uri = uri;
  is_ok = true;
  already_present = false;
  position = none;
  error = none;
}

-- The state of the target is what was written to it.
abbrev accept_all :
    Text → List Text → List Text → Result AdapterError (List AddItemResult) × List Text
accept_all playlist uris w = (ok (map accepted uris), w ++ uris)

abbrev find_by_title : Track → List Text → Result AdapterError MatchResult × List Text
find_by_title t w = (
  ok (record {
    candidate = some (record {
      provider_track_id = t.title;
      uri = codes "t:track:" ++ t.title;
      title = t.title;
      artist = t.artist;
      album = none;
      duration_s = none;
      isrc = none;
    });
    confidence = 9900;
    source = codes "search";
    needs_review = false;
    review_reason = none;
  }),
  w,
)

abbrev no_text : ℕ → Text
no_text c = []

abbrev settings : JobSettings
settings = record {
  origin = manual;
  playlist = codes "p";
  capabilities = record {
    capabilities = [];
    max_add_batch = 1;
    max_library_batch = 1;
    write_quota_cost = 1;
  };
  match_only = false;
  review_threshold = 8000;
  history = [];
}

abbrev fresh_run : Run (List Text)
fresh_run = record {
  world = [];
  finished = [];
  buffer = [];
  ledger = [];
  existing = [];
  error = none;
}

abbrev two : List (JobItem × Track)
two =
    (item (codes "x"), song (codes "x") (codes "i1"))
    ∷ (item (codes "y"), song (codes "y") (codes "i2"))
    ∷ []

abbrev two_items : List JobItem
two_items = item (codes "x") ∷ item (codes "x") ∷ item (codes "y") ∷ []

-- The run of the loop on the two tracks.
abbrev migrated : Run (List Text)
migrated =
    run_playlist ⦃ops = ascii⦄ ⦃urls = plain_urls⦄ accept_all find_by_title no_text settings
      fresh_run two

both_written : migrated.world ≡ codes "t:track:x" ∷ codes "t:track:y" ∷ []
unfolding run_playlist item_target_keys mem text_beq
both_written = refl

no_error : migrated.error ≡ none
unfolding run_playlist item_target_keys mem text_beq
no_error = refl

run_playlist_complete_example :
    All (λ i. is_settled false i ≡ true) migrated.finished
    × (length migrated.finished ≡ 2)
    × (length migrated.buffer ≡ 0)
run_playlist_complete_example =
    run_playlist_complete ⦃ops = ascii⦄ ⦃urls = plain_urls⦄ accept_all find_by_title no_text
      settings fresh_run two refl refl no_error

run_playlist-manual_example :
    (migrated.error ≡ none)
    × All (λ i. is_settled false i ≡ true) migrated.finished
    × (length migrated.finished ≡ 2)
    × (length migrated.buffer ≡ 0)
run_playlist-manual_example =
    run_playlist-manual ⦃ops = ascii⦄ ⦃urls = plain_urls⦄ accept_all find_by_title no_text settings
      refl (λ p uris w. tt) (λ t w. tt) fresh_run two refl refl refl

write_matched_items-IsEnded_example : EndsOrEscapes ⦃ops = ascii⦄ ⦃urls = plain_urls⦄ accept_all 3 (
    write_matched_items ⦃ops = ascii⦄ ⦃urls = plain_urls⦄ accept_all manual
      (codes "p")
      []
      two_items
      [])
write_matched_items-IsEnded_example =
    write_matched_items-IsEnded ⦃ops = ascii⦄ ⦃urls = plain_urls⦄ accept_all manual (codes "p") []
      two_items []

skip_duplicate_items-Fresh_example :
    Fresh ⦃ops = ascii⦄ ⦃urls = plain_urls⦄ []
      (skip_duplicate_items ⦃ops = ascii⦄ ⦃urls = plain_urls⦄ [] two_items).1
skip_duplicate_items-Fresh_example =
    skip_duplicate_items-Fresh ⦃ops = ascii⦄ ⦃urls = plain_urls⦄ [] two_items

abbrev answered : List AddItemResult
answered = accepted (codes "t:track:x") ∷ []

ledger-written_example :
    count_if
      (λ (row : LedgerRow). elim row.state [ done ↦ true | _ ↦ false ])
      (apply_results ⦃ops = ascii⦄ ⦃urls = plain_urls⦄ (codes "p") [] two_items answered).ledger
    ≡ count_if was_written
        (apply_results ⦃ops = ascii⦄ ⦃urls = plain_urls⦄ (codes "p") [] two_items answered).items
ledger-written_example =
    ledger-written ⦃ops = ascii⦄ ⦃urls = plain_urls⦄ (codes "p") [] two_items answered
