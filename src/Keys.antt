-- ===== src/Keys.antt =====
-- The keys by which tracks of different providers are compared
-- (backend/app/core/migration_state.py). A set of keys is a list; only membership is read.
-- `urllib.parse` is a parameter, for URIs that `urlparse` reads: it raises a `ValueError` for a
-- bracket that is not closed in the host of a URI.
mod Tests
use open_playlist_engine.Prelude.{
  ℕ, ◌+◌, Bool, true, false, not, ◌&&◌, ◌||◌, Option, none, some, List, [], ◌∷◌, ◌++◌, any,
  if◌then◌else◌, Text, text_eq, nat_eq, codes, ◌==◌, numeral, or_else, is_some, map,
}
use mathlib.Core.Option
use open_playlist_engine.Models.{Track, truthy, truthy_number, get}
use open_playlist_engine.Models.Normalize.{TextOps, normalize_text, strip, duration_bucket}
use open_playlist_engine.Counter.{mem}

pub record UrlOps : Type 0 where
  -- `urlparse(uri).query`
  pub query : Text → Text
  -- the first value of "v" in `parse_qs(query)`
  pub video : Text → Option Text

-- What is left of a text behind a prefix of it.
unfoldable pub drop_prefix : Text → Text → Option Text
drop_prefix [] s = some s
drop_prefix (c ∷ p) [] = none
drop_prefix (c ∷ p) (d ∷ s) = if c == d then drop_prefix p s else none

-- `text.split(marker, 1)[1]`, if the marker is in the text.
unfoldable pub after_first : Text → Text → Option Text
unfolding drop_prefix
after_first marker [] = drop_prefix marker []
after_first marker (c ∷ s) =
    let later = after_first marker s in or_else (drop_prefix marker (c ∷ s)) later

-- `text.split(c, 1)[0]`
unfoldable pub before_first : ℕ → Text → Text
before_first c [] = []
before_first c (d ∷ s) = if c == d then [] else d ∷ before_first c s

-- `text.rsplit(c, 1)[-1]`
unfoldable pub after_last : ℕ → Text → Text
unfolding after_first
after_last c [] = []
after_last c (d ∷ s) =
    let later = after_last c s in
    if is_some (after_first (c ∷ []) s) then later else if c == d then s else d ∷ s

-- The loop over ("track", "album", "artist"): `none` if no marker is in the URI.
after_item_type : List Text → Text → Option Text
unfolding after_first
after_item_type [] uri = none
after_item_type (marker ∷ markers) uri =
    or_else (after_first marker uri) (after_item_type markers uri)

-- The part of `_provider_item_id` behind the test of the query.
path_item_id : Text → Option Text
unfolding after_item_type before_first after_last
path_item_id uri =
    elim (after_item_type (codes "/track/" ∷ codes "/album/" ∷ codes "/artist/" ∷ []) uri) [
      | some tail ↦ truthy (some (before_first b'/' (before_first b'?' tail)))
      | none ↦
          if is_some (after_first (codes ":") uri) && not (is_some (after_first (codes "//") uri))
          then truthy (some (after_last b':' uri))
          else truthy (some uri)
    ]

-- The values of `keys_from_values`.
pub record KeyValues : Type 0 where
  pub title : Option Text
  pub artist : Option Text
  pub album : Option Text
  pub duration_s : Option ℕ
  pub isrc : Option Text
  pub track_id : Option Text
  pub source_item_id : Option Text
  pub provider_uris : List (Text × Text)

-- What a job item stores of its source (`model_dump`), each field perhaps missing.
pub record Metadata : Type 0 where
  pub title : Option Text
  pub artist : Option Text
  pub album : Option Text
  pub duration_s : Option ℕ
  pub isrc : Option Text
  pub id : Option Text
  pub source_item_id : Option Text
  pub provider_uris : List (Text × Text)
  pub metadata : List (Text × Text)

-- `bool(left & right)` of two sets of keys.
unfoldable pub intersects : List Text → List Text → Bool
intersects left right = any (λ k. mem k right) left

module _ ⦃ops : TextOps⦄ ⦃urls : UrlOps⦄ where
  unfoldable pub provider_item_id : Text → Option Text
  unfolding path_item_id
  provider_item_id uri = elim (truthy (some (urls.query uri))) [
    | none ↦ path_item_id uri
    | some query ↦ or_else (urls.video query) (path_item_id uri)
  ]

  id_key : Option Text → List Text
  id_key none = []
  id_key (some value) = (codes "id:" ++ ops.lower value) ∷ []

  stripped_uri_keys : Text → List Text
  unfolding provider_item_id id_key
  stripped_uri_keys [] = []
  stripped_uri_keys (c ∷ s) =
      (codes "uri:" ++ ops.lower (c ∷ s)) ∷ id_key (truthy (provider_item_id (c ∷ s)))

  unfoldable pub uri_keys : Option Text → List Text
  unfolding stripped_uri_keys
  uri_keys none = []
  uri_keys (some uri) = stripped_uri_keys (strip uri)

  -- `keys.update(uri_keys(uri))` over the values of the dictionary.
  all_uri_keys : List (Text × Text) → List Text
  unfolding uri_keys
  all_uri_keys [] = []
  all_uri_keys ((_, uri) ∷ uris) = uri_keys (some uri) ++ all_uri_keys uris

  isrc_key : Option Text → List Text
  isrc_key none = []
  isrc_key (some value) = (codes "isrc:" ++ ops.upper value) ∷ []

  -- The keys that the normalised title and artist give, if neither is empty.
  signature_keys : Text → Text → Text → Text → List Text
  signature_keys [] artist album bucket = []
  signature_keys (c ∷ title) [] album bucket = []
  signature_keys (c ∷ title) (d ∷ artist) album bucket =
      (codes "sig:"
        ++ ((c ∷ title) ++ (b'|' ∷ ((d ∷ artist) ++ (b'|' ∷ (album ++ (b'|' ∷ bucket)))))))
      ∷ (codes "song:" ++ ((c ∷ title) ++ (b'|' ∷ (d ∷ artist))))
      ∷ []

  unfoldable pub keys_from_values : KeyValues → List Text
  unfolding isrc_key id_key all_uri_keys signature_keys normalize_text duration_bucket
  keys_from_values v =
      isrc_key (truthy v.isrc)
      ++ (id_key (truthy v.track_id)
          ++ (id_key (truthy v.source_item_id)
              ++ (all_uri_keys v.provider_uris
                  ++ signature_keys (normalize_text v.title) (normalize_text v.artist)
                      (normalize_text v.album) (duration_bucket v.duration_s))))

  unfoldable pub track_keys : Track → List Text
  unfolding keys_from_values
  track_keys t = keys_from_values (record {
    title = some t.title;
    artist = some t.artist;
    album = t.album;
    duration_s = t.duration_s;
    isrc = t.isrc;
    track_id = t.id;
    source_item_id = t.source_item_id;
    provider_uris = t.provider_uris;
  })

  -- `metadata.get(k) or value`: the argument where the stored value is missing or empty.
  unfoldable pub keys_from_metadata : Metadata → KeyValues → List Text
  unfolding keys_from_values
  keys_from_metadata m v = keys_from_values (record {
    title = or_else (truthy m.title) v.title;
    artist = or_else (truthy m.artist) v.artist;
    album = truthy (or_else (truthy m.album) v.album);
    duration_s = or_else (truthy_number m.duration_s) v.duration_s;
    isrc = truthy (or_else (truthy m.isrc) v.isrc);
    track_id = truthy m.id;
    source_item_id = truthy m.source_item_id;
    provider_uris = m.provider_uris;
  })

  -- `set().union(*(track_keys(track) for track in tracks))`
  union_keys : List Track → List Text
  union_keys [] = []
  union_keys (t ∷ ts) = track_keys t ++ union_keys ts

  -- Whether some track of a list has a key in a set.
  hits : List Track → List Text → Bool
  unfolding intersects
  hits [] ks = false
  hits (t ∷ ts) ks = intersects (track_keys t) ks || hits ts ks

  unfoldable pub has_track_overlap : List Track → List Track → Bool
  unfolding union_keys hits track_keys
  has_track_overlap left right = hits left (union_keys right)

option_list : Option Text → List Text
option_list none = []
option_list (some s) = s ∷ []

-- The identifiers of a track that a selection may name.
identifiers : Track → List Text
unfolding option_list
identifiers t =
    option_list (truthy t.id)
    ++ (option_list (truthy t.source_item_id) ++ option_list (Option.map numeral t.position))

unfoldable pub track_selected : Track → List Text → Bool
unfolding identifiers
track_selected t [] = true
track_selected t (w ∷ wanted) = any (λ k. mem k (w ∷ wanted)) (identifiers t)
