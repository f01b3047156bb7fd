-- ===== src/Exports.antt =====
-- The export of playlists (backend/app/exports/serializers.py): file names, cells of tables, and
-- the text formats. Unicode decomposition and the form of a time are parameters.
pub mod Names
pub mod Attempts
pub mod Ascii
pub mod Fresh
pub mod Lines
pub mod OneLine
pub mod Tables
mod Tests
use open_playlist_engine.Prelude.{
  ℕ, ◌+◌, Bool, true, false, not, ◌&&◌, ◌||◌, Option, none, some, List, [], ◌∷◌, ◌++◌, map, any,
  all, if◌then◌else◌, leb, nat_eq, Text, text_eq, text_ltb, text_beq, codes, ◌==◌, is_some, or_else,
}
use mathlib.Core.List.{reverse}
use open_playlist_engine.Models.{Track, truthy, get}
use open_playlist_engine.Keys.{drop_prefix, after_last}

-- `(value or "").replace("\r", " ").replace("\n", " ")`
unfoldable pub single_line : Text → Text
single_line s = map (λ c. if c == 13 then b' ' else if c == 10 then b' ' else c) s

-- The first URI that counts as true, by the order of the providers' names.
first_uri : List (Text × Text) → Option (Text × Text)
unfolding text_ltb
first_uri [] = none
first_uri ((p, uri) ∷ uris) = earlier (truthy (some uri)) (first_uri uris)
  where
    earlier : Option Text → Option (Text × Text) → Option (Text × Text)
    earlier none rest = rest
    earlier (some u) none = some (p, u)
    earlier (some u) (some (q, v)) = if text_ltb q p then some (q, v) else some (p, u)

unfoldable pub source_uri : Track → Text → Option Text
unfolding first_uri get
source_uri t provider = preferred (get provider t.provider_uris)
  where
    value_of : Option (Text × Text) → Option Text
    value_of none = none
    value_of (some (_, uri)) = some uri

    preferred : Option Text → Option Text
    preferred o = or_else (truthy o) (value_of (first_uri t.provider_uris))

-- `uri.rsplit(':', 1)[-1]` behind a prefix is `after_last`.
unfoldable pub portable_uri : Text → Text
unfolding drop_prefix after_last
portable_uri uri =
    if is_some (drop_prefix (codes "spotify:track:") uri)
    then codes "https://open.spotify.com/track/" ++ after_last b':' uri
    else if is_some (drop_prefix (codes "tidal:track:") uri)
    then codes "https://tidal.com/browse/track/" ++ after_last b':' uri
    else uri

unfoldable pub portable_location : Track → Text → Option Text
unfolding source_uri portable_uri
portable_location t provider = locate (source_uri t provider)
  where
    locate : Option Text → Option Text
    locate none = none
    locate (some uri) = some (portable_uri uri)

-- A text at the start of which a spreadsheet would see a formula or a blank it drops.
unfoldable pub begins_formula : Text → Bool
begins_formula [] = false
begins_formula (c ∷ s) =
    let rest = begins_formula s in
    if c == b' ' || c == 9 || c == 13 || c == 10
    then rest
    else c == b'=' || c == b'+' || c == b'-' || c == b'@'

unfoldable pub begins_blank : Text → Bool
begins_blank [] = false
begins_blank (c ∷ s) = c == 9 || c == 13

unfoldable pub spreadsheet_safe : Text → Text
unfolding begins_formula begins_blank
spreadsheet_safe s = if begins_blank s || begins_formula s then b'\'' ∷ s else s
