-- ===== src/Keys/Tests.antt =====
-- Runs of the key functions.
use open_playlist_engine.Counter.{mem}
use open_playlist_engine.Prelude.{text_beq, ◌≡◌, refl, true, some, [], ◌∷◌, codes, numeral}
use open_playlist_engine.Models.{Track}
use open_playlist_engine.Models.Normalize.{strip}
use open_playlist_engine.Models.Samples.{ascii, plain_urls, song}
use open_playlist_engine.Keys.{has_track_overlap, track_keys, uri_keys}

abbrev one : Track
one = song (codes "Song!") (codes "us1")

abbrev other : Track
other = song (codes "Another") (codes "US1")

keys_of_one :
    track_keys ⦃ops = ascii⦄ ⦃urls = plain_urls⦄ one
    ≡ codes "isrc:US1" ∷ codes "sig:song|a||180" ∷ codes "song:song|a" ∷ []
unfolding track_keys numeral
keys_of_one = refl

keys_of_uri :
    uri_keys ⦃ops = ascii⦄ ⦃urls = plain_urls⦄ (some (codes " spotify:track:Ab9 "))
    ≡ codes "uri:spotify:track:ab9" ∷ codes "id:ab9" ∷ []
unfolding uri_keys strip
keys_of_uri = refl

keys_of_url :
    uri_keys ⦃ops = ascii⦄ ⦃urls = plain_urls⦄ (some (codes "https://tidal.com/track/77/u"))
    ≡ codes "uri:https://tidal.com/track/77/u" ∷ codes "id:77" ∷ []
unfolding uri_keys strip
keys_of_url = refl

overlaps : has_track_overlap ⦃ops = ascii⦄ ⦃urls = plain_urls⦄ (one ∷ []) (other ∷ []) ≡ true
unfolding has_track_overlap mem text_beq
overlaps = refl
