-- ===== src/Exports/Tests.antt =====
-- Names that collide, a playlist with a line feed in its name, and a formula in a title; instances
-- of the theorems.
use open_playlist_engine.Prelude.{
  arith, ℕ, ◌≡◌, refl, true, false, List, [], ◌∷◌, map, All, Text, codes, text_beq, numeral,
}
use open_playlist_engine.Counter.{mem}
use open_playlist_engine.Models.{Playlist}
use open_playlist_engine.Models.Samples.{ascii, song, playlist_of}
use open_playlist_engine.Exports.{spreadsheet_safe}
use open_playlist_engine.Exports.Names.{NameOps, allocated, is_extension, allocate}
use open_playlist_engine.Exports.Fresh.{lower_char, allocate-fresh}
use open_playlist_engine.Exports.Lines.{m3u8_lines, write_m3u8}
use open_playlist_engine.Exports.OneLine.{split_lines, write_m3u8-split_lines}
use open_playlist_engine.Exports.Tables.{IsInert, written_rows, written_rows-IsInert}

abbrev plain_names : NameOps
plain_names = record { to_ascii = λ s. s; casefold = map lower_char }

abbrev in_use : List Text
in_use = codes "mix.csv" ∷ codes "mix-2.csv" ∷ []

third_name :
    allocate ⦃text = ascii⦄ plain_names (codes "Mix!") (codes "csv") (codes "playlist") in_use
    ≡ allocated (codes "Mix-3.csv") (codes "mix-3.csv" ∷ in_use)
unfolding allocate mem text_beq numeral
third_name = refl

extension_is_safe : is_extension (codes "csv") ≡ true
unfolding is_extension
extension_is_safe = refl

allocate-fresh_example :
    (name : Text) × (allocate ⦃text = ascii⦄ plain_names
        (codes "Mix!")
        (codes "csv")
        (codes "playlist")
        in_use
      ≡ allocated name (map lower_char name ∷ in_use))
    × (mem (map lower_char name) in_use ≡ false)
allocate-fresh_example =
    allocate-fresh ⦃text = ascii⦄ plain_names (λ s h. refl) (codes "Mix!") (codes "csv")
      (codes "playlist") in_use extension_is_safe

abbrev spoofed : Playlist
spoofed = record (playlist_of (song (codes "=x") (codes "i") ∷ [])) { name = b'a' ∷ 10 ∷ b'#' ∷ [] }

abbrev one_time : ℕ → Text
one_time n = codes "Z"

write_m3u8-split_lines_example :
    split_lines [] (write_m3u8 one_time spoofed (codes "s"))
    ≡ m3u8_lines one_time spoofed (codes "s")
write_m3u8-split_lines_example =
    write_m3u8-split_lines one_time (λ n. ((omega arith, omega arith), tt)) spoofed (codes "s")

quoted : spreadsheet_safe (codes " =x") ≡ codes "' =x"
unfolding spreadsheet_safe
quoted = refl

written_rows-IsInert_example : All IsInert (written_rows one_time spoofed (codes "s"))
written_rows-IsInert_example = written_rows-IsInert one_time spoofed (codes "s")
