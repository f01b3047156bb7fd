-- ===== src/Exports/OneLine.antt =====
-- The lines of an exported playlist, as a reader of the file finds them.
use open_playlist_engine.Prelude.{
  ℕ, suc, ◌≡◌, ◌≢◌, refl, ap, Bool, true, false, not, ◌&&◌, Option, none, some, List, [], ◌∷◌, ◌++◌,
  All, All-weaken, all, if◌then◌else◌, arith, nat_eq, Text, codes, ◌==◌, numeral, numeral-IsDigit,
  IsDigit,
}
use mathlib.Core.List.{append-nil, append_assoc}
use open_playlist_engine.Models.{
  Track, Playlist, MediaType, track, episode, video, local_file, unknown,
}
use open_playlist_engine.Exports.{single_line, source_uri, portable_location}
use open_playlist_engine.Exports.Lines.{
  media_type_name, track_label, tagged, duration_text, added_line, location_line, track_lines,
  all_track_lines, empty_warning, m3u8_lines, join_lines, write_m3u8,
}

-- Neither a line feed nor a carriage return.
abbrev pub InLine : ℕ → Type 0
InLine c = (c ≢ 10) × (c ≢ 13)

abbrev pub OneLine : Text → Type 0
OneLine s = All InLine s

OneLine-append : (s t : Text) → OneLine s → OneLine t → OneLine (s ++ t)
OneLine-append [] t h k = k
OneLine-append (c ∷ s) t h k = (h.0, OneLine-append s t h.1 k)

All-lines : (ls ks : List Text) → All OneLine ls → All OneLine ks → All OneLine (ls ++ ks)
All-lines [] ks h k = k
All-lines (l ∷ ls) ks h k = (h.0, All-lines ls ks h.1 k)

single_line-OneLine : (s : Text) → OneLine (single_line s)
unfolding single_line
single_line-OneLine [] = tt
single_line-OneLine (c ∷ s) = ((ground arith, ground arith), single_line-OneLine s)

numeral-OneLine : (n : ℕ) → OneLine (numeral n)
numeral-OneLine n =
    All-weaken IsDigit InLine (numeral n) (λ c h. (omega (arith, h), omega (arith, h)))
      (numeral-IsDigit n)

-- A text of characters above the control codes.
abbrev is_plain : Text → Bool
is_plain s = all (λ c. not (c == 10) && not (c == 13)) s

plain-OneLine : (s : Text) → is_plain s ≡ true → OneLine s
plain-OneLine [] h = tt
plain-OneLine (c ∷ s) h = let rest = plain-OneLine s in ground (arith, h, rest)

tagged-OneLine : (tag : Text) (o : Option Text) → OneLine tag → All OneLine (tagged tag o)
unfolding tagged
tagged-OneLine tag none h = tt
tagged-OneLine tag (some []) h = tt
tagged-OneLine tag (some (c ∷ s)) h =
    (OneLine-append tag (single_line (c ∷ s)) h (single_line-OneLine (c ∷ s)), tt)

duration_text-OneLine : (o : Option ℕ) → OneLine (duration_text o)
unfolding duration_text
duration_text-OneLine none = plain-OneLine (codes "-1") refl
duration_text-OneLine (some n) = numeral-OneLine n

media_type_name-OneLine : (m : MediaType) → OneLine (media_type_name m)
unfolding media_type_name
media_type_name-OneLine track = plain-OneLine (codes "track") refl
media_type_name-OneLine episode = plain-OneLine (codes "episode") refl
media_type_name-OneLine video = plain-OneLine (codes "video") refl
media_type_name-OneLine local_file = plain-OneLine (codes "local_file") refl
media_type_name-OneLine unknown = plain-OneLine (codes "unknown") refl

-- The lines of a text, each ended by a line feed.
unfoldable pub split_lines : Text → Text → List Text
split_lines line [] = []
split_lines line (c ∷ s) =
    let next = split_lines [] s in
    let more = split_lines (line ++ c ∷ []) s in if c == b'\n' then line ∷ next else more

-- The rest of a line is read up to its line feed.
split_lines-line :
    (line l rest : Text)
    → OneLine l
    → split_lines line (l ++ b'\n' ∷ rest) ≡ (line ++ l) ∷ split_lines [] rest
unfolding split_lines
split_lines-line line [] rest h = rw (append-nil line) refl
split_lines-line line (c ∷ l) rest h =
    let differs : (c == b'\n') ≡ false = ground (arith, h.0) in
    rw differs
      (rw (split_lines-line (line ++ c ∷ []) l rest h.1) (rw (append_assoc line (c ∷ []) l) refl))

split_lines-join_lines : (ls : List Text) → All OneLine ls → split_lines [] (join_lines ls) ≡ ls
unfolding split_lines join_lines
split_lines-join_lines [] h = refl
split_lines-join_lines (l ∷ ls) h =
    rw (split_lines-line [] l (join_lines ls) h.0) (ap (◌∷◌ l) (split_lines-join_lines ls h.1))

module _ (isoformat : ℕ → Text)
    -- The form of a time stands on one line.
    (isoformat-OneLine : (time : ℕ) → OneLine (isoformat time)) where
  added_line-OneLine : (o : Option ℕ) → All OneLine (added_line isoformat o)
  unfolding added_line
  added_line-OneLine none = tt
  added_line-OneLine (some time) = (
    OneLine-append (codes "#OPE-ADDED-AT:") (isoformat time)
        (plain-OneLine (codes "#OPE-ADDED-AT:") refl) (isoformat-OneLine time),
    tt,
  )

  location_line-OneLine : (o : Option Text) → OneLine (location_line isoformat o)
  unfolding location_line
  location_line-OneLine none = plain-OneLine (codes "#OPE-MISSING-URI") refl
  location_line-OneLine (some []) = plain-OneLine (codes "#OPE-MISSING-URI") refl
  location_line-OneLine (some (c ∷ s)) = single_line-OneLine (c ∷ s)

  empty_warning-OneLine : (ts : List Track) → All OneLine (empty_warning isoformat ts)
  unfolding empty_warning
  empty_warning-OneLine [] = (plain-OneLine (codes "#OPE-WARNING:empty_playlist") refl, tt)
  empty_warning-OneLine (t ∷ ts) = tt

  last_lines :
      (provider : Text) (t : Track)
      → All OneLine (
          tagged (codes "#OPE-SOURCE-URI:") (source_uri t provider)
          ++ (added_line isoformat t.added_at
              ++ (tagged (codes "#EXTIMG:") t.artwork_uri
                  ++ (tagged (codes "#OPE-UNSUPPORTED:") t.unsupported_reason
                      ++ (location_line isoformat (portable_location t provider) ∷ [])))))
  last_lines provider t =
      let uri_tag = codes "#OPE-SOURCE-URI:" in
      let image = codes "#EXTIMG:" in
      let reason = codes "#OPE-UNSUPPORTED:" in
      All-lines (tagged uri_tag (source_uri t provider)) _
        (tagged-OneLine uri_tag (source_uri t provider) (plain-OneLine uri_tag refl))
        (All-lines (added_line isoformat t.added_at) _ (added_line-OneLine t.added_at) (
          All-lines (tagged image t.artwork_uri) _
            (tagged-OneLine image t.artwork_uri (plain-OneLine image refl))
            (All-lines (tagged reason t.unsupported_reason)
              (location_line isoformat (portable_location t provider) ∷ [])
              (tagged-OneLine reason t.unsupported_reason (plain-OneLine reason refl))
              (location_line-OneLine (portable_location t provider), tt))))

  track_lines-OneLine :
      (provider : Text) (order : ℕ) (t : Track)
      → All OneLine (track_lines isoformat provider order t)
  unfolding track_lines
  track_lines-OneLine provider order t =
      let info = codes "#EXTINF:" in
      let kind = codes "#OPE-MEDIA-TYPE:" in
      let number = codes "#OPE-ORDER:" in
      let label = single_line (track_label t) in
      (
        OneLine-append info (duration_text t.duration_s ++ b',' ∷ label) (plain-OneLine info refl) (
            OneLine-append (duration_text t.duration_s) (b',' ∷ label)
              (duration_text-OneLine t.duration_s)
              ((ground arith, ground arith), single_line-OneLine (track_label t))),
        (
          OneLine-append number (numeral order) (plain-OneLine number refl) (numeral-OneLine order),
          All-lines (tagged (codes "#EXTART:") (some t.artist)) _
              (tagged-OneLine (codes "#EXTART:") (some t.artist)
                (plain-OneLine (codes "#EXTART:") refl))
              (All-lines (tagged (codes "#EXTALB:") t.album) _
                (tagged-OneLine (codes "#EXTALB:") t.album (plain-OneLine (codes "#EXTALB:") refl))
                (All-lines (tagged (codes "#OPE-ISRC:") t.isrc) _
                  (tagged-OneLine (codes "#OPE-ISRC:") t.isrc
                    (plain-OneLine (codes "#OPE-ISRC:") refl))
                  (
                    OneLine-append kind (media_type_name t.media_type) (plain-OneLine kind refl)
                        (media_type_name-OneLine t.media_type),
                    last_lines provider t,
                  ))),
        ),
      )

  all_track_lines-OneLine :
      (provider : Text) (order : ℕ) (ts : List Track)
      → All OneLine (all_track_lines isoformat provider order ts)
  unfolding all_track_lines
  all_track_lines-OneLine provider order [] = tt
  all_track_lines-OneLine provider order (t ∷ ts) =
      All-lines (track_lines isoformat provider order t)
        (all_track_lines isoformat provider (suc order) ts) (track_lines-OneLine provider order t)
        (all_track_lines-OneLine provider (suc order) ts)

  m3u8_lines-OneLine :
      (p : Playlist) (provider : Text) → All OneLine (m3u8_lines isoformat p provider)
  unfolding m3u8_lines
  m3u8_lines-OneLine p provider =
      let id_tag = codes "#OPE-PLAYLIST-ID:" in
      (
        plain-OneLine (codes "#EXTM3U") refl,
        (
          plain-OneLine (codes "#EXTENC:UTF-8") refl,
          (
            plain-OneLine (codes "#OPE-SCHEMA:open-playlist-m3u-v1") refl,
            (
              OneLine-append (codes "#PLAYLIST:") (single_line p.name)
                  (plain-OneLine (codes "#PLAYLIST:") refl) (single_line-OneLine p.name),
              All-lines (tagged id_tag p.id) _
                  (tagged-OneLine id_tag p.id (plain-OneLine id_tag refl))
                  (All-lines (empty_warning isoformat p.tracks) _ (empty_warning-OneLine p.tracks)
                    (all_track_lines-OneLine provider 1 p.tracks)),
            ),
          ),
        ),
      )

  -- Where the form of a time has no line break: a reader that splits an exported M3U8 playlist at
  -- its line feeds finds the lines that were written, whatever line breaks the names and URIs
  -- hold.
  pub write_m3u8-split_lines :
      (p : Playlist) (provider : Text)
      → split_lines [] (write_m3u8 isoformat p provider) ≡ m3u8_lines isoformat p provider
  unfolding write_m3u8
  write_m3u8-split_lines p provider =
      split_lines-join_lines (m3u8_lines isoformat p provider) (m3u8_lines-OneLine p provider)
