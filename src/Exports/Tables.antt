-- ===== src/Exports/Tables.antt =====
-- The rows of the exported tables: `_tabular_row`, `_tabular_rows` and the rows that
-- `_write_tabular` hands to the writer (backend/app/exports/serializers.py).
use open_playlist_engine.Prelude.{
  ℕ, suc, ◌≡◌, refl, true, ◌||◌, inl, inr, Option, none, some, List, [], ◌∷◌, ◌++◌, map, All, Text,
  codes, Bool-cases, nat_eq, any, false, arith, ◌==◌,
}
use mathlib.Core.Option.{get_or}
use mathlib.Core.Path.{subst}
use open_playlist_engine.Models.{Track, Playlist, PlaylistKind, standard, liked_tracks}
use open_playlist_engine.Exports.{source_uri, spreadsheet_safe, begins_formula, begins_blank}
use open_playlist_engine.Exports.Lines.{media_type_name}

-- A value of a row: a text, a number, or `None`.
pub data Cell : Type 0 where
  text_cell : Text → Cell
  number_cell : ℕ → Cell
  empty_cell : Cell

unfoldable pub kind_name : PlaylistKind → Text
kind_name standard = codes "standard"
kind_name liked_tracks = codes "liked_tracks"

unfoldable pub number_or_blank : Option ℕ → Cell
number_or_blank none = text_cell []
number_or_blank (some n) = number_cell n

abbrev text_or_blank : Option Text → Cell
text_or_blank o = text_cell (get_or o [])

-- `_spreadsheet_safe` of a value.
unfoldable pub safe_cell : Cell → Cell
unfolding spreadsheet_safe
safe_cell (text_cell s) = text_cell (spreadsheet_safe s)
safe_cell (number_cell n) = number_cell n
safe_cell empty_cell = empty_cell

module _ (isoformat : ℕ → Text) where
  unfoldable pub iso : Option ℕ → Text
  iso none = []
  iso (some time) = isoformat time

  uri_cell : Option Text → Cell
  uri_cell none = empty_cell
  uri_cell (some uri) = text_cell uri

  unfoldable pub playlist_cells : Playlist → List Cell
  unfolding iso kind_name
  playlist_cells p =
      number_cell 1
      ∷ text_or_blank p.id
      ∷ text_cell p.name
      ∷ text_or_blank p.description
      ∷ text_cell (kind_name p.kind)
      ∷ text_or_blank p.owner_id
      ∷ text_or_blank p.photo
      ∷ text_cell (iso p.created_at)
      ∷ text_cell (iso p.updated_at)
      ∷ []

  unfoldable pub track_cells : Text → Option Track → List Cell
  unfolding number_or_blank uri_cell source_uri iso media_type_name
  track_cells provider none =
      map (λ column. text_cell [])
        (codes "source_position"
          ∷ codes "track_id"
          ∷ codes "source_item_id"
          ∷ codes "title"
          ∷ codes "artist"
          ∷ codes "album"
          ∷ codes "duration_seconds"
          ∷ codes "isrc"
          ∷ codes "source_uri"
          ∷ codes "artwork_uri"
          ∷ codes "added_at"
          ∷ codes "media_type"
          ∷ codes "unsupported_reason"
          ∷ [])
  track_cells provider (some t) =
      number_or_blank t.position
      ∷ text_or_blank t.id
      ∷ text_or_blank t.source_item_id
      ∷ text_cell t.title
      ∷ text_cell t.artist
      ∷ text_or_blank t.album
      ∷ number_or_blank t.duration_s
      ∷ text_or_blank t.isrc
      ∷ uri_cell (source_uri t provider)
      ∷ text_or_blank t.artwork_uri
      ∷ text_cell (iso t.added_at)
      ∷ text_cell (media_type_name t.media_type)
      ∷ text_or_blank t.unsupported_reason
      ∷ []

  unfoldable pub tabular_row : Playlist → Text → Option Track → Option ℕ → List Cell
  unfolding playlist_cells track_cells number_or_blank
  tabular_row p provider t order =
      playlist_cells p ++ (number_or_blank order ∷ track_cells provider t)

  unfoldable pub tabular_rows : Playlist → Text → ℕ → List Track → List (List Cell)
  unfolding tabular_row
  tabular_rows p provider order [] = []
  tabular_rows p provider order (t ∷ ts) =
      tabular_row p provider (some t) (some order) ∷ tabular_rows p provider (suc order) ts

  -- The rows that are written; a playlist without tracks has one.
  unfoldable pub written_rows : Playlist → Text → List (List Cell)
  unfolding tabular_rows tabular_row safe_cell
  written_rows p provider = map (λ row. map safe_cell row) (rows_of p.tracks)
    where
      rows_of : List Track → List (List Cell)
      rows_of [] = tabular_row p provider none none ∷ []
      rows_of (t ∷ ts) = tabular_rows p provider 1 (t ∷ ts)

-- The code points that make a spreadsheet read a cell as a formula: equals, plus, minus, at.
abbrev pub formula_signs : List ℕ
formula_signs = 61 ∷ 43 ∷ 45 ∷ 64 ∷ []

-- Those that it may drop at the start of a cell: tab, line feed, carriage return, space.
abbrev pub dropped_blanks : List ℕ
dropped_blanks = 9 ∷ 10 ∷ 13 ∷ 32 ∷ []

-- The text does not begin with a formula sign, with or without blanks before it.
abbrev pub IsHarmless : Text → Type 0
IsHarmless s =
    (blanks rest : Text) (c : ℕ)
    → All (λ b. any (λ d. b == d) dropped_blanks ≡ true) blanks
    → s ≡ blanks ++ c ∷ rest
    → any (λ d. c == d) formula_signs ≡ false

abbrev Inert : Cell → Type 0
Inert (text_cell s) = IsHarmless s
Inert (number_cell n) = Unit
Inert empty_cell = Unit

begins_formula-signs :
    (blanks rest : Text) (c : ℕ)
    → All (λ b. any (λ d. b == d) dropped_blanks ≡ true) blanks
    → begins_formula (blanks ++ c ∷ rest) ≡ false
    → any (λ d. c == d) formula_signs ≡ false
unfolding begins_formula
begins_formula-signs [] rest c h k = ground (arith, k)
begins_formula-signs (b ∷ bs) rest c h k =
    begins_formula-signs bs rest c h.1 (ground (arith, h.0, k))

quoted-IsHarmless : (s : Text) → IsHarmless (b'\'' ∷ s)
quoted-IsHarmless s [] rest c h e = let first : c ≡ 39 = cc in rw first refl
quoted-IsHarmless s (b ∷ bs) rest c h e = let first : b ≡ 39 = cc in ground (arith, h.0, first)

spreadsheet_safe-IsHarmless : (s : Text) → IsHarmless (spreadsheet_safe s)
unfolding spreadsheet_safe
spreadsheet_safe-IsHarmless s = elim (Bool-cases (begins_blank s || begins_formula s)) [
  | inl e ↦ rw e (quoted-IsHarmless s)
  | inr e ↦ rw e (λ blanks rest c h q.
      let none_begins : begins_formula s ≡ false = ground (arith, e) in
      begins_formula-signs blanks rest c h (subst (λ x. begins_formula x ≡ false) q none_begins))
]

safe_cell-Inert : (c : Cell) → Inert (safe_cell c)
unfolding safe_cell
safe_cell-Inert (text_cell s) = spreadsheet_safe-IsHarmless s
safe_cell-Inert (number_cell n) = tt
safe_cell-Inert empty_cell = tt

-- Every text of a row is harmless.
abbrev pub IsInert : List Cell → Type 0
IsInert row = All Inert row

safe_row-IsInert : (row : List Cell) → IsInert (map safe_cell row)
safe_row-IsInert [] = tt
safe_row-IsInert (c ∷ cs) = (safe_cell-Inert c, safe_row-IsInert cs)

safe_rows-IsInert : (rows : List (List Cell)) → All IsInert (map (λ row. map safe_cell row) rows)
safe_rows-IsInert [] = tt
safe_rows-IsInert (row ∷ rows) = (safe_row-IsInert row, safe_rows-IsInert rows)

-- No text in the rows of an exported table begins with an equals, plus, minus or at sign, with or
-- without tabs, line feeds, carriage returns and spaces before it.
pub written_rows-IsInert :
    (isoformat : ℕ → Text) (p : Playlist) (provider : Text)
    → All IsInert (written_rows isoformat p provider)
unfolding written_rows
written_rows-IsInert isoformat p provider = safe_rows-IsInert _
