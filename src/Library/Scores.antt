-- ===== src/Library/Scores.antt =====
-- The scores of the candidates for an album or an artist, and their ranking
-- (backend/app/core/library_match.py).
use open_playlist_engine.Prelude.{
  ℕ, Bool, Option, none, some, List, [], ◌∷◌, ◌++◌, map, filter, take, if◌then◌else◌, ltb, Text,
  text_eq, text_ltb, codes, numeral, ◌==◌, is_some,
}
use open_playlist_engine.Models.{truthy, truthy_number}
use open_playlist_engine.Models.Normalize.{TextOps}
use open_playlist_engine.Match.{FloatOps}
use open_playlist_engine.Library.{Album, Artist, AlbumCandidate, ArtistCandidate, year_of}

-- The text and float operations of Python behind the matching. `fold` is NFKC and `casefold`,
-- `drop_feature` is `_FEATURE_SUFFIX.sub("", value)`, `despace` is
-- `_UNICODE_NOISE.sub(" ", value).strip()`, `close a b` is `abs(a - b) <= 0.02`, and `percent` is
-- f"{confidence:.2f}".
pub record LibraryOps : Type 0 where
  pub fold : Text → Text
  pub drop_feature : Text → Text
  pub despace : Text → Text
  pub close : ℕ → ℕ → Bool
  pub percent : ℕ → Text

-- `sorted` of texts, and the joining with spaces.
insert_text : Text → List Text → List Text
unfolding text_ltb
insert_text s [] = s ∷ []
insert_text s (t ∷ ts) =
    let rest = insert_text s ts in if text_ltb t s then t ∷ rest else s ∷ t ∷ ts

unfoldable pub sort_texts : List Text → List Text
unfolding insert_text
sort_texts [] = []
sort_texts (s ∷ ss) = insert_text s (sort_texts ss)

unfoldable pub join_spaces : List Text → Text
join_spaces [] = []
join_spaces (s ∷ []) = s
join_spaces (s ∷ t ∷ ts) = s ++ b' ' ∷ join_spaces (t ∷ ts)

-- A candidate with its confidence and the source of it.
pub record Ranked (C : Type 0) : Type 0 where
  pub candidate : C
  pub confidence : ℕ
  pub source : Text

-- `sorted(..., key=lambda row: row[1], reverse=True)`: the higher confidence comes first, and rows
-- of one confidence keep their order.
module _ {C : Type 0} where
  unfoldable pub insert_row : Ranked C → List (Ranked C) → List (Ranked C)
  insert_row r [] = r ∷ []
  insert_row r (s ∷ rows) =
      let rest = insert_row r rows in
      if ltb r.confidence s.confidence then s ∷ rest else r ∷ s ∷ rows

  unfoldable pub rank : (C → ℕ × Text) → List C → List (Ranked C)
  unfolding insert_row
  rank score [] = []
  rank score (c ∷ cs) =
      let (confidence, source) = score c in
      insert_row (record { candidate = c; confidence = confidence; source = source })
        (rank score cs)

module _ ⦃text : TextOps⦄ (fl : FloatOps) (ops : LibraryOps) where
  unfoldable pub normalize : Option Text → Text
  normalize value = elim (truthy value) [
    | none ↦ []
    | some s ↦ ops.despace (ops.drop_feature (ops.fold s))
  ]

  -- `_ratio`
  unfoldable pub name_ratio : Option Text → Option Text → fl.Float
  unfolding normalize
  name_ratio left right =
      ratio_of (truthy (some (normalize left))) (truthy (some (normalize right)))
    where
      ratio_of : Option Text → Option Text → fl.Float
      ratio_of (some l) (some r) = fl.ratio l r
      ratio_of _ _ = fl.hundredths 0

  unfoldable pub artist_signature : List Text → Text
  unfolding normalize sort_texts join_spaces
  artist_signature values =
      join_spaces (
        sort_texts (filter (λ v. is_some (truthy (some v))) (map (λ v. normalize (some v)) values)))

  release_score : Option ℕ → Option Text → fl.Float
  release_score (some y) (some d) =
      if numeral y == take 4 d then fl.hundredths 100 else fl.hundredths 0
  release_score _ _ = fl.hundredths 0

  metadata_score : Album → AlbumCandidate → ℕ × Text
  unfolding name_ratio artist_signature release_score year_of
  metadata_score a c = (
    fl.round4 (
        fl.plus
          (fl.plus (fl.times (fl.hundredths 60) (name_ratio (some a.title) (some c.title))) (
            fl.times (fl.hundredths 35)
              (name_ratio (some (artist_signature a.artists)) (some (artist_signature c.artists)))))
          (fl.times (fl.hundredths 5) (
            release_score (truthy_number (year_of a.release_date a.release_year))
              (truthy c.release_date)))),
    codes "metadata",
  )

  by_upc : Option Text → Option Text → Album → AlbumCandidate → ℕ × Text
  unfolding metadata_score
  by_upc (some u) (some v) a c =
      if text.upper u == text.upper v then (10000, codes "upc_exact") else (0, codes "upc_conflict")
  by_upc _ _ a c = metadata_score a c

  unfoldable pub score_album : Album → AlbumCandidate → ℕ × Text
  unfolding by_upc
  score_album a c = by_upc (truthy a.upc) (truthy c.upc) a c

  unfoldable pub score_artist : Artist → ArtistCandidate → ℕ × Text
  unfolding name_ratio
  score_artist a c = (fl.round4 (name_ratio (some a.name) (some c.name)), codes "name")
