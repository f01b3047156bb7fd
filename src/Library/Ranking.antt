-- ===== src/Library/Ranking.antt =====
-- The head of a ranking, and what a match without a review rests on.
use mathlib.Core.Option.{get_or}
use open_playlist_engine.Prelude.{
  ℕ, ◌≤◌, ◌≡◌, ◌⊎◌, inl, inr, refl, Bool, true, false, not, ◌&&◌, ◌||◌, Option, none, some, List,
  [], ◌∷◌, All, ltb, arith, Text, codes, Result, ok, raised, Bool-cases, text_eq, ◌==◌,
}
use open_playlist_engine.Models.{truthy}
use open_playlist_engine.Models.Normalize.{TextOps}
use open_playlist_engine.Match.{FloatOps}
use open_playlist_engine.Providers.{AdapterError}
use open_playlist_engine.Library.{
  artist_as_candidate, Album, Artist, AlbumCandidate, ArtistCandidate, LibraryCandidate, of_artist,
  of_album, album_as_candidate, LibraryMatchResult, candidate_uri,
}
use open_playlist_engine.Library.Scores.{
  LibraryOps, Ranked, insert_row, rank, score_album, score_artist,
}
use open_playlist_engine.Library.Match.{
  LibrarySearch, rivals, direct_match, no_library_match, from_ranked_albums, from_ranked_artists,
  found_albums, album_by_uri, album_with_uri, resolve_album, found_artists, artist_by_uri,
  artist_with_uri, direct_uri, resolve_artist,
}

module _ {C : Type 0} where
  All-insert_row {κ} :
      (P : Ranked C → Type κ) (r : Ranked C) (rows : List (Ranked C))
      → P r
      → All P rows
      → All P (insert_row r rows)
  unfolding insert_row
  All-insert_row P r [] p h = (p, tt)
  All-insert_row P r (s ∷ rows) p h = elim (Bool-cases (ltb r.confidence s.confidence)) [
    | inl e ↦ rw e (h.0, All-insert_row P r rows p h.1)
    | inr e ↦ rw e (p, h)
  ]

  abbrev pub AtMost : ℕ → List (Ranked C) → Type 0
  AtMost n rows = All (λ (r : Ranked C). r.confidence ≤ n) rows

  AtMost-weaken : (m n : ℕ) (rows : List (Ranked C)) → m ≤ n → AtMost m rows → AtMost n rows
  AtMost-weaken m n [] le h = tt
  AtMost-weaken m n (r ∷ rows) le h = (omega (arith, h.0), AtMost-weaken m n rows le h.1)

  -- The first row has the highest confidence.
  abbrev pub IsLed : List (Ranked C) → Type 0
  IsLed [] = Unit
  IsLed (r ∷ rows) = AtMost r.confidence rows

  insert_row-IsLed :
      (r : Ranked C) (rows : List (Ranked C)) → IsLed rows → IsLed (insert_row r rows)
  unfolding insert_row
  insert_row-IsLed r [] h = tt
  insert_row-IsLed r (s ∷ rows) h = elim (Bool-cases (ltb r.confidence s.confidence)) [
    | inl e ↦ rw e (
        All-insert_row (λ (x : Ranked C). x.confidence ≤ s.confidence) r rows (ground (arith, e)) h)
    | inr e ↦
        let le : s.confidence ≤ r.confidence = ground (arith, e) in
        rw e (le, AtMost-weaken s.confidence r.confidence rows le h)
  ]

  -- The first row of the ranking of some candidates has the highest score.
  pub rank-IsLed : (score : C → ℕ × Text) (cs : List C) → IsLed (rank score cs)
  unfolding rank
  rank-IsLed score [] = tt
  rank-IsLed score (c ∷ cs) =
      insert_row-IsLed (record { candidate = c; confidence = (score c).0; source = (score c).1 })
        (rank score cs) (rank-IsLed score cs)

-- What holds of the value that a call returns, if it returns one.
abbrev pub Returns : (LibraryMatchResult → Type 0) → Result AdapterError LibraryMatchResult → Type 0
Returns P (raised e) = Unit
Returns P (ok m) = P m

-- The match needs a review, or its candidate has the URI that the album has on the target, or its
-- candidate is one whose score reaches the threshold and is not that of a conflict.
abbrev pub AlbumIsSafe : ℕ → (AlbumCandidate → ℕ × Text) → Option Text → LibraryMatchResult → Type 0
AlbumIsSafe threshold score uri m =
    (m.needs_review ≡ true)
    ⊎ ((c : LibraryCandidate) × (m.candidate ≡ some c) × (uri ≡ some (candidate_uri c)))
    ⊎ ((c : AlbumCandidate) × (m.candidate ≡ some (of_album c))
        × (threshold ≤ (score c).0)
        × ((score c).1 == codes "upc_conflict" ≡ false))

-- The row has the score of its candidate.
abbrev IsScored : (AlbumCandidate → ℕ × Text) → Ranked AlbumCandidate → Type 0
IsScored score r = ((score r.candidate).0 ≡ r.confidence) × ((score r.candidate).1 ≡ r.source)

rank-IsScored :
    (score : AlbumCandidate → ℕ × Text) (cs : List AlbumCandidate)
    → All (IsScored score) (rank score cs)
unfolding rank
rank-IsScored score [] = tt
rank-IsScored score (c ∷ cs) =
    All-insert_row (IsScored score)
      (record { candidate = c; confidence = (score c).0; source = (score c).1 }) (rank score cs)
      (refl, refl) (rank-IsScored score cs)

review_cases :
    (low ambiguous conflicting : Bool)
    → ((low || ambiguous || conflicting) ≡ true) ⊎ (low ≡ false) × (conflicting ≡ false)
review_cases true a c = inl refl
review_cases false true c = inl refl
review_cases false false true = inl refl
review_cases false false false = inr (refl, refl)

-- The match needs a review, or stands on the URI that the artist has on the target.
abbrev pub ArtistIsSafe : Option Text → LibraryMatchResult → Type 0
ArtistIsSafe uri m =
    (m.needs_review ≡ true)
    ⊎ ((c : LibraryCandidate) × (m.candidate ≡ some c) × (uri ≡ some (candidate_uri c)))

module _ ⦃text : TextOps⦄ (fl : FloatOps) (ops : LibraryOps) where
  from_ranked_albums-AlbumIsSafe :
      (threshold : ℕ) (score : AlbumCandidate → ℕ × Text) (uri : Option Text)
      (rows : List (Ranked AlbumCandidate))
      → All (IsScored score) rows
      → AlbumIsSafe threshold score uri (from_ranked_albums fl ops threshold rows)
  unfolding from_ranked_albums no_library_match
  from_ranked_albums-AlbumIsSafe threshold score uri [] h = inl refl
  from_ranked_albums-AlbumIsSafe threshold score uri (r ∷ rows) ((same, source), h) =
      elim (review_cases (ltb r.confidence threshold)
        (not (r.source == codes "upc_exact") && rivals fl ops r.confidence rows)
        (r.source == codes "upc_conflict")) [
          | inl review ↦ inl review
          | inr (high, agrees) ↦
              inr (inr (r.candidate, refl, rw same (ground (arith, high)), rw source agrees))
        ]

  from_ranked_artists-review :
      (rows : List (Ranked ArtistCandidate)) → (from_ranked_artists fl ops rows).needs_review ≡ true
  unfolding from_ranked_artists no_library_match
  from_ranked_artists-review [] = refl
  from_ranked_artists-review (r ∷ rows) = refl

  module _ {W : Type 0} (threshold : ℕ) (target : LibrarySearch W) where
    found_albums-AlbumIsSafe :
        (a : Album) (uri : Option Text) (answer : Result AdapterError (List AlbumCandidate) × W)
        → Returns
            (AlbumIsSafe threshold (score_album fl ops a) uri)
            (found_albums fl ops threshold target a answer).0
    unfolding found_albums
    found_albums-AlbumIsSafe a uri (raised e, w) = tt
    found_albums-AlbumIsSafe a uri (ok cs, w) =
        from_ranked_albums-AlbumIsSafe threshold (score_album fl ops a) uri
          (rank (score_album fl ops a) cs) (rank-IsScored (score_album fl ops a) cs)

    album_by_uri-AlbumIsSafe :
        (a : Album) (uri : Text) (answer : Result AdapterError Bool × W)
        → Returns
            (AlbumIsSafe threshold (score_album fl ops a) (some uri))
            (album_by_uri fl ops threshold target a uri answer).0
    unfolding album_by_uri direct_match album_as_candidate candidate_uri
    album_by_uri-AlbumIsSafe a uri (raised e, w) = tt
    album_by_uri-AlbumIsSafe a uri (ok true, w) =
        inr (inl (of_album (album_as_candidate a (get_or (truthy a.id) uri) uri), refl, refl))
    album_by_uri-AlbumIsSafe a uri (ok false, w) =
        found_albums-AlbumIsSafe a (some uri) (target.search_albums a w)

    album_with_uri-AlbumIsSafe :
        (a : Album) (uri : Option Text) (w : W)
        → Returns
            (AlbumIsSafe threshold (score_album fl ops a) uri)
            (album_with_uri fl ops threshold target a uri w).0
    unfolding album_with_uri
    album_with_uri-AlbumIsSafe a (some uri) w =
        album_by_uri-AlbumIsSafe a uri (target.validate_album_uri uri w)
    album_with_uri-AlbumIsSafe a none w = found_albums-AlbumIsSafe a none (target.search_albums a w)

    -- A match of an album needs a review, or its candidate has the URI that the album holds for
    -- the target, or its candidate has a score that reaches the threshold and is not that of
    -- conflicting UPCs.
    pub resolve_album-AlbumIsSafe :
        (a : Album) (w : W)
        → Returns
            (AlbumIsSafe threshold (score_album fl ops a) (direct_uri target a.provider_uris))
            (resolve_album fl ops threshold target a w).0
    unfolding resolve_album
    resolve_album-AlbumIsSafe a w =
        album_with_uri-AlbumIsSafe a (direct_uri target a.provider_uris) w

    found_artists-ArtistIsSafe :
        (a : Artist) (uri : Option Text) (answer : Result AdapterError (List ArtistCandidate) × W)
        → Returns (ArtistIsSafe uri) (found_artists fl ops threshold target a answer).0
    unfolding found_artists
    found_artists-ArtistIsSafe a uri (raised e, w) = tt
    found_artists-ArtistIsSafe a uri (ok cs, w) =
        inl (from_ranked_artists-review (rank (score_artist fl ops a) cs))

    artist_by_uri-ArtistIsSafe :
        (a : Artist) (uri : Text) (answer : Result AdapterError Bool × W)
        → Returns (ArtistIsSafe (some uri)) (artist_by_uri fl ops threshold target a uri answer).0
    unfolding artist_by_uri direct_match artist_as_candidate candidate_uri
    artist_by_uri-ArtistIsSafe a uri (raised e, w) = tt
    artist_by_uri-ArtistIsSafe a uri (ok true, w) =
        inr (of_artist (artist_as_candidate a (get_or (truthy a.id) uri) uri), refl, refl)
    artist_by_uri-ArtistIsSafe a uri (ok false, w) =
        found_artists-ArtistIsSafe a (some uri) (target.search_artists a w)

    artist_with_uri-ArtistIsSafe :
        (a : Artist) (uri : Option Text) (w : W)
        → Returns (ArtistIsSafe uri) (artist_with_uri fl ops threshold target a uri w).0
    unfolding artist_with_uri
    artist_with_uri-ArtistIsSafe a (some uri) w =
        artist_by_uri-ArtistIsSafe a uri (target.validate_artist_uri uri w)
    artist_with_uri-ArtistIsSafe a none w =
        found_artists-ArtistIsSafe a none (target.search_artists a w)

    -- A match of an artist needs a review, or its candidate has the URI that the artist holds for
    -- the target: no artist is followed on the strength of its name.
    pub resolve_artist-ArtistIsSafe :
        (a : Artist) (w : W)
        → Returns
            (ArtistIsSafe (direct_uri target a.provider_uris))
            (resolve_artist fl ops threshold target a w).0
    unfolding resolve_artist
    resolve_artist-ArtistIsSafe a w =
        artist_with_uri-ArtistIsSafe a (direct_uri target a.provider_uris) w
