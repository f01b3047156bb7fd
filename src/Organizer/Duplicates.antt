-- ===== src/Organizer/Duplicates.antt =====
-- Playlists that may be duplicates (`detect_duplicate_candidates`, `_owners_compatible` and
-- `_same_known_owner` of backend/app/core/organizer.py). The ratio of the overlap stays a fraction.
use open_playlist_engine.Prelude.{
  ℕ, ◌*◌, min, Bool, true, false, ◌&&◌, Option, none, some, List, [], ◌∷◌, ◌++◌, map, filter,
  length, if◌then◌else◌, ltb, leb, is_some, Text, text_eq, codes, numeral, ◌==◌,
}
use mathlib.Core.Option.{get_or}
use open_playlist_engine.Models.{Playlist, truthy}
use open_playlist_engine.Counter.{mem}
use open_playlist_engine.Organizer.{normalize_playlist_name, track_token}

pub record DuplicateCandidate : Type 0 where
  pub left_id : Text
  pub right_id : Text
  pub left_name : Text
  pub right_name : Text
  pub normalized_name : Text
  pub overlap_count : ℕ
  pub smaller_count : ℕ
  pub reasons : List Text

-- The elements of a set, each once.
unfoldable pub distinct : List Text → List Text
unfolding mem
distinct [] = []
distinct (t ∷ ts) = let rest = distinct ts in if mem t rest then rest else t ∷ rest

module _ (fold : Text → Text) where
  -- Names that are both there decide, else `unknown` is the answer.
  by_names : Bool → Option Text → Option Text → Bool
  unfolding normalize_playlist_name
  by_names unknown (some l) (some r) =
      normalize_playlist_name fold l == normalize_playlist_name fold r
  by_names unknown (some l) none = unknown
  by_names unknown none r = unknown

  unfoldable pub by_owners : Bool → Playlist → Playlist → Option Text → Option Text → Bool
  unfolding by_names
  by_owners unknown l r (some i) (some j) = i == j
  by_owners unknown l r (some i) none = by_names unknown (truthy l.owner_name) (truthy r.owner_name)
  by_owners unknown l r none j = by_names unknown (truthy l.owner_name) (truthy r.owner_name)

  unfoldable pub owners_compatible : Playlist → Playlist → Bool
  unfolding by_owners
  owners_compatible l r = by_owners true l r (truthy l.owner_id) (truthy r.owner_id)

  unfoldable pub same_known_owner : Playlist → Playlist → Bool
  unfolding by_owners
  same_known_owner l r = by_owners false l r (truthy l.owner_id) (truthy r.owner_id)

  unfoldable pub token_set : Playlist → List Text
  unfolding distinct track_token
  token_set p = distinct (map (track_token fold) p.tracks)

  unfoldable pub candidate : Text → Playlist → Playlist → ℕ → ℕ → DuplicateCandidate
  unfolding same_known_owner numeral
  candidate name l r overlap smaller = record {
    left_id = get_or (truthy l.id) [];
    right_id = get_or (truthy r.id) [];
    left_name = l.name;
    right_name = r.name;
    normalized_name = name;
    overlap_count = overlap;
    smaller_count = smaller;
    reasons =
        codes "normalized name" ∷ (if same_known_owner l r then codes "same owner" ∷ [] else [])
        ++ (numeral overlap ++ codes " overlapping tracks") ∷ [];
  }

  -- Two playlists of a group; the ratio is below a half exactly if twice the overlap is below the
  -- smaller set.
  unfoldable pub pair_candidates : Text → Playlist → Playlist → List DuplicateCandidate
  unfolding owners_compatible token_set candidate mem
  pair_candidates name l r =
      let ls = token_set l in
      let rs = token_set r in
      let overlap = length (filter (λ t. mem t rs) ls) in
      let smaller = min (length ls) (length rs) in
      if owners_compatible l r && ltb 0 smaller && leb smaller (2 * overlap)
      then candidate name l r overlap smaller ∷ []
      else []

  unfoldable pub pairs_with : Text → Playlist → List Playlist → List DuplicateCandidate
  unfolding pair_candidates
  pairs_with name l [] = []
  pairs_with name l (r ∷ rs) = pair_candidates name l r ++ pairs_with name l rs

  unfoldable pub group_candidates : Text → List Playlist → List DuplicateCandidate
  unfolding pairs_with
  group_candidates name [] = []
  group_candidates name (p ∷ ps) = pairs_with name p ps ++ group_candidates name ps

  -- `grouped.setdefault(name, []).append(playlist)`
  unfoldable pub add_to_group :
      Text → Playlist → List (Text × List Playlist) → List (Text × List Playlist)
  add_to_group name p [] = (name, p ∷ []) ∷ []
  add_to_group name p ((k, ps) ∷ gs) =
      let rest = add_to_group name p gs in
      if k == name then (k, ps ++ p ∷ []) ∷ gs else (k, ps) ∷ rest

  unfoldable pub grouped : List (Text × List Playlist) → List Playlist → List (Text × List Playlist)
  unfolding add_to_group normalize_playlist_name
  grouped gs [] = gs
  grouped gs (p ∷ ps) =
      grouped
        (if is_some (truthy p.id)
          then add_to_group (normalize_playlist_name fold p.name) p gs
          else gs)
        ps

  -- A group of one has no pairs.
  unfoldable pub candidates_of : List (Text × List Playlist) → List DuplicateCandidate
  unfolding group_candidates
  candidates_of [] = []
  candidates_of (([], ps) ∷ gs) = candidates_of gs
  candidates_of ((c ∷ name, ps) ∷ gs) = group_candidates (c ∷ name) ps ++ candidates_of gs

  unfoldable pub detect_duplicate_candidates : List Playlist → List DuplicateCandidate
  unfolding grouped candidates_of
  detect_duplicate_candidates playlists = candidates_of (grouped [] playlists)
