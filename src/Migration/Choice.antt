-- ===== src/Migration/Choice.antt =====
-- The choices of a target playlist that are allowed, as a relation.
use mathlib.Core.Path.{subst}
use open_playlist_engine.Prelude.{
  sym, ap, ◌∙◌, ◌≡◌, ◌⊎◌, inl, inr, refl, Bool, true, false, not, Option, none, some, List, [], ◌∷◌,
  filter, All, Text, Result, ok, raised, Bool-cases,
}
use open_playlist_engine.Models.{
  Playlist, PlaylistRef, PlaylistKind, standard, liked_tracks, truthy,
}
use open_playlist_engine.Models.Normalize.{TextOps}
use open_playlist_engine.Keys.{UrlOps}
use open_playlist_engine.Providers.{AdapterError}
use open_playlist_engine.Migration.Target.{
  require_liked_tracks_target, PlaylistTarget, TargetPlaylist, TargetRequest, is_not_found,
  target_playlist_exists, is_suitable, same_name_answer, first_same_name, create_answer, reused,
  or_create, has_same_name, among_listed, after_previous, with_previous, after_forced, with_forced,
  of_liked, by_kind, resolve_target_playlist,
}

-- The reference stands in the list.
abbrev pub IsListed : PlaylistRef → List PlaylistRef → Type 0
IsListed ref [] = ⊥
IsListed ref (x ∷ xs) = (x ≡ ref) ⊎ IsListed ref xs

module _ ⦃ops : TextOps⦄ ⦃urls : UrlOps⦄ {W : Type 0} (target : PlaylistTarget W)
    (r : TargetRequest) where
  -- The target does not have the playlist, or it has tracks of which none is among the source's.
  abbrev pub is_unfit : Result AdapterError Playlist → Bool
  is_unfit (ok p) = not (is_suitable target r p.tracks)
  is_unfit (raised e) = is_not_found e

  abbrev pub Unfit : PlaylistRef → Type 0
  Unfit ref = (w : W) × (is_unfit (target.read_playlist ref w).0 ≡ true)

  -- The playlists that a request may be given: the collection of liked tracks, the forced one and
  -- the previous one if the target has it, one of the name that is empty or overlaps with the source,
  -- or a new one where each playlist of the name is unfit.
  pub data IsChosen : TargetPlaylist → Type 0 where
    liked :
        (id : Text)
        → r.kind ≡ liked_tracks
        → require_liked_tracks_target r.info r.scopes ≡ ok id
        → IsChosen (reused target r id)
    forced :
        (id : Text) (w : W)
        → truthy r.forced ≡ some id
        → (target_playlist_exists target id w).0 ≡ ok true
        → IsChosen (reused target r id)
    previous :
        (id : Text) (w : W)
        → truthy r.previous ≡ some id
        → (target_playlist_exists target id w).0 ≡ ok true
        → IsChosen (reused target r id)
    same_name :
        (ref : PlaylistRef) (p : Playlist) (w listed : W) (refs : List PlaylistRef)
        → (target.iter_playlists listed).0 ≡ ok refs
        → IsListed ref refs
        → has_same_name target r ref ≡ true
        → (target.read_playlist ref w).0 ≡ ok p
        → is_suitable target r p.tracks ≡ true
        → IsChosen (reused target r ref.id)
    created :
        (id : Text) (w listed : W) (refs : List PlaylistRef)
        → (target.iter_playlists listed).0 ≡ ok refs
        → All Unfit (filter (has_same_name target r) refs)
        → (target.create_playlist r.playlist_name r.description w).0 ≡ ok id
        → IsChosen (record {
          playlist_id = id;
          created = some (record {
            source_playlist_id = r.playlist_id;
            name = r.playlist_name;
            observed_target_id = id;
          });
        })

  -- What holds of the playlist that a call returns, if it returns one.
  abbrev pub Chosen : Result AdapterError TargetPlaylist → Type 0
  Chosen (raised e) = Unit
  Chosen (ok out) = IsChosen out

  -- What a search through some of the listed playlists returns.
  abbrev Searched : List PlaylistRef → Result AdapterError (Option Text) → Type 0
  Searched refs (raised e) = Unit
  Searched refs (ok none) = All Unfit refs
  Searched refs (ok (some id)) =
      (ref : PlaylistRef) × IsListed ref refs
      × ((p : Playlist) × (w : W) × ((target.read_playlist ref w).0 ≡ ok p)
          × (is_suitable target r p.tracks ≡ true))
      × (id ≡ ref.id)

  Searched-cons :
      (ref : PlaylistRef) (refs : List PlaylistRef) (found : Result AdapterError (Option Text))
      → Unfit ref
      → Searched refs found
      → Searched (ref ∷ refs) found
  Searched-cons ref refs (raised e) unfit h = tt
  Searched-cons ref refs (ok none) unfit h = (unfit, h)
  Searched-cons ref refs (ok (some id)) unfit (found, listed, read, same) =
      (found, inr listed, read, same)

  same_name_answer-Searched :
      (ref : PlaylistRef) (refs : List PlaylistRef) (w : W)
      (answer : Result AdapterError Playlist × W)
      → (target.read_playlist ref w).0 ≡ answer.0
      → ((v : W) → Searched refs (first_same_name target r refs v).0)
      → Searched
          (ref ∷ refs)
          (same_name_answer target r ref (first_same_name target r refs) answer).0
  unfolding same_name_answer
  same_name_answer-Searched ref refs w (ok p, v) e rest =
      elim (Bool-cases (is_suitable target r p.tracks)) [
        | inl fits ↦ rw fits (ref, inl refl, (p, w, e, fits), refl)
        | inr other ↦ rw other (
            Searched-cons ref refs (first_same_name target r refs v).0 (w, (rw e (rw other refl)))
              (rest v))
      ]
  same_name_answer-Searched ref refs w (raised x, v) e rest = elim (Bool-cases (is_not_found x)) [
    | inl gone ↦
        rw gone
          (Searched-cons ref refs (first_same_name target r refs v).0 (w, (rw e gone)) (rest v))
    | inr fails ↦ rw fails tt
  ]

  first_same_name-Searched :
      (refs : List PlaylistRef) (w : W) → Searched refs (first_same_name target r refs w).0
  unfolding first_same_name
  first_same_name-Searched [] w = tt
  first_same_name-Searched (ref ∷ refs) w =
      same_name_answer-Searched ref refs w (target.read_playlist ref w) refl
        (first_same_name-Searched refs)

  IsListed-cons :
      (ref x : PlaylistRef) (xs ys : List PlaylistRef)
      → has_same_name target r x ≡ true
      → (IsListed ref ys → IsListed ref xs × (has_same_name target r ref ≡ true))
      → IsListed ref (x ∷ ys)
      → IsListed ref (x ∷ xs) × (has_same_name target r ref ≡ true)
  IsListed-cons ref x xs ys same rest (inl e) = (inl e, ap (has_same_name target r) (sym e) ∙ same)
  IsListed-cons ref x xs ys same rest (inr later) =
      let (there, name) = rest later in (inr there, name)

  IsListed-filter :
      (ref : PlaylistRef) (refs : List PlaylistRef)
      → IsListed ref (filter (has_same_name target r) refs)
      → IsListed ref refs × (has_same_name target r ref ≡ true)
  IsListed-filter ref [] h = elim h [ ]
  IsListed-filter ref (x ∷ xs) h = elim (Bool-cases (has_same_name target r x)) [
    | inl same ↦
        IsListed-cons ref x xs (filter (has_same_name target r) xs) same (IsListed-filter ref xs)
          (rw same at h)
    | inr other ↦ let rest = IsListed-filter ref xs (rw other at h) in (inr rest.0, rest.1)
  ]

  create_answer-Chosen :
      (w listed : W) (refs : List PlaylistRef) (answer : Result AdapterError Text × W)
      → (target.iter_playlists listed).0 ≡ ok refs
      → All Unfit (filter (has_same_name target r) refs)
      → (target.create_playlist r.playlist_name r.description w).0 ≡ answer.0
      → Chosen (create_answer target r answer).0
  unfolding create_answer
  create_answer-Chosen w listed refs (raised e, v) l u h = tt
  create_answer-Chosen w listed refs (ok id, v) l u h = created id w listed refs l u h

  or_create-Chosen :
      (listed : W) (refs : List PlaylistRef) (found : Result AdapterError (Option Text) × W)
      → (target.iter_playlists listed).0 ≡ ok refs
      → Searched (filter (has_same_name target r) refs) found.0
      → Chosen (or_create target r found).0
  unfolding or_create
  or_create-Chosen listed refs (raised e, w) l s = tt
  or_create-Chosen listed refs (ok none, w) l s =
      create_answer-Chosen w listed refs (target.create_playlist r.playlist_name r.description w) l
        s refl
  or_create-Chosen listed refs (ok (some id), w) l (ref, there, (p, v, read, fits), same) =
      let (listed_there, name) = IsListed-filter ref refs there in
      subst (λ (i : Text). IsChosen (reused target r i)) (sym same)
        (same_name ref p v listed refs l listed_there name read fits)

  among_listed-Chosen :
      (listed : W) (answer : Result AdapterError (List PlaylistRef) × W)
      → (target.iter_playlists listed).0 ≡ answer.0
      → Chosen (among_listed target r answer).0
  unfolding among_listed
  among_listed-Chosen listed (raised e, w) l = tt
  among_listed-Chosen listed (ok refs, w) l =
      or_create-Chosen listed refs
        (first_same_name target r (filter (has_same_name target r) refs) w) l
        (first_same_name-Searched (filter (has_same_name target r) refs) w)

  after_previous-Chosen :
      (id : Text) (w : W) (answer : Result AdapterError Bool × W)
      → truthy r.previous ≡ some id
      → (target_playlist_exists target id w).0 ≡ answer.0
      → Chosen (after_previous target r id answer).0
  unfolding after_previous
  after_previous-Chosen id w (raised e, v) p h = tt
  after_previous-Chosen id w (ok true, v) p h = previous id w p h
  after_previous-Chosen id w (ok false, v) p h =
      among_listed-Chosen v (target.iter_playlists v) refl

  with_previous-Chosen :
      (o : Option Text) (w : W) → truthy r.previous ≡ o → Chosen (with_previous target r o w).0
  unfolding with_previous
  with_previous-Chosen none w p = among_listed-Chosen w (target.iter_playlists w) refl
  with_previous-Chosen (some id) w p =
      after_previous-Chosen id w (target_playlist_exists target id w) p refl

  after_forced-Chosen :
      (id : Text) (w : W) (answer : Result AdapterError Bool × W)
      → truthy r.forced ≡ some id
      → (target_playlist_exists target id w).0 ≡ answer.0
      → Chosen (after_forced target r id answer).0
  unfolding after_forced
  after_forced-Chosen id w (raised e, v) p h = tt
  after_forced-Chosen id w (ok true, v) p h = forced id w p h
  after_forced-Chosen id w (ok false, v) p h = tt

  with_forced-Chosen :
      (o : Option Text) (w : W) → truthy r.forced ≡ o → Chosen (with_forced target r o w).0
  unfolding with_forced
  with_forced-Chosen none w p = with_previous-Chosen (truthy r.previous) w refl
  with_forced-Chosen (some id) w p =
      after_forced-Chosen id w (target_playlist_exists target id w) p refl

  of_liked-Chosen :
      (answer : Result AdapterError Text) (w : W)
      → r.kind ≡ liked_tracks
      → require_liked_tracks_target r.info r.scopes ≡ answer
      → Chosen (of_liked target r answer w).0
  unfolding of_liked
  of_liked-Chosen (raised e) w k h = tt
  of_liked-Chosen (ok id) w k h = liked id k h

  by_kind-Chosen :
      (kind : PlaylistKind) (w : W) → r.kind ≡ kind → Chosen (by_kind target r kind w).0
  unfolding by_kind
  by_kind-Chosen liked_tracks w k =
      of_liked-Chosen (require_liked_tracks_target r.info r.scopes) w k refl
  by_kind-Chosen standard w k = with_forced-Chosen (truthy r.forced) w refl

  -- The playlist that a migration is given to write to is one that the relation IsChosen allows:
  -- the collection of liked tracks, a forced or previous playlist that the target has, a listed
  -- one of the name that is empty or overlaps with the source, or a new one where each listed
  -- playlist of the name is unfit.
  pub resolve_target_playlist-Chosen : (w : W) → Chosen (resolve_target_playlist target r w).0
  unfolding resolve_target_playlist
  resolve_target_playlist-Chosen w = by_kind-Chosen r.kind w refl
