-- ===== src/Migration/Target.antt =====
-- The playlist that a migration writes to: `_resolve_target_playlist`, `_target_playlist_exists`,
-- `_target_playlist_keys` and `_target_playlist_id_from_summaries` (backend/app/jobs/migration.py),
-- and `require_liked_tracks_target` (backend/app/core/adapter.py). `W` is the state of the target; the
-- playlist that earlier jobs wrote to is the answer of a query.
use open_playlist_engine.Prelude.{
  Bool, true, false, not, Option, none, some, List, [], ◌∷◌, ◌++◌, filter, if◌then◌else◌, Text,
  text_eq, codes, ◌==◌, Result, ok, raised,
}
use mathlib.Core.Option.{get_or}
use open_playlist_engine.Models.{
  Track, Playlist, PlaylistRef, PlaylistKind, standard, liked_tracks, CapabilityDescriptor, can,
  write_library, truthy,
}
use open_playlist_engine.Models.Normalize.{TextOps, strip}
use open_playlist_engine.Providers.{AdapterError, not_found, unsupported, access_denied}
use open_playlist_engine.Counter.{mem}
use open_playlist_engine.Keys.{UrlOps, track_keys, has_track_overlap}

-- The fields of `ProviderInfo` that the guard on liked tracks reads.
pub record LikedInfo : Type 0 where
  pub display_name : Text
  pub capabilities : CapabilityDescriptor
  pub liked_tracks_playlist_id : Option Text
  pub library_read_scope : Option Text
  pub library_write_scope : Option Text

unfoldable pub missing_scope : Option Text → List Text → List Text
unfolding mem
missing_scope o scopes = missing (truthy o)
  where
    missing : Option Text → List Text
    missing none = []
    missing (some scope) = if mem scope scopes then [] else scope ∷ []

-- ", ".join
unfoldable pub join_scopes : List Text → Text
join_scopes [] = []
join_scopes (s ∷ []) = s
join_scopes (s ∷ t ∷ ts) = s ++ b',' ∷ b' ' ∷ join_scopes (t ∷ ts)

unfoldable pub require_liked_tracks_target : LikedInfo → List Text → Result AdapterError Text
unfolding missing_scope join_scopes can
require_liked_tracks_target info scopes =
    if not (can info.capabilities write_library)
    then raised (unsupported (info.display_name ++ codes " cannot write liked tracks"))
    else with_id (truthy info.liked_tracks_playlist_id)
  where
    granted : Text → List Text → Result AdapterError Text
    granted id [] = ok id
    granted id (s ∷ ss) = raised (
        access_denied (
          codes "Reconnect "
          ++ info.display_name
          ++ codes " to grant the required library scopes: "
          ++ join_scopes (s ∷ ss)))

    with_id : Option Text → Result AdapterError Text
    with_id none =
        raised
          (unsupported (info.display_name ++ codes " does not expose a liked-tracks collection"))
    with_id (some id) = granted id (
        missing_scope info.library_read_scope scopes
        ++ missing_scope info.library_write_scope scopes)

-- The calls of the target.
pub record PlaylistTarget (W : Type 0) : Type 0 where
  pub read_playlist : PlaylistRef → W → Result AdapterError Playlist × W
  pub iter_playlists : W → Result AdapterError (List PlaylistRef) × W
  pub create_playlist : Text → Text → W → Result AdapterError Text × W

-- The `OperationLedger` row of a playlist that was created.
pub record CreateRow : Type 0 where
  pub source_playlist_id : Text
  pub name : Text
  pub observed_target_id : Text

pub record TargetPlaylist : Type 0 where
  pub playlist_id : Text
  pub created : Option CreateRow

unfoldable pub is_not_found : AdapterError → Bool
is_not_found (not_found _) = true
is_not_found _ = false

-- `PlaylistRef(id=playlist_id, name=playlist_id)`
unfoldable pub ref_of_id : Text → PlaylistRef
ref_of_id id = record {
  id = id;
  name = id;
  is_owned = none;
  collaborative = none;
  snapshot_id = none;
  kind = standard;
}

-- What the source and the job fix.
pub record TargetRequest : Type 0 where
  pub info : LikedInfo
  pub scopes : List Text
  pub playlist_id : Text
  pub playlist_name : Text
  pub description : Text
  pub kind : PlaylistKind
  pub source_tracks : List Track
  pub forced : Option Text
  -- What `_previous_target_playlist_id` finds, if `reuse_previous` is set.
  pub previous : Option Text

-- The pairs of source and target playlists in the summaries of earlier jobs.
unfoldable pub target_playlist_id_from_summaries :
    List (List (Option Text × Option Text)) → Text → Option Text
target_playlist_id_from_summaries [] id = none
target_playlist_id_from_summaries (job ∷ jobs) id =
    let later = target_playlist_id_from_summaries jobs id in first_of later job
  where
    chosen : Option Text → Option Text → Option Text
    chosen none rest = rest
    chosen (some target) rest = some target

    first_of : Option Text → List (Option Text × Option Text) → Option Text
    first_of later [] = later
    first_of later ((source, target) ∷ rows) =
        let rest = first_of later rows in
        if get_or source [] == id then chosen (truthy target) rest else rest

module _ ⦃ops : TextOps⦄ ⦃urls : UrlOps⦄ {W : Type 0} (target : PlaylistTarget W) where
  -- `NotFound` is an answer; every other error goes on.
  unfoldable pub exists_answer : Result AdapterError Playlist × W → Result AdapterError Bool × W
  unfolding is_not_found
  exists_answer (ok p, w) = (ok true, w)
  exists_answer (raised e, w) = (if is_not_found e then ok false else raised e, w)

  unfoldable pub target_playlist_exists : Text → W → Result AdapterError Bool × W
  unfolding exists_answer ref_of_id
  target_playlist_exists id w = exists_answer (target.read_playlist (ref_of_id id) w)

  unfoldable pub all_track_keys : List Track → List Text
  unfolding track_keys
  all_track_keys [] = []
  all_track_keys (t ∷ ts) = track_keys t ++ all_track_keys ts

  unfoldable pub keys_answer :
      Result AdapterError Playlist × W → Result AdapterError (List Text) × W
  unfolding is_not_found all_track_keys
  keys_answer (ok p, w) = (ok (all_track_keys p.tracks), w)
  keys_answer (raised e, w) = (if is_not_found e then ok [] else raised e, w)

  unfoldable pub target_playlist_keys : Text → W → Result AdapterError (List Text) × W
  unfolding keys_answer ref_of_id
  target_playlist_keys id w = keys_answer (target.read_playlist (ref_of_id id) w)

  module _ (r : TargetRequest) where
    -- `not tracks or has_track_overlap(source_tracks, tracks)`
    unfoldable pub is_suitable : List Track → Bool
    unfolding has_track_overlap
    is_suitable [] = true
    is_suitable (t ∷ ts) = has_track_overlap r.source_tracks (t ∷ ts)

    -- The answer to the reading of one playlist of the name; the rest of the loop is a function.
    unfoldable pub same_name_answer :
        PlaylistRef
        → (W → Result AdapterError (Option Text) × W)
        → Result AdapterError Playlist × W
        → Result AdapterError (Option Text) × W
    unfolding is_suitable is_not_found
    same_name_answer ref rest (ok p, w) =
        if is_suitable p.tracks then (ok (some ref.id), w) else rest w
    same_name_answer ref rest (raised e, w) = if is_not_found e then rest w else (raised e, w)

    unfoldable pub first_same_name : List PlaylistRef → W → Result AdapterError (Option Text) × W
    unfolding same_name_answer
    first_same_name [] w = (ok none, w)
    first_same_name (ref ∷ refs) w =
        same_name_answer ref (first_same_name refs) (target.read_playlist ref w)

    unfoldable pub create_answer :
        Result AdapterError Text × W → Result AdapterError TargetPlaylist × W
    create_answer (raised e, w) = (raised e, w)
    create_answer (ok id, w) = (
      ok (record {
        playlist_id = id;
        created = some (record {
          source_playlist_id = r.playlist_id;
          name = r.playlist_name;
          observed_target_id = id;
        });
      }),
      w,
    )

    abbrev pub reused : Text → TargetPlaylist
    reused id = record { playlist_id = id; created = none }

    unfoldable pub or_create :
        Result AdapterError (Option Text) × W → Result AdapterError TargetPlaylist × W
    unfolding create_answer
    or_create (raised e, w) = (raised e, w)
    or_create (ok (some id), w) = (ok (reused id), w)
    or_create (ok none, w) = create_answer (target.create_playlist r.playlist_name r.description w)

    -- `ref.name.strip() == playlist_name.strip()`
    unfoldable pub has_same_name : PlaylistRef → Bool
    unfolding strip
    has_same_name ref = strip ref.name == strip r.playlist_name

    unfoldable pub among_listed :
        Result AdapterError (List PlaylistRef) × W → Result AdapterError TargetPlaylist × W
    unfolding or_create first_same_name has_same_name
    among_listed (raised e, w) = (raised e, w)
    among_listed (ok refs, w) = or_create (first_same_name (filter has_same_name refs) w)

    -- The playlist of an earlier job, if it is still there.
    unfoldable pub after_previous :
        Text → Result AdapterError Bool × W → Result AdapterError TargetPlaylist × W
    unfolding among_listed
    after_previous id (raised e, w) = (raised e, w)
    after_previous id (ok true, w) = (ok (reused id), w)
    after_previous id (ok false, w) = among_listed (target.iter_playlists w)

    unfoldable pub with_previous : Option Text → W → Result AdapterError TargetPlaylist × W
    unfolding after_previous among_listed target_playlist_exists
    with_previous none w = among_listed (target.iter_playlists w)
    with_previous (some id) w = after_previous id (target_playlist_exists id w)

    unfoldable pub after_forced :
        Text → Result AdapterError Bool × W → Result AdapterError TargetPlaylist × W
    after_forced id (raised e, w) = (raised e, w)
    after_forced id (ok true, w) = (ok (reused id), w)
    after_forced id (ok false, w) =
        (raised (not_found (codes "target playlist not found: " ++ id)), w)

    unfoldable pub with_forced : Option Text → W → Result AdapterError TargetPlaylist × W
    unfolding after_forced with_previous target_playlist_exists
    with_forced none w = with_previous (truthy r.previous) w
    with_forced (some id) w = after_forced id (target_playlist_exists id w)

    unfoldable pub of_liked : Result AdapterError Text → W → Result AdapterError TargetPlaylist × W
    of_liked (raised e) w = (raised e, w)
    of_liked (ok id) w = (ok (reused id), w)

    unfoldable pub by_kind : PlaylistKind → W → Result AdapterError TargetPlaylist × W
    unfolding of_liked with_forced require_liked_tracks_target
    by_kind liked_tracks w = of_liked (require_liked_tracks_target r.info r.scopes) w
    by_kind standard w = with_forced (truthy r.forced) w

    unfoldable pub resolve_target_playlist : W → Result AdapterError TargetPlaylist × W
    unfolding by_kind
    resolve_target_playlist w = by_kind r.kind w
