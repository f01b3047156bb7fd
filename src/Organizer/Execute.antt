-- ===== src/Organizer/Execute.antt =====
-- The execution of one item (`_execute_item`, `_track_outcome`, `_listed_ref` and `_ref_from_detail`
-- of backend/app/jobs/organizer.py).
use open_playlist_engine.Prelude.{
  Bool, true, false, not, ◌||◌, Option, none, some, List, [], ◌∷◌, ◌++◌, any, filter, if◌then◌else◌,
  Text, text_eq, codes, ◌==◌, Result, ok, raised, or_else,
}
use mathlib.Core.Option.{get_or}
use open_playlist_engine.Models.{Track, PlaylistRef, Playlist, truthy, is_true}
use open_playlist_engine.Providers.{AdapterError, not_found, access_denied}
use open_playlist_engine.Organizer.{
  OrganizerAction, unfollow_it, delete_it, remove_from_it, playlist_sequence_hash,
}
use open_playlist_engine.Organizer.Adapter.{
  ProviderName, PlaylistMutationResult, TrackRemoval, RemoveItemResult, RemoveTracksResult, spotify,
  ytmusic, other_provider, Adapter, Payload, empty, is_absent, is_applied, mutated, removed,
  OrganizerItem,
}

-- How an execution ends: a payload, an `ItemExecutionError` (with its payload; none is retryable), or
-- an error of the provider.
pub data Execution : Type 0 where
  executed : Payload → Execution
  rejected : Text → Payload → Execution
  broken : AdapterError → Execution

-- The first rejected removal speaks for the call.
first_rejected : List RemoveItemResult → Option RemoveItemResult
first_rejected [] = none
first_rejected (r ∷ rs) = if r.is_ok then first_rejected rs else some r

unfoldable pub track_outcome : RemoveTracksResult → Execution
unfolding first_rejected
track_outcome result = elim (first_rejected result.items) [
  | none ↦ executed (removed result)
  | some r ↦
      rejected (get_or (truthy r.error) (codes "provider rejected a selected song removal"))
        (removed result)
]

unfoldable pub listed_ref :
    Text → List (Result AdapterError PlaylistRef) → Result AdapterError (Option PlaylistRef)
listed_ref id [] = ok none
listed_ref id (raised e ∷ rest) = raised e
listed_ref id (ok ref ∷ rest) = if ref.id == id then ok (some ref) else listed_ref id rest

unfoldable pub ref_from_detail : Playlist → PlaylistRef → PlaylistRef
ref_from_detail detail fallback = record {
  id = get_or (truthy detail.id) fallback.id;
  name = get_or (truthy (some detail.name)) fallback.name;
  is_owned = or_else detail.is_owned fallback.is_owned;
  collaborative = or_else detail.collaborative fallback.collaborative;
  snapshot_id = or_else (truthy detail.snapshot_id) fallback.snapshot_id;
  kind = detail.kind;
}

-- A call that changes a playlist; `NotFound` means that it is gone already.
absent_or : AdapterError → Execution
absent_or (not_found m) = executed is_absent
absent_or e = broken e

unfoldable pub mutation :
    {W : Type 0} → Result AdapterError PlaylistMutationResult × W → Execution × W
unfolding absent_or
mutation (ok r, w) = (executed (mutated r), w)
mutation (raised e, w) = (absent_or e, w)

text_option_eq : Option Text → Option Text → Bool
text_option_eq none none = true
text_option_eq (some s) (some t) = s == t
text_option_eq _ _ = false

unfoldable pub removal : {W : Type 0} → Result AdapterError RemoveTracksResult × W → Execution × W
unfolding track_outcome
removal (ok result, w) = (track_outcome result, w)
removal (raised e, w) = (broken e, w)

changed_message : Text
changed_message =
    codes "Spotify playlist changed after preflight; refresh and create a new organizer job"

-- The removals whose items are in the playlist.
still_there : List Track → TrackRemoval → Bool
unfolding text_option_eq
still_there tracks r = elim r.source_item_id [
  | none ↦ false
  | some id ↦ any (λ (t : Track). text_option_eq (truthy t.source_item_id) (some id)) tracks
]

module _ {W : Type 0} (a : Adapter W) (fold : Text → Text) (digest : List Text → Text) where
  -- The delete itself, or the refusal.
  unfoldable pub delete_owned : Bool → PlaylistRef → W → Execution × W
  unfolding mutation
  delete_owned true ref w = mutation (a.delete_playlist ref w)
  delete_owned false ref w = (
    broken (access_denied (a.display_name ++ codes " playlist ownership is no longer confirmed")),
    w,
  )

  -- What the detail says of a playlist that the listing does not call owned.
  unfoldable pub delete_by_detail : PlaylistRef → Result AdapterError Playlist × W → Execution × W
  unfolding delete_owned ref_from_detail
  delete_by_detail ref (raised e, w) = (broken e, w)
  delete_by_detail ref (ok detail, w) =
      let current = ref_from_detail detail ref in delete_owned (is_true current.is_owned) current w

  unfoldable pub delete_listed : Bool → PlaylistRef → W → Execution × W
  unfolding delete_owned delete_by_detail
  delete_listed true ref w = delete_owned true ref w
  delete_listed false ref w = delete_by_detail ref (a.read_playlist ref w)

  unfoldable pub delete_found : Result AdapterError (Option PlaylistRef) → W → Execution × W
  unfolding delete_listed
  delete_found (raised e) w = (broken e, w)
  delete_found (ok none) w = (executed is_absent, w)
  delete_found (ok (some ref)) w = delete_listed (is_true ref.is_owned) ref w

  -- Spotify: the playlist must be the one of the preflight.
  unfoldable pub remove_spotify : OrganizerItem → Playlist → PlaylistRef → W → Execution × W
  unfolding removal changed_message text_option_eq playlist_sequence_hash
  remove_spotify i p current w =
      let hash = some (playlist_sequence_hash fold digest p.tracks) in
      if text_option_eq hash i.expected_sequence_hash
      then (executed is_applied, w)
      else if not (text_option_eq hash i.baseline_sequence_hash)
          || not (text_option_eq current.snapshot_id i.playlist.snapshot_id)
      then (rejected changed_message empty, w)
      else removal (a.remove_tracks current i.tracks w)

  unfoldable pub remove_some : List TrackRemoval → PlaylistRef → W → Execution × W
  unfolding removal
  remove_some [] current w = (executed is_applied, w)
  remove_some (r ∷ rs) current w = removal (a.remove_tracks current (r ∷ rs) w)

  unfoldable pub remove_named :
      ProviderName → OrganizerItem → Playlist → PlaylistRef → W → Execution × W
  unfolding remove_spotify remove_some still_there removal
  remove_named spotify i p current w = remove_spotify i p current w
  remove_named ytmusic i p current w =
      remove_some (filter (still_there p.tracks) i.tracks) current w
  remove_named other_provider i p current w = removal (a.remove_tracks current i.tracks w)

  unfoldable pub remove_from : OrganizerItem → Playlist → PlaylistRef → W → Execution × W
  unfolding remove_named
  remove_from i p current w = remove_named a.name i p current w

  unfoldable pub remove_read : OrganizerItem → Result AdapterError Playlist × W → Execution × W
  unfolding remove_from absent_or ref_from_detail
  remove_read i (raised e, w) = (absent_or e, w)
  remove_read i (ok p, w) = remove_from i p (ref_from_detail p i.playlist) w

  unfoldable pub execute_action : OrganizerAction → OrganizerItem → W → Execution × W
  unfolding mutation listed_ref delete_found remove_read
  execute_action unfollow_it i w = mutation (a.unfollow_playlist i.playlist w)
  execute_action delete_it i w =
      let (listing, after) = a.iter_playlists w in
      delete_found (listed_ref i.playlist.id listing) after
  execute_action remove_from_it i w = remove_read i (a.read_playlist i.playlist w)

  unfoldable pub execute_item : OrganizerItem → W → Execution × W
  unfolding execute_action
  execute_item i w = execute_action i.action i w
