-- ===== src/Organizer/Safety.antt =====
-- The deletes that the organizer calls.
use open_playlist_engine.Prelude.{
  [], ◌∷◌, ◌≡◌, refl, Bool, true, false, Option, none, some, List, Text, Result, ok, raised, ap,
}
use open_playlist_engine.Models.{PlaylistRef, Playlist, is_true}
use open_playlist_engine.Providers.{AdapterError}
use open_playlist_engine.Organizer.{◌∷◌, OrganizerAction, unfollow_it, delete_it, remove_from_it}
use open_playlist_engine.Organizer.Adapter.{
  TrackRemoval, ProviderName, spotify, ytmusic, other_provider, PlaylistMutationResult, Adapter,
  OrganizerItem,
}
use open_playlist_engine.Organizer.Execute.{
  mutation, remove_some, remove_from, remove_named, remove_read, remove_spotify, execute_action,
  delete_owned, delete_by_detail, delete_listed, delete_found, execute_item, ref_from_detail,
}

module _ {W : Type 0} (a : Adapter W) (fold : Text → Text) (digest : List Text → Text)
    (delete' : PlaylistRef → W → Result AdapterError PlaylistMutationResult × W)
    (agrees : (ref : PlaylistRef) (w : W)
      → is_true ref.is_owned ≡ true
      → delete' ref w ≡ a.delete_playlist ref w) where
  abbrev changed : Adapter W
  changed = record a { delete_playlist = delete' }

  owned :
      (b : Bool) (ref : PlaylistRef) (w : W)
      → is_true ref.is_owned ≡ b
      → delete_owned changed fold digest b ref w ≡ delete_owned a fold digest b ref w
  unfolding delete_owned
  owned true ref w e = ap mutation (agrees ref w e)
  owned false ref w e = refl

  by_detail :
      (ref : PlaylistRef) (answer : Result AdapterError Playlist × W)
      → delete_by_detail changed fold digest ref answer ≡ delete_by_detail a fold digest ref answer
  unfolding delete_by_detail
  by_detail ref (raised e, w) = refl
  by_detail ref (ok detail, w) = owned _ (ref_from_detail detail ref) w refl

  listed :
      (b : Bool) (ref : PlaylistRef) (w : W)
      → is_true ref.is_owned ≡ b
      → delete_listed changed fold digest b ref w ≡ delete_listed a fold digest b ref w
  unfolding delete_listed
  listed true ref w e = owned true ref w e
  listed false ref w e = by_detail ref (a.read_playlist ref w)

  found :
      (answer : Result AdapterError (Option PlaylistRef)) (w : W)
      → delete_found changed fold digest answer w ≡ delete_found a fold digest answer w
  unfolding delete_found
  found (raised e) w = refl
  found (ok none) w = refl
  found (ok (some ref)) w = listed _ ref w refl

  some_left :
      (rs : List TrackRemoval) (ref : PlaylistRef) (w : W)
      → remove_some changed fold digest rs ref w ≡ remove_some a fold digest rs ref w
  unfolding remove_some
  some_left [] ref w = refl
  some_left (r ∷ rs) ref w = refl

  from_it :
      (n : ProviderName) (i : OrganizerItem) (p : Playlist) (ref : PlaylistRef) (w : W)
      → remove_named changed fold digest n i p ref w ≡ remove_named a fold digest n i p ref w
  unfolding remove_named remove_spotify
  from_it spotify i p ref w = refl
  from_it ytmusic i p ref w = some_left _ ref w
  from_it other_provider i p ref w = refl

  after_reading :
      (i : OrganizerItem) (answer : Result AdapterError Playlist × W)
      → remove_read changed fold digest i answer ≡ remove_read a fold digest i answer
  unfolding remove_read remove_from
  after_reading i (raised e, w) = refl
  after_reading i (ok p, w) = from_it a.name i p _ w

  by_action :
      (x : OrganizerAction) (i : OrganizerItem) (w : W)
      → execute_action changed fold digest x i w ≡ execute_action a fold digest x i w
  unfolding execute_action
  by_action unfollow_it i w = refl
  by_action delete_it i w = found _ _
  by_action remove_from_it i w = after_reading i _

  -- The delete of a provider is called on playlists that the user owns only: a delete that agrees
  -- with it on owned playlists gives every item the same execution.
  pub execute_item-owned :
      (i : OrganizerItem) (w : W)
      → execute_item changed fold digest i w ≡ execute_item a fold digest i w
  unfolding execute_item
  execute_item-owned i w = by_action i.action i w
