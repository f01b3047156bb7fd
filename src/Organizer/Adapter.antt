-- ===== src/Organizer/Adapter.antt =====
-- What the organizer uses of a provider adapter (backend/app/core/adapter.py), and the rows of its job
-- (backend/app/db/models.py).
use open_playlist_engine.Prelude.{ℕ, Bool, Option, List, Text, Result}
use open_playlist_engine.Models.{PlaylistRef, Playlist}
use open_playlist_engine.Providers.{AdapterError}
use open_playlist_engine.Organizer.{OrganizerAction}

pub record PlaylistMutationResult : Type 0 where
  pub is_ok : Bool
  pub already_absent : Bool

pub record TrackRemoval : Type 0 where
  pub source_item_id : Option Text
  pub provider_uri : Text
  pub position : ℕ

pub record RemoveItemResult : Type 0 where
  pub provider_uri : Text
  pub position : ℕ
  pub is_ok : Bool
  pub error : Option Text

pub record RemoveTracksResult : Type 0 where
  pub items : List RemoveItemResult
  pub snapshot_id : Option Text

-- Two providers are treated by their names.
pub data ProviderName : Type 0 where
  spotify ytmusic other_provider : ProviderName

-- The adapter; `W` is the state of the provider, and of the limiter in front of it. The listing is
-- the sequence that the asynchronous iterator yields, each step a playlist or an error; `acquire`
-- gives the state in which the limiter lets a call through.
pub record Adapter (W : Type 0) : Type 0 where
  pub name : ProviderName
  pub display_name : Text
  pub write_quota_cost : ℕ
  pub acquire : ℕ → W → W
  pub iter_playlists : W → List (Result AdapterError PlaylistRef) × W
  pub read_playlist : PlaylistRef → W → Result AdapterError Playlist × W
  pub unfollow_playlist : PlaylistRef → W → Result AdapterError PlaylistMutationResult × W
  pub delete_playlist : PlaylistRef → W → Result AdapterError PlaylistMutationResult × W
  pub remove_tracks :
      PlaylistRef → List TrackRemoval → W → Result AdapterError RemoveTracksResult × W

pub data OrganizerStatus : Type 0 where
  pending running succeeded skipped failed : OrganizerStatus

-- The payload of a result.
pub data Payload : Type 0 where
  empty is_absent is_applied : Payload
  mutated : PlaylistMutationResult → Payload
  removed : RemoveTracksResult → Payload

pub record OrganizerItem : Type 0 where
  pub id : Text
  pub action : OrganizerAction
  pub playlist : PlaylistRef
  pub tracks : List TrackRemoval
  pub expected_sequence_hash : Option Text
  pub baseline_sequence_hash : Option Text
  pub result_payload : Payload
  pub status : OrganizerStatus
  pub attempts : ℕ
  pub retryable : Bool
  pub error : Option Text
