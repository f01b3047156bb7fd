-- ===== src/Models.antt =====
-- The interchange model (backend/app/core/models.py) and the capabilities of a provider
-- (backend/app/core/capabilities.py). Fields that no modelled code reads are left out.
-- Positions and durations, and times in seconds, are counted in natural numbers.
pub mod Normalize
pub mod Samples
use open_playlist_engine.Prelude.{
  ℕ, Bool, true, false, not, ◌&&◌, Option, none, some, List, [], ◌∷◌, any, if◌then◌else◌, Text, Eq,
  text_eq, text_beq, nat_eq, ◌==◌, arith, ◌≡◌, ◌↔◌,
}

pub data MediaType : Type 0 where
  track episode video local_file unknown : MediaType

pub data PlaylistKind : Type 0 where
  standard liked_tracks : PlaylistKind

pub data EntityType : Type 0 where
  track album artist : EntityType

pub record Track : Type 0 where
  pub id : Option Text
  pub title : Text
  pub artist : Text
  pub album : Option Text
  pub duration_s : Option ℕ
  pub isrc : Option Text
  pub artwork_uri : Option Text
  pub provider_uris : List (Text × Text)
  pub metadata : List (Text × Text)
  pub position : Option ℕ
  pub media_type : MediaType
  pub is_local : Bool
  pub source_item_id : Option Text
  pub added_at : Option ℕ
  pub unsupported_reason : Option Text

-- `self.media_type is MediaType.TRACK and not self.is_local`
unfoldable pub is_migratable : Track → Bool
is_migratable t = elim t.media_type [ MediaType.track ↦ not t.is_local | _ ↦ false ]

pub record PlaylistRef : Type 0 where
  pub id : Text
  pub name : Text
  pub is_owned : Option Bool
  pub collaborative : Option Bool
  pub snapshot_id : Option Text
  pub kind : PlaylistKind

pub record Playlist : Type 0 where
  pub id : Option Text
  pub name : Text
  pub description : Option Text
  pub photo : Option Text
  pub tracks : List Track
  pub owner_id : Option Text
  pub owner_name : Option Text
  pub is_owned : Option Bool
  pub collaborative : Option Bool
  pub snapshot_id : Option Text
  pub created_at : Option ℕ
  pub updated_at : Option ℕ
  pub kind : PlaylistKind

-- The members of the enumeration that the modelled code asks for.
pub data Capability : Type 0 where
  create_playlist add_tracks remove_tracks unfollow_playlist delete_playlist reorder : Capability
  write_library : Capability

abbrev pub capability_beq : Capability → Capability → Bool
capability_beq create_playlist create_playlist = true
capability_beq add_tracks add_tracks = true
capability_beq remove_tracks remove_tracks = true
capability_beq unfollow_playlist unfollow_playlist = true
capability_beq delete_playlist delete_playlist = true
capability_beq reorder reorder = true
capability_beq write_library write_library = true
capability_beq _ _ = false

pub record CapabilityDescriptor : Type 0 where
  pub capabilities : List Capability
  pub max_add_batch : ℕ
  pub max_library_batch : ℕ
  pub write_quota_cost : ℕ

-- `cap in self.capabilities`
unfoldable pub can : CapabilityDescriptor → Capability → Bool
can d cap = any (λ c. capability_beq c cap) d.capabilities

-- A text field that Python takes for true: present and not empty.
abbrev pub truthy : Option Text → Option Text
truthy none = none
truthy (some []) = none
truthy (some (c ∷ s)) = some (c ∷ s)

-- A number field that Python takes for true.
abbrev pub truthy_number : Option ℕ → Option ℕ
truthy_number none = none
truthy_number (some n) = if n == 0 then none else some n

-- `field is True`
abbrev pub is_true : Option Bool → Bool
is_true none = false
is_true (some b) = b

-- `d.get(k)` of a dictionary with text keys.
module _ {ℓ} {V : Type ℓ} where
  unfoldable pub get : Text → List (Text × V) → Option V
  get k [] = none
  get k ((j, v) ∷ d) = if j == k then some v else get k d

  -- `d[k] = v`: a key that is there keeps its place.
  unfoldable pub put : Text → V → List (Text × V) → List (Text × V)
  put k v [] = (k, v) ∷ []
  put k v ((j, w) ∷ d) = if j == k then (j, v) ∷ d else (j, w) ∷ put k v d
