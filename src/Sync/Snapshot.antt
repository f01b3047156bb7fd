-- ===== src/Sync/Snapshot.antt =====
-- `build_playlist_snapshot`, `_track_identity` and the readers of a snapshot
-- (backend/app/core/sync.py). The fingerprint, a SHA-256 of the canonical JSON, is a parameter.
use open_playlist_engine.Prelude.{
  Bool, ℕ, suc, true, false, Option, none, some, List, [], ◌∷◌, ◌++◌, map, if◌then◌else◌, Text,
  text_eq, nat_eq, codes, ◌==◌, numeral,
}
use mathlib.Core.Option.{get_or}
use open_playlist_engine.Models.{Track, Playlist, PlaylistKind, is_migratable, truthy, get, put}
use open_playlist_engine.Models.Normalize.{duration_bucket, TextOps, normalize_text, strip}
use open_playlist_engine.Counter.{Counter, count_of, bump, mem}

pub record Entry : Type 0 where
  pub token : Text
  pub identity : Text
  pub occurrence : ℕ
  pub index : ℕ
  pub position : ℕ
  pub provider_uri : Option Text
  pub track : Track

pub record Snapshot : Type 0 where
  pub playlist_id : Option Text
  pub name : Text
  pub kind : PlaylistKind
  pub provider : Text
  pub provider_snapshot_id : Option Text
  pub unsupported_count : ℕ
  pub tracks : List Entry
  pub fingerprint : Text

-- f"{identity}#{occurrence}"
unfoldable pub token_of : Text → ℕ → Text
token_of identity occurrence = identity ++ b'#' ∷ numeral occurrence

module _ ⦃ops : TextOps⦄ where
  -- The tests of the source are in order: the first identifier that is there decides.
  signature_identity : Track → Text
  unfolding normalize_text duration_bucket
  signature_identity t =
      codes "signature:"
      ++ (normalize_text (some t.title)
          ++ (b'|'
              ∷ (normalize_text (some t.artist)
                  ++ (b'|' ∷ (normalize_text t.album ++ (b'|' ∷ duration_bucket t.duration_s))))))

  isrc_identity : Track → Option Text → Text
  isrc_identity t none = signature_identity t
  isrc_identity t (some isrc) = codes "isrc:" ++ ops.upper isrc

  id_identity : Track → Option Text → Text
  id_identity t none = isrc_identity t (truthy t.isrc)
  id_identity t (some id) = codes "track-id:" ++ ops.lower id

  uri_identity : Track → Option Text → Text
  uri_identity t none = id_identity t (truthy t.id)
  uri_identity t (some uri) = codes "provider-uri:" ++ ops.lower (strip uri)

  item_identity : Track → Option Text → Option Text → Text
  item_identity t uri none = uri_identity t uri
  item_identity t uri (some item) = codes "source-item:" ++ ops.lower item

  unfoldable pub track_identity : Track → Option Text → Text
  unfolding signature_identity isrc_identity id_identity uri_identity item_identity
  track_identity t uri = item_identity t (truthy uri) (truthy t.source_item_id)

  -- One round of the loop of `build_playlist_snapshot`: the flag says whether the track can be
  -- migrated, `rest` is what the later rounds give for the counter that they start from.
  unfoldable pub build_round :
      Bool → Text → ℕ → Counter → Track → (Counter → ℕ × List Entry) → ℕ × List Entry
  unfolding track_identity token_of
  build_round false provider index seen t rest =
      let (unsupported, entries) = rest seen in (suc unsupported, entries)
  build_round true provider index seen t rest =
      let uri = get provider t.provider_uris in
      let identity = track_identity t uri in
      let occurrence = count_of seen identity in
      let (unsupported, entries) = rest (bump identity seen) in
      (
        unsupported,
        record {
          token = token_of identity occurrence;
          identity = identity;
          occurrence = occurrence;
          index = index;
          position = get_or t.position index;
          provider_uri = uri;
          track = t;
        }
            ∷ entries,
      )

  -- The loop: the count of unsupported tracks, and the entries.
  unfoldable pub build_entries : Text → ℕ → Counter → List Track → ℕ × List Entry
  unfolding is_migratable build_round
  build_entries provider index seen [] = (0, [])
  build_entries provider index seen (t ∷ ts) =
      build_round (is_migratable t) provider index seen t
        (λ c. build_entries provider (suc index) c ts)

  unfoldable pub build_playlist_snapshot : (Snapshot → Text) → Playlist → Text → Snapshot
  unfolding build_entries
  build_playlist_snapshot fingerprint playlist provider =
      let (unsupported, entries) = build_entries provider 0 [] playlist.tracks in
      let body : Snapshot = record {
        playlist_id = playlist.id;
        name = playlist.name;
        kind = playlist.kind;
        provider = provider;
        provider_snapshot_id = playlist.snapshot_id;
        unsupported_count = unsupported;
        tracks = entries;
        fingerprint = [];
      } in
      record body { fingerprint = fingerprint body }

-- `_entries`; a stored snapshot may be missing, as the empty dictionary is.
unfoldable pub entries_of : Option Snapshot → List Entry
entries_of none = []
entries_of (some s) = s.tracks

-- The entries with a provider URI, in order.
uris_of : List Entry → List Text
uris_of [] = []
uris_of (e ∷ es) =
    let rest = uris_of es in elim (truthy e.provider_uri) [ none ↦ rest | some u ↦ u ∷ rest ]

unfoldable pub target_uri_sequence : Snapshot → List Text
unfolding uris_of
target_uri_sequence s = uris_of s.tracks

find_entry : Text → List Entry → Option Track
find_entry token [] = none
find_entry token (e ∷ es) = if e.token == token then some e.track else find_entry token es

-- `none` is the KeyError.
unfoldable pub snapshot_track : Snapshot → Text → Option Track
unfolding find_entry
snapshot_track s token = find_entry token s.tracks

-- `token in previous_tokens and token in mappings`
carried_mapping : List Text → List (Text × Option Text) → Text → Option (Option Text)
carried_mapping previous mappings token = if mem token previous then get token mappings else none

-- The loop of `carry_target_mappings`; a mapping to None says that the entry has no target.
carry :
    List Text
    → List (Text × Option Text)
    → List (Text × Option Text)
    → List Entry
    → List (Text × Option Text)
unfolding carried_mapping
carry previous mappings carried [] = carried
carry previous mappings carried (e ∷ es) =
    carry previous mappings
      (elim (carried_mapping previous mappings e.token) [
        | none ↦ carried
        | some m ↦ put e.token m carried
      ])
      es

unfoldable pub carry_target_mappings :
    Option Snapshot → Option Snapshot → List (Text × Option Text) → List (Text × Option Text)
unfolding carry
carry_target_mappings previous current mappings =
    carry (map (λ e. e.token) (entries_of previous)) mappings [] (entries_of current)
