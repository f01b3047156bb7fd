-- ===== src/Mirror.antt =====
-- The ordered replacement of a target playlist (`_apply_mirror` of backend/app/jobs/sync.py and
-- `mirror_unavailable_reason` of backend/app/core/sync.py).
pub mod Laws
mod Tests
use open_playlist_engine.Prelude.{
  ℕ, Bool, true, false, not, ◌&&◌, Option, none, some, List, [], ◌∷◌, ◌++◌, length, filter,
  if◌then◌else◌, is_some, ltb, Text, text_eq, nat_eq, codes, numeral, ◌==◌, Result, ok, raised,
}
use open_playlist_engine.Models.{
  Playlist, PlaylistKind, CapabilityDescriptor, can, remove_tracks, reorder, get,
}
use open_playlist_engine.Models.Normalize.{TextOps}
use open_playlist_engine.Providers.{AdapterError, other, is_auth_or_rate, is_foreign, message}
use open_playlist_engine.Migration.{LedgerState, intended, done, ambiguous}
use open_playlist_engine.Sync.Snapshot.{
  Entry, Snapshot, entries_of, target_uri_sequence, build_playlist_snapshot,
}
use open_playlist_engine.Runs.{SyncRun, SyncRule, Store}
use open_playlist_engine.Runs.Faults.{SyncFault}
use open_playlist_engine.Runs.Operations.{run_and_rule, lease_is_current}

-- The target; `is_mirror` says that it implements `MirrorProviderAdapter`.
pub record MirrorTarget (W : Type 0) : Type 0 where
  pub display_name : Text
  pub capabilities : CapabilityDescriptor
  pub is_mirror : Bool
  pub replace_playlist_tracks : Text → List Text → W → Result AdapterError Unit × W
  pub read_playlist : Text → W → Result AdapterError Playlist × W

pub data MirrorFault : Type 0 where
  provider : AdapterError → MirrorFault
  runtime : Text → MirrorFault
  store : SyncFault → MirrorFault

-- The ledger row of a replacement.
pub record MirrorLedger : Type 0 where
  pub playlist_id : Text
  pub uris : List Text
  pub previous_uris : List Text
  pub state : LedgerState

-- What a call leaves: its result, the ledger row if it wrote one, and the provider.
pub record MirrorOutcome (W : Type 0) : Type 0 where
  pub result : Result MirrorFault Snapshot
  pub ledger : Option MirrorLedger
  pub world : W

unfoldable pub unavailable_for : PlaylistKind → Text → CapabilityDescriptor → Bool → Option Text
unfolding can
unavailable_for PlaylistKind.standard name caps is_mirror =
    if not (can caps remove_tracks && can caps reorder)
    then some (name ++ codes " cannot remove and reorder playlist tracks")
    else if not is_mirror
    then some (name ++ codes " does not implement ordered playlist replacement")
    else none
unavailable_for _ name caps is_mirror =
    some (codes "Mirror mode is only available for standard playlists")

unfoldable pub mirror_unavailable_reason :
    {W : Type 0} → MirrorTarget W → PlaylistKind → Option Text
unfolding unavailable_for
mirror_unavailable_reason t kind = unavailable_for kind t.display_name t.capabilities t.is_mirror

abbrev pub texts_beq : List Text → List Text → Bool
texts_beq [] [] = true
texts_beq (s ∷ ss) (t ∷ ts) = s == t && texts_beq ss ts
texts_beq _ _ = false

-- The URI of a token, if it has one: a token may be mapped to no track.
uri_of : Option (Option Text) → Option Text
uri_of none = none
uri_of (some o) = o

cons_uri : Option Text → List Text → List Text
cons_uri none rest = rest
cons_uri (some uri) rest = uri ∷ rest

unfoldable pub desired_uris : List (Text × Option Text) → List Entry → List Text
unfolding uri_of cons_uri get
desired_uris mappings [] = []
desired_uris mappings (e ∷ es) = cons_uri (uri_of (get e.token mappings)) (desired_uris mappings es)

unfoldable pub missing : List (Text × Option Text) → List Entry → List Entry
unfolding get
missing mappings es = filter (λ (e : Entry). not (is_some (get e.token mappings))) es

module _ ⦃ops : TextOps⦄ {W : Type 0} (t : MirrorTarget W) (fingerprint : Snapshot → Text)
    -- `rule.target_playlist_id` and `rule.target_provider`
    (playlist target_provider : Text) where
  abbrev pub ledger_row : List Text → List Text → LedgerState → MirrorLedger
  ledger_row desired previous state = record {
    playlist_id = playlist;
    uris = desired;
    previous_uris = previous;
    state = state;
  }

  unfoldable pub outcome_of :
      Result MirrorFault Snapshot → Option MirrorLedger → W → MirrorOutcome W
  outcome_of result ledger w = record { result = result; ledger = ledger; world = w }

  -- The error that leaves the handler, by whether the rollback went through.
  unfoldable pub failure : AdapterError → Bool → MirrorFault
  unfolding is_auth_or_rate message
  failure e restored =
      if is_auth_or_rate e
      then provider e
      else provider (
          other (
            message e
            ++ codes "; "
            ++ (if restored
                then codes "target restored"
                else codes "target may be partially replaced")))

  -- An exception of the rollback that is no `ProviderError` takes the place of the first error.
  unfoldable pub failure_after : AdapterError → Result AdapterError Unit → MirrorFault
  unfolding failure is_foreign
  failure_after e (ok _) = failure e true
  failure_after e (raised x) = if is_foreign x then provider x else failure e false

  -- The handler of a failed replacement: the rollback, where every previous entry has a URI.
  unfoldable pub roll_back : AdapterError → List Text → List Text → Bool → W → MirrorOutcome W
  unfolding failure failure_after outcome_of
  roll_back e desired previous true w =
      let (answer, after) = t.replace_playlist_tracks playlist previous w in
      outcome_of (raised (failure_after e answer)) (some (ledger_row desired previous ambiguous))
        after
  roll_back e desired previous false w =
      outcome_of (raised (failure e false)) (some (ledger_row desired previous ambiguous)) w

  -- The final check of the order.
  unfoldable pub check_order : Snapshot → List Text → List Text → Bool → W → MirrorOutcome W
  unfolding outcome_of
  check_order final desired previous true w =
      outcome_of (ok final) (some (ledger_row desired previous done)) w
  check_order final desired previous false w =
      outcome_of
        (raised
          (provider (other (codes "target playlist did not match the requested mirror order"))))
        (some (ledger_row desired previous ambiguous)) w

  unfoldable pub read_back :
      List Text → List Text → Result AdapterError Playlist × W → MirrorOutcome W
  unfolding check_order outcome_of target_uri_sequence build_playlist_snapshot
  read_back desired previous (raised e, w) =
      outcome_of (raised (provider e)) (some (ledger_row desired previous done)) w
  read_back desired previous (ok p, w) =
      let final = build_playlist_snapshot fingerprint p target_provider in
      check_order final desired previous (texts_beq (target_uri_sequence final) desired) w

  unfoldable pub after_replace :
      Snapshot → List Text → List Text → Result AdapterError Unit × W → MirrorOutcome W
  unfolding roll_back read_back entries_of is_foreign outcome_of
  after_replace before desired previous (raised e, w) =
      if is_foreign e
      then outcome_of (raised (provider e)) (some (ledger_row desired previous intended)) w
      else roll_back e desired previous (length previous == length (entries_of (some before))) w
  after_replace before desired previous (ok _, w) =
      read_back desired previous (t.read_playlist playlist w)

  unfoldable pub replace_if : Bool → Snapshot → List Text → List Text → W → MirrorOutcome W
  unfolding after_replace outcome_of
  replace_if true before desired previous w = outcome_of (ok before) none w
  replace_if false before desired previous w =
      after_replace before desired previous (t.replace_playlist_tracks playlist desired w)

  -- The tests before the first write.
  unfoldable pub with_entries :
      List Entry → Snapshot → List (Text × Option Text) → W → MirrorOutcome W
  unfolding missing desired_uris replace_if target_uri_sequence outcome_of numeral
  with_entries es before mappings w =
      let lost = length (missing mappings es) in
      let desired = desired_uris mappings es in
      let previous = target_uri_sequence before in
      if ltb 0 lost
      then outcome_of
          (raised
            (runtime (codes "sync is missing " ++ numeral lost ++ codes " target track mappings")))
          none w
      else replace_if (texts_beq previous desired) before desired previous w

  unfoldable pub with_rows :
      Result SyncFault (SyncRun × SyncRule)
      → Text
      → Snapshot
      → List (Text × Option Text)
      → W
      → MirrorOutcome W
  unfolding with_entries lease_is_current entries_of outcome_of
  with_rows (raised f) token before mappings w = outcome_of (raised (store f)) none w
  with_rows (ok (r, rule)) token before mappings w =
      if not (lease_is_current r token)
      then outcome_of (raised (runtime (codes "sync lease expired before mirror write"))) none w
      else with_entries (entries_of r.source_snapshot) before mappings w

  unfoldable pub with_reason :
      Option Text → Store → Text → Text → Snapshot → List (Text × Option Text) → W → MirrorOutcome W
  unfolding with_rows run_and_rule outcome_of
  with_reason (some why) st id token before mappings w =
      outcome_of (raised (provider (other why))) none w
  with_reason none st id token before mappings w =
      with_rows (run_and_rule st id) token before mappings w

  unfoldable pub apply_mirror :
      Store → Text → Text → Snapshot → List (Text × Option Text) → W → MirrorOutcome W
  unfolding with_reason mirror_unavailable_reason
  apply_mirror st id token before mappings w =
      with_reason (mirror_unavailable_reason t PlaylistKind.standard) st id token before mappings w
