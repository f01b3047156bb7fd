-- ===== src/Mirror/Laws.antt =====
-- The result and the ledger row of a mirror write.
use open_playlist_engine.Prelude.{
  ◌≡◌, refl, Bool, true, false, ◌&&◌, ◌||◌, Option, none, some, List, [], ◌∷◌, length, ltb, nat_eq,
  Text, text_eq, text_beq_iff, Result, ok, raised, arith, Bool-cases, inl, inr,
}
use open_playlist_engine.Models.{Playlist, PlaylistKind}
use open_playlist_engine.Models.Normalize.{TextOps}
use open_playlist_engine.Providers.{AdapterError, is_foreign}
use open_playlist_engine.Migration.{intended, done, ambiguous}
use open_playlist_engine.Sync.Snapshot.{
  Entry, Snapshot, entries_of, target_uri_sequence, build_playlist_snapshot,
}
use open_playlist_engine.Runs.{SyncRun, SyncRule, Store}
use open_playlist_engine.Runs.Operations.{run_and_rule, lease_is_current}
use open_playlist_engine.Mirror.{
  MirrorTarget, MirrorFault, MirrorLedger, MirrorOutcome, mirror_unavailable_reason, texts_beq,
  desired_uris, missing, outcome_of, roll_back, check_order, read_back, after_replace, replace_if,
  with_entries, with_rows, with_reason, apply_mirror,
}

texts_beq-eq : (ss ts : List Text) → texts_beq ss ts ≡ true → ss ≡ ts
texts_beq-eq [] [] h = refl
texts_beq-eq [] (t ∷ ts) h = cc
texts_beq-eq (s ∷ ss) [] h = cc
texts_beq-eq (s ∷ ss) (t ∷ ts) h = ground (arith, h, text_beq_iff s t, texts_beq-eq ss ts)

-- A snapshot that is returned lists these URIs.
abbrev lists : List Text → Result MirrorFault Snapshot → Bool
lists uris (ok s) = texts_beq (target_uri_sequence s) uris
lists uris (raised _) = true

-- The row is done or ambiguous.
abbrev pub is_settled : Option MirrorLedger → Bool
is_settled none = true
is_settled (some row) = elim row.state [ intended ↦ false | done ↦ true | ambiguous ↦ true ]

-- The error that leaves is no `ProviderError`.
abbrev pub escapes : Result MirrorFault Snapshot → Bool
escapes (ok s) = false
escapes (raised (MirrorFault.provider e)) = is_foreign e
escapes (raised (MirrorFault.runtime why)) = false
escapes (raised (MirrorFault.store f)) = false

-- The snapshot lists the URIs, and the row is settled unless such an error leaves.
abbrev is_sound : {W : Type 0} → List Text → MirrorOutcome W → Bool
is_sound uris out = lists uris out.result && (is_settled out.ledger || escapes out.result)

module _ ⦃ops : TextOps⦄ {W : Type 0} (t : MirrorTarget W) (fingerprint : Snapshot → Text)
    (playlist target_provider : Text) where
  check_sound :
      (final : Snapshot) (desired previous : List Text) (b : Bool) (w : W)
      → texts_beq (target_uri_sequence final) desired ≡ b
      → is_sound desired
          (check_order t fingerprint playlist target_provider final desired previous b w)
        ≡ true
  unfolding check_order outcome_of
  check_sound final desired previous true w h = rw h refl
  check_sound final desired previous false w h = refl

  read_sound :
      (desired previous : List Text) (answer : Result AdapterError Playlist × W)
      → is_sound desired (read_back t fingerprint playlist target_provider desired previous answer)
        ≡ true
  unfolding read_back outcome_of
  read_sound desired previous (raised e, w) = refl
  read_sound desired previous (ok p, w) =
      check_sound (build_playlist_snapshot fingerprint p target_provider) desired previous _ w refl

  roll_sound :
      (e : AdapterError) (desired previous : List Text) (b : Bool) (w : W)
      → is_sound desired (roll_back t fingerprint playlist target_provider e desired previous b w)
        ≡ true
  unfolding roll_back outcome_of
  roll_sound e desired previous true w = refl
  roll_sound e desired previous false w = refl

  replaced_sound :
      (before : Snapshot) (desired previous : List Text) (answer : Result AdapterError Unit × W)
      → is_sound desired
          (after_replace t fingerprint playlist target_provider before desired previous answer)
        ≡ true
  unfolding after_replace outcome_of
  replaced_sound before desired previous (raised e, w) = elim (Bool-cases (is_foreign e)) [
    | inl other ↦ rw other (rw other refl)
    | inr known ↦ rw known (roll_sound e desired previous _ w)
  ]
  replaced_sound before desired previous (ok _, w) =
      read_sound desired previous (t.read_playlist playlist w)

  if_sound :
      (b : Bool) (before : Snapshot) (desired : List Text) (w : W)
      → texts_beq (target_uri_sequence before) desired ≡ b
      → is_sound desired (
          replace_if t fingerprint playlist target_provider b before desired
            (target_uri_sequence before)
            w)
        ≡ true
  unfolding replace_if outcome_of
  if_sound true before desired w h = rw h refl
  if_sound false before desired w h =
      replaced_sound before desired (target_uri_sequence before)
        (t.replace_playlist_tracks playlist desired w)

  entries_sound :
      (es : List Entry) (before : Snapshot) (mappings : List (Text × Option Text)) (w : W)
      → is_sound
          (desired_uris mappings es)
          (with_entries t fingerprint playlist target_provider es before mappings w)
        ≡ true
  unfolding with_entries outcome_of
  entries_sound es before mappings w = elim (Bool-cases (ltb 0 (length (missing mappings es)))) [
    | inl lost ↦ rw lost refl
    | inr whole ↦ rw whole (if_sound _ before (desired_uris mappings es) w refl)
  ]

  rows_sound :
      (r : SyncRun) (rule : SyncRule) (token : Text) (before : Snapshot)
      (mappings : List (Text × Option Text)) (w : W)
      → is_sound
          (desired_uris mappings (entries_of r.source_snapshot))
          (with_rows t fingerprint playlist target_provider (ok (r, rule)) token before mappings w)
        ≡ true
  unfolding with_rows outcome_of
  rows_sound r rule token before mappings w = elim (Bool-cases (lease_is_current r token)) [
    | inl held ↦ rw held (entries_sound (entries_of r.source_snapshot) before mappings w)
    | inr lost ↦ rw lost refl
  ]

  reason_sound :
      (why : Option Text) (st : Store) (id token : Text) (before : Snapshot)
      (mappings : List (Text × Option Text)) (w : W) (r : SyncRun) (rule : SyncRule)
      → run_and_rule st id ≡ ok (r, rule)
      → is_sound
          (desired_uris mappings (entries_of r.source_snapshot))
          (with_reason t fingerprint playlist target_provider why st id token before mappings w)
        ≡ true
  unfolding with_reason outcome_of
  reason_sound (some why) st id token before mappings w r rule h = refl
  reason_sound none st id token before mappings w r rule h =
      rw h (rows_sound r rule token before mappings w)

  -- For a run whose rows are there: when a mirror write returns a snapshot, the URIs of the
  -- snapshot are those that the mappings give for the entries of the source, in their order.
  pub apply_mirror_order :
      (st : Store) (id token : Text) (before : Snapshot) (mappings : List (Text × Option Text))
      (w : W) (r : SyncRun) (rule : SyncRule) (s : Snapshot)
      → run_and_rule st id ≡ ok (r, rule)
      → (apply_mirror t fingerprint playlist target_provider st id token before mappings w).result
        ≡ ok s
      → target_uri_sequence s ≡ desired_uris mappings (entries_of r.source_snapshot)
  unfolding apply_mirror
  apply_mirror_order st id token before mappings w r rule s h k =
      texts_beq-eq (target_uri_sequence s) (desired_uris mappings (entries_of r.source_snapshot)) (
        let e =
          reason_sound (mirror_unavailable_reason t PlaylistKind.standard) st id token before
            mappings w r rule h in
        ground (arith, rw k at e))

  -- For a run whose rows are there, whatever the provider answers or raises: a mirror write leaves
  -- no ledger row in the state intended, unless an exception leaves it that is no ProviderError.
  pub apply_mirror_settled :
      (st : Store) (id token : Text) (before : Snapshot) (mappings : List (Text × Option Text))
      (w : W) (r : SyncRun) (rule : SyncRule)
      → run_and_rule st id ≡ ok (r, rule)
      → (is_settled
            (apply_mirror t fingerprint playlist target_provider st id token before mappings
              w).ledger
          || escapes
              (apply_mirror t fingerprint playlist target_provider st id token before mappings
                w).result)
        ≡ true
  unfolding apply_mirror
  apply_mirror_settled st id token before mappings w r rule h =
      let e =
        reason_sound (mirror_unavailable_reason t PlaylistKind.standard) st id token before mappings
          w r rule h in
      ground (arith, e)
