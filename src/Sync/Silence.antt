-- ===== src/Sync/Silence.antt =====
-- Differences without changes (`diff_snapshots`, backend/app/core/sync.py).
use open_playlist_engine.Prelude.{
  some, ◌+◌, ◌≤◌, ◌≡◌, ◌↔◌, refl, ap, sym, ◌∙◌, Bool, List, [], ◌∷◌, length, arith, Text, text_eq,
  filter, ok, length-map,
}
use open_playlist_engine.Models.{Playlist}
use open_playlist_engine.Models.Normalize.{TextOps}
use open_playlist_engine.Counter.Laws.{occurrences}
use open_playlist_engine.Sync.Quotas.{over_quota_self, length-added, count_of-identity_counts}
use open_playlist_engine.Counter.{bump, count_of, Counter, mem}
use open_playlist_engine.Sync.Snapshot.{Entry, Snapshot, entries_of, build_playlist_snapshot}
use open_playlist_engine.Sync.Diff.{
  SyncDiff, identities, tokens, identity_counts, shared_order, moved, diff_entries, diff_snapshots,
  changed_count,
}
use open_playlist_engine.Sync.Numbered.{
  Numbered, token_of-injective, build_playlist_snapshot-Numbered,
}
use open_playlist_engine.Sync.Balance.{
  shared, diff_entries-inversion, added-removed-balance, moved_none, moved_self, kept_previous,
  kept_current, diff_entries_total,
}

length-filter-le {ℓ} : {A : Type ℓ} (p : A → Bool) (xs : List A) → length (filter p xs) ≤ length xs
length-filter-le p [] = omega arith
length-filter-le p (x ∷ xs) = ground (arith, length-filter-le p xs)

-- A filter that drops nothing is the identity.
filter_full {ℓ} :
    {A : Type ℓ} (p : A → Bool) (xs : List A) → length (filter p xs) ≡ length xs → filter p xs ≡ xs
filter_full p [] h = refl
filter_full p (x ∷ xs) h = ground (arith, length-filter-le p xs, filter_full p xs)

-- Equal tokens come from equal identities.
identities_of_tokens :
    (c d : Counter) (ps cs : List Entry)
    → Numbered c ps
    → Numbered d cs
    → tokens ps ≡ tokens cs
    → identities ps ≡ identities cs
identities_of_tokens c d [] [] np nc e = refl
identities_of_tokens c d [] (x ∷ cs) np nc e = cc
identities_of_tokens c d (x ∷ ps) [] np nc e = cc
identities_of_tokens c d (x ∷ ps) (y ∷ cs) np nc e = ground (
  arith,
  token_of-injective x.identity y.identity x.occurrence y.occurrence,
  identities_of_tokens (bump x.identity c) (bump y.identity d) ps cs np.2 nc.2,
)

module _ (ps cs : List Entry) (np : Numbered [] ps) (nc : Numbered [] cs) where
  silent_forward :
      (d : SyncDiff) → diff_entries ps cs ≡ ok d → changed_count d ≡ 0 → tokens ps ≡ tokens cs
  unfolding changed_count shared_order
  silent_forward d h z =
      let (n, em, ea, er, eo) = diff_entries-inversion ps cs d h in
      let s = shared ps cs in
      let la = ap length ea in
      let full_p : filter (λ t. mem t s) (tokens ps) ≡ tokens ps =
        filter_full (λ t. mem t s) (tokens ps)
          (omega (arith, kept_previous ps cs np nc, length-map (λ (x : Entry). x.token) ps)) in
      let full_c : filter (λ t. mem t s) (tokens cs) ≡ tokens cs =
        filter_full (λ t. mem t s) (tokens cs)
          (omega (arith, kept_current ps cs np nc, la, length-map (λ (x : Entry). x.token) cs)) in
      let zero_moved : n ≡ 0 = omega arith in
      sym full_p
      ∙ moved_none (shared_order s ps) (shared_order s cs) (em ∙ ap ok zero_moved)
      ∙ full_c

  silent_back :
      (d : SyncDiff) → diff_entries ps cs ≡ ok d → tokens ps ≡ tokens cs → changed_count d ≡ 0
  unfolding changed_count shared_order
  silent_back d h e =
      let (n, em, ea, er, eo) = diff_entries-inversion ps cs d h in
      let same = identities_of_tokens [] [] ps cs np nc e in
      let s = shared ps cs in
      let unmoved : shared_order s ps ≡ shared_order s cs = ap (filter (λ t. mem t s)) e in
      let quotas =
        over_quota_self (identities cs) (count_of (identity_counts ps))
          (λ k. count_of-identity_counts ps k ∙ ap (occurrences k) same) in
      let zero_moved : ok n ≡ ok 0 =
        sym em ∙ ap (λ t. moved t (shared_order s cs)) unmoved ∙ moved_self (shared_order s cs) in
      let n0 : n ≡ 0 = cc in
      omega (
        arith,
        n0,
        ap length ea,
        length-added (identity_counts ps) [] cs,
        quotas,
        added-removed-balance ps cs,
        ap length e,
        length-map (λ (x : Entry). x.token) ps,
        length-map (λ (x : Entry). x.token) cs,
      )

  pub silent_iff :
      (d : SyncDiff) → diff_entries ps cs ≡ ok d → (changed_count d ≡ 0) ↔ (tokens ps ≡ tokens cs)
  silent_iff d h = (silent_forward d h, silent_back d h)

-- For the snapshots of two playlists of one provider, the computed difference has no changes
-- exactly when both list the same tokens in the same order.
pub diff_snapshots-silent_iff :
    ⦃ops : TextOps⦄ (fingerprint : Snapshot → Text) (provider : Text) (p c : Playlist)
    (d : SyncDiff)
    → diff_snapshots
        (some (build_playlist_snapshot fingerprint p provider))
        (some (build_playlist_snapshot fingerprint c provider))
      ≡ ok d
    → (changed_count d ≡ 0) ↔ (
        tokens (build_playlist_snapshot fingerprint p provider).tracks
        ≡ tokens (build_playlist_snapshot fingerprint c provider).tracks)
unfolding diff_snapshots entries_of
diff_snapshots-silent_iff fingerprint provider p c d h =
    silent_iff (build_playlist_snapshot fingerprint p provider).tracks
      (build_playlist_snapshot fingerprint c provider).tracks
      (build_playlist_snapshot-Numbered fingerprint p provider)
      (build_playlist_snapshot-Numbered fingerprint c provider) d h

-- The difference between the snapshots of two playlists of one provider is always computed,
-- without the error of the strict zip, and its additions and removals account for the change of
-- length.
pub diff_snapshots_total :
    ⦃ops : TextOps⦄ (fingerprint : Snapshot → Text) (provider : Text) (p c : Playlist)
    → (d : SyncDiff) × (diff_snapshots
          (some (build_playlist_snapshot fingerprint p provider))
          (some (build_playlist_snapshot fingerprint c provider))
        ≡ ok d)
      × (length d.added_positions + length (build_playlist_snapshot fingerprint p provider).tracks
          ≡ d.removed_count + length (build_playlist_snapshot fingerprint c provider).tracks)
unfolding diff_snapshots entries_of
diff_snapshots_total fingerprint provider p c =
    diff_entries_total (build_playlist_snapshot fingerprint p provider).tracks
      (build_playlist_snapshot fingerprint c provider).tracks
      (build_playlist_snapshot-Numbered fingerprint p provider)
      (build_playlist_snapshot-Numbered fingerprint c provider)
