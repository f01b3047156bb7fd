-- ===== src/Sync/Balance.antt =====
-- The parts of a difference, and the lists that the strict zip compares.
use open_playlist_engine.Prelude.{
  ℕ, suc, ◌+◌, min, ◌≡◌, refl, List, [], ◌∷◌, ◌++◌, length, arith, if◌then◌else◌, Text, text_eq,
  text_beq_iff, ◌==◌, length-map, ok, >>=-eq-ok,
}
use open_playlist_engine.Counter.{keys, count_of}
use open_playlist_engine.Sync.Snapshot.{Entry}
use open_playlist_engine.Sync.Diff.{
  SyncDiff, identities, identity_counts, added, removed, shared_tokens, shared_order, moved,
  diff_entries,
}
use open_playlist_engine.Sync.Numbered.{Numbered, mem-shared_tokens, length-shared_order}
use open_playlist_engine.Sync.Quotas.{
  length-added, removed-over_quota, over_quota-balance, over_quota-min, count_of-identity_counts,
}

moved_total : (ss ts : List Text) → length ss ≡ length ts → (n : ℕ) × (moved ss ts ≡ ok n)
unfolding moved
moved_total [] [] h = (0, refl)
moved_total [] (t ∷ ts) h = absurd (omega arith)
moved_total (s ∷ ss) [] h = absurd (omega arith)
moved_total (s ∷ ss) (t ∷ ts) h =
    let (n, e) = moved_total ss ts (omega arith) in (if s == t then n else suc n, rw e)

pub moved_none : (ss ts : List Text) → moved ss ts ≡ ok 0 → ss ≡ ts
unfolding moved
moved_none [] [] h = refl
moved_none [] (t ∷ ts) h = cc
moved_none (s ∷ ss) [] h = cc
moved_none (s ∷ ss) (t ∷ ts) h =
    let (n, e, q) = >>=-eq-ok (moved ss ts) (λ n. ok (if s == t then n else suc n)) h in
    ground (arith, e, q, text_beq_iff s t, moved_none ss ts)

pub moved_self : (ss : List Text) → moved ss ss ≡ ok 0
unfolding moved
moved_self [] = refl
moved_self (s ∷ ss) = rw (moved_self ss) (ground (arith, text_beq_iff s s))

module _ (ps cs : List Entry) where
  pub shared : List Text
  shared =
      shared_tokens (identity_counts ps) (identity_counts cs)
        (keys (identity_counts ps) ++ keys (identity_counts cs))

  -- Additions and removals account for the difference of the lengths.
  pub added-removed-balance :
      length (added (identity_counts ps) [] cs) + length ps
      ≡ removed (identity_counts ps) (identity_counts cs) + length cs
  added-removed-balance = omega (
    arith,
    length-added (identity_counts ps) [] cs,
    removed-over_quota ps (identity_counts cs),
    length-map (λ (e : Entry). e.identity) ps,
    length-map (λ (e : Entry). e.identity) cs,
    over_quota-balance (identities ps) (identities cs) (count_of (identity_counts ps))
        (count_of (identity_counts cs)) (count_of-identity_counts ps) (count_of-identity_counts cs),
  )

  -- What a computed difference holds.
  pub diff_entries-inversion :
      (d : SyncDiff)
      → diff_entries ps cs ≡ ok d
      → (n : ℕ) × (moved (shared_order shared ps) (shared_order shared cs) ≡ ok n)
        × (d.added_positions ≡ added (identity_counts ps) [] cs)
        × (d.removed_count ≡ removed (identity_counts ps) (identity_counts cs))
        × (d.reordered_count ≡ n)
  unfolding diff_entries shared
  diff_entries-inversion d h =
      let (n, e, q) =
        >>=-eq-ok (moved (shared_order shared ps) (shared_order shared cs))
          (λ n. ok (record {
            added_positions = added (identity_counts ps) [] cs;
            removed_count = removed (identity_counts ps) (identity_counts cs);
            reordered_count = n;
          }))
          h in
      (n, e, cc, cc, cc)

  module _ (np : Numbered [] ps) (nc : Numbered [] cs) where
    -- The previous entries that were not removed are those whose tokens are shared.
    pub kept_previous :
        length (shared_order shared ps) + removed (identity_counts ps) (identity_counts cs)
        ≡ length ps
    unfolding shared
    kept_previous = omega (
      arith,
      length-shared_order shared
          (λ i. min (count_of (identity_counts ps) i) (count_of (identity_counts cs) i)) [] ps
          (mem-shared_tokens (identity_counts ps) (identity_counts cs)) np,
      removed-over_quota ps (identity_counts cs),
      over_quota-min (identities ps) (count_of (identity_counts cs))
          (λ i. min (count_of (identity_counts ps) i) (count_of (identity_counts cs) i))
          (λ k. omega (arith, count_of-identity_counts ps k)),
    )

    pub kept_current :
        length (shared_order shared cs) + length (added (identity_counts ps) [] cs) ≡ length cs
    unfolding shared
    kept_current = omega (
      arith,
      length-shared_order shared
          (λ i. min (count_of (identity_counts ps) i) (count_of (identity_counts cs) i)) [] cs
          (mem-shared_tokens (identity_counts ps) (identity_counts cs)) nc,
      length-added (identity_counts ps) [] cs,
      over_quota-min (identities cs) (count_of (identity_counts ps))
          (λ i. min (count_of (identity_counts ps) i) (count_of (identity_counts cs) i))
          (λ k. omega (arith, count_of-identity_counts cs k)),
    )

    -- The strict zip compares two lists of one length.
    pub length-shared_order-eq : length (shared_order shared ps) ≡ length (shared_order shared cs)
    length-shared_order-eq = omega (arith, kept_previous, kept_current, added-removed-balance)

    -- The difference is always computed: the strict zip does not raise. Additions and removals
    -- account for the change of length.
    pub diff_entries_total :
        (d : SyncDiff) × (diff_entries ps cs ≡ ok d)
        × (length d.added_positions + length ps ≡ d.removed_count + length cs)
    unfolding diff_entries
    diff_entries_total =
        let (n, e) =
          moved_total (shared_order shared ps) (shared_order shared cs) length-shared_order-eq in
        (
          record {
            added_positions = added (identity_counts ps) [] cs;
            removed_count = removed (identity_counts ps) (identity_counts cs);
            reordered_count = n;
          },
          unfold shared in rw e,
          added-removed-balance,
        )
