-- ===== src/Unified/Sources.antt =====
-- The sources of the tracks of a unified playlist.
use mathlib.Core.Path.{subst}
use open_playlist_engine.Prelude.{
  ℕ, suc, ◌+◌, ◌≤◌, ◌≡◌, inl, inr, refl, ap, List, [], ◌∷◌, length, All, length-append,
  if◌then◌else◌, ltb, arith, Text, Bool-cases,
}
use open_playlist_engine.Models.{Track}
use open_playlist_engine.Models.Normalize.{TextOps}
use open_playlist_engine.Keys.{UrlOps}
use open_playlist_engine.Counter.{Counter, bump}
use open_playlist_engine.Unified.{
  ProviderPlaylist, position_or_last, insert_by_position, by_position, preferred_key,
}
use open_playlist_engine.Unified.Merge.{
  UnifiedTrackSource, Cluster, UnifiedTrack, track_source, source_before, insert_source,
  sort_sources, cluster_matches, add_track, add_tracks, unmatched, add_members, unified_track,
  name_clusters, merge_tracks,
}

length-insert_by_position :
    (t : Track) (ts : List Track) → length (insert_by_position t ts) ≡ suc (length ts)
unfolding insert_by_position
length-insert_by_position t [] = refl
length-insert_by_position t (u ∷ us) =
    elim (Bool-cases (ltb (position_or_last u.position) (position_or_last t.position))) [
      | inl e ↦ rw e (ap suc (length-insert_by_position t us))
      | inr e ↦ rw e refl
    ]

length-by_position : (ts : List Track) → length (by_position ts) ≡ length ts
unfolding by_position
length-by_position [] = refl
length-by_position (t ∷ ts) =
    omega (arith, length-insert_by_position t (by_position ts), length-by_position ts)

length-insert_source :
    (s : UnifiedTrackSource) (ts : List UnifiedTrackSource)
    → length (insert_source s ts) ≡ suc (length ts)
unfolding insert_source
length-insert_source s [] = refl
length-insert_source s (t ∷ ts) = elim (Bool-cases (source_before t s)) [
  | inl e ↦ rw e (ap suc (length-insert_source s ts))
  | inr e ↦ rw e refl
]

length-sort_sources : (ss : List UnifiedTrackSource) → length (sort_sources ss) ≡ length ss
unfolding sort_sources
length-sort_sources [] = refl
length-sort_sources (s ∷ ss) =
    omega (arith, length-insert_source s (sort_sources ss), length-sort_sources ss)

-- The number of sources of all the tracks, and of tracks of all the members.
abbrev pub count_sources : List UnifiedTrack → ℕ
count_sources [] = 0
count_sources (u ∷ us) = length u.sources + count_sources us

abbrev pub count_tracks : List ProviderPlaylist → ℕ
count_tracks [] = 0
count_tracks (m ∷ ms) = length m.playlist.tracks + count_tracks ms

abbrev held : List Cluster → ℕ
held [] = 0
held (c ∷ cs) = length c.sources + held cs

-- After `n` members were begun: a cluster with a track of the last has `n` sources at most, any
-- other has less.
abbrev room : Cluster → ℕ
room c = if c.is_matched then length c.sources else suc (length c.sources)

abbrev Fits : ℕ → List Cluster → Type 0
Fits n cs = All (λ (c : Cluster). room c ≤ n) cs

module _ ⦃ops : TextOps⦄ ⦃urls : UrlOps⦄ (digest : Text → Text) where
  add_track_lem :
      (t : Track) (s : UnifiedTrackSource) (n : ℕ) (cs : List Cluster)
      → Fits (suc n) cs
      → (held (add_track digest t s cs) ≡ suc (held cs)) × Fits (suc n) (add_track digest t s cs)
  unfolding add_track
  add_track_lem t s n [] h = (refl, (omega arith, tt))
  add_track_lem t s n (c ∷ cs) h =
      let rest = add_track_lem t s n cs h.1 in
      elim (Bool-cases c.is_matched) [
        | inl taken ↦ rw taken (omega (arith, rest.0), (rw taken at h.0, rest.1))
        | inr free ↦ elim (Bool-cases (cluster_matches digest c t)) [
          | inl fits ↦
              let longer = length-append c.sources (s ∷ []) in
              let small : suc (length c.sources) ≤ suc n = (rw free at h.0) in
              rw free (rw fits (omega (arith, longer), (omega (arith, longer, small), h.1)))
          | inr other ↦ rw free (rw other (omega (arith, rest.0), (rw free at h.0, rest.1)))
        ]
      ]

  add_tracks_lem :
      (m : ProviderPlaylist) (ts : List Track) (n : ℕ) (cs : List Cluster)
      → Fits (suc n) cs
      → (held (add_tracks digest m ts cs) ≡ held cs + length ts)
        × Fits (suc n) (add_tracks digest m ts cs)
  unfolding add_tracks
  add_tracks_lem m [] n cs h = (omega arith, h)
  add_tracks_lem m (t ∷ ts) n cs h =
      let (one, fits) = add_track_lem t (track_source m t) n cs h in
      let (rest, all) = add_tracks_lem m ts n (add_track digest t (track_source m t) cs) fits in
      (omega (arith, one, rest), all)

  room-length : (c : Cluster) (n : ℕ) → room c ≤ n → length c.sources ≤ n
  room-length c n h = elim (Bool-cases c.is_matched) [
    | inl e ↦ rw e at h
    | inr e ↦ let g : suc (length c.sources) ≤ n = (rw e at h) in omega (arith, g)
  ]

  unmatched_lem :
      (n : ℕ) (cs : List Cluster)
      → Fits n cs
      → (held (unmatched digest cs) ≡ held cs) × Fits (suc n) (unmatched digest cs)
  unfolding unmatched
  unmatched_lem n [] h = (refl, tt)
  unmatched_lem n (c ∷ cs) h =
      let rest = unmatched_lem n cs h.1 in
      (omega (arith, rest.0), (omega (arith, room-length c n h.0), rest.1))

  add_members_lem :
      (ms : List ProviderPlaylist) (n : ℕ) (cs : List Cluster)
      → Fits n cs
      → (held (add_members digest ms cs) ≡ held cs + count_tracks ms)
        × Fits (n + length ms) (add_members digest ms cs)
  unfolding add_members
  add_members_lem [] n cs h = (omega arith, subst (λ (k : ℕ). Fits k cs) (omega arith) h)
  add_members_lem (m ∷ ms) n cs h =
      let ts = by_position m.playlist.tracks in
      let (same, fits) = unmatched_lem n cs h in
      let (grown, fit) = add_tracks_lem m ts n (unmatched digest cs) fits in
      let next = add_tracks digest m ts (unmatched digest cs) in
      let (rest, all) = add_members_lem ms (suc n) next fit in
      (
        omega (arith, same, grown, rest, length-by_position m.playlist.tracks),
        subst (λ (k : ℕ). Fits k (add_members digest ms next)) (omega arith) all,
      )

  name_clusters_lem :
      (counts : Counter) (n : ℕ) (cs : List Cluster)
      → Fits n cs
      → (count_sources (name_clusters digest counts cs) ≡ held cs)
        × All (λ (u : UnifiedTrack). length u.sources ≤ n) (name_clusters digest counts cs)
  unfolding name_clusters unified_track
  name_clusters_lem counts n [] h = (refl, tt)
  name_clusters_lem counts n (c ∷ cs) h =
      let base = preferred_key digest c.keys c.representative in
      let (rest, all) = name_clusters_lem (bump base counts) n cs h.1 in
      let same = length-sort_sources c.sources in
      (omega (arith, same, rest), (omega (arith, same, room-length c n h.0), all))

  -- The merged tracks of the members of a unified playlist have as many sources as the members
  -- have tracks, and none has more sources than there are members.
  pub merge_tracks-sources :
      (ms : List ProviderPlaylist)
      → (count_sources (merge_tracks digest ms) ≡ count_tracks ms)
        × All (λ (u : UnifiedTrack). length u.sources ≤ length ms) (merge_tracks digest ms)
  unfolding merge_tracks
  merge_tracks-sources ms =
      let (kept, fits) = add_members_lem ms 0 [] tt in
      let (total, all) =
        name_clusters_lem [] (length ms) (add_members digest ms [])
          (subst (λ (k : ℕ). Fits k (add_members digest ms [])) (omega arith) fits) in
      (omega (arith, total, kept), all)
