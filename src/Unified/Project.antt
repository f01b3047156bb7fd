-- ===== src/Unified/Project.antt =====
-- What `build_unified_playlists` makes of each group (backend/app/core/unified_playlists.py): the
-- canonical member, the order of the others, the links between them, and the order of the result.
use open_playlist_engine.Prelude.{
  ℕ, Bool, not, ◌&&◌, ◌||◌, Option, some, List, [], ◌∷◌, ◌++◌, map, filter, length, take,
  if◌then◌else◌, ltb, nat_eq, Text, text_eq, text_ltb, codes, ◌==◌,
}
use mathlib.Core.Option.{get_or}
use open_playlist_engine.Models.{PlaylistKind, get}
use open_playlist_engine.Models.Normalize.{TextOps, normalize_text}
use open_playlist_engine.Keys.{UrlOps}
use open_playlist_engine.Counter.{Counter, count_of, bump, mem}
use open_playlist_engine.Unified.{ProviderPlaylist, playlist_key, Alignment, alignment}
use open_playlist_engine.Unified.Merge.{UnifiedTrack, merge_tracks}
use open_playlist_engine.Unified.Groups.{
  SyncLink, source_key, target_key, ByKey, by_key, keys_of, Components, grouping, components,
}

pub record UnifiedPlaylistMember : Type 0 where
  pub key : Text
  pub provider : Text
  pub account_id : Text
  pub account_label : Text
  pub playlist_id : Text
  pub playlist_name : Text
  pub track_count : ℕ
  pub kind : PlaylistKind

pub record UnifiedSyncLink : Type 0 where
  pub rule_id : Text
  pub source_member_key : Text
  pub target_member_key : Text
  pub is_enabled : Bool
  pub status : Text

pub record UnifiedPlaylist : Type 0 where
  pub id : Text
  pub name : Text
  pub description : Option Text
  pub photo : Option Text
  pub kind : PlaylistKind
  pub alignment : Alignment
  pub canonical_member_key : Text
  pub members : List UnifiedPlaylistMember
  pub tracks : List UnifiedTrack
  pub sync_rule_ids : List Text
  pub sync_links : List UnifiedSyncLink

-- `source_weights`: the links that start at a playlist, among those whose ends are both there.
unfoldable pub source_weights : ByKey → List SyncLink → Counter → Counter
unfolding source_key target_key bump mem
source_weights d [] counts = counts
source_weights d (l ∷ ls) counts = source_weights d ls (
    if mem (source_key l) (keys_of d) && mem (target_key l) (keys_of d)
    then bump (source_key l) counts
    else counts)

-- The order of the key (-weight, -number of tracks, key).
unfoldable pub is_preferred : Counter → ProviderPlaylist → ProviderPlaylist → Bool
unfolding count_of playlist_key text_ltb
is_preferred weights m n =
    let v = count_of weights (playlist_key m) in
    let w = count_of weights (playlist_key n) in
    let i = length m.playlist.tracks in
    let j = length n.playlist.tracks in
    ltb w v || (v == w && (ltb j i || (i == j && text_ltb (playlist_key m) (playlist_key n))))

-- `min(members, key=...)` of the first member and the others.
unfoldable pub canonical : Counter → ProviderPlaylist → List ProviderPlaylist → ProviderPlaylist
unfolding is_preferred
canonical weights best [] = best
canonical weights best (m ∷ ms) =
    canonical weights (if is_preferred weights m best then m else best) ms

insert_member : ProviderPlaylist → List ProviderPlaylist → List ProviderPlaylist
unfolding playlist_key text_ltb
insert_member m [] = m ∷ []
insert_member m (n ∷ ns) =
    let rest = insert_member m ns in
    if text_ltb (playlist_key n) (playlist_key m) then n ∷ rest else m ∷ n ∷ ns

sort_members : List ProviderPlaylist → List ProviderPlaylist
unfolding insert_member
sort_members [] = []
sort_members (m ∷ ms) = insert_member m (sort_members ms)

-- The canonical member, then the others in the order of their keys.
unfoldable pub ordered_members : ProviderPlaylist → List ProviderPlaylist → List ProviderPlaylist
unfolding sort_members playlist_key
ordered_members chosen ms =
    chosen ∷ sort_members (filter (λ m. not (playlist_key m == playlist_key chosen)) ms)

-- The sorted texts of a set.
insert_id : Text → List Text → List Text
unfolding text_ltb
insert_id s [] = s ∷ []
insert_id s (t ∷ ts) =
    let rest = insert_id s ts in
    if s == t then t ∷ ts else if text_ltb t s then t ∷ rest else s ∷ t ∷ ts

sorted_ids : List Text → List Text
unfolding insert_id
sorted_ids [] = []
sorted_ids (s ∷ ss) = insert_id s (sorted_ids ss)

insert_link : SyncLink → List SyncLink → List SyncLink
unfolding text_ltb
insert_link l [] = l ∷ []
insert_link l (k ∷ ks) =
    let rest = insert_link l ks in if text_ltb k.rule_id l.rule_id then k ∷ rest else l ∷ k ∷ ks

sort_links : List SyncLink → List SyncLink
unfolding insert_link
sort_links [] = []
sort_links (l ∷ ls) = insert_link l (sort_links ls)

links_between : List Text → List SyncLink → List SyncLink
unfolding mem source_key target_key
links_between keys links = filter (λ l. mem (source_key l) keys && mem (target_key l) keys) links

unfoldable pub unified_member : ProviderPlaylist → UnifiedPlaylistMember
unfolding playlist_key
unified_member m = record {
  key = playlist_key m;
  provider = m.provider;
  account_id = m.account_id;
  account_label = m.account_label;
  playlist_id = get_or m.playlist.id [];
  playlist_name = m.playlist.name;
  track_count = length m.playlist.tracks;
  kind = m.playlist.kind;
}

unfoldable pub unified_link : SyncLink → UnifiedSyncLink
unfolding source_key target_key
unified_link l = record {
  rule_id = l.rule_id;
  source_member_key = source_key l;
  target_member_key = target_key l;
  is_enabled = l.is_enabled;
  status = l.status;
}

module _ ⦃ops : TextOps⦄ ⦃urls : UrlOps⦄ (digest : Text → Text) where
  -- `_unified_id`
  unfoldable pub unified_id : Text → Text
  unified_id key = codes "unified:" ++ take 20 (digest key)

  unfoldable pub unified_playlist :
      Counter
      → List SyncLink
      → List Text
      → ProviderPlaylist
      → List ProviderPlaylist
      → UnifiedPlaylist
  unfolding canonical ordered_members links_between sorted_ids sort_links unified_member
      unified_link unified_id alignment merge_tracks playlist_key
  unified_playlist weights links component_rules m ms =
      let chosen = canonical weights m ms in
      let ordered = ordered_members chosen (m ∷ ms) in
      let between = links_between (map playlist_key (m ∷ ms)) links in
      record {
        id = unified_id (playlist_key chosen);
        name = chosen.playlist.name;
        description = chosen.playlist.description;
        photo = chosen.playlist.photo;
        kind = chosen.playlist.kind;
        alignment = alignment m ms;
        canonical_member_key = playlist_key chosen;
        members = map unified_member ordered;
        tracks = merge_tracks digest ordered;
        sync_rule_ids = sorted_ids (map (λ (l : SyncLink). l.rule_id) between ++ component_rules);
        sync_links = map unified_link (sort_links between);
      }

  -- The components; each has a member at least.
  unfoldable pub project :
      Counter → List SyncLink → List (Text × List Text) → Components → List UnifiedPlaylist
  unfolding unified_playlist get
  project weights links rules [] = []
  project weights links rules ((root, []) ∷ cs) = project weights links rules cs
  project weights links rules ((root, m ∷ ms) ∷ cs) =
      unified_playlist weights links (get_or (get root rules) []) m ms
      ∷ project weights links rules cs

  -- The order (normalized name, id).
  unified_before : UnifiedPlaylist → UnifiedPlaylist → Bool
  unfolding normalize_text text_ltb
  unified_before p q =
      let n = normalize_text (some p.name) in
      let m = normalize_text (some q.name) in text_ltb n m || (n == m && text_ltb p.id q.id)

  insert_unified : UnifiedPlaylist → List UnifiedPlaylist → List UnifiedPlaylist
  unfolding unified_before
  insert_unified p [] = p ∷ []
  insert_unified p (q ∷ qs) =
      let rest = insert_unified p qs in if unified_before q p then q ∷ rest else p ∷ q ∷ qs

  sort_unified : List UnifiedPlaylist → List UnifiedPlaylist
  unfolding insert_unified
  sort_unified [] = []
  sort_unified (p ∷ ps) = insert_unified p (sort_unified ps)

  unfoldable pub build_unified_playlists :
      List ProviderPlaylist → List SyncLink → List UnifiedPlaylist
  unfolding by_key grouping components project source_weights sort_unified
  build_unified_playlists playlists links =
      let d = by_key playlists [] in
      let g = grouping d links in
      sort_unified (project (source_weights d links []) links g.rule_ids (components d links))
