-- ===== src/Unified/Groups.antt =====
-- The groups of the copies of a playlist: `find` and `union` of `build_unified_playlists`
-- (backend/app/core/unified_playlists.py). The dictionary of parents is a function, the identity at
-- first; the program asks it for keys of playlists only. A search has as fuel one more than the
-- number of keys.
use open_playlist_engine.Prelude.{
  ℕ, zero, suc, Bool, true, false, not, ◌&&◌, Option, none, some, List, [], ◌∷◌, ◌++◌, map, any,
  length, if◌then◌else◌, Text, text_eq, text_ltb, ◌==◌, nat_eq,
}
use mathlib.Core.Option.{get_or}
use open_playlist_engine.Models.{PlaylistKind, standard, liked_tracks, truthy, get, put}
use open_playlist_engine.Models.Normalize.{TextOps, normalize_text}
use open_playlist_engine.Keys.{UrlOps}
use open_playlist_engine.Counter.{mem}
use open_playlist_engine.Unified.{ProviderPlaylist, member_key, playlist_key, playlists_overlap}

pub record SyncLink : Type 0 where
  pub source_provider : Text
  pub source_account_id : Text
  pub source_playlist_id : Text
  pub target_provider : Text
  pub target_account_id : Text
  pub target_playlist_id : Text
  pub rule_id : Text
  pub is_enabled : Bool
  pub status : Text

unfoldable pub source_key : SyncLink → Text
unfolding member_key
source_key l = member_key l.source_provider l.source_account_id l.source_playlist_id

unfoldable pub target_key : SyncLink → Text
unfolding member_key
target_key l = member_key l.target_provider l.target_account_id l.target_playlist_id

abbrev pub Parents : Type 0
Parents = Text → Text

-- `parents[key] = value`
unfoldable pub set_parent : Text → Text → Parents → Parents
set_parent key value ps k = if k == key then value else ps k

-- The root of a key, and the parents with the path to it made short.
unfoldable pub find : ℕ → Text → Parents → Text × Parents
unfolding set_parent
find zero key ps = (key, ps)
find (suc fuel) key ps =
    let (root, qs) = find fuel (ps key) ps in
    if ps key == key then (key, ps) else (root, set_parent key root qs)

-- The playlists by their keys, as the dictionary keeps them.
abbrev pub ByKey : Type 0
ByKey = List (Text × ProviderPlaylist)

unfoldable pub has_id : ProviderPlaylist → Bool
has_id m = present (truthy m.playlist.id)
  where
    present : Option Text → Bool
    present none = false
    present (some _) = true

unfoldable pub by_key : List ProviderPlaylist → ByKey → ByKey
unfolding has_id playlist_key put
by_key [] d = d
by_key (m ∷ ms) d =
    let rest = by_key ms in if has_id m then rest (put (playlist_key m) m d) else rest d

abbrev pub keys_of : ByKey → List Text
keys_of d = map (λ e. e.0) d

abbrev pub Account : Type 0
Account = Text × Text

unfoldable pub same_account : Account → Account → Bool
same_account (p, a) (q, b) = p == q && a == b

abbrev pub account_of : ProviderPlaylist → Account
account_of m = (m.provider, m.account_id)

-- The accounts of the playlists under a root; each search may shorten paths.
unfoldable pub accounts_under : ℕ → Text → ByKey → Parents → List Account × Parents
unfolding find
accounts_under fuel root [] ps = ([], ps)
accounts_under fuel root ((key, m) ∷ d) ps =
    let (r, qs) = find fuel key ps in
    let (rest, after) = accounts_under fuel root d qs in
    (if r == root then account_of m ∷ rest else rest, after)

abbrev pub share_account : List Account → List Account → Bool
share_account left right = any (λ a. any (λ b. same_account a b) right) left

-- What the grouping keeps: the parents, and the rules that joined a component.
pub record Grouping : Type 0 where
  pub parents : Parents
  pub rule_ids : List (Text × List Text)

-- `component_rule_ids.pop(key, set())`
unfoldable pub remove_key : Text → List (Text × List Text) → List (Text × List Text)
remove_key k [] = []
remove_key k ((j, v) ∷ d) = let rest = remove_key k d in if j == k then rest else (j, v) ∷ rest

-- `component_rule_ids.setdefault(key, set()).update(values)`
unfoldable pub update_key : Text → List Text → List (Text × List Text) → List (Text × List Text)
unfolding get put
update_key k values d = put k (get_or (get k d) [] ++ values) d

-- The greater root hangs on the smaller one.
unfoldable pub join_roots : Text → Text → Grouping → Text × Grouping
unfolding text_ltb set_parent remove_key update_key get
join_roots left right g =
    let low = if text_ltb right left then right else left in
    let high = if text_ltb right left then left else right in
    (
      low,
      record {
        parents = set_parent high low g.parents;
        rule_ids = update_key low (get_or (get high g.rule_ids) []) (remove_key high g.rule_ids);
      },
    )

-- Two components of one account are joined by a rule only.
unfoldable pub union_roots : ℕ → ByKey → Bool → Text → Text → Grouping → Text × Grouping
unfolding accounts_under join_roots
union_roots fuel d allow left right g =
    let (ls, ps) = accounts_under fuel left d g.parents in
    let (rs, qs) = accounts_under fuel right d ps in
    if left == right
    then (left, g)
    else if allow
    then join_roots left right g
    else if share_account ls rs
    then (left, record g { parents = qs })
    else join_roots left right (record g { parents = qs })

unfoldable pub union : ℕ → ByKey → Bool → Text → Text → Grouping → Text × Grouping
unfolding find union_roots
union fuel d allow left right g =
    let (left_root, ps) = find fuel left g.parents in
    let (right_root, qs) = find fuel right ps in
    union_roots fuel d allow left_root right_root (record g { parents = qs })

unfoldable pub union_link : ℕ → ByKey → SyncLink → Grouping → Grouping
unfolding union source_key target_key update_key
union_link fuel d l g =
    let (root, h) = union fuel d true (source_key l) (target_key l) g in
    if mem (source_key l) (keys_of d) && mem (target_key l) (keys_of d)
    then record h { rule_ids = update_key root (l.rule_id ∷ []) h.rule_ids }
    else g

unfoldable pub union_links : ℕ → ByKey → List SyncLink → Grouping → Grouping
unfolding union_link
union_links fuel d [] g = g
union_links fuel d (l ∷ ls) g = union_links fuel d ls (union_link fuel d l g)

unfoldable pub kind_beq : PlaylistKind → PlaylistKind → Bool
kind_beq standard standard = true
kind_beq liked_tracks liked_tracks = true
kind_beq _ _ = false

module _ ⦃ops : TextOps⦄ ⦃urls : UrlOps⦄ where
  -- The tests on a pair of playlists.
  unfoldable pub are_copies : ProviderPlaylist → ProviderPlaylist → Bool
  unfolding kind_beq normalize_text same_account playlists_overlap
  are_copies l r =
      kind_beq l.playlist.kind r.playlist.kind
      && normalize_text (some l.playlist.name) == normalize_text (some r.playlist.name)
      && not (same_account (account_of l) (account_of r))
      && playlists_overlap l.playlist r.playlist

  unfoldable pub union_with : ℕ → ByKey → Text × ProviderPlaylist → ByKey → Grouping → Grouping
  unfolding are_copies union
  union_with fuel d left [] g = g
  union_with fuel d (key, m) ((other, n) ∷ rest) g =
      let next = (union fuel d false key other g).1 in
      union_with fuel d (key, m) rest (if are_copies m n then next else g)

  -- The loop over the candidates in the order of their keys, each with those after it.
  unfoldable pub union_copies : ℕ → ByKey → ByKey → Grouping → Grouping
  unfolding union_with
  union_copies fuel d [] g = g
  union_copies fuel d (e ∷ rest) g = union_copies fuel d rest (union_with fuel d e rest g)

-- `sorted(by_key.values(), key=lambda item: item.key)`
unfoldable pub insert_keyed : Text × ProviderPlaylist → ByKey → ByKey
unfolding text_ltb
insert_keyed e [] = e ∷ []
insert_keyed e (f ∷ d) =
    let rest = insert_keyed e d in if text_ltb f.0 e.0 then f ∷ rest else e ∷ f ∷ d

unfoldable pub sort_keyed : ByKey → ByKey
unfolding insert_keyed
sort_keyed [] = []
sort_keyed (e ∷ d) = insert_keyed e (sort_keyed d)

abbrev pub Components : Type 0
Components = List (Text × List ProviderPlaylist)

-- `components.setdefault(root, []).append(item)`
unfoldable pub add_member : Text → ProviderPlaylist → Components → Components
add_member root m [] = (root, m ∷ []) ∷ []
add_member root m ((r, ms) ∷ cs) =
    let rest = add_member root m cs in if r == root then (r, ms ++ m ∷ []) ∷ cs else (r, ms) ∷ rest

unfoldable pub collect : ℕ → ByKey → Parents → Components → Components
unfolding find add_member
collect fuel [] ps cs = cs
collect fuel ((key, m) ∷ d) ps cs =
    let (root, qs) = find fuel key ps in collect fuel d qs (add_member root m cs)

module _ ⦃ops : TextOps⦄ ⦃urls : UrlOps⦄ where
  unfoldable pub grouping : ByKey → List SyncLink → Grouping
  unfolding union_links union_copies sort_keyed
  grouping d links =
      let fuel = suc (length d) in
      union_copies fuel d (sort_keyed d)
        (union_links fuel d links (record { parents = λ k. k; rule_ids = [] }))

  unfoldable pub components : ByKey → List SyncLink → Components
  unfolding grouping collect
  components d links = collect (suc (length d)) d (grouping d links).parents []
