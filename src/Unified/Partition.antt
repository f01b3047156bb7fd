-- ===== src/Unified/Partition.antt =====
-- The state that the grouping leaves.
use open_playlist_engine.Prelude.{
  text_beq_refl, ℕ, suc, ◌<◌, ◌≡◌, inl, inr, refl, Bool, true, false, List, [], ◌∷◌, All, length,
  length-map, arith, Text, text_eq, text_ltb, ◌==◌, Bool-cases,
}
use open_playlist_engine.Counter.{mem}
use open_playlist_engine.Unified.{UrlOps, TextOps, ProviderPlaylist}
use open_playlist_engine.Unified.Groups.{
  target_key, are_copies, union_with, union_copies, source_key, grouping, SyncLink, union_links,
  union_link, sort_keyed, keys_of, insert_keyed, Parents, find, ByKey, accounts_under,
  share_account, Grouping, join_roots, union_roots, union,
}
use open_playlist_engine.Unified.Forest.{
  IsFound, before-length, text_ltb_total, Upto, IsForest, set_parent-IsForest, find-IsFound, before,
}

-- Every key of the second list is one of the first.
abbrev Among : List Text → ByKey → Type 0
Among ks d = All (λ e. mem e.0 ks ≡ true) d

module _ (ks : List Text) (fuel : ℕ) (enough : (key : Text) → before key ks < fuel) where
  accounts_under-IsForest :
      (root : Text) (d : ByKey) (ps : Parents)
      → Among ks d
      → IsForest ks ps
      → IsForest ks (accounts_under fuel root d ps).1
  unfolding accounts_under
  accounts_under-IsForest root [] ps known forest = forest
  accounts_under-IsForest root ((key, m) ∷ d) ps known forest =
      let found = find-IsFound fuel ks key ps forest known.0 (enough key) in
      accounts_under-IsForest root d (find fuel key ps).1 known.1 found.forest

  join_roots-IsForest :
      (left right : Text) (g : Grouping)
      → mem left ks ≡ true
      → mem right ks ≡ true
      → IsForest ks g.parents
      → IsForest ks (join_roots left right g).1.parents
  unfolding join_roots
  join_roots-IsForest left right g l r forest = elim (Bool-cases (text_ltb right left)) [
    | inl e ↦ rw e (set_parent-IsForest ks g.parents left right forest r (inr e))
    | inr e ↦ rw e (set_parent-IsForest ks g.parents right left forest l (upto left right e))
  ]
    where
      upto : (s t : Text) → text_ltb t s ≡ false → Upto s t
      upto s t h = elim (text_ltb_total s t) [
        | inl same ↦ inl same
        | inr (inl less) ↦ inr less
        | inr (inr more) ↦ inr (cc)
      ]

  union_roots-IsForest :
      (d : ByKey) (allow : Bool) (left right : Text) (g : Grouping)
      → Among ks d
      → mem left ks ≡ true
      → mem right ks ≡ true
      → IsForest ks g.parents
      → IsForest ks (union_roots fuel d allow left right g).1.parents
  unfolding union_roots
  union_roots-IsForest d allow left right g known l r forest =
      let one = accounts_under fuel left d g.parents in
      let two = accounts_under fuel right d one.1 in
      let after =
        accounts_under-IsForest right d one.1 known
          (accounts_under-IsForest left d g.parents known forest) in
      elim (Bool-cases (left == right)) [
        | inl e ↦ rw e forest
        | inr e ↦ elim (Bool-cases allow) [
          | inl a ↦ rw e (rw a (join_roots-IsForest left right g l r forest))
          | inr a ↦ elim (Bool-cases (share_account one.0 two.0)) [
            | inl s ↦ rw e (rw a (rw s after))
            | inr s ↦ rw e (
                rw a
                  (rw s (join_roots-IsForest left right (record g { parents = two.1 }) l r after)))
          ]
        ]
      ]

  union-IsForest :
      (d : ByKey) (allow : Bool) (left right : Text) (g : Grouping)
      → Among ks d
      → mem left ks ≡ true
      → mem right ks ≡ true
      → IsForest ks g.parents
      → IsForest ks (union fuel d allow left right g).1.parents
  unfolding union
  union-IsForest d allow left right g known l r forest =
      let first = find-IsFound fuel ks left g.parents forest l (enough left) in
      let one = find fuel left g.parents in
      let second = find-IsFound fuel ks right one.1 first.forest r (enough right) in
      let two = find fuel right one.1 in
      union_roots-IsForest d allow one.0 two.0 (record g { parents = two.1 }) known first.is_key
        second.is_key second.forest

  union_link-IsForest :
      (d : ByKey) (l : SyncLink) (g : Grouping)
      → Among ks d
      → keys_of d ≡ ks
      → IsForest ks g.parents
      → IsForest ks (union_link fuel d l g).parents
  unfolding union_link
  union_link-IsForest d l g known e forest = elim (Bool-cases (mem (source_key l) (keys_of d))) [
    | inr out ↦ rw out forest
    | inl from ↦ elim (Bool-cases (mem (target_key l) (keys_of d))) [
      | inr out ↦ rw from (rw out forest)
      | inl to ↦ rw from (
          rw to (
            union-IsForest d true (source_key l) (target_key l) g known (rw e at from) (rw e at to)
              forest))
    ]
  ]

  union_links-IsForest :
      (d : ByKey) (links : List SyncLink) (g : Grouping)
      → Among ks d
      → keys_of d ≡ ks
      → IsForest ks g.parents
      → IsForest ks (union_links fuel d links g).parents
  unfolding union_links
  union_links-IsForest d [] g known e forest = forest
  union_links-IsForest d (l ∷ ls) g known e forest =
      union_links-IsForest d ls (union_link fuel d l g) known e
        (union_link-IsForest d l g known e forest)

  module _ ⦃ops : TextOps⦄ ⦃urls : UrlOps⦄ where
    union_with-IsForest :
        (d : ByKey) (key : Text) (m : ProviderPlaylist) (rest : ByKey) (g : Grouping)
        → Among ks d
        → mem key ks ≡ true
        → Among ks rest
        → IsForest ks g.parents
        → IsForest ks (union_with fuel d (key, m) rest g).parents
    unfolding union_with
    union_with-IsForest d key m [] g known h others forest = forest
    union_with-IsForest d key m ((other, n) ∷ rest) g known h others forest =
        let joined = union-IsForest d false key other g known h others.0 forest in
        elim (Bool-cases (are_copies m n)) [
          | inl e ↦ rw e (
              union_with-IsForest d key m rest (union fuel d false key other g).1 known h others.1
                joined)
          | inr e ↦ rw e (union_with-IsForest d key m rest g known h others.1 forest)
        ]

    union_copies-IsForest :
        (d candidates : ByKey) (g : Grouping)
        → Among ks d
        → Among ks candidates
        → IsForest ks g.parents
        → IsForest ks (union_copies fuel d candidates g).parents
    unfolding union_copies
    union_copies-IsForest d [] g known others forest = forest
    union_copies-IsForest d ((key, m) ∷ rest) g known others forest =
        union_copies-IsForest d rest (union_with fuel d (key, m) rest g) known others.1
          (union_with-IsForest d key m rest g known others.0 others.1 forest)

Among-weaken : (k : Text) (ks : List Text) (d : ByKey) → Among ks d → Among (k ∷ ks) d
unfolding mem
Among-weaken k ks [] h = tt
Among-weaken k ks (e ∷ d) h = (ground (arith, h.0), Among-weaken k ks d h.1)

Among-keys : (d : ByKey) → Among (keys_of d) d
unfolding mem
Among-keys [] = tt
Among-keys (e ∷ d) = (rw (text_beq_refl e.0) refl, Among-weaken e.0 (keys_of d) d (Among-keys d))

Among-insert_keyed :
    (ks : List Text) (e : Text × ProviderPlaylist) (d : ByKey)
    → mem e.0 ks ≡ true
    → Among ks d
    → Among ks (insert_keyed e d)
unfolding insert_keyed
Among-insert_keyed ks e [] h known = (h, tt)
Among-insert_keyed ks e (f ∷ d) h known = elim (Bool-cases (text_ltb f.0 e.0)) [
  | inl less ↦ rw less (known.0, Among-insert_keyed ks e d h known.1)
  | inr more ↦ rw more (h, known)
]

Among-sort_keyed : (ks : List Text) (d : ByKey) → Among ks d → Among ks (sort_keyed d)
unfolding sort_keyed
Among-sort_keyed ks [] h = tt
Among-sort_keyed ks (e ∷ d) h =
    Among-insert_keyed ks e (sort_keyed d) h.0 (Among-sort_keyed ks d h.1)

enough_fuel : (d : ByKey) (key : Text) → before key (keys_of d) < suc (length d)
enough_fuel d key =
    omega
      (arith, before-length key (keys_of d), length-map (λ (e : Text × ProviderPlaylist). e.0) d)

module _ ⦃ops : TextOps⦄ ⦃urls : UrlOps⦄ where
  grouping-IsForest :
      (d : ByKey) (links : List SyncLink) → IsForest (keys_of d) (grouping d links).parents
  unfolding grouping
  grouping-IsForest d links =
      let start : Grouping = record { parents = λ k. k; rule_ids = [] } in
      let fuel = suc (length d) in
      union_copies-IsForest (keys_of d) fuel (enough_fuel d) d (sort_keyed d)
        (union_links fuel d links start) (Among-keys d)
        (Among-sort_keyed (keys_of d) d (Among-keys d))
        (union_links-IsForest (keys_of d) fuel (enough_fuel d) d links start (Among-keys d) refl
          (λ k h. (h, inl refl)))

  -- After the grouping of keyed playlists by any links, a search for the root of one of the keys,
  -- with one more than the number of the keys as its fuel, ends at a key that is its own parent
  -- and does not come after the key.
  pub find-grouping :
      (d : ByKey) (links : List SyncLink) (key : Text)
      → mem key (keys_of d) ≡ true
      → IsFound (keys_of d) key (find (suc (length d)) key (grouping d links).parents)
  find-grouping d links key there =
      find-IsFound (suc (length d)) (keys_of d) key (grouping d links).parents
        (grouping-IsForest d links) there (enough_fuel d key)
