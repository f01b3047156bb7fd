-- ===== src/Sync/Numbered.antt =====
-- Entries whose tokens number the occurrences of an identity, and the tokens that two snapshots
-- share.
use open_playlist_engine.Prelude.{
  ℕ, zero, suc, ◌+◌, min, ◌≡◌, Bool, true, false, ◌&&◌, List, [], ◌∷◌, ◌++◌, length, arith, ap, ltb,
  Text, text_eq, nat_eq, text_beq_iff, ◌==◌, hash_numeral-injective, refl,
}
use open_playlist_engine.Models.{Playlist, get, Track, is_migratable}
use open_playlist_engine.Models.Normalize.{TextOps}
use open_playlist_engine.Counter.{Counter, keys, count_of, bump, mem}
use open_playlist_engine.Counter.Laws.{count_of_absent, mem-append}
use open_playlist_engine.Counter.Sums.{over_quota}
use open_playlist_engine.Sync.Snapshot.{
  Snapshot, build_playlist_snapshot, Entry, token_of, build_entries, track_identity, build_round,
}
use open_playlist_engine.Sync.Diff.{identities, below, tokens_below, shared_tokens, shared_order}

-- Each entry counts the entries of its identity before it, and its token spells both.
abbrev pub Numbered : Counter → List Entry → Type 0
Numbered seen [] = Unit
Numbered seen (e ∷ es) =
    (e.occurrence ≡ count_of seen e.identity)
    × (e.token ≡ token_of e.identity e.occurrence)
    × Numbered (bump e.identity seen) es

build_round-Numbered :
    ⦃ops : TextOps⦄ (b : Bool) (provider : Text) (index : ℕ) (seen : Counter) (t : Track)
    (rest : Counter → ℕ × List Entry)
    → ((c : Counter) → Numbered c (rest c).1)
    → Numbered seen (build_round b provider index seen t rest).1
unfolding build_round
build_round-Numbered false provider index seen t rest h = h seen
build_round-Numbered true provider index seen t rest h =
    (refl, refl, h (bump (track_identity t (get provider t.provider_uris)) seen))

pub build_entries-Numbered :
    ⦃ops : TextOps⦄ (provider : Text) (index : ℕ) (seen : Counter) (ts : List Track)
    → Numbered seen (build_entries provider index seen ts).1
unfolding build_entries
build_entries-Numbered provider index seen [] = tt
build_entries-Numbered provider index seen (t ∷ ts) =
    build_round-Numbered (is_migratable t) provider index seen t
      (λ c. build_entries provider (suc index) c ts)
      (λ c. build_entries-Numbered provider (suc index) c ts)

pub token_of-injective : (i j : Text) (m n : ℕ) → token_of i m ≡ token_of j n → (i ≡ j) × (m ≡ n)
unfolding token_of
token_of-injective i j m n e = hash_numeral-injective i j m n e

token_of-beq : (i j : Text) (m n : ℕ) → (token_of i m == token_of j n) ≡ (i == j && m == n)
token_of-beq i j m n = ground (
  arith,
  text_beq_iff (token_of i m) (token_of j n),
  text_beq_iff i j,
  token_of-injective i j m n,
)

mem-tokens_below :
    (i k : Text) (o n : ℕ) → mem (token_of i o) (tokens_below k n) ≡ (k == i && ltb o n)
unfolding mem tokens_below below
mem-tokens_below i k o zero = ground arith
mem-tokens_below i k o (suc n) = ground (arith, token_of-beq k i n o, mem-tokens_below i k o n)

mem-shared_tokens_from :
    (previous current : Counter) (ks : List Text) (i : Text) (o : ℕ)
    → mem (token_of i o) (shared_tokens previous current ks)
      ≡ (mem i ks && ltb o (min (count_of previous i) (count_of current i)))
unfolding shared_tokens mem
mem-shared_tokens_from p c [] i o = refl
mem-shared_tokens_from p c (k ∷ ks) i o = ground (
  arith,
  mem-append (token_of i o) (tokens_below k (min (count_of p k) (count_of c k)))
      (shared_tokens p c ks),
  mem-tokens_below i k o (min (count_of p k) (count_of c k)),
  mem-shared_tokens_from p c ks i o,
  text_beq_iff k i,
)

-- A token is shared when its occurrence is below both counts of its identity.
pub mem-shared_tokens :
    (previous current : Counter) (i : Text) (o : ℕ)
    → mem (token_of i o) (shared_tokens previous current (keys previous ++ keys current))
      ≡ ltb o (min (count_of previous i) (count_of current i))
mem-shared_tokens p c i o = ground (
  arith,
  mem-shared_tokens_from p c (keys p ++ keys c) i o,
  mem-append i (keys p) (keys c),
  count_of_absent p i,
  count_of_absent c i,
)

-- An entry is kept or it is over the quota.
pub length-shared_order :
    (shared : List Text) (quota : Text → ℕ) (seen : Counter) (es : List Entry)
    → ((i : Text) (o : ℕ) → mem (token_of i o) shared ≡ ltb o (quota i))
    → Numbered seen es
    → length (shared_order shared es) + over_quota quota seen (identities es) ≡ length es
unfolding shared_order over_quota
length-shared_order shared quota seen [] h w = omega arith
length-shared_order shared quota seen (e ∷ es) h w = ground (
  arith,
  h e.identity e.occurrence,
  ap (λ t. mem t shared) w.1,
  length-shared_order shared quota (bump e.identity seen) es h w.2,
)

pub build_playlist_snapshot-Numbered :
    ⦃ops : TextOps⦄ (fingerprint : Snapshot → Text) (p : Playlist) (provider : Text)
    → Numbered [] (build_playlist_snapshot fingerprint p provider).tracks
unfolding build_playlist_snapshot
build_playlist_snapshot-Numbered fingerprint p provider =
    build_entries-Numbered provider 0 [] p.tracks
