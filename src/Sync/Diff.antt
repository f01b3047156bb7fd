-- ===== src/Sync/Diff.antt =====
-- `diff_snapshots` (backend/app/core/sync.py): what was added, removed and moved between two
-- snapshots of a playlist.
use open_playlist_engine.Prelude.{
  ℕ, zero, suc, ◌+◌, ◌-◌, min, Option, List, [], ◌∷◌, ◌++◌, map, filter, length, if◌then◌else◌,
  Text, text_eq, ◌==◌, Result, ok, raised, leb, ◌>>=◌,
}
use open_playlist_engine.Counter.{Counter, keys, count_of, bump, tally, mem}
use open_playlist_engine.Sync.Snapshot.{Entry, Snapshot, entries_of, token_of}

pub record SyncDiff : Type 0 where
  pub added_positions : List ℕ
  pub removed_count : ℕ
  pub reordered_count : ℕ

unfoldable pub changed_count : SyncDiff → ℕ
changed_count d = length d.added_positions + d.removed_count + d.reordered_count

-- `zip(…, strict=True)` raises ValueError when one list ends before the other.
pub data ZipError : Type 0 where
  value_error : ZipError

abbrev pub identities : List Entry → List Text
identities = map (λ e. e.identity)

abbrev pub tokens : List Entry → List Text
tokens = map (λ e. e.token)

-- `Counter(entry["identity"] for entry in entries)`
unfoldable pub identity_counts : List Entry → Counter
identity_counts es = tally [] (identities es)

-- The loop over the current entries: an occurrence beyond the previous count is an addition.
unfoldable pub added : Counter → Counter → List Entry → List ℕ
added previous seen [] = []
added previous seen (e ∷ es) =
    let rest = added previous (bump e.identity seen) es in
    if leb (count_of previous e.identity) (count_of seen e.identity)
    then e.position ∷ rest
    else rest

-- The sum over `previous_counts.items()`; the subtraction stops at zero, as `max(0, …)` does.
unfoldable pub removed : Counter → Counter → ℕ
removed [] current = 0
removed ((k, n) ∷ c) current = (n - count_of current k) + removed c current

-- The numbers below `n`; only membership in what is made of them matters.
unfoldable pub below : ℕ → List ℕ
below zero = []
below (suc n) = n ∷ below n

unfoldable pub tokens_below : Text → ℕ → List Text
unfolding token_of below
tokens_below k n = map (λ o. token_of k o) (below n)

-- The set `shared_tokens`.
unfoldable pub shared_tokens : Counter → Counter → List Text → List Text
unfolding tokens_below
shared_tokens previous current [] = []
shared_tokens previous current (k ∷ ks) =
    tokens_below k (min (count_of previous k) (count_of current k))
    ++ shared_tokens previous current ks

unfoldable pub shared_order : List Text → List Entry → List Text
shared_order shared es = filter (λ t. mem t shared) (tokens es)

-- The sum of `previous_token != current_token` over the strict zip.
unfoldable pub moved : List Text → List Text → Result ZipError ℕ
moved [] [] = ok 0
moved (a ∷ ss) (b ∷ ts) = do n ← moved ss ts; ok (if a == b then n else suc n)
moved _ _ = raised value_error

unfoldable pub diff_entries : List Entry → List Entry → Result ZipError SyncDiff
unfolding identity_counts added removed shared_tokens shared_order moved
diff_entries previous current =
    let before = identity_counts previous in
    let after = identity_counts current in
    let shared = shared_tokens before after (keys before ++ keys after) in
    do
      reordered ← moved (shared_order shared previous) (shared_order shared current)
      ok (record {
        added_positions = added before [] current;
        removed_count = removed before after;
        reordered_count = reordered;
      })

unfoldable pub diff_snapshots : Option Snapshot → Option Snapshot → Result ZipError SyncDiff
unfolding diff_entries
diff_snapshots previous current = diff_entries (entries_of previous) (entries_of current)
