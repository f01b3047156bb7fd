-- ===== src/Counter.antt =====
-- `collections.Counter` over texts, as the association list that a Python dict keeps in order of
-- insertion. The laws and the sums over its keys are in the modules below.
pub mod Laws
pub mod Sums
use open_playlist_engine.Prelude.{
  ℕ, suc, ◌+◌, Bool, List, [], ◌∷◌, map, any, if◌then◌else◌, Text, text_eq, text_beq, ◌==◌,
}

abbrev pub Counter : Type 0
Counter = List (Text × ℕ)

abbrev pub keys : Counter → List Text
keys = map (λ e. e.0)

-- `counter[k]`, zero for a key that is not there.
unfoldable pub count_of : Counter → Text → ℕ
count_of [] k = 0
count_of ((j, n) ∷ c) k = if j == k then n else count_of c k

-- `counter[k] += 1`
unfoldable pub bump : Text → Counter → Counter
bump k [] = (k, 1) ∷ []
bump k ((j, n) ∷ c) = if j == k then (j, suc n) ∷ c else (j, n) ∷ bump k c

-- `Counter(ks)`, from a counter that is there already.
unfoldable pub tally : Counter → List Text → Counter
unfolding bump
tally c [] = c
tally c (k ∷ ks) = tally (bump k c) ks

-- `k in ks`
unfoldable pub mem : Text → List Text → Bool
mem k ks = any (λ j. j == k) ks
