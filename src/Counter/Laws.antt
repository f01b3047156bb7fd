-- ===== src/Counter/Laws.antt =====
-- Lemmas on counters: their answers after a change, and the distinctness of their keys.
use open_playlist_engine.Prelude.{
  ℕ, suc, ◌+◌, ◌≡◌, refl, false, ◌||◌, List, [], ◌∷◌, ◌++◌, arith, if◌then◌else◌, Text, text_eq,
  text_beq_iff, ◌==◌,
}
use open_playlist_engine.Counter.{Counter, keys, count_of, bump, tally, mem}

abbrev pub Distinct : List Text → Type 0
Distinct [] = Unit
Distinct (k ∷ ks) = (mem k ks ≡ false) × Distinct ks

-- How often a text stands in a list.
unfoldable pub occurrences : Text → List Text → ℕ
occurrences k [] = 0
occurrences k (j ∷ ks) = if j == k then suc (occurrences k ks) else occurrences k ks

pub count_of-bump :
    (c : Counter) (k j : Text)
    → count_of (bump k c) j ≡ (if k == j then suc (count_of c j) else count_of c j)
unfolding count_of bump
count_of-bump [] k j = ground arith
count_of-bump ((i, n) ∷ c) k j =
    ground (arith, text_beq_iff i k, text_beq_iff i j, text_beq_iff k j, count_of-bump c k j)

pub mem-keys-bump :
    (c : Counter) (k j : Text) → mem j (keys (bump k c)) ≡ (k == j || mem j (keys c))
unfolding bump mem
mem-keys-bump [] k j = refl
mem-keys-bump ((i, n) ∷ c) k j =
    ground (arith, text_beq_iff i k, text_beq_iff i j, text_beq_iff k j, mem-keys-bump c k j)

pub bump-Distinct : (c : Counter) (k : Text) → Distinct (keys c) → Distinct (keys (bump k c))
unfolding bump
bump-Distinct [] k h = unfold mem in (refl, tt)
bump-Distinct ((i, n) ∷ c) k h =
    ground (arith, text_beq_iff k i, text_beq_iff i k, mem-keys-bump c k i, bump-Distinct c k)

pub tally-Distinct :
    (c : Counter) (ks : List Text) → Distinct (keys c) → Distinct (keys (tally c ks))
unfolding tally
tally-Distinct c [] h = h
tally-Distinct c (k ∷ ks) h = tally-Distinct (bump k c) ks (bump-Distinct c k h)

pub count_of-tally :
    (c : Counter) (ks : List Text) (k : Text)
    → count_of (tally c ks) k ≡ count_of c k + occurrences k ks
unfolding tally occurrences
count_of-tally c [] k = omega arith
count_of-tally c (j ∷ ks) k = ground (arith, count_of-tally (bump j c) ks k, count_of-bump c j k)

pub mem-keys-tally :
    (c : Counter) (ks : List Text) (k : Text)
    → mem k (keys (tally c ks)) ≡ (mem k (keys c) || mem k ks)
unfolding tally mem
mem-keys-tally c [] k = ground arith
mem-keys-tally c (j ∷ ks) k = ground (arith, mem-keys-tally (bump j c) ks k, mem-keys-bump c j k)

-- A key that a counter does not hold counts zero.
pub count_of_absent : (c : Counter) (k : Text) → mem k (keys c) ≡ false → count_of c k ≡ 0
unfolding count_of mem
count_of_absent [] k h = refl
count_of_absent ((j, n) ∷ c) k h = ground (arith, count_of_absent c k)

pub mem-append : (k : Text) (js ks : List Text) → mem k (js ++ ks) ≡ (mem k js || mem k ks)
unfolding mem
mem-append k [] ks = refl
mem-append k (j ∷ js) ks = ground (arith, mem-append k js ks)
