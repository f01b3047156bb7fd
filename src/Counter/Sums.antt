-- ===== src/Counter/Sums.antt =====
-- Sums over distinct keys, and the elements of a list that come after a quota of their key.
use open_playlist_engine.Prelude.{
  ℕ, suc, ◌+◌, ◌-◌, ◌≡◌, refl, true, List, [], ◌∷◌, length, arith, leb, if◌then◌else◌, Text,
  text_eq, text_beq_iff, ◌==◌, All,
}
use open_playlist_engine.Counter.{Counter, count_of, bump, mem}
use open_playlist_engine.Counter.Laws.{Distinct, occurrences, count_of-bump}

unfoldable pub sum_over : List Text → (Text → ℕ) → ℕ
sum_over [] g = 0
sum_over (k ∷ ks) g = g k + sum_over ks g

-- How many elements find their quota used up by those before them.
unfoldable pub over_quota : (Text → ℕ) → Counter → List Text → ℕ
over_quota f seen [] = 0
over_quota f seen (k ∷ ks) =
    let rest = over_quota f (bump k seen) ks in
    if leb (f k) (count_of seen k) then suc rest else rest

pub sum_over-cong :
    (ks : List Text) (g h : Text → ℕ) → ((k : Text) → g k ≡ h k) → sum_over ks g ≡ sum_over ks h
unfolding sum_over
sum_over-cong [] g h e = refl
sum_over-cong (k ∷ ks) g h e = omega (arith, e k, sum_over-cong ks g h e)

pub sum_over-add :
    (ks : List Text) (g h s : Text → ℕ)
    → ((k : Text) → s k ≡ g k + h k)
    → sum_over ks s ≡ sum_over ks g + sum_over ks h
unfolding sum_over
sum_over-add [] g h s e = omega arith
sum_over-add (k ∷ ks) g h s e = omega (arith, e k, sum_over-add ks g h s e)

pub sum_over-zero : (ks : List Text) (g : Text → ℕ) → ((k : Text) → g k ≡ 0) → sum_over ks g ≡ 0
unfolding sum_over
sum_over-zero [] g e = refl
sum_over-zero (k ∷ ks) g e = omega (arith, e k, sum_over-zero ks g e)

-- A function that differs at one key changes the sum by the difference there.
sum_over-change :
    (ks : List Text) (g h : Text → ℕ) (e : Text) (d : ℕ)
    → Distinct ks
    → ((k : Text) → h k ≡ (if e == k then g k + d else g k))
    → sum_over ks h ≡ sum_over ks g + (if mem e ks then d else 0)
unfolding sum_over mem
sum_over-change [] g h e d u p = omega arith
sum_over-change (k ∷ ks) g h e d u p =
    ground (arith, p k, text_beq_iff e k, text_beq_iff k e, sum_over-change ks g h e d u.1 p)

-- The quotas by key and the quotas by element count the same.
over_quota-sum_from :
    (f : Text → ℕ) (seen : Counter) (js ks : List Text)
    → Distinct ks
    → All (λ j. mem j ks ≡ true) js
    → sum_over ks (λ k. count_of seen k + occurrences k js - f k)
      ≡ sum_over ks (λ k. count_of seen k - f k) + over_quota f seen js
unfolding over_quota
over_quota-sum_from f seen [] ks u m = omega (
  arith,
  sum_over-cong ks (λ k. count_of seen k + occurrences k [] - f k) (λ k. count_of seen k - f k)
      (λ k. unfold occurrences in omega arith),
)
over_quota-sum_from f seen (j ∷ js) ks u m = ground (
  arith,
  over_quota-sum_from f (bump j seen) js ks u m.1,
  sum_over-cong ks (λ k. count_of seen k + occurrences k (j ∷ js) - f k)
      (λ k. count_of (bump j seen) k + occurrences k js - f k)
      (λ k. unfold occurrences in ground (arith, count_of-bump seen j k)),
  sum_over-change ks (λ k. count_of seen k - f k) (λ k. count_of (bump j seen) k - f k) j
      (if leb (f j) (count_of seen j) then 1 else 0) u
      (λ k. ground (arith, count_of-bump seen j k, text_beq_iff j k)),
)

pub over_quota-sum :
    (f : Text → ℕ) (js ks : List Text)
    → Distinct ks
    → All (λ j. mem j ks ≡ true) js
    → sum_over ks (λ k. occurrences k js - f k) ≡ over_quota f [] js
over_quota-sum f js ks u m = omega (
  arith,
  over_quota-sum_from f [] js ks u m,
  sum_over-zero ks (λ k. count_of [] k - f k) (λ k. unfold count_of in omega arith),
  sum_over-cong ks (λ k. count_of [] k + occurrences k js - f k) (λ k. occurrences k js - f k)
      (λ k. unfold count_of in omega arith),
)

-- With no quota at all, every element counts.
over_quota_none : (seen : Counter) (js : List Text) → over_quota (λ k. 0) seen js ≡ length js
unfolding over_quota
over_quota_none seen [] = refl
over_quota_none seen (j ∷ js) = ground (arith, over_quota_none (bump j seen) js)

pub sum_over-occurrences :
    (js ks : List Text)
    → Distinct ks
    → All (λ j. mem j ks ≡ true) js
    → sum_over ks (λ k. occurrences k js) ≡ length js
sum_over-occurrences js ks u m = omega (
  arith,
  over_quota-sum (λ k. 0) js ks u m,
  over_quota_none [] js,
  sum_over-cong ks (λ k. occurrences k js - 0) (λ k. occurrences k js) (λ k. omega arith),
)
