-- ===== src/Sync/Quotas.antt =====
-- The counts of `diff_snapshots` as sums over one list of keys.
use open_playlist_engine.Prelude.{
  ◌+◌, ◌++◌, ℕ, ◌-◌, ◌≡◌, refl, true, false, List, [], ◌∷◌, length, arith, Text, text_eq,
  text_beq_iff, All,
}
use open_playlist_engine.Counter.{Counter, keys, count_of, bump, tally, mem}
use open_playlist_engine.Counter.Laws.{
  mem-append, tally-Distinct, Distinct, occurrences, count_of-tally, mem-keys-tally,
}
use open_playlist_engine.Counter.Sums.{
  sum_over-zero, sum_over-add, sum_over-occurrences, sum_over-cong, over_quota-sum, sum_over,
  over_quota,
}
use open_playlist_engine.Sync.Snapshot.{Entry}
use open_playlist_engine.Sync.Diff.{identities, identity_counts, added, removed}

pub length-added :
    (before seen : Counter) (es : List Entry)
    → length (added before seen es) ≡ over_quota (count_of before) seen (identities es)
unfolding added over_quota
length-added before seen [] = refl
length-added before seen (e ∷ es) = ground (arith, length-added before (bump e.identity seen) es)

agree-cons :
    (k : Text) (n : ℕ) (c d : Counter)
    → mem k (keys d) ≡ false
    → All (λ e. count_of c e.0 ≡ e.1) d
    → All (λ e. count_of ((k, n) ∷ c) e.0 ≡ e.1) d
unfolding mem count_of
agree-cons k n c [] h a = tt
agree-cons k n c ((j, m) ∷ d) h a =
    ground (arith, text_beq_iff k j, text_beq_iff j k, agree-cons k n c d)

agree : (c : Counter) → Distinct (keys c) → All (λ e. count_of c e.0 ≡ e.1) c
agree [] u = tt
agree ((k, n) ∷ c) u =
    (unfold count_of in ground (arith, text_beq_iff k k), agree-cons k n c c u.0 (agree c u.1))

removed-sum_from :
    (g : Text → ℕ) (c after : Counter)
    → All (λ e. g e.0 ≡ e.1) c
    → removed c after ≡ sum_over (keys c) (λ k. g k - count_of after k)
unfolding removed sum_over
removed-sum_from g [] after a = refl
removed-sum_from g ((k, n) ∷ c) after a = omega (arith, a.0, removed-sum_from g c after a.1)

All-weaken :
    (js ks : List Text) (j : Text)
    → All (λ i. mem i ks ≡ true) js
    → All (λ i. mem i (j ∷ ks) ≡ true) js
unfolding mem
All-weaken [] ks j h = tt
All-weaken (i ∷ js) ks j h = (ground (arith, h.0), All-weaken js ks j h.1)

All-mem : (js : List Text) → All (λ i. mem i js ≡ true) js
All-mem [] = tt
All-mem (j ∷ js) = (unfold mem in ground (arith, text_beq_iff j j), All-weaken js js j (All-mem js))

All-mem-tally :
    (ks js : List Text)
    → All (λ i. mem i ks ≡ true) js
    → All (λ i. mem i (keys (tally [] ks)) ≡ true) js
All-mem-tally ks [] h = tt
All-mem-tally ks (j ∷ js) h = (ground (arith, mem-keys-tally [] ks j, h.0), All-mem-tally ks js h.1)

pub count_of-identity_counts :
    (es : List Entry) (k : Text) → count_of (identity_counts es) k ≡ occurrences k (identities es)
unfolding identity_counts
count_of-identity_counts es k = omega (
  arith,
  count_of-tally [] (identities es) k,
  let e : count_of [] k ≡ 0 = unfold count_of in refl in e,
)

-- What was removed is what is over the current counts among the previous entries.
pub removed-over_quota :
    (es : List Entry) (after : Counter)
    → removed (identity_counts es) after ≡ over_quota (count_of after) [] (identities es)
removed-over_quota es after =
    let before = identity_counts es in
    omega (
      arith,
      removed-sum_from (count_of before) before after
          (agree before (unfold identity_counts in tally-Distinct [] (identities es) tt)),
      sum_over-cong (keys before) (λ k. count_of before k - count_of after k)
          (λ k. occurrences k (identities es) - count_of after k)
          (λ k. omega (arith, count_of-identity_counts es k)),
      over_quota-sum (count_of after) (identities es) (keys before)
          (unfold identity_counts in tally-Distinct [] (identities es) tt)
          (unfold identity_counts in
            All-mem-tally (identities es) (identities es) (All-mem (identities es))),
    )

-- One list of distinct keys that holds every identity of two lists.
pub all_keys : List Text → List Text → List Text
all_keys js ks = keys (tally [] (js ++ ks))

pub all_keys-Distinct : (js ks : List Text) → Distinct (all_keys js ks)
unfolding all_keys
all_keys-Distinct js ks = tally-Distinct [] (js ++ ks) tt

All-or_left :
    (is js ks : List Text) → All (λ i. mem i js ≡ true) is → All (λ i. mem i (js ++ ks) ≡ true) is
All-or_left [] js ks h = tt
All-or_left (i ∷ is) js ks h = (ground (arith, mem-append i js ks, h.0), All-or_left is js ks h.1)

All-or_right :
    (is js ks : List Text) → All (λ i. mem i ks ≡ true) is → All (λ i. mem i (js ++ ks) ≡ true) is
All-or_right [] js ks h = tt
All-or_right (i ∷ is) js ks h = (ground (arith, mem-append i js ks, h.0), All-or_right is js ks h.1)

pub all_keys-left : (js ks : List Text) → All (λ j. mem j (all_keys js ks) ≡ true) js
unfolding all_keys
all_keys-left js ks = All-mem-tally (js ++ ks) js (All-or_left js js ks (All-mem js))

pub all_keys-right : (js ks : List Text) → All (λ k. mem k (all_keys js ks) ≡ true) ks
unfolding all_keys
all_keys-right js ks = All-mem-tally (js ++ ks) ks (All-or_right ks js ks (All-mem ks))

-- Two lists, each measured by the quotas that the other one sets.
pub over_quota-balance :
    (js ks : List Text) (f g : Text → ℕ)
    → ((k : Text) → f k ≡ occurrences k js)
    → ((k : Text) → g k ≡ occurrences k ks)
    → over_quota f [] ks + length js ≡ over_quota g [] js + length ks
over_quota-balance js ks f g ef eg =
    let all = all_keys js ks in
    let u = all_keys-Distinct js ks in
    omega (
      arith,
      over_quota-sum f ks all u (all_keys-right js ks),
      over_quota-sum g js all u (all_keys-left js ks),
      sum_over-occurrences js all u (all_keys-left js ks),
      sum_over-occurrences ks all u (all_keys-right js ks),
      sum_over-add all (λ k. occurrences k ks - f k) (λ k. occurrences k js)
          (λ k. occurrences k ks - f k + occurrences k js) (λ k. refl),
      sum_over-add all (λ k. occurrences k js - g k) (λ k. occurrences k ks)
          (λ k. occurrences k js - g k + occurrences k ks) (λ k. refl),
      sum_over-cong all (λ k. occurrences k ks - f k + occurrences k js)
          (λ k. occurrences k js - g k + occurrences k ks) (λ k. omega (arith, ef k, eg k)),
    )

-- A quota may be cut down to what there is.
pub over_quota-min :
    (js : List Text) (f m : Text → ℕ)
    → ((k : Text) → occurrences k js - m k ≡ occurrences k js - f k)
    → over_quota m [] js ≡ over_quota f [] js
over_quota-min js f m e =
    let all = all_keys js [] in
    let u = all_keys-Distinct js [] in
    omega (
      arith,
      over_quota-sum f js all u (all_keys-left js []),
      over_quota-sum m js all u (all_keys-left js []),
      sum_over-cong all (λ k. occurrences k js - m k) (λ k. occurrences k js - f k) e,
    )

-- No element is over the quotas that its own list sets.
pub over_quota_self :
    (js : List Text) (f : Text → ℕ) → ((k : Text) → f k ≡ occurrences k js) → over_quota f [] js ≡ 0
over_quota_self js f e =
    let all = all_keys js [] in
    omega (
      arith,
      over_quota-sum f js all (all_keys-Distinct js []) (all_keys-left js []),
      sum_over-zero all (λ k. occurrences k js - f k) (λ k. omega (arith, e k)),
    )
