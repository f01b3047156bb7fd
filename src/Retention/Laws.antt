-- ===== src/Retention/Laws.antt =====
-- The snapshots that are not selected for deletion.
use open_playlist_engine.Prelude.{
  Result, ok, raised, inr, inl, Bool-cases, ltb, All, ℕ, zero, suc, ◌+◌, ◌≤◌, ◌≡◌, max, refl, Bool,
  true, false, not, ◌||◌, Option, none, some, List, [], ◌∷◌, ◌++◌, filter, length, drop, all,
  count_if, Text, text_beq_iff, text_eq, ◌==◌, arith, length-drop, length-filter, ◌∙◌, ◌&&◌, nat_eq,
}
use open_playlist_engine.Counter.{mem}
use open_playlist_engine.Retention.{
  RetentionFault, cutoff_fails, time_before, is_eligible, key_before, insert_newest, newest_first,
  LibrarySnapshot, eligible, backwards, ids, count_overflow, is_too_old, age_overflow, select,
  retention_candidates,
}

-- Nothing whose id is `k` passes a test for ids among which `k` is not.
unselected :
    (k : Text) (del : List Text) (ss : List LibrarySnapshot)
    → mem k del ≡ false
    → all
        (λ (s : LibrarySnapshot). not (s.id == k))
        (filter (λ (s : LibrarySnapshot). mem s.id del) ss)
      ≡ true
unselected k del [] h = refl
unselected k del (s ∷ ss) h = ground (arith, text_beq_iff s.id k, unselected k del ss h)

mem-append : (k : Text) (ss ts : List Text) → mem k (ss ++ ts) ≡ mem k ss || mem k ts
unfolding mem
mem-append k [] ts = refl
mem-append k (s ∷ ss) ts = ground (arith, mem-append k ss ts)

mem-drop :
    (k : Text) (n : ℕ) (ss : List LibrarySnapshot)
    → mem k (ids ss) ≡ false
    → mem k (ids (drop n ss)) ≡ false
unfolding mem
mem-drop k zero ss h = h
mem-drop k (suc n) [] h = refl
mem-drop k (suc n) (s ∷ ss) h = mem-drop k n ss (ground (arith, h))

mem-drop_some :
    (m : ℕ) (n : LibrarySnapshot) (rest : List LibrarySnapshot)
    → 1 ≤ m
    → mem n.id (ids rest) ≡ false
    → mem n.id (ids (drop m (n ∷ rest))) ≡ false
mem-drop_some zero n rest p h = ground (arith, p)
mem-drop_some (suc m) n rest p h = mem-drop n.id m rest h

mem-count_overflow :
    (count : Option ℕ) (n : LibrarySnapshot) (rest : List LibrarySnapshot)
    → mem n.id (ids rest) ≡ false
    → mem n.id (count_overflow count (n ∷ rest)) ≡ false
unfolding count_overflow
mem-count_overflow none n rest h = unfold mem in refl
mem-count_overflow (some c) n rest h = mem-drop_some (max 1 c) n rest (omega arith) h

mem-too_old :
    (now days : ℕ) (k : Text) (ss : List LibrarySnapshot)
    → mem k (ids (filter (is_too_old now days k) ss)) ≡ false
unfolding mem is_too_old
mem-too_old now days k [] = refl
mem-too_old now days k (s ∷ ss) =
    ground (arith, text_beq_iff s.id k, text_beq_iff k s.id, mem-too_old now days k ss)

mem-age_overflow :
    (now : ℕ) (days : Option ℕ) (k : Text) (ss : List LibrarySnapshot)
    → mem k (age_overflow now days k ss) ≡ false
unfolding age_overflow
mem-age_overflow now none k ss = unfold mem in refl
mem-age_overflow now (some d) k ss = mem-too_old now d k ss

select_keeps :
    (now : ℕ) (count days : Option ℕ) (n : LibrarySnapshot) (rest : List LibrarySnapshot)
    → mem n.id (ids rest) ≡ false
    → all (λ (s : LibrarySnapshot). not (s.id == n.id)) (select now count days (n ∷ rest)) ≡ true
unfolding select
select_keeps now count days n [] h = refl
select_keeps now count days n (s ∷ rest) h =
    unselected n.id
      (count_overflow count (n ∷ s ∷ rest) ++ age_overflow now days n.id (n ∷ s ∷ rest)) _
      (mem-append n.id (count_overflow count (n ∷ s ∷ rest))
          (age_overflow now days n.id (n ∷ s ∷ rest))
        ∙ ground (
          arith,
          mem-count_overflow count n (s ∷ rest) h,
          mem-age_overflow now days n.id (n ∷ s ∷ rest),
        ))

-- What the selection returns satisfies `P`, or its limit of days goes before the first date.
abbrev pub Selects :
    ℕ
    → Option ℕ
    → (List LibrarySnapshot → Type 0)
    → Result RetentionFault (List LibrarySnapshot)
    → Type 0
Selects now days P (raised f) = cutoff_fails now days ≡ true
Selects now days P (ok out) = P out

candidates-Selects :
    (P : List LibrarySnapshot → Type 0) (ss : List LibrarySnapshot) (now : ℕ)
    (count days : Option ℕ)
    → P (select now count days (eligible ss))
    → Selects now days P (retention_candidates ss now count days)
unfolding retention_candidates
candidates-Selects P ss now count days h =
    elim (Bool-cases (ltb 1 (length (eligible ss)) && cutoff_fails now days)) [
      | inl late ↦ rw late (second (ltb 1 (length (eligible ss))) (cutoff_fails now days) late)
      | inr fits ↦ rw fits h
    ]
  where
    second : (b c : Bool) → (b && c) ≡ true → c ≡ true
    second true c h = h
    second false c h = cc

-- The other snapshot was made earlier, as far as the times say; one without a time counts as made
-- before all others.
abbrev pub is_earlier : LibrarySnapshot → LibrarySnapshot → Bool
is_earlier s n = elim n.created_at [
  | none ↦ false
  | some t ↦ elim s.created_at [ none ↦ true | some u ↦ ltb u t ]
]

-- A snapshot that does not count beside `n`: it is not eligible, or it was made earlier and has
-- another id.
abbrev pub IsPassed : LibrarySnapshot → LibrarySnapshot → Type 0
IsPassed n s = (not (is_eligible s) || is_earlier s n && not (s.id == n.id)) ≡ true

abbrev IsOlder : LibrarySnapshot → LibrarySnapshot → Type 0
IsOlder n s = (is_earlier s n && not (s.id == n.id)) ≡ true

earlier-cases :
    (s n : LibrarySnapshot) → IsOlder n s → (key_before s n ≡ true) × (key_before n s ≡ false)
unfolding key_before time_before
earlier-cases s n h = (ground (arith, h), ground (arith, h))

insert_newest-IsOlder :
    (n s : LibrarySnapshot) (l : List LibrarySnapshot)
    → IsOlder n s
    → All (IsOlder n) l
    → All (IsOlder n) (insert_newest s l)
unfolding insert_newest
insert_newest-IsOlder n s [] h k = (h, tt)
insert_newest-IsOlder n s (x ∷ l) h k = elim (Bool-cases (key_before s x)) [
  | inl e ↦ rw e (k.0, insert_newest-IsOlder n s l h k.1)
  | inr e ↦ rw e (h, k)
]

newest_first-IsOlder :
    (n : LibrarySnapshot) (l : List LibrarySnapshot)
    → All (IsPassed n) l
    → All (IsOlder n) (newest_first (filter is_eligible l))
unfolding newest_first
newest_first-IsOlder n [] h = tt
newest_first-IsOlder n (s ∷ l) h = elim (Bool-cases (is_eligible s)) [
  | inl e ↦ rw e (
      insert_newest-IsOlder n s (newest_first (filter is_eligible l)) (ground (arith, e, h.0))
        (newest_first-IsOlder n l h.1))
  | inr e ↦ rw e (newest_first-IsOlder n l h.1)
]

-- The list is led by `n`, and all the others are older.
abbrev IsLedBy : LibrarySnapshot → List LibrarySnapshot → Type 0
IsLedBy n l = (rest : List LibrarySnapshot) × (l ≡ n ∷ rest) × All (IsOlder n) rest

insert-IsLedBy :
    (n : LibrarySnapshot) (l : List LibrarySnapshot)
    → All (IsOlder n) l
    → IsLedBy n (insert_newest n l)
unfolding insert_newest
insert-IsLedBy n [] h = ([], refl, tt)
insert-IsLedBy n (s ∷ l) h = rw (earlier-cases s n h.0).1 (s ∷ l, refl, h)

insert_older-IsLedBy :
    (n s : LibrarySnapshot) (l : List LibrarySnapshot)
    → IsOlder n s
    → IsLedBy n l
    → IsLedBy n (insert_newest s l)
unfolding insert_newest
insert_older-IsLedBy n s l h (rest, e, k) =
    rw e
      (rw (earlier-cases s n h).0 (insert_newest s rest, refl, insert_newest-IsOlder n s rest h k))

newest_first-IsLedBy :
    (n : LibrarySnapshot) (before after : List LibrarySnapshot)
    → is_eligible n ≡ true
    → All (IsPassed n) before
    → All (IsPassed n) after
    → IsLedBy n (newest_first (filter is_eligible (before ++ n ∷ after)))
unfolding newest_first
newest_first-IsLedBy n [] after e h k =
    rw e
      (insert-IsLedBy n (newest_first (filter is_eligible after)) (newest_first-IsOlder n after k))
newest_first-IsLedBy n (s ∷ before) after e h k =
    let later = newest_first-IsLedBy n before after e h.1 k in
    elim (Bool-cases (is_eligible s)) [
      | inl q ↦ rw q (
          insert_older-IsLedBy n s (newest_first (filter is_eligible (before ++ n ∷ after)))
            (ground (arith, q, h.0)) later)
      | inr q ↦ rw q later
    ]

IsOlder-other_id :
    (n : LibrarySnapshot) (l : List LibrarySnapshot) → All (IsOlder n) l → mem n.id (ids l) ≡ false
unfolding mem
IsOlder-other_id n [] h = refl
IsOlder-other_id n (s ∷ l) h = ground (arith, h.0, IsOlder-other_id n l h.1)

-- An eligible snapshot, where every other one is not eligible, or was made earlier and has another
-- id, is not among the candidates for deletion, whatever the limits and wherever it stands in the
-- list; a limit of days that goes before the first date gives an OverflowError.
pub retention_candidates_keep :
    (before after : List LibrarySnapshot) (n : LibrarySnapshot) (now : ℕ) (count days : Option ℕ)
    → is_eligible n ≡ true
    → All (IsPassed n) before
    → All (IsPassed n) after
    → Selects now days
        (λ out. all (λ (s : LibrarySnapshot). not (s.id == n.id)) out ≡ true)
        (retention_candidates (before ++ n ∷ after) now count days)
unfolding eligible
retention_candidates_keep before after n now count days e h k =
    let (rest, q, older) = newest_first-IsLedBy n before after e h k in
    candidates-Selects (λ out. all (λ (s : LibrarySnapshot). not (s.id == n.id)) out ≡ true)
      (before ++ n ∷ after) now count days
      (rw q (select_keeps now count days n rest (IsOlder-other_id n rest older)))

-- The candidates are as many as the elements with an id to delete.
count-append :
    (p : LibrarySnapshot → Bool) (ss ts : List LibrarySnapshot)
    → count_if p (ss ++ ts) ≡ count_if p ss + count_if p ts
count-append p [] ts = omega arith
count-append p (s ∷ ss) ts = ground (arith, count-append p ss ts)

count-backwards :
    (p : LibrarySnapshot → Bool) (ss : List LibrarySnapshot)
    → count_if p (backwards ss) ≡ count_if p ss
unfolding backwards
count-backwards p [] = refl
count-backwards p (s ∷ ss) =
    ground (arith, count-backwards p ss, count-append p (backwards ss) (s ∷ []))

count-drop :
    (p : LibrarySnapshot → Bool) (n : ℕ) (ss : List LibrarySnapshot)
    → count_if p (drop n ss) ≤ count_if p ss
count-drop p zero ss = omega arith
count-drop p (suc n) [] = omega arith
count-drop p (suc n) (s ∷ ss) = ground (arith, count-drop p n ss)

-- Every element is counted whose ids are all among those to delete.
covered :
    (ss : List LibrarySnapshot) (del : List Text)
    → ((k : Text) → mem k (ids ss) ≡ true → mem k del ≡ true)
    → count_if (λ (s : LibrarySnapshot). mem s.id del) ss ≡ length ss
covered [] del h = refl
covered (s ∷ ss) del h =
    let here : mem s.id (ids (s ∷ ss)) ≡ true =
      unfold mem in ground (arith, text_beq_iff s.id s.id) in
    let later = covered ss del (λ k m. h k (unfold mem in ground (arith, m))) in
    ground (arith, h s.id here, later)

count-selected :
    (m : ℕ) (ss : List LibrarySnapshot) (extra : List Text)
    → length ss ≤ m + count_if (λ (s : LibrarySnapshot). mem s.id (ids (drop m ss) ++ extra)) ss
count-selected m ss extra = omega (
  arith,
  count-drop (λ (s : LibrarySnapshot). mem s.id (ids (drop m ss) ++ extra)) m ss,
  covered (drop m ss) (ids (drop m ss) ++ extra)
      (λ k h. mem-append k (ids (drop m ss)) extra ∙ ground (arith, h)),
  length-drop m ss,
)

select_limit :
    (now count : ℕ) (days : Option ℕ) (ss : List LibrarySnapshot)
    → length ss ≤ max 1 count + length (select now (some count) days ss)
unfolding select count_overflow
select_limit now count days [] = omega arith
select_limit now count days (n ∷ []) = omega arith
select_limit now count days (n ∷ s ∷ rest) =
    let el = n ∷ s ∷ rest in
    let del = ids (drop (max 1 count) el) ++ age_overflow now days n.id el in
    omega (
      arith,
      count-selected (max 1 count) el (age_overflow now days n.id el),
      count-backwards (λ (x : LibrarySnapshot). mem x.id del) el,
      length-filter (λ (x : LibrarySnapshot). mem x.id del) (backwards el),
    )

-- With a limit on the count, the eligible snapshots that are not candidates for deletion number at
-- most that limit, or one if it is zero; a limit of days that goes before the first date gives an
-- OverflowError.
pub retention_candidates_limit :
    (ss : List LibrarySnapshot) (now count : ℕ) (days : Option ℕ)
    → Selects now days
        (λ out. length (eligible ss) ≤ max 1 count + length out)
        (retention_candidates ss now (some count) days)
retention_candidates_limit ss now count days =
    candidates-Selects (λ out. length (eligible ss) ≤ max 1 count + length out) ss now (some count)
      days (select_limit now count days (eligible ss))
