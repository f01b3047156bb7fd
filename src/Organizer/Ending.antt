-- ===== src/Organizer/Ending.antt =====
-- The rows and the counts of an organizer job that has run.
use open_playlist_engine.Prelude.{
  some, Result, ok, raised, ℕ, zero, suc, ◌+◌, ◌≤◌, ◌≡◌, refl, Bool, true, false, not, Option, none,
  List, [], ◌∷◌, All, all, length, count_if, if◌then◌else◌, ltb, arith, Text, Bool-cases, inl, inr,
}
use open_playlist_engine.Providers.{
  AdapterError, auth_expired, refresh_token_expired, access_denied, rate_limited, not_found,
  unsupported, other, foreign, is_foreign,
}
use open_playlist_engine.Organizer.Adapter.{Adapter, OrganizerItem, running}
use open_playlist_engine.Organizer.Execute.{Execution, executed, rejected, broken}
use open_playlist_engine.Organizer.Job.{
  Settings, ItemRun, is_ended, is_done, has_failed, fail_item, may_retry, failed_with, after_error,
  after_attempt, run_attempts, run_item, run_items, run_job, join_items, ItemsRun, OrganizerCounts,
  counted_or_raised, count_items,
}

done_or_failed :
    (i : OrganizerItem)
    → is_ended i ≡ true
    → (if is_done i then 1 else 0) + (if has_failed i then 1 else 0) ≡ 1
done_or_failed i h = ground (arith, h)

All-counted :
    (is : List OrganizerItem)
    → All (λ i. is_ended i ≡ true) is
    → count_if is_done is + count_if has_failed is ≡ length is
All-counted [] h = refl
All-counted (i ∷ is) h = ground (arith, done_or_failed i h.0, All-counted is h.1)

partial_iff :
    (is : List OrganizerItem)
    → All (λ i. is_ended i ≡ true) is
    → ltb 0 (count_if has_failed is) ≡ not (all is_done is)
partial_iff [] h = refl
partial_iff (i ∷ is) h = ground (arith, done_or_failed i h.0, partial_iff is h.1)

module _ {W : Type 0} (a : Adapter W) (fold : Text → Text) (digest : List Text → Text)
    (s : Settings) where
  -- The row has ended, or an exception that is no `ProviderError` has left it.
  abbrev HasEnded : Option AdapterError → OrganizerItem → Type 0
  HasEnded none i = is_ended i ≡ true
  HasEnded (some e) i = is_foreign e ≡ true

  -- So it is over, and has used so many attempts at most.
  record IsOver (n : ℕ) (r : ItemRun W) : Type 0 where
    ended : HasEnded r.escaped r.item
    bounded : r.item.attempts ≤ n

  after_error-IsOver :
      (n attempt : ℕ) (i : OrganizerItem) (w : W) (e : AdapterError) (later : ItemRun W)
      → i.attempts ≤ n
      → ((after : Option ℕ) → may_retry a fold digest s attempt after ≡ true → IsOver n later)
      → IsOver n (after_error a fold digest s attempt i w e later)
  unfolding after_error failed_with fail_item is_foreign
  after_error-IsOver n attempt i w (rate_limited after m) later b k =
      elim (Bool-cases (may_retry a fold digest s attempt after)) [
        | inl again ↦ rw again (k after again)
        | inr over ↦ rw over (record { ended = refl; bounded = b })
      ]
  after_error-IsOver n attempt i w (auth_expired m) later b k = record { ended = refl; bounded = b }
  after_error-IsOver n attempt i w (refresh_token_expired m) later b k = record {
    ended = refl;
    bounded = b;
  }
  after_error-IsOver n attempt i w (access_denied m) later b k = record {
    ended = refl;
    bounded = b;
  }
  after_error-IsOver n attempt i w (not_found m) later b k = record { ended = refl; bounded = b }
  after_error-IsOver n attempt i w (unsupported m) later b k = record { ended = refl; bounded = b }
  after_error-IsOver n attempt i w (other m) later b k = record { ended = refl; bounded = b }
  after_error-IsOver n attempt i w (foreign name m) later b k = record { ended = refl; bounded = b }

  after_attempt-IsOver :
      (n attempt : ℕ) (i : OrganizerItem) (answer : Execution × W) (later : ItemRun W)
      → i.attempts ≤ n
      → ((after : Option ℕ) → may_retry a fold digest s attempt after ≡ true → IsOver n later)
      → IsOver n (after_attempt a fold digest s attempt i answer later)
  unfolding after_attempt fail_item
  after_attempt-IsOver n attempt i (executed payload, w) later b k = record {
    ended = refl;
    bounded = b;
  }
  after_attempt-IsOver n attempt i (rejected why payload, w) later b k = record {
    ended = refl;
    bounded = b;
  }
  after_attempt-IsOver n attempt i (broken e, w) later b k =
      after_error-IsOver n attempt i w e later b k

  retry_left :
      (left attempt : ℕ) (after : Option ℕ)
      → attempt + suc left ≡ s.retry_attempts
      → may_retry a fold digest s attempt after ≡ true
      → 1 ≤ left
  unfolding may_retry
  retry_left left attempt after e m = ground (arith, e, m)

  run_attempts-IsOver :
      (left attempt : ℕ) (i : OrganizerItem) (w : W)
      → attempt + left ≡ s.retry_attempts
      → 1 ≤ left
      → IsOver (i.attempts + left) (run_attempts a fold digest s left attempt i w)
  unfolding run_attempts
  run_attempts-IsOver zero attempt i w e p = ground (arith, p)
  run_attempts-IsOver (suc left) attempt i w e p =
      let counted : OrganizerItem = record i { attempts = i.attempts + 1 } in
      after_attempt-IsOver (i.attempts + suc left) attempt counted _ _ (omega arith) (λ after m.
        let h =
          run_attempts-IsOver left (attempt + 1) counted _ (omega (arith, e))
            (retry_left left attempt after e m) in
        record { ended = h.ended; bounded = omega (arith, h.bounded) })

  module _ (some_attempt : 1 ≤ s.retry_attempts) where
    chosen :
        (b : Bool) (i : OrganizerItem) (w : W)
        → is_ended i ≡ b
        → IsOver (i.attempts + s.retry_attempts) (
            if b
            then record { success = false; item = i; world = w; escaped = none }
            else run_item a fold digest s i w)
    unfolding run_item
    chosen true i w e = record { ended = e; bounded = omega arith }
    chosen false i w e =
        run_attempts-IsOver s.retry_attempts 0 (record i { status = running; error = none }) w
          (omega arith) some_attempt

    -- The same of several rows.
    abbrev AllEnded : Option AdapterError → List OrganizerItem → Type 0
    AllEnded none is = All (λ i. is_ended i ≡ true) is
    AllEnded (some e) is = is_foreign e ≡ true

    join-AllEnded :
        (o : Option AdapterError) (out : ItemRun W) (is : List OrganizerItem) (later : ItemsRun W)
        → HasEnded o out.item
        → AllEnded later.escaped later.items
        → length later.items ≡ length is
        → AllEnded
            (join_items a fold digest s o out is later).escaped
            (join_items a fold digest s o out is later).items
          × (length (join_items a fold digest s o out is later).items ≡ suc (length is))
    unfolding join_items
    join-AllEnded (some e) out is later h k n = (h, refl)
    join-AllEnded none out is later h k n =
        (all_of later.escaped out.item later.items h k, omega (arith, n))
      where
        all_of :
            (o : Option AdapterError) (i : OrganizerItem) (rest : List OrganizerItem)
            → is_ended i ≡ true
            → AllEnded o rest
            → AllEnded o (i ∷ rest)
        all_of none i rest h k = (h, k)
        all_of (some e) i rest h k = k

    run_items-ended :
        (is : List OrganizerItem) (w : W)
        → AllEnded (run_items a fold digest s is w).escaped (run_items a fold digest s is w).items
          × (length (run_items a fold digest s is w).items ≡ length is)
    unfolding run_items
    run_items-ended [] w = (tt, refl)
    run_items-ended (i ∷ is) w =
        let out : ItemRun W =
          if is_ended i
          then record { success = false; item = i; world = w; escaped = none }
          else run_item a fold digest s i w in
        let (h, n) = run_items-ended is out.world in
        join-AllEnded out.escaped out is (run_items a fold digest s is out.world)
          ((chosen (is_ended i) i w refl).ended) h n

    -- What the result of a job says of its rows.
    abbrev pub JobEnds : List OrganizerItem → Result AdapterError OrganizerCounts → Type 0
    JobEnds items (raised e) = is_foreign e ≡ true
    JobEnds items (ok c) =
        All (λ i. is_ended i ≡ true) items
        × (c.total ≡ length items)
        × (c.done + c.failures ≡ length items)
        × (c.partial ≡ not (all is_done items))

    counted-JobEnds :
        (o : Option AdapterError) (items : List OrganizerItem)
        → AllEnded o items
        → JobEnds items (counted_or_raised a fold digest s o items)
    unfolding counted_or_raised count_items
    counted-JobEnds none items h =
        (h, refl, omega (arith, All-counted items h), partial_iff items h)
    counted-JobEnds (some e) items h = h

    -- With one attempt at least, where the limiter lets each call through: no item of an organizer
    -- job is lost, and either an exception leaves that is no ProviderError, or every item ends,
    -- those done and those failed are all the items, and the job is partial exactly when not all
    -- are done.
    pub run_job-ended :
        (is : List OrganizerItem) (w : W)
        → JobEnds (run_job a fold digest s is w).items (run_job a fold digest s is w).result
          × (length (run_job a fold digest s is w).items ≡ length is)
    unfolding run_job
    run_job-ended is w =
        let (ended, size) = run_items-ended is w in
        let out = run_items a fold digest s is w in
        (counted-JobEnds out.escaped out.items ended, size)
