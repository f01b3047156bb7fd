-- ===== src/Migration/Completion.antt =====
-- The state of the loop over a playlist, as the loop goes on and when it ends.
use open_playlist_engine.Prelude.{
  sym, ◌∙◌, ◌⊎◌, inl, inr, Bool-cases, if◌then◌else◌, not, ◌&&◌, ℕ, zero, suc, ◌+◌, ◌-◌, ◌≤◌, max,
  ◌≡◌, refl, Bool, true, false, ◌||◌, Option, none, some, List, [], ◌∷◌, ◌++◌, length, take, drop,
  All, length-append, length-take, length-drop, arith, Text, Result, ok, raised, ltb, Option-cases,
  is_some,
}
use native.Mathlib.Nat.{zero-add, add-zero, add-suc, suc-add}
use open_playlist_engine.Models.{Track, is_migratable, truthy}
use open_playlist_engine.Models.Normalize.{TextOps}
use open_playlist_engine.Providers.{
  is_foreign, AdapterError, AddItemResult, MatchResult, TrackCandidate, message,
}
use open_playlist_engine.Keys.{UrlOps}
use open_playlist_engine.Migration.{
  JobItem, ItemStatus, pending, matched, needs_review, written, skipped, failed,
}
use open_playlist_engine.Migration.Write.{
  propagated, WriteOutcome, fail, write_chunk_size, write_matched_items,
}
use open_playlist_engine.Migration.ReviewHistory.{apply_review_history_bonus}
use open_playlist_engine.Migration.Loop.{
  Run, JobSettings, Matched, through, to_write, stopped, write_chunk, flush_matched_chunk,
  with_candidate, with_result, resolved, match_item, by_status, take_up, failed_item, stop_on,
  process_item, process_items, flush_all, run_playlist,
}
use open_playlist_engine.Migration.Terminal.{IsEnded, All-append, write_matched_items-IsEnded}

-- The item is decided: it ended, it waits for a reviewer, or the job only matches.
abbrev pub is_settled : Bool → JobItem → Bool
is_settled match_only i = elim i.status [
  | pending ↦ false
  | matched ↦ match_only
  | needs_review ↦ true
  | written ↦ true
  | skipped ↦ true
  | failed ↦ true
]

All-settled : (m : Bool) (is : List JobItem) → All IsEnded is → All (λ i. is_settled m i ≡ true) is
All-settled m [] h = tt
All-settled m (i ∷ is) h = (ground (arith, h.0), All-settled m is h.1)

some-none : (e : AdapterError) → some e ≡ none → ⊥
some-none e h = cc

module _ ⦃ops : TextOps⦄ ⦃urls : UrlOps⦄ {W : Type 0}
    (add_tracks : Text → List Text → W → Result AdapterError (List AddItemResult) × W)
    (resolve : Track → W → Result AdapterError MatchResult × W) (low_confidence : ℕ → Text)
    (s : JobSettings) where
  abbrev Settled : JobItem → Type 0
  Settled i = is_settled s.match_only i ≡ true

  -- The items that are through are decided; `n` items were taken up.
  pub record IsSound (n : ℕ) (r : Run W) : Type 0 where
    pub decided : All Settled r.finished
    pub counted : length r.finished + length r.buffer ≡ n

  abbrev is_placed : Matched W → Bool
  is_placed (through i w) = is_settled s.match_only i
  is_placed (to_write i w) = true
  is_placed (stopped i e w) = true

  with_candidate-is_placed :
      (i : JobItem) (m : MatchResult) (w : W) (c : TrackCandidate)
      → is_placed (with_candidate add_tracks resolve low_confidence s i m w c) ≡ true
  unfolding with_candidate
  with_candidate-is_placed i m w c = ground arith

  with_result-is_placed :
      (i : JobItem) (m : MatchResult) (w : W)
      → is_placed (with_result add_tracks resolve low_confidence s i m w) ≡ true
  unfolding with_result
  with_result-is_placed i m w = elim (Option-cases m.candidate) [
    | inl absent ↦ rw absent
    | inr (c, found) ↦ rw found (with_candidate-is_placed i m w c)
  ]

  failed_item-is_placed :
      (i : JobItem) (w : W) (e : Option AdapterError)
      → (e ≡ none → is_settled s.match_only i ≡ true)
      → is_placed (failed_item add_tracks resolve low_confidence s i w e) ≡ true
  unfolding failed_item
  failed_item-is_placed i w none h = h refl
  failed_item-is_placed i w (some e) h = refl

  -- What is caught makes the item fail.
  settled_if_caught :
      (i : JobItem) (e : AdapterError)
      → propagated s.origin e ≡ none
      → is_settled s.match_only (if is_foreign e then i else fail (message e) i) ≡ true
  unfolding propagated
  settled_if_caught i e caught = elim (Bool-cases (is_foreign e)) [
    | inl other ↦ absurd (some-none e (rw other at caught))
    | inr known ↦ rw known refl
  ]

  resolved-is_placed :
      (i : JobItem) (t : Track) (answer : Result AdapterError MatchResult × W)
      → is_placed (resolved add_tracks resolve low_confidence s i t answer) ≡ true
  unfolding resolved
  resolved-is_placed i t (ok m, w) =
      with_result-is_placed i (apply_review_history_bonus s.history t m s.review_threshold) w
  resolved-is_placed i t (raised e, w) =
      failed_item-is_placed (if is_foreign e then i else fail (message e) i) w
        (propagated s.origin e) (λ caught. settled_if_caught i e caught)

  match_item-is_placed :
      (i : JobItem) (t : Track) (w : W)
      → is_placed (match_item add_tracks resolve low_confidence s i t w) ≡ true
  unfolding match_item
  match_item-is_placed i t w = elim (Bool-cases (is_migratable t)) [
    | inl fits ↦
        rw fits (resolved-is_placed (record i { status = pending; reason = none }) t (resolve t w))
    | inr other ↦ rw other
  ]

  by_status-is_placed :
      (st : ItemStatus) (i : JobItem) (t : Track) (w : W)
      → i.status ≡ st
      → is_placed (by_status add_tracks resolve low_confidence s st i t w) ≡ true
  unfolding by_status
  by_status-is_placed written i t w e = ground arith
  by_status-is_placed skipped i t w e = ground arith
  by_status-is_placed needs_review i t w e = ground arith
  by_status-is_placed matched i t w e = elim (Bool-cases (is_some (truthy i.target_uri))) [
    | inl there ↦ rw there
    | inr absent ↦ rw absent (match_item-is_placed i t w)
  ]
  by_status-is_placed pending i t w e = match_item-is_placed i t w
  by_status-is_placed failed i t w e = match_item-is_placed i t w

  -- Without an error the items have ended.
  silent-IsEnded :
      (out : WriteOutcome W)
      → out.error ≡ none
      → ((e : AdapterError) × (out.error ≡ some e) × (is_foreign e ≡ true)) ⊎ All IsEnded out.items
      → All IsEnded out.items
  silent-IsEnded out z (inl (e, q, _)) = absurd (some-none e (sym q ∙ z))
  silent-IsEnded out z (inr ended) = ended

  write_chunk-IsSound :
      (chunk rest : List JobItem) (r : Run W) (n : ℕ)
      → All Settled r.finished
      → length r.finished + length chunk + length rest ≡ n
      → (write_chunk add_tracks resolve low_confidence s chunk rest r).error ≡ none
      → IsSound n (write_chunk add_tracks resolve low_confidence s chunk rest r)
  unfolding write_chunk
  write_chunk-IsSound chunk rest r n h c z =
      let out = write_matched_items add_tracks s.origin s.playlist r.existing chunk r.world in
      let (ends, size) =
        write_matched_items-IsEnded add_tracks s.origin s.playlist r.existing chunk r.world in
      let ended = silent-IsEnded out z ends in
      record {
        decided =
            All-append Settled r.finished out.items h (All-settled s.match_only out.items ended);
        counted = omega (arith, length-append r.finished out.items, size);
      }

  flush-IsSound :
      (force : Bool) (r : Run W) (n : ℕ)
      → IsSound n r
      → (flush_matched_chunk add_tracks resolve low_confidence s force r).error ≡ none
      → IsSound n (flush_matched_chunk add_tracks resolve low_confidence s force r)
  unfolding flush_matched_chunk
  flush-IsSound force r n h z =
      let size = write_chunk_size s.capabilities in
      elim (Bool-cases (ltb 0 (length r.buffer) && (force || not (ltb (length r.buffer) size)))) [
        | inl full ↦ rw full (
            write_chunk-IsSound (take size r.buffer) (drop size r.buffer) r n h.decided
              (omega (arith, h.counted, length-take size r.buffer, length-drop size r.buffer))
              (rw full at z))
        | inr other ↦ rw other h
      ]

  take_up-IsSound :
      (r : Run W) (m : Matched W) (n : ℕ)
      → IsSound n r
      → is_placed m ≡ true
      → (take_up add_tracks resolve low_confidence s r m).error ≡ none
      → IsSound (suc n) (take_up add_tracks resolve low_confidence s r m)
  unfolding take_up
  take_up-IsSound r (through i w) n h p z = record {
    decided = All-append Settled r.finished (i ∷ []) h.decided (p, tt);
    counted = omega (arith, h.counted, length-append r.finished (i ∷ []));
  }
  take_up-IsSound r (stopped i e w) n h p z = absurd (some-none e z)
  take_up-IsSound r (to_write i w) n h p z =
      flush-IsSound false (record r { world = w; buffer = r.buffer ++ i ∷ [] }) (suc n)
        (record {
          decided = h.decided;
          counted = omega (arith, h.counted, length-append r.buffer (i ∷ []));
        })
        z

  process_item-IsSound :
      (r : Run W) (p : JobItem × Track) (n : ℕ)
      → IsSound n r
      → (process_item add_tracks resolve low_confidence s r p).error ≡ none
      → IsSound (suc n) (process_item add_tracks resolve low_confidence s r p)
  unfolding process_item
  process_item-IsSound r (i, t) n h z =
      let placed : JobItem = record i { target_playlist_id = some s.playlist } in
      take_up-IsSound r (by_status add_tracks resolve low_confidence s i.status placed t r.world) n
        h (by_status-is_placed i.status placed t r.world refl) z

  -- What holds of a loop that an error may end.
  stop_on_without_error :
      (P : Run W → Type 0) (o : Option AdapterError) (a b : Run W)
      → a.error ≡ o
      → (o ≡ none → b.error ≡ none → P b)
      → (stop_on add_tracks resolve low_confidence s o a b).error ≡ none
      → P (stop_on add_tracks resolve low_confidence s o a b)
  unfolding stop_on
  stop_on_without_error P none a b e h z = h refl z
  stop_on_without_error P (some x) a b e h z = cc

  process_items-IsSound :
      (r : Run W) (ps : List (JobItem × Track)) (n : ℕ)
      → IsSound n r
      → (process_items add_tracks resolve low_confidence s r ps).error ≡ none
      → IsSound (n + length ps) (process_items add_tracks resolve low_confidence s r ps)
  unfolding process_items
  process_items-IsSound r [] n h z = rw add-zero h
  process_items-IsSound r (p ∷ ps) n h z =
      let next = process_item add_tracks resolve low_confidence s r p in
      stop_on_without_error (IsSound (n + length (p ∷ ps))) next.error next
        (process_items add_tracks resolve low_confidence s next ps) refl
        (λ calm z'.
          rw (add-suc, ← suc-add)
            (process_items-IsSound next ps (suc n) (process_item-IsSound r p n h calm) z'))
        z

  flush-shrinks :
      (r : Run W)
      → length (flush_matched_chunk add_tracks resolve low_confidence s true r).buffer
        ≤ length r.buffer - 1
  unfolding flush_matched_chunk write_chunk write_chunk_size
  flush-shrinks r = ground (arith, length-drop (max 1 s.capabilities.max_add_batch) r.buffer)

  flush_all-IsSound :
      (fuel : ℕ) (r : Run W) (n : ℕ)
      → IsSound n r
      → length r.buffer ≤ fuel
      → (flush_all add_tracks resolve low_confidence s fuel r).error ≡ none
      → IsSound n (flush_all add_tracks resolve low_confidence s fuel r)
        × (length (flush_all add_tracks resolve low_confidence s fuel r).buffer ≡ 0)
  unfolding flush_all
  flush_all-IsSound zero r n h b z = (h, omega arith)
  flush_all-IsSound (suc fuel) r n h b z =
      let next = flush_matched_chunk add_tracks resolve low_confidence s true r in
      stop_on_without_error (λ x. IsSound n x × (length x.buffer ≡ 0)) next.error next
        (flush_all add_tracks resolve low_confidence s fuel next) refl
        (λ calm z'.
          flush_all-IsSound fuel next n (flush-IsSound true r n h calm)
            (omega (arith, flush-shrinks r)) z')
        z

  -- A playlist whose loop starts with nothing done and nothing buffered and ends without an error:
  -- every item is through, none waits to be written, and each is written, skipped, failed or up
  -- for review, or matched where the job only matches.
  pub run_playlist_complete :
      (r : Run W) (ps : List (JobItem × Track))
      → r.finished ≡ []
      → r.buffer ≡ []
      → (run_playlist add_tracks resolve low_confidence s r ps).error ≡ none
      → All Settled (run_playlist add_tracks resolve low_confidence s r ps).finished
        × (length (run_playlist add_tracks resolve low_confidence s r ps).finished ≡ length ps)
        × (length (run_playlist add_tracks resolve low_confidence s r ps).buffer ≡ 0)
  unfolding run_playlist
  run_playlist_complete r ps f b z =
      let loop = process_items add_tracks resolve low_confidence s r ps in
      let start : IsSound 0 r = record { decided = rw f tt; counted = rw (f, b) } in
      let (sound, empty) =
        stop_on_without_error (λ x. IsSound (length ps) x × (length x.buffer ≡ 0)) loop.error loop
          (flush_all add_tracks resolve low_confidence s (length loop.buffer) loop) refl
          (λ e z'.
            flush_all-IsSound (length loop.buffer) loop (length ps)
              (rw zero-add at (process_items-IsSound r ps 0 start e)) (omega arith) z')
          z in
      (sound.decided, omega (arith, sound.counted, empty), empty)
