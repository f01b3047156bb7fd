-- ===== src/Migration/Terminal.antt =====
-- The items, the keys and the ledger rows of a chunk that was written.
use open_playlist_engine.Prelude.{
  ◌⊎◌, inl, inr, Bool-cases, if◌then◌else◌, ◌+◌, min, ◌≡◌, refl, Bool, true, false, List, [], ◌∷◌,
  ◌++◌, map, length, All, length-append, length-map, count_if, arith, Text, Result, ok, raised,
}
use open_playlist_engine.Models.Normalize.{TextOps}
use open_playlist_engine.Providers.{is_foreign, AdapterError, AddItemResult, message}
use open_playlist_engine.Keys.{UrlOps, intersects}
use open_playlist_engine.Migration.{
  ℕ, some, JobItem, JobOrigin, pending, matched, needs_review, written, skipped, failed, LedgerRow,
  done, item_target_keys,
}
use open_playlist_engine.Migration.Write.{
  items_after, propagated, WriteOutcome, fail, skip_duplicate_items, apply_results, finish_write,
  write_remaining, write_matched_items,
}

-- The item was written, skipped or failed.
abbrev pub is_ended : JobItem → Bool
is_ended i = elim i.status [
  | pending ↦ false
  | matched ↦ false
  | needs_review ↦ false
  | written ↦ true
  | skipped ↦ true
  | failed ↦ true
]

abbrev pub IsEnded : JobItem → Type 0
IsEnded i = is_ended i ≡ true

abbrev pub was_written : JobItem → Bool
was_written i = elim i.status [ written ↦ true | _ ↦ false ]

pub All-append {ℓ κ} :
    {T : Type ℓ} (Good : T → Type κ) (front back : List T)
    → All Good front
    → All Good back
    → All Good (front ++ back)
All-append Good [] back _ there = there
All-append Good (t ∷ front) back here there = (here.0, All-append Good front back here.1 there)

All-fail : (why : Text) (is : List JobItem) → All IsEnded (map (fail why) is)
All-fail why [] = tt
All-fail why (i ∷ is) = (refl, All-fail why is)

module _ ⦃ops : TextOps⦄ ⦃urls : UrlOps⦄ where
  skip-IsEnded :
      (seen : List Text) (is : List JobItem) → All IsEnded (skip_duplicate_items seen is).0
  unfolding skip_duplicate_items
  skip-IsEnded seen [] = tt
  skip-IsEnded seen (i ∷ is) = ground (
    arith,
    skip-IsEnded (if intersects (item_target_keys i) seen then seen else seen ++ item_target_keys i)
        is,
  )

  length-skip :
      (seen : List Text) (is : List JobItem)
      → length (skip_duplicate_items seen is).0 + length (skip_duplicate_items seen is).1
        ≡ length is
  unfolding skip_duplicate_items
  length-skip seen [] = omega arith
  length-skip seen (i ∷ is) = ground (
    arith,
    length-skip (if intersects (item_target_keys i) seen then seen else seen ++ item_target_keys i)
        is,
  )

  -- Each item has no key among those known before it.
  abbrev pub Fresh : List Text → List JobItem → Type 0
  Fresh seen [] = Unit
  Fresh seen (i ∷ is) =
      (intersects (item_target_keys i) seen ≡ false) × Fresh (seen ++ item_target_keys i) is

  -- Each item that is left to write shares no key with the keys known of the target, nor with an
  -- item that is written before it.
  pub skip_duplicate_items-Fresh :
      (seen : List Text) (is : List JobItem) → Fresh seen (skip_duplicate_items seen is).1
  unfolding skip_duplicate_items
  skip_duplicate_items-Fresh seen [] = tt
  skip_duplicate_items-Fresh seen (i ∷ is) = ground (
    arith,
    skip_duplicate_items-Fresh
        (if intersects (item_target_keys i) seen then seen else seen ++ item_target_keys i) is,
  )

  apply-IsEnded :
      (playlist : Text) (existing : List Text) (is : List JobItem) (rs : List AddItemResult)
      → All IsEnded (apply_results playlist existing is rs).items
  unfolding apply_results
  apply-IsEnded playlist existing [] rs = tt
  apply-IsEnded playlist existing (i ∷ is) [] = (refl, apply-IsEnded playlist existing is [])
  apply-IsEnded playlist existing (i ∷ is) (r ∷ rs) = ground (
    arith,
    apply-IsEnded playlist (if r.is_ok then existing ++ item_target_keys i else existing) is rs,
  )

  length-apply :
      (playlist : Text) (existing : List Text) (is : List JobItem) (rs : List AddItemResult)
      → (length (apply_results playlist existing is rs).items ≡ length is)
        × (length (apply_results playlist existing is rs).ledger ≡ min (length is) (length rs))
  unfolding apply_results
  length-apply playlist existing [] rs = (refl, omega arith)
  length-apply playlist existing (i ∷ is) [] = omega (arith, length-apply playlist existing is [])
  length-apply playlist existing (i ∷ is) (r ∷ rs) = omega (
    arith,
    length-apply playlist (if r.is_ok then existing ++ item_target_keys i else existing) is rs,
  )

  -- The ledger rows of a write that are done are as many as the items that come out written.
  pub ledger-written :
      (playlist : Text) (existing : List Text) (is : List JobItem) (rs : List AddItemResult)
      → count_if
          (λ (row : LedgerRow). elim row.state [ done ↦ true | _ ↦ false ])
          (apply_results playlist existing is rs).ledger
        ≡ count_if was_written (apply_results playlist existing is rs).items
  unfolding apply_results
  ledger-written playlist existing [] rs = refl
  ledger-written playlist existing (i ∷ is) [] = ledger-written playlist existing is []
  ledger-written playlist existing (i ∷ is) (r ∷ rs) = ground (
    arith,
    ledger-written playlist (if r.is_ok then existing ++ item_target_keys i else existing) is rs,
  )

  module _ {W : Type 0}
      (add_tracks : Text → List Text → W → Result AdapterError (List AddItemResult) × W) where
    -- An exception that is no `ProviderError` leaves, or the items have ended; none is lost.
    abbrev pub EndsOrEscapes : ℕ → WriteOutcome W → Type 0
    EndsOrEscapes n out =
        (((e : AdapterError) × (out.error ≡ some e) × (is_foreign e ≡ true))
          ⊎ All IsEnded out.items)
        × (length out.items ≡ n)

    length-items_after :
        (e : AdapterError) (is : List JobItem) → length (items_after e is) ≡ length is
    unfolding items_after
    length-items_after e is = elim (Bool-cases (is_foreign e)) [
      | inl other ↦ rw other refl
      | inr known ↦ rw known (length-map (fail (message e)) is)
    ]

    items_after-IsEnded :
        (e : AdapterError) (is : List JobItem)
        → is_foreign e ≡ false
        → All IsEnded (items_after e is)
    unfolding items_after
    items_after-IsEnded e is h = rw h (All-fail (message e) is)

    propagated_foreign :
        (origin : JobOrigin) (e : AdapterError) → is_foreign e ≡ true → propagated origin e ≡ some e
    unfolding propagated
    propagated_foreign origin e h = rw h refl

    finish-IsEnded :
        (origin : JobOrigin) (playlist : Text) (existing : List Text) (dropped write : List JobItem)
        (answer : Result AdapterError (List AddItemResult) × W)
        → All IsEnded dropped
        → EndsOrEscapes
            (length dropped + length write)
            (finish_write add_tracks origin playlist existing dropped write answer)
    unfolding finish_write
    finish-IsEnded origin playlist existing dropped write (raised e, w) h =
        let size : length (dropped ++ items_after e write) ≡ length dropped + length write =
          omega (arith, length-append dropped (items_after e write), length-items_after e write) in
        elim (Bool-cases (is_foreign e)) [
          | inl other ↦ (inl (e, propagated_foreign origin e other, other), size)
          | inr known ↦ (
            inr (
                All-append IsEnded dropped (items_after e write) h
                  (items_after-IsEnded e write known)),
            size,
          )
        ]
    finish-IsEnded origin playlist existing dropped write (ok rs, w) h =
        let out = apply_results playlist existing write rs in
        (
          inr (All-append IsEnded dropped out.items h (apply-IsEnded playlist existing write rs)),
          omega (arith, length-append dropped out.items, length-apply playlist existing write rs),
        )

    write_remaining-IsEnded :
        (origin : JobOrigin) (playlist : Text) (existing : List Text) (dropped write : List JobItem)
        (w : W)
        → All IsEnded dropped
        → EndsOrEscapes
            (length dropped + length write)
            (write_remaining add_tracks origin playlist existing dropped write w)
    unfolding write_remaining
    write_remaining-IsEnded origin playlist existing dropped [] w h = (inr h, omega arith)
    write_remaining-IsEnded origin playlist existing dropped (i ∷ is) w h =
        finish-IsEnded origin playlist existing dropped (i ∷ is) _ h

    -- Whatever the target answers to a chunk or raises: as many items come out as went in, and
    -- either each ends as written, skipped or failed, or an exception leaves that is no
    -- ProviderError.
    pub write_matched_items-IsEnded :
        (origin : JobOrigin) (playlist : Text) (existing : List Text) (items : List JobItem) (w : W)
        → EndsOrEscapes
            (length items)
            (write_matched_items add_tracks origin playlist existing items w)
    unfolding write_matched_items
    write_matched_items-IsEnded origin playlist existing items w =
        let (dropped, write) = skip_duplicate_items existing items in
        let (ended, size) =
          write_remaining-IsEnded origin playlist existing dropped write w
            (skip-IsEnded existing items) in
        (ended, omega (arith, size, length-skip existing items))
