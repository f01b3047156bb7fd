-- ===== src/Library/Ended.antt =====
-- The rows of a library migration as it goes on and when it ends.
use mathlib.Core.Path.{subst}
use open_playlist_engine.Prelude.{
  none, ℕ, ◌+◌, ◌≤◌, ◌≡◌, inl, inr, refl, Bool, true, false, List, [], ◌∷◌, ◌++◌, map, length, All,
  count_if, length-append, arith, Text, codes, Result, ok, raised, Bool-cases, nat_eq, ◌==◌,
  nat_beq_iff,
}
use open_playlist_engine.Models.{EntityType, album, artist, track}
use open_playlist_engine.Providers.{is_foreign, IsHandled, AdapterError, AddItemResult, message}
use open_playlist_engine.Migration.{pending, matched, needs_review, written, skipped, failed, done}
use open_playlist_engine.Library.Rows.{
  LibraryItem, LibraryLedgerRow, fail_library, library_duplicate_reason,
}
use open_playlist_engine.Library.Write.{
  library_items_after, escaping, LibraryWritten, LibraryWriter, target_uris, target_contains,
  target_save, library_ledger_row, apply_library_result, apply_library_results, split_present,
  finish_library_write, write_absent, with_presence, write_library_items,
}

-- The row is decided: written, skipped, failed or up for review.
abbrev pub is_decided : LibraryItem → Bool
is_decided i = elim i.status [
  | pending ↦ false
  | matched ↦ false
  | needs_review ↦ true
  | written ↦ true
  | skipped ↦ true
  | failed ↦ true
]

abbrev pub is_written : LibraryItem → Bool
is_written i = elim i.status [ written ↦ true | _ ↦ false ]

abbrev pub is_done : LibraryLedgerRow → Bool
is_done row = elim row.state [ done ↦ true | _ ↦ false ]

abbrev pub Decided : LibraryItem → Type 0
Decided i = is_decided i ≡ true

-- Rows that `n` items ended as, with the ledger that goes with them.
pub record IsEnding (n : ℕ) (items : List LibraryItem) (ledger : List LibraryLedgerRow)
    : Type 0 where
  pub decided : All Decided items
  pub counted : length items ≡ n
  pub recorded : count_if is_written items ≤ count_if is_done ledger

pub All-Decided-append :
    (is js : List LibraryItem) → All Decided is → All Decided js → All Decided (is ++ js)
All-Decided-append [] js h k = k
All-Decided-append (i ∷ is) js h k = (h.0, All-Decided-append is js h.1 k)

pub count_if-append {ℓ} :
    {A : Type ℓ} (p : A → Bool) (xs ys : List A)
    → count_if p (xs ++ ys) ≡ count_if p xs + count_if p ys
count_if-append p [] ys = omega arith
count_if-append p (x ∷ xs) ys = ground (arith, count_if-append p xs ys)

-- Two endings, one after the other.
pub IsEnding-append :
    (m n : ℕ) (is js : List LibraryItem) (rows more : List LibraryLedgerRow)
    → IsEnding m is rows
    → IsEnding n js more
    → IsEnding (m + n) (is ++ js) (rows ++ more)
IsEnding-append m n is js rows more h k = record {
  decided = All-Decided-append is js h.decided k.decided;
  counted = omega (arith, length-append is js, h.counted, k.counted);
  recorded = omega (
    arith,
    count_if-append is_written is js,
    count_if-append is_done rows more,
    h.recorded,
    k.recorded,
  );
}

pub map-fail_library-IsEnding :
    (why : Text) (is : List LibraryItem) → IsEnding (length is) (map (fail_library why) is) []
map-fail_library-IsEnding why [] = record { decided = tt; counted = refl; recorded = omega arith }
map-fail_library-IsEnding why (i ∷ is) =
    let rest = map-fail_library-IsEnding why is in
    record {
      decided = (refl, rest.decided);
      counted = omega (arith, rest.counted);
      recorded = rest.recorded;
    }

apply_library_results-IsEnding :
    (kind : EntityType) (duplicate : Text) (is : List LibraryItem) (rs : List AddItemResult)
    → IsEnding
        (length is)
        (apply_library_results kind duplicate is rs).0
        (apply_library_results kind duplicate is rs).1
unfolding apply_library_results apply_library_result library_ledger_row
apply_library_results-IsEnding kind duplicate [] rs = record {
  decided = tt;
  counted = refl;
  recorded = omega arith;
}
apply_library_results-IsEnding kind duplicate (i ∷ is) [] =
    let rest = apply_library_results-IsEnding kind duplicate is [] in
    record {
      decided = (refl, rest.decided);
      counted = omega (arith, rest.counted);
      recorded = rest.recorded;
    }
apply_library_results-IsEnding kind duplicate (i ∷ is) (r ∷ rs) =
    let rest = apply_library_results-IsEnding kind duplicate is rs in
    record {
      decided = (ground arith, rest.decided);
      counted = omega (arith, rest.counted);
      recorded = ground (arith, rest.recorded);
    }

-- Of items whose presence is known, those that are there end; the others are left.
split_present-IsEnding :
    (duplicate : Text) (is : List LibraryItem) (bs : List Bool)
    → length bs ≡ length is
    → All Decided (split_present duplicate is bs).0
      × (length (split_present duplicate is bs).0 + length (split_present duplicate is bs).1
          ≡ length is)
      × (count_if is_written (split_present duplicate is bs).0 ≡ 0)
unfolding split_present
split_present-IsEnding duplicate [] bs e = (tt, refl, refl)
split_present-IsEnding duplicate (i ∷ is) [] e = absurd (omega (arith, e))
split_present-IsEnding duplicate (i ∷ is) (true ∷ bs) e =
    let rest = split_present-IsEnding duplicate is bs (omega (arith, e)) in
    ((refl, rest.0), omega (arith, rest.1), rest.2)
split_present-IsEnding duplicate (i ∷ is) (false ∷ bs) e =
    let rest = split_present-IsEnding duplicate is bs (omega (arith, e)) in
    (rest.0, omega (arith, rest.1), rest.2)

library_items_after-IsEnding :
    (e : AdapterError) (items : List LibraryItem)
    → is_foreign e ≡ false
    → IsEnding (length items) (library_items_after e items) []
unfolding library_items_after
library_items_after-IsEnding e items known = rw known (map-fail_library-IsEnding (message e) items)

pub escaping-none : (e : AdapterError) → is_foreign e ≡ false → escaping e ≡ none
unfolding escaping
escaping-none e known = rw known refl

-- The calls of a writer answer, or raise a `ProviderError`.
pub record IsHandledWriter {W : Type 0} (target : LibraryWriter W) : Type 0 where
  pub contains_albums :
      (uris : List Text) (w : W) → IsHandled (target.contains_saved_albums uris w).0
  pub contains_artists :
      (uris : List Text) (w : W) → IsHandled (target.contains_followed_artists uris w).0
  pub saves : (uris : List Text) (w : W) → IsHandled (target.save_albums uris w).0
  pub follows : (uris : List Text) (w : W) → IsHandled (target.follow_artists uris w).0

-- Rows that have ended without an error that leaves.
pub record IsWritten {W : Type 0} (n : ℕ) (out : LibraryWritten W) : Type 0 where
  pub ending : IsEnding n out.items out.ledger
  pub unbroken : out.error ≡ none

module _ {W : Type 0} (target : LibraryWriter W) (handled : IsHandledWriter target) where
  target_contains-IsHandled :
      (kind : EntityType) (uris : List Text) (w : W)
      → IsHandled (target_contains target kind uris w).0
  unfolding target_contains
  target_contains-IsHandled album uris w = handled.contains_albums uris w
  target_contains-IsHandled artist uris w = handled.contains_artists uris w
  target_contains-IsHandled track uris w = handled.contains_artists uris w

  target_save-IsHandled :
      (kind : EntityType) (uris : List Text) (w : W) → IsHandled (target_save target kind uris w).0
  unfolding target_save
  target_save-IsHandled album uris w = handled.saves uris w
  target_save-IsHandled artist uris w = handled.follows uris w
  target_save-IsHandled track uris w = handled.follows uris w

  finish_library_write-IsEnding :
      (kind : EntityType) (m : ℕ) (dropped write : List LibraryItem)
      (answer : Result AdapterError (List AddItemResult) × W)
      → IsHandled answer.0
      → IsEnding m dropped []
      → IsWritten (m + length write) (finish_library_write target kind dropped write answer)
  unfolding finish_library_write
  finish_library_write-IsEnding kind m dropped write (raised e, w) known h = record {
    ending =
        IsEnding-append m (length write) dropped (library_items_after e write) [] [] h
          (library_items_after-IsEnding e write known);
    unbroken = escaping-none e known;
  }
  finish_library_write-IsEnding kind m dropped write (ok rs, w) known h =
      let why = library_duplicate_reason target.is_favorite kind in
      record {
        ending =
            IsEnding-append m (length write) dropped (apply_library_results kind why write rs).0 []
              (apply_library_results kind why write rs).1 h
              (apply_library_results-IsEnding kind why write rs);
        unbroken = refl;
      }

  write_absent-IsEnding :
      (kind : EntityType) (m : ℕ) (dropped write : List LibraryItem) (w : W)
      → IsEnding m dropped []
      → IsWritten (m + length write) (write_absent target kind (dropped, write) w)
  unfolding write_absent
  write_absent-IsEnding kind m dropped [] w h = record {
    ending = record {
      decided = h.decided;
      counted = omega (arith, h.counted);
      recorded = h.recorded;
    };
    unbroken = refl;
  }
  write_absent-IsEnding kind m dropped (i ∷ is) w h =
      finish_library_write-IsEnding kind m dropped (i ∷ is)
        (target_save target kind (target_uris (i ∷ is)) w)
        (target_save-IsHandled kind (target_uris (i ∷ is)) w) h

  with_presence-IsEnding :
      (kind : EntityType) (items : List LibraryItem) (answer : Result AdapterError (List Bool) × W)
      → IsHandled answer.0
      → IsWritten (length items) (with_presence target kind items answer)
  unfolding with_presence
  with_presence-IsEnding kind items (raised e, w) known = record {
    ending = library_items_after-IsEnding e items known;
    unbroken = escaping-none e known;
  }
  with_presence-IsEnding kind items (ok bs, w) known =
      elim (Bool-cases (length bs == length items)) [
        | inl same ↦
            let why = library_duplicate_reason target.is_favorite kind in
            let parts =
              split_present-IsEnding why items bs
                ((nat_beq_iff (length bs) (length items)).0 same) in
            rw same (
              let dropped = (split_present why items bs).0 in
              let write = (split_present why items bs).1 in
              subst (λ (n : ℕ). IsWritten n (write_absent target kind (dropped, write) w)) parts.1
                (write_absent-IsEnding kind (length dropped) dropped write w (record {
                  decided = parts.0;
                  counted = refl;
                  recorded = omega (arith, parts.2);
                })))
        | inr differ ↦ rw differ (record {
          ending =
              map-fail_library-IsEnding
                (codes "target returned an invalid library contains response") items;
          unbroken = refl;
        })
      ]

  pub write_library_items-IsEnding :
      (kind : EntityType) (items : List LibraryItem) (w : W)
      → IsWritten (length items) (write_library_items target kind items w)
  unfolding write_library_items
  write_library_items-IsEnding kind items w =
      with_presence-IsEnding kind items (target_contains target kind (target_uris items) w)
        (target_contains-IsHandled kind (target_uris items) w)
