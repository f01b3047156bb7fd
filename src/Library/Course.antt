-- ===== src/Library/Course.antt =====
-- The state of the loop of a library migration, as it goes on.
use mathlib.Core.Path.{ap}
use open_playlist_engine.Prelude.{
  ℕ, suc, ◌+◌, ◌≡◌, inl, inr, refl, Bool, true, false, none, List, [], ◌∷◌, ◌++◌, length, count_if,
  take, drop, length-append, take-append-drop, leb, arith, Text, Result, Bool-cases, nat_eq,
}
use open_playlist_engine.Models.{EntityType}
use open_playlist_engine.Models.Normalize.{TextOps}
use open_playlist_engine.Keys.{UrlOps}
use open_playlist_engine.Providers.{AdapterError}
use open_playlist_engine.Library.{LibraryEntity, LibraryMatchResult}
use open_playlist_engine.Library.Match.{LibrarySearch}
use open_playlist_engine.Library.Review.{ReviewDecision}
use open_playlist_engine.Library.Rows.{LibraryItem, LibraryLedgerRow}
use open_playlist_engine.Library.Write.{LibraryWriter, write_library_items}
use open_playlist_engine.Library.Migrate.{
  LibrarySource, LibraryRun, Placed, through, to_write, broken, place_item, write_batch,
  take_up_library, unless_broken, place_items,
}
use open_playlist_engine.Library.Placed.{IsHandledReading, fits, FitsPlace, place_item-FitsPlace}
use open_playlist_engine.Library.Ended.{
  IsHandledWriter, is_decided, is_written, All-Decided-append, count_if-append, IsEnding,
  IsEnding-append, write_library_items-IsEnding,
}

-- One more row that ended without a write.
IsEnding-snoc :
    (n : ℕ) (is : List LibraryItem) (rows : List LibraryLedgerRow) (i : LibraryItem)
    → IsEnding n is rows
    → is_decided i ≡ true
    → is_written i ≡ false
    → IsEnding (n + 1) (is ++ i ∷ []) rows
IsEnding-snoc n is rows i h d w =
    let unwritten : count_if is_written (i ∷ []) ≡ 0 = rw w refl in
    record {
      decided = All-Decided-append is (i ∷ []) h.decided (d, tt);
      counted = omega (arith, length-append is (i ∷ []), h.counted);
      recorded = omega (arith, count_if-append is_written is (i ∷ []), unwritten, h.recorded);
    }

module _ {W : Type 0} where
  -- After `n` items: those through ended, the others wait, and no error left the loop.
  pub record IsOnCourse (n : ℕ) (r : LibraryRun W) : Type 0 where
    pub ended : ℕ
    pub through_are : IsEnding ended r.finished r.ledger
    pub all_there : ended + length r.buffer ≡ n
    pub unbroken : r.error ≡ none

module _ ⦃ops : TextOps⦄ ⦃urls : UrlOps⦄ {W : Type 0} (kind : EntityType) (source : LibrarySource W)
    (target : LibraryWriter W) (search : LibrarySearch W) (display : Text)
    (writes_albums writes_artists : Bool)
    (resolve : LibraryEntity → W → Result AdapterError LibraryMatchResult × W)
    (history : List ReviewDecision) (reading : IsHandledReading source search resolve)
    (writing : IsHandledWriter target) where
  module _ (typed : (id : Text) (w : W) → fits kind (source.read_entity id w).0 ≡ true) where
    pub write_batch-IsOnCourse :
        (n ended : ℕ) (batch rest : List LibraryItem) (r : LibraryRun W)
        → IsEnding ended r.finished r.ledger
        → ended + length batch + length rest ≡ n
        → IsOnCourse n (
            write_batch kind source target search display writes_albums writes_artists resolve
              history batch rest r)
    unfolding write_batch
    write_batch-IsOnCourse n ended batch rest r h e =
        let out = write_library_items target kind batch r.world in
        let wrote = write_library_items-IsEnding target writing kind batch r.world in
        record {
          ended = ended + length batch;
          through_are =
              IsEnding-append ended (length batch) r.finished out.items r.ledger out.ledger h
                wrote.ending;
          all_there = e;
          unbroken = wrote.unbroken;
        }

    take_up_library-IsOnCourse :
        (n : ℕ) (r : LibraryRun W) (p : Placed W)
        → IsOnCourse n r
        → FitsPlace p
        → IsOnCourse (suc n) (
            take_up_library kind source target search display writes_albums writes_artists resolve
              history r p)
    unfolding take_up_library
    take_up_library-IsOnCourse n r (through i w) h f = record {
      ended = h.ended + 1;
      through_are = IsEnding-snoc h.ended r.finished r.ledger i h.through_are f.0 f.1;
      all_there = omega (arith, h.all_there);
      unbroken = h.unbroken;
    }
    take_up_library-IsOnCourse n r (broken i why w) h f = elim f [ ]
    take_up_library-IsOnCourse n r (to_write i w) h f =
        let waiting = r.buffer ++ i ∷ [] in
        let size = target.max_library_batch in
        let next : LibraryRun W = record r { world = w; buffer = waiting } in
        let longer : length waiting ≡ length r.buffer + 1 = length-append r.buffer (i ∷ []) in
        elim (Bool-cases (leb size (length waiting))) [
          | inl full ↦ rw full (
              write_batch-IsOnCourse (suc n) h.ended (take size waiting) (drop size waiting) next
                h.through_are
                (omega (
                  arith,
                  h.all_there,
                  longer,
                  length-append (take size waiting) (drop size waiting),
                  ap length (take-append-drop size waiting),
                )))
          | inr room ↦ rw room (record {
            ended = h.ended;
            through_are = h.through_are;
            all_there = omega (arith, h.all_there, longer);
            unbroken = h.unbroken;
          })
        ]

    pub place_items-IsOnCourse :
        (n : ℕ) (r : LibraryRun W) (is : List LibraryItem) (ids : List Text) (bs : List Bool)
        → length is ≡ length ids
        → length bs ≡ length is
        → IsOnCourse n r
        → IsOnCourse (n + length is) (
            place_items kind source target search display writes_albums writes_artists resolve
              history r is ids bs)
    unfolding place_items unless_broken
    place_items-IsOnCourse n r [] ids bs e f h = record {
      ended = h.ended;
      through_are = h.through_are;
      all_there = omega (arith, h.all_there);
      unbroken = h.unbroken;
    }
    place_items-IsOnCourse n r (i ∷ is) [] bs e f h = absurd (omega (arith, e))
    place_items-IsOnCourse n r (i ∷ is) (id ∷ ids) [] e f h = absurd (omega (arith, f))
    place_items-IsOnCourse n r (i ∷ is) (id ∷ ids) (b ∷ bs) e f h =
        let next =
          take_up_library kind source target search display writes_albums writes_artists resolve
            history r
            (place_item kind source target search display writes_albums writes_artists resolve
              history i id b r.world) in
        let step : IsOnCourse (suc n) next =
          take_up_library-IsOnCourse n r
            (place_item kind source target search display writes_albums writes_artists resolve
              history i id b r.world)
            h
            (place_item-FitsPlace kind source target search display writes_albums writes_artists
              resolve history reading typed i id b r.world) in
        let rest =
          place_items-IsOnCourse (suc n) next is ids bs (omega (arith, e)) (omega (arith, f))
            step in
        rw step.unbroken (record {
          ended = rest.ended;
          through_are = rest.through_are;
          all_there = omega (arith, rest.all_there);
          unbroken = rest.unbroken;
        })
