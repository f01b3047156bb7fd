-- ===== src/Library/Whole.antt =====
-- What a library migration returns.
use mathlib.Core.Path.{ap, subst}
use open_playlist_engine.Prelude.{
  ℕ, suc, ◌≡◌, inl, inr, refl, Bool, true, none, List, [], ◌∷◌, map, length, arith, Text, codes,
  Result, ok, raised, Bool-cases, nat_eq, ◌==◌, nat_beq_iff,
}
use open_playlist_engine.Models.{EntityType, album, artist, track}
use open_playlist_engine.Models.Normalize.{TextOps}
use open_playlist_engine.Keys.{UrlOps}
use open_playlist_engine.Providers.{IsHandled, AdapterError, message}
use open_playlist_engine.Library.{LibraryEntity, LibraryMatchResult}
use open_playlist_engine.Library.Match.{LibrarySearch}
use open_playlist_engine.Library.Review.{ReviewDecision}
use open_playlist_engine.Library.Rows.{LibraryItem, fail_library}
use open_playlist_engine.Library.Write.{library_items_after, LibraryWriter}
use open_playlist_engine.Library.Migrate.{
  LibrarySource, LibraryRun, pending_items, write_batch, unless_broken, place_items, write_rest,
  source_contains, after_presence, migrate_library_entities,
}
use open_playlist_engine.Library.Placed.{IsHandledReading, fits}
use open_playlist_engine.Library.Ended.{
  IsHandledWriter, escaping-none, IsEnding, map-fail_library-IsEnding,
}
use open_playlist_engine.Library.Course.{IsOnCourse, write_batch-IsOnCourse, place_items-IsOnCourse}

length-pending_items :
    (kind : EntityType) (n : ℕ) (ids : List Text) → length (pending_items kind n ids) ≡ length ids
unfolding pending_items
length-pending_items kind n [] = refl
length-pending_items kind n (id ∷ ids) = omega (arith, length-pending_items kind (suc n) ids)

IsEnding-none : IsEnding 0 [] []
IsEnding-none = record { decided = tt; counted = refl; recorded = omega arith }

module _ {W : Type 0} where
  -- What a migration of `n` entities returns.
  pub record IsComplete (n : ℕ) (r : LibraryRun W) : Type 0 where
    pub ending : IsEnding n r.finished r.ledger
    pub emptied : length r.buffer ≡ 0
    pub unbroken : r.error ≡ none

module _ ⦃ops : TextOps⦄ ⦃urls : UrlOps⦄ {W : Type 0} (kind : EntityType) (source : LibrarySource W)
    (target : LibraryWriter W) (search : LibrarySearch W) (display : Text)
    (writes_albums writes_artists : Bool)
    (resolve : LibraryEntity → W → Result AdapterError LibraryMatchResult × W)
    (history : List ReviewDecision) (reading : IsHandledReading source search resolve)
    (writing : IsHandledWriter target) where
  source_contains-IsHandled :
      (ids : List Text) (w : W)
      → IsHandled
          (source_contains kind source target search display writes_albums writes_artists resolve
            history ids w).0
  unfolding source_contains
  source_contains-IsHandled ids w = by_kind kind
    where
      by_kind :
          (k : EntityType)
          → IsHandled
              (source_contains k source target search display writes_albums writes_artists resolve
                history ids w).0
      by_kind album = reading.contains_albums ids w
      by_kind artist = reading.contains_artists ids w
      by_kind track = reading.contains_artists ids w

  module _ (typed : (id : Text) (w : W) → fits kind (source.read_entity id w).0 ≡ true) where
    write_rest-IsComplete :
        (n : ℕ) (r : LibraryRun W) (buffer : List LibraryItem)
        → r.buffer ≡ buffer
        → IsOnCourse n r
        → IsComplete n (
            write_rest kind source target search display writes_albums writes_artists resolve
              history r buffer)
    unfolding write_rest write_batch
    write_rest-IsComplete n r [] e h =
        let none_wait : length r.buffer ≡ 0 = ap length e in
        record {
          ending =
              subst (λ (k : ℕ). IsEnding k r.finished r.ledger)
                (omega (arith, h.all_there, none_wait)) h.through_are;
          emptied = none_wait;
          unbroken = h.unbroken;
        }
    write_rest-IsComplete n r (i ∷ is) e h =
        let wait : length r.buffer ≡ length (i ∷ is) = ap length e in
        let last =
          write_batch-IsOnCourse kind source target search display writes_albums writes_artists
            resolve history reading writing typed n h.ended (i ∷ is) [] r h.through_are
            (omega (arith, h.all_there, wait)) in
        let whole =
          write_batch kind source target search display writes_albums writes_artists resolve history
            (i ∷ is) [] r in
        record {
          ending =
              subst (λ (k : ℕ). IsEnding k whole.finished whole.ledger)
                (omega (arith, last.all_there)) last.through_are;
          emptied = refl;
          unbroken = last.unbroken;
        }

    all_failed-IsComplete :
        (why : Text) (ids : List Text) (w : W)
        → IsComplete (length ids) (record {
          world = w;
          finished = map (fail_library why) (pending_items kind 0 ids);
          buffer = [];
          ledger = [];
          error = none;
        })
    all_failed-IsComplete why ids w =
        let items = pending_items kind 0 ids in
        record {
          ending =
              subst (λ (k : ℕ). IsEnding k (map (fail_library why) items) [])
                (length-pending_items kind 0 ids) (map-fail_library-IsEnding why items);
          emptied = refl;
          unbroken = refl;
        }

    after_presence-IsComplete :
        (ids : List Text) (answer : Result AdapterError (List Bool) × W)
        → IsHandled answer.0
        → IsComplete (length ids) (
            after_presence kind source target search display writes_albums writes_artists resolve
              history ids answer)
    unfolding after_presence unless_broken library_items_after
    after_presence-IsComplete ids (raised e, w) known =
        rw (escaping-none e known) (rw known (all_failed-IsComplete (message e) ids w))
    after_presence-IsComplete ids (ok bs, w) known =
        let items = pending_items kind 0 ids in
        let counted = length-pending_items kind 0 ids in
        let start : LibraryRun W = record {
          world = w;
          finished = [];
          buffer = [];
          ledger = [];
          error = none;
        } in
        let loop =
          place_items kind source target search display writes_albums writes_artists resolve history
            start items ids bs in
        elim (Bool-cases (length bs == length items)) [
          | inl same ↦
              let reached =
                place_items-IsOnCourse kind source target search display writes_albums
                  writes_artists resolve history reading writing typed 0 start items ids bs counted
                  ((nat_beq_iff (length bs) (length items)).0 same)
                  (record {
                    ended = 0;
                    through_are = IsEnding-none;
                    all_there = refl;
                    unbroken = refl;
                  }) in
              rw same (
                rw reached.unbroken (
                  subst
                    (λ (k : ℕ). IsComplete k (
                      write_rest kind source target search display writes_albums writes_artists
                        resolve history loop loop.buffer))
                    (omega (arith, counted))
                    (write_rest-IsComplete _ loop loop.buffer refl reached)))
          | inr differ ↦ rw differ (
              all_failed-IsComplete (codes "source returned an invalid library membership response")
                ids w)
        ]

    -- A migration of albums or artists whose source reads entities of that kind, where each call
    -- answers or raises a ProviderError: as many rows come out as entities went in, each is
    -- written, skipped, failed or up for review, none waits, no error leaves the loop, and the
    -- written rows are at most as many as the ledger rows that are done.
    pub migrate_library_entities-IsComplete :
        (ids : List Text) (w : W)
        → IsComplete (length ids) (
            migrate_library_entities kind source target search display writes_albums writes_artists
              resolve history ids w)
    unfolding migrate_library_entities
    migrate_library_entities-IsComplete ids w =
        after_presence-IsComplete ids
          (source_contains kind source target search display writes_albums writes_artists resolve
            history ids w)
          (source_contains-IsHandled ids w)
