-- ===== src/Retention.antt =====
-- Which snapshots of a library are deleted (backend/app/snapshots/retention.py). Times are seconds in
-- UTC from the start of year 1, where `datetime` begins.
pub mod Laws
mod Tests
use open_playlist_engine.Prelude.{
  ℕ, suc, ◌+◌, ◌*◌, max, Bool, true, false, not, ◌&&◌, ◌||◌, Option, none, some, List, [], ◌∷◌,
  ◌++◌, map, filter, length, drop, if◌then◌else◌, ltb, is_some, Text, text_eq, text_ltb, nat_eq,
  ◌==◌, Result, ok, raised,
}
use open_playlist_engine.Counter.{mem}
use open_playlist_engine.Models.{truthy}

pub data SnapshotStatus : Type 0 where
  complete partial other : SnapshotStatus

pub record LibrarySnapshot : Type 0 where
  pub id : Text
  pub status : SnapshotStatus
  pub archive_name : Option Text
  pub created_at : Option ℕ

unfoldable pub is_eligible : LibrarySnapshot → Bool
is_eligible s = elim s.status [
  | complete ↦ is_some (truthy s.archive_name)
  | partial ↦ is_some (truthy s.archive_name)
  | other ↦ false
]

-- The order of the sort keys; a snapshot without a time stands at `datetime.min`.
unfoldable pub time_before : Option ℕ → Option ℕ → Bool → Bool
time_before none none tie = tie
time_before none (some b) tie = true
time_before (some a) none tie = false
time_before (some a) (some b) tie = if a == b then tie else ltb a b

unfoldable pub key_before : LibrarySnapshot → LibrarySnapshot → Bool
unfolding time_before text_ltb
key_before s t = time_before s.created_at t.created_at (text_ltb s.id t.id)

-- `eligible.sort(key=…, reverse=True)`: the greatest key first.
unfoldable pub insert_newest : LibrarySnapshot → List LibrarySnapshot → List LibrarySnapshot
unfolding key_before
insert_newest s [] = s ∷ []
insert_newest s (t ∷ ts) =
    let rest = insert_newest s ts in if key_before s t then t ∷ rest else s ∷ t ∷ ts

unfoldable pub newest_first : List LibrarySnapshot → List LibrarySnapshot
unfolding insert_newest
newest_first [] = []
newest_first (s ∷ ss) = insert_newest s (newest_first ss)

unfoldable pub eligible : List LibrarySnapshot → List LibrarySnapshot
unfolding newest_first is_eligible
eligible ss = newest_first (filter is_eligible ss)

unfoldable pub backwards : List LibrarySnapshot → List LibrarySnapshot
backwards [] = []
backwards (s ∷ ss) = backwards ss ++ s ∷ []

abbrev pub ids : List LibrarySnapshot → List Text
ids = map (λ s. s.id)

unfoldable pub count_overflow : Option ℕ → List LibrarySnapshot → List Text
count_overflow none el = []
count_overflow (some count) el = ids (drop (max 1 count) el)

-- `created_at < now - timedelta(days=…)`, for a snapshot that is not the newest.
unfoldable pub is_too_old : ℕ → ℕ → Text → LibrarySnapshot → Bool
is_too_old now days newest s = elim s.created_at [
  | none ↦ false
  | some t ↦ not (s.id == newest) && ltb (t + days * 86400) now
]

unfoldable pub age_overflow : ℕ → Option ℕ → Text → List LibrarySnapshot → List Text
unfolding is_too_old
age_overflow now none newest el = []
age_overflow now (some days) newest el = ids (filter (is_too_old now days newest) el)

unfoldable pub select : ℕ → Option ℕ → Option ℕ → List LibrarySnapshot → List LibrarySnapshot
unfolding count_overflow age_overflow backwards mem
select now count days [] = []
select now count days (newest ∷ []) = []
select now count days (newest ∷ next ∷ rest) =
    let el = newest ∷ next ∷ rest in
    filter
      (λ (s : LibrarySnapshot).
        mem s.id (count_overflow count el ++ age_overflow now days newest.id el))
      (backwards el)

-- `now - timedelta(days=…)` is before the first date: an `OverflowError`.
unfoldable pub cutoff_fails : ℕ → Option ℕ → Bool
cutoff_fails now none = false
cutoff_fails now (some days) = ltb now (days * 86400)

pub data RetentionFault : Type 0 where
  overflow_error : RetentionFault

-- A single snapshot is kept before the time is asked for.
unfoldable pub retention_candidates :
    List LibrarySnapshot → ℕ → Option ℕ → Option ℕ → Result RetentionFault (List LibrarySnapshot)
unfolding select eligible cutoff_fails
retention_candidates ss now count days =
    if ltb 1 (length (eligible ss)) && cutoff_fails now days
    then raised overflow_error
    else ok (select now count days (eligible ss))
