-- ===== src/Retention/Tests.antt =====
-- Three snapshots of a library, and instances of the theorems.
use open_playlist_engine.Prelude.{
  ok, raised, ℕ, ◌≡◌, ◌≤◌, refl, true, not, some, none, List, [], ◌∷◌, all, max, length, ◌+◌, Text,
  text_eq, ◌==◌, text_beq, codes,
}
use open_playlist_engine.Counter.{mem}
use open_playlist_engine.Retention.{
  overflow_error, is_eligible, LibrarySnapshot, complete, eligible, retention_candidates,
}
use open_playlist_engine.Retention.Laws.{
  Selects, IsPassed, retention_candidates_keep, retention_candidates_limit,
}

abbrev snapshot : Text → ℕ → LibrarySnapshot
snapshot id t = record {
  id = id;
  status = complete;
  archive_name = some (codes "z");
  created_at = some t;
}

abbrev three : List LibrarySnapshot
three = snapshot (codes "b") 20 ∷ snapshot (codes "c") 30 ∷ snapshot (codes "a") 10 ∷ []

oldest_goes : retention_candidates three 100 (some 2) none ≡ ok (snapshot (codes "a") 10 ∷ [])
unfolding retention_candidates mem text_beq
oldest_goes = refl

all_go_by_age :
    retention_candidates three 900000 none (some 1)
    ≡ ok (snapshot (codes "a") 10 ∷ snapshot (codes "b") 20 ∷ [])
unfolding retention_candidates mem text_beq
all_go_by_age = refl

-- A limit of days that goes before the first date.
too_many_days : retention_candidates three 900000 none (some 11) ≡ raised overflow_error
unfolding retention_candidates
too_many_days = refl

c_is_eligible : is_eligible (snapshot (codes "c") 30) ≡ true
unfolding is_eligible
c_is_eligible = refl

a_goes_before : IsPassed (snapshot (codes "c") 30) (snapshot (codes "a") 10)
unfolding text_beq is_eligible
a_goes_before = refl

b_goes_before : IsPassed (snapshot (codes "c") 30) (snapshot (codes "b") 20)
unfolding text_beq is_eligible
b_goes_before = refl

retention_candidates_keep_example :
    Selects 900000
      (some 1)
      (λ out. all (λ (s : LibrarySnapshot). not (s.id == codes "c")) out ≡ true)
      (retention_candidates three 900000 (some 0) (some 1))
retention_candidates_keep_example =
    retention_candidates_keep (snapshot (codes "b") 20 ∷ []) (snapshot (codes "a") 10 ∷ [])
      (snapshot (codes "c") 30) 900000 (some 0) (some 1) c_is_eligible (b_goes_before, tt)
      (a_goes_before, tt)

retention_candidates_limit_example :
    Selects 100 none
      (λ out. length (eligible three) ≤ max 1 2 + length out)
      (retention_candidates three 100 (some 2) none)
retention_candidates_limit_example = retention_candidates_limit three 100 2 none
