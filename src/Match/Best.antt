-- ===== src/Match/Best.antt =====
-- The candidate that a search settles on.
use mathlib.Core.Path.{subst}
use open_playlist_engine.Prelude.{
  sym, is_some, ℕ, ◌≤◌, ◌≡◌, inl, inr, refl, Bool, true, false, Option, some, List, [], ◌∷◌, All,
  if◌then◌else◌, ltb, arith, Text, Result, Bool-cases,
}
use open_playlist_engine.Models.{Track}
use open_playlist_engine.Models.Normalize.{TextOps}
use open_playlist_engine.Providers.{AdapterError, TrackCandidate, MatchResult}
use open_playlist_engine.Match.{FloatOps, score, best_of, result_for, recorded, from_candidates}

ltb-true : (m n : ℕ) → ltb m n ≡ true → m ≤ n
ltb-true m n h = ground (arith, h)

ltb-false : (m n : ℕ) → ltb m n ≡ false → n ≤ m
ltb-false m n h = ground (arith, h)

module _ ⦃ops : TextOps⦄ (fl : FloatOps) (t : Track) where
  abbrev points : TrackCandidate → ℕ
  points c = (score fl t c).0

  higher :
      (x : Bool) (b c : TrackCandidate)
      → ltb (points b) (points c) ≡ x
      → (points b ≤ points (if x then c else b)) × (points c ≤ points (if x then c else b))
  higher true b c h = (ltb-true (points b) (points c) h, omega arith)
  higher false b c h = (omega arith, ltb-false (points b) (points c) h)

  best_of-higher :
      (best : TrackCandidate) (cs : List TrackCandidate)
      → points best ≤ points (best_of fl t best cs)
  unfolding best_of
  best_of-higher best [] = omega arith
  best_of-higher best (c ∷ cs) =
      let up = higher (ltb (points best) (points c)) best c refl in
      omega (arith, up.0, best_of-higher (if ltb (points best) (points c) then c else best) cs)

  best_of-highest :
      (best : TrackCandidate) (cs : List TrackCandidate)
      → All (λ c. points c ≤ points (best_of fl t best cs)) cs
  unfolding best_of
  best_of-highest best [] = tt
  best_of-highest best (c ∷ cs) =
      let next = if ltb (points best) (points c) then c else best in
      let up = higher (ltb (points best) (points c)) best c refl in
      (omega (arith, up.1, best_of-higher next cs), best_of-highest next cs)

  module _ {W : Type 0} (threshold : ℕ)
      (search : Track → W → Result AdapterError (List TrackCandidate) × W)
      (lookup : Option (Text → W → Option TrackCandidate × W))
      (remember : Track → MatchResult → W → W) where
    recorded_result :
        (b : Bool) (m : MatchResult) (w : W)
        → (recorded fl threshold search lookup remember b t m w).0 ≡ m
    unfolding recorded
    recorded_result true m w = elim (Bool-cases m.needs_review) [
      | inl r ↦ rw r refl
      | inr r ↦ rw r refl
    ]
    recorded_result false m w = refl

    -- For a search that found candidates: the match is a candidate that the loop settles on, and
    -- its confidence is at least the score of every candidate.
    pub from_candidates_best :
        (c : TrackCandidate) (cs : List TrackCandidate) (w : W)
        → ((from_candidates fl threshold search lookup remember t (c ∷ cs) w).0.candidate
            ≡ some (best_of fl t c cs))
          × All
              (λ d.
                (score fl t d).0
                ≤ (from_candidates fl threshold search lookup remember t (c ∷ cs) w).0.confidence)
              (c ∷ cs)
    unfolding from_candidates
    from_candidates_best c cs w =
        let best = best_of fl t c cs in
        subst
          (λ (m : MatchResult).
            (m.candidate ≡ some best) × All (λ d. points d ≤ m.confidence) (c ∷ cs))
          (sym
            (recorded_result (is_some lookup) (result_for fl threshold best (score fl t best)) w))
          (unfold result_for in (refl, (best_of-higher c cs, best_of-highest c cs)))
