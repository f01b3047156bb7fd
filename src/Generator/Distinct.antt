-- ===== src/Generator/Distinct.antt =====
-- The keys of the candidates of a resolved plan.
use open_playlist_engine.Prelude.{
  ℕ, ◌≡◌, refl, Bool, true, false, Option, none, some, List, [], ◌∷◌, Text, Result, ok, raised,
}
use open_playlist_engine.Counter.{mem}
use open_playlist_engine.Models.{Track}
use open_playlist_engine.Models.Normalize.{TextOps}
use open_playlist_engine.Providers.{AdapterError, TrackCandidate, MatchResult}
use open_playlist_engine.Match.{FloatOps, resolve}
use open_playlist_engine.Generator.{
  GeneratedTrackIntent, ResolvedGenerationItem, candidate_key, cons_item, resolved_item,
  unresolved_item, keep_new, with_candidate, one_intent, intent_track, resolve_intents,
  resolve_generated_plan,
}

module _ (casefold : Text → Text) where
  -- The keys of the candidates differ from each other, and from those seen before.
  abbrev pub Fresh : List Text → List ResolvedGenerationItem → Type 0
  Fresh seen [] = Unit
  Fresh seen (i ∷ is) = elim i.candidate [
    | none ↦ Fresh seen is
    | some c ↦
        (mem (candidate_key casefold c) seen ≡ false) × Fresh (candidate_key casefold c ∷ seen) is
  ]

  -- The same of an answer.
  abbrev pub FreshAnswer :
      {W : Type 0} → List Text → Result AdapterError (List ResolvedGenerationItem) × W → Type 0
  FreshAnswer seen (ok is, w) = Fresh seen is
  FreshAnswer seen (raised e, w) = Unit

  module _ ⦃ops : TextOps⦄ (fl : FloatOps) {W : Type 0} (threshold : ℕ)
      (search : Track → W → Result AdapterError (List TrackCandidate) × W)
      (low_confidence : ℕ → Text) where
    cons_fresh :
        (seen : List Text) (i : GeneratedTrackIntent) (m : MatchResult) (c : TrackCandidate)
        (answer : Result AdapterError (List ResolvedGenerationItem) × W)
        → mem (candidate_key casefold c) seen ≡ false
        → FreshAnswer (candidate_key casefold c ∷ seen) answer
        → FreshAnswer seen
            (cons_item (resolved_item fl casefold threshold search low_confidence i m c) answer)
    unfolding cons_item resolved_item
    cons_fresh seen i m c (ok is, w) h k = (h, k)
    cons_fresh seen i m c (raised e, w) h k = tt

    cons_unresolved :
        (seen : List Text) (i : GeneratedTrackIntent)
        (answer : Result AdapterError (List ResolvedGenerationItem) × W)
        → FreshAnswer seen answer
        → FreshAnswer seen
            (cons_item (unresolved_item fl casefold threshold search low_confidence i) answer)
    unfolding cons_item unresolved_item
    cons_unresolved seen i (ok is, w) k = k
    cons_unresolved seen i (raised e, w) k = tt

    keep_fresh :
        (b : Bool) (seen : List Text) (i : GeneratedTrackIntent) (m : MatchResult)
        (c : TrackCandidate) (w : W)
        (rest : List Text → W → Result AdapterError (List ResolvedGenerationItem) × W)
        → mem (candidate_key casefold c) seen ≡ b
        → ((s : List Text) (v : W) → FreshAnswer s (rest s v))
        → FreshAnswer seen (
            keep_new fl casefold threshold search low_confidence b seen
              (candidate_key casefold c)
              (resolved_item fl casefold threshold search low_confidence i m c)
              w
              rest)
    unfolding keep_new
    keep_fresh true seen i m c w rest h k = k seen w
    keep_fresh false seen i m c w rest h k =
        cons_fresh seen i m c (rest (candidate_key casefold c ∷ seen) w) h (k _ w)

    candidate_fresh :
        (seen : List Text) (i : GeneratedTrackIntent) (m : MatchResult) (o : Option TrackCandidate)
        (w : W) (rest : List Text → W → Result AdapterError (List ResolvedGenerationItem) × W)
        → ((s : List Text) (v : W) → FreshAnswer s (rest s v))
        → FreshAnswer seen
            (with_candidate fl casefold threshold search low_confidence seen i m o w rest)
    unfolding with_candidate
    candidate_fresh seen i m none w rest k = cons_unresolved seen i (rest seen w) (k seen w)
    candidate_fresh seen i m (some c) w rest k = keep_fresh _ seen i m c w rest refl k

    one_fresh :
        (seen : List Text) (i : GeneratedTrackIntent) (answer : Result AdapterError MatchResult × W)
        (rest : List Text → W → Result AdapterError (List ResolvedGenerationItem) × W)
        → ((s : List Text) (v : W) → FreshAnswer s (rest s v))
        → FreshAnswer seen
            (one_intent fl casefold threshold search low_confidence seen i answer rest)
    unfolding one_intent
    one_fresh seen i (raised e, w) rest k = tt
    one_fresh seen i (ok m, w) rest k = candidate_fresh seen i m m.candidate w rest k

    intents_fresh :
        (is : List GeneratedTrackIntent) (seen : List Text) (w : W)
        → FreshAnswer seen (resolve_intents fl casefold threshold search low_confidence is seen w)
    unfolding resolve_intents
    intents_fresh [] seen w = tt
    intents_fresh (i ∷ is) seen w =
        one_fresh seen i (resolve fl threshold search none (λ t m v. v) (intent_track i) w)
          (λ s v. resolve_intents fl casefold threshold search low_confidence is s v)
          (λ s v. intents_fresh is s v)

    -- The items of a resolved plan, when the search raises no error: no two candidates have the
    -- same key.
    pub resolve_generated_plan-FreshAnswer :
        (plan : List GeneratedTrackIntent) (w : W)
        → FreshAnswer [] (resolve_generated_plan fl casefold threshold search low_confidence plan w)
    unfolding resolve_generated_plan
    resolve_generated_plan-FreshAnswer plan w = intents_fresh plan [] w
