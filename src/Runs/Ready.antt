-- ===== src/Runs/Ready.antt =====
-- What the outcome of a run says of the items of its job.
use open_playlist_engine.Prelude.{
  if◌then◌else◌, ◌+◌, ◌≡◌, refl, List, [], ◌∷◌, all, count_if, leb, arith, text_eq,
}
use open_playlist_engine.Migration.{JobItem}
use open_playlist_engine.Runs.{succeeded, status_beq}
use open_playlist_engine.Runs.Outcome.{
  classify_job_items, wants_review, is_write_failure, is_unmatched, is_resolved,
  review_finalization_ready,
}

item_resolved_iff :
    (i : JobItem)
    → is_resolved i
      ≡ leb ((if wants_review i then 1 else 0) + (if is_write_failure i then 1 else 0)) 0
unfolding wants_review is_write_failure is_unmatched
item_resolved_iff i = ground arith

count-resolved :
    (items : List JobItem)
    → all is_resolved items ≡ leb (count_if wants_review items + count_if is_write_failure items) 0
count-resolved [] = refl
count-resolved (i ∷ is) = ground (arith, item_resolved_iff i, count-resolved is)

-- The items of a job give the outcome succeeded exactly when the review of the job is ready to be
-- finalised.
pub classify_job_items-ready :
    (items : List JobItem)
    → status_beq (classify_job_items items).status succeeded ≡ review_finalization_ready items
unfolding classify_job_items review_finalization_ready
classify_job_items-ready items = ground (arith, count-resolved items)
