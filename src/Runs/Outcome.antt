-- ===== src/Runs/Outcome.antt =====
-- What the items of a run's migration job say about the run: `classify_job_items`,
-- `review_finalization_ready`, `_checkpoint_review_resolved`, `_review_ready_for_run` and
-- `_job_item_mappings` (backend/app/jobs/sync.py).
use open_playlist_engine.Prelude.{
  ℕ, Bool, true, false, not, ◌&&◌, Option, none, some, List, [], ◌∷◌, all, count_if, if◌then◌else◌,
  Text, text_eq, codes, ◌==◌, is_some, ltb, filter,
}
use open_playlist_engine.Models.{truthy, get, put}
use open_playlist_engine.Migration.{
  JobItem, pending, matched, needs_review, written, skipped, failed,
}
use open_playlist_engine.Runs.{SyncStatus, Checkpoint, Store, SyncRun, find_checkpoint}

abbrev pub no_match : Text
no_match = codes "no target match found"

abbrev reason_is : Text → Option Text → Bool
reason_is why none = false
reason_is why (some r) = r == why

-- `item.status == "failed" and item.reason == "no target match found"`, and the other failures.
unfoldable pub is_unmatched : JobItem → Bool
is_unmatched i = elim i.status [ failed ↦ reason_is no_match i.reason | _ ↦ false ]

unfoldable pub is_write_failure : JobItem → Bool
is_write_failure i = elim i.status [ failed ↦ not (reason_is no_match i.reason) | _ ↦ false ]

unfoldable pub wants_review : JobItem → Bool
unfolding is_unmatched
wants_review i = elim i.status [ needs_review ↦ true | _ ↦ is_unmatched i ]

pub record SyncJobOutcome : Type 0 where
  pub status : SyncStatus
  pub review_count : ℕ
  pub failed_count : ℕ

unfoldable pub classify_job_items : List JobItem → SyncJobOutcome
unfolding wants_review is_write_failure
classify_job_items items =
    let reviews = count_if wants_review items in
    let failures = count_if is_write_failure items in
    record {
      status =
          if ltb 0 failures
          then SyncStatus.partial_failure
          else if ltb 0 reviews
          then SyncStatus.review_required
          else SyncStatus.succeeded;
      review_count = reviews;
      failed_count = failures;
    }

-- `item.status not in {"needs_review", "failed"}`
abbrev pub is_resolved : JobItem → Bool
is_resolved i = elim i.status [ needs_review ↦ false | failed ↦ false | _ ↦ true ]

unfoldable pub review_finalization_ready : List JobItem → Bool
review_finalization_ready items = all is_resolved items

find_item : Text → List JobItem → Option JobItem
find_item id [] = none
find_item id (i ∷ is) = if i.id == id then some i else find_item id is

-- The item is there and resolved.
item_resolved : List JobItem → Text → Bool
unfolding find_item
item_resolved items id = elim (find_item id items) [ none ↦ false | some i ↦ is_resolved i ]

resolved_ids : List JobItem → List Text → Bool
unfolding review_finalization_ready item_resolved
resolved_ids items [] = false
resolved_ids items (id ∷ ids) =
    review_finalization_ready items && all (item_resolved items) (id ∷ ids)

-- Ids that are empty do not count.
unfoldable pub checkpoint_review_resolved : Checkpoint → List JobItem → Bool
unfolding resolved_ids
checkpoint_review_resolved c items =
    resolved_ids items (filter (λ id. is_some (truthy (some id))) c.unresolved)

-- The items of the migration job of a run, if it has one, are an argument.
unfoldable pub review_ready_for_run : (Text → Option (List JobItem)) → Store → SyncRun → Bool
unfolding checkpoint_review_resolved find_checkpoint
review_ready_for_run items_of st r = elim (items_of r.id) [
  | none ↦ false
  | some items ↦ elim (find_checkpoint r.rule_id st.checkpoints) [
    | none ↦ false
    | some c ↦ checkpoint_review_resolved c items
  ]
]

-- `_SYNC_ENTRY_TOKEN`
abbrev pub sync_entry_token : Text
sync_entry_token = codes "ope_sync_entry_token"

-- What one item says about the target of its entry; `none` if it says nothing.
item_mapping : JobItem → Option (Option Text)
item_mapping i = elim i.status [
  | pending ↦ none
  | needs_review ↦ none
  | failed ↦ none
  | written ↦ elim (truthy i.target_uri) [ none ↦ none | some uri ↦ some (some uri) ]
  | matched ↦ elim (truthy i.target_uri) [ none ↦ none | some uri ↦ some (some uri) ]
  | skipped ↦ some i.target_uri
]

add_mapping :
    Option Text → Option (Option Text) → List (Text × Option Text) → List (Text × Option Text)
unfolding put
add_mapping (some token) (some uri) m = put token uri m
add_mapping none _ m = m
add_mapping (some token) none m = m

mappings_from : List (Text × Option Text) → List JobItem → List (Text × Option Text)
unfolding item_mapping add_mapping
mappings_from m [] = m
mappings_from m (i ∷ is) =
    mappings_from
      (add_mapping (truthy (get sync_entry_token i.source_metadata.metadata)) (item_mapping i) m) is

unfoldable pub job_item_mappings : List JobItem → List (Text × Option Text)
unfolding mappings_from
job_item_mappings items = mappings_from [] items
