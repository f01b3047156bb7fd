-- ===== src/Organizer/Job.antt =====
-- The organizer's job (`_run`, `_run_item`, `_fail_item` and `_commit_counts` of
-- backend/app/jobs/organizer.py). Delays are whole seconds.
use open_playlist_engine.Prelude.{
  ℕ, zero, suc, ◌+◌, min, max, Bool, true, false, ◌&&◌, ◌||◌, none, some, List, [], ◌∷◌, length,
  count_if, if◌then◌else◌, ltb, leb, nat_eq, Text, Result, ok, raised,
}
use mathlib.Core.Option.{Option, get_or}
use open_playlist_engine.Models.{truthy_number}
use open_playlist_engine.Providers.{
  AdapterError, auth_expired, refresh_token_expired, access_denied, rate_limited, not_found,
  unsupported, other, foreign, message,
}
use open_playlist_engine.Organizer.Adapter.{
  Adapter, OrganizerItem, pending, running, succeeded, skipped, failed,
}
use open_playlist_engine.Organizer.Execute.{Execution, executed, rejected, broken, execute_item}

pub record Settings : Type 0 where
  pub retry_attempts : ℕ
  pub retry_max_delay_s : ℕ

unfoldable pub fail_item : Text → Bool → OrganizerItem → OrganizerItem
fail_item why retryable i = record i { status = failed; retryable = retryable; error = some why }

-- `2**attempt`
power_of_two : ℕ → ℕ
power_of_two zero = 1
power_of_two (suc n) = let p = power_of_two n in p + p

-- What an item's run leaves: whether it succeeded, the row and the provider, and an exception that
-- no handler catches.
pub record ItemRun (W : Type 0) : Type 0 where
  pub success : Bool
  pub item : OrganizerItem
  pub world : W
  pub escaped : Option AdapterError

-- What the loop over the items leaves.
pub record ItemsRun (W : Type 0) : Type 0 where
  pub had_success : Bool
  pub items : List OrganizerItem
  pub world : W
  pub escaped : Option AdapterError

-- `_items_for_execution_stmt`: the status is not succeeded, skipped or failed.
abbrev pub is_ended : OrganizerItem → Bool
is_ended i = elim i.status [
  | pending ↦ false
  | running ↦ false
  | succeeded ↦ true
  | skipped ↦ true
  | failed ↦ true
]

abbrev pub is_done : OrganizerItem → Bool
is_done i = elim i.status [ succeeded ↦ true | skipped ↦ true | _ ↦ false ]

abbrev pub has_failed : OrganizerItem → Bool
has_failed i = elim i.status [ failed ↦ true | _ ↦ false ]

pub record OrganizerCounts : Type 0 where
  pub total : ℕ
  pub done : ℕ
  pub failures : ℕ
  pub partial : Bool

-- The rows, with the counts of the job or the exception that leaves it.
pub record JobRun : Type 0 where
  pub had_success : Bool
  pub items : List OrganizerItem
  pub result : Result AdapterError OrganizerCounts

-- `_commit_counts`, and whether the status of the job is partial or done.
unfoldable pub count_items : List OrganizerItem → OrganizerCounts
count_items items =
    let failures = count_if has_failed items in
    record {
      total = length items;
      done = count_if is_done items;
      failures = failures;
      partial = ltb 0 failures;
    }

module _ {W : Type 0} (a : Adapter W) (fold : Text → Text) (digest : List Text → Text)
    (s : Settings) where
  -- The delay before the next attempt, if there is one.
  unfoldable pub may_retry : ℕ → Option ℕ → Bool
  unfolding power_of_two
  may_retry attempt after =
      let delay = get_or (truthy_number after) (min (power_of_two attempt) s.retry_max_delay_s) in
      ltb (attempt + 1) s.retry_attempts && leb delay s.retry_max_delay_s

  unfoldable pub failed_with : OrganizerItem → W → AdapterError → Bool → ItemRun W
  unfolding fail_item message
  failed_with i w e retryable = record {
    success = false;
    item = fail_item (message e) retryable i;
    world = w;
    escaped = none;
  }

  -- The handlers of one attempt; `later` is the run of the attempts that are left.
  unfoldable pub after_error : ℕ → OrganizerItem → W → AdapterError → ItemRun W → ItemRun W
  unfolding may_retry failed_with
  after_error attempt i w (rate_limited after m) later =
      if may_retry attempt after then later else failed_with i w (rate_limited after m) true
  after_error attempt i w (auth_expired m) later = failed_with i w (auth_expired m) true
  after_error attempt i w (refresh_token_expired m) later =
      failed_with i w (refresh_token_expired m) true
  after_error attempt i w (access_denied m) later = failed_with i w (access_denied m) true
  after_error attempt i w (not_found m) later = failed_with i w (not_found m) false
  after_error attempt i w (unsupported m) later = failed_with i w (unsupported m) false
  after_error attempt i w (other m) later = failed_with i w (other m) false
  after_error attempt i w (foreign name m) later = record {
    success = false;
    item = i;
    world = w;
    escaped = some (foreign name m);
  }

  unfoldable pub after_attempt : ℕ → OrganizerItem → Execution × W → ItemRun W → ItemRun W
  unfolding after_error fail_item
  after_attempt attempt i (executed payload, w) later = record {
    success = true;
    item = record i {
      status = succeeded;
      retryable = false;
      error = none;
      result_payload = payload;
    };
    world = w;
    escaped = none;
  }
  after_attempt attempt i (rejected why payload, w) later = record {
    success = false;
    item = fail_item why false (record i { result_payload = payload });
    world = w;
    escaped = none;
  }
  after_attempt attempt i (broken e, w) later = after_error attempt i w e later

  -- `for attempt in range(…)`: the attempts left, and the number of this one.
  unfoldable pub run_attempts : ℕ → ℕ → OrganizerItem → W → ItemRun W
  unfolding execute_item after_attempt
  run_attempts zero attempt i w = record { success = false; item = i; world = w; escaped = none }
  run_attempts (suc left) attempt i w =
      let counted : OrganizerItem = record i { attempts = i.attempts + 1 } in
      let outcome = execute_item a fold digest counted (a.acquire (max 1 a.write_quota_cost) w) in
      let later = run_attempts left (attempt + 1) counted outcome.1 in
      after_attempt attempt counted outcome later

  unfoldable pub run_item : OrganizerItem → W → ItemRun W
  unfolding run_attempts
  run_item i w = run_attempts s.retry_attempts 0 (record i { status = running; error = none }) w

  -- An exception that is not caught leaves the rows behind it as they are.
  unfoldable pub join_items :
      Option AdapterError → ItemRun W → List OrganizerItem → ItemsRun W → ItemsRun W
  join_items (some e) out is later = record {
    had_success = out.success;
    items = out.item ∷ is;
    world = out.world;
    escaped = some e;
  }
  join_items none out is later = record {
    had_success = out.success || later.had_success;
    items = out.item ∷ later.items;
    world = later.world;
    escaped = later.escaped;
  }

  -- The loop over the rows that are to be executed, in the order of the query; the others stay.
  unfoldable pub run_items : List OrganizerItem → W → ItemsRun W
  unfolding run_item join_items
  run_items [] w = record { had_success = false; items = []; world = w; escaped = none }
  run_items (i ∷ is) w =
      let out : ItemRun W =
        if is_ended i
        then record { success = false; item = i; world = w; escaped = none }
        else run_item i w in
      join_items out.escaped out is (run_items is out.world)

  unfoldable pub counted_or_raised :
      Option AdapterError → List OrganizerItem → Result AdapterError OrganizerCounts
  unfolding count_items
  counted_or_raised none items = ok (count_items items)
  counted_or_raised (some e) items = raised e

  -- `_run`
  unfoldable pub run_job : List OrganizerItem → W → JobRun
  unfolding run_items counted_or_raised
  run_job is w =
      let out = run_items is w in
      record {
        had_success = out.had_success;
        items = out.items;
        result = counted_or_raised out.escaped out.items;
      }
