-- ===== src/RateLimit.antt =====
-- The token buckets of backend/app/core/rate_limit.py. Tokens, times and rates are natural numbers in
-- units of the caller's, with exact arithmetic where the program uses floats; the clock is an argument.
pub mod Bounds
mod Tests
use open_playlist_engine.Prelude.{
  ℕ, ◌+◌, ◌-◌, ◌*◌, min, Bool, true, false, not, ◌||◌, Option, none, some, List, [], ◌∷◌,
  if◌then◌else◌, leb, Text, text_eq, nat_eq, ◌==◌, Result, ok, raised,
}
use open_playlist_engine.Models.{get, put}

pub record Bucket : Type 0 where
  pub capacity : ℕ
  pub refill_per_s : ℕ
  pub tokens : ℕ
  pub updated : ℕ

pub data LimitError : Type 0 where
  value_error : LimitError

-- What is left to wait, as the fraction of a deficit over the rate.
pub record Wait : Type 0 where
  pub deficit : ℕ
  pub refill_per_s : ℕ

abbrev pub Buckets : Type 0
Buckets = List (Text × Bucket)

unfoldable pub new_bucket : ℕ → ℕ → ℕ → Bucket
new_bucket capacity refill now = record {
  capacity = capacity;
  refill_per_s = refill;
  tokens = capacity;
  updated = now;
}

unfoldable pub configure : Buckets → Text → ℕ → ℕ → ℕ → Buckets
unfolding new_bucket put
configure bs key capacity refill now = put key (new_bucket capacity refill now) bs

-- `key not in self._buckets`
configure_missing : Option Bucket → Buckets → Text → ℕ → ℕ → ℕ → Buckets
unfolding configure
configure_missing none bs key capacity refill now = configure bs key capacity refill now
configure_missing (some b) bs key capacity refill now = bs

unfoldable pub ensure_configured : Buckets → Text → ℕ → ℕ → ℕ → Buckets
unfolding configure_missing get
ensure_configured bs key capacity refill now =
    configure_missing (get key bs) bs key capacity refill now

unfoldable pub refilled : Bucket → ℕ → Bucket
refilled b now = record b {
  tokens = min b.capacity (b.tokens + (now - b.updated) * b.refill_per_s);
  updated = now;
}

-- The test on a bucket that has been refilled, with what remains of it.
unfoldable pub take_tokens : Bucket → ℕ → Option Wait × Bucket
take_tokens b cost =
    if leb cost b.tokens
    then (none, record b { tokens = b.tokens - cost })
    else (some (record { deficit = cost - b.tokens; refill_per_s = b.refill_per_s }), b)

-- One attempt at a bucket.
unfoldable pub attempt : Bucket → ℕ → ℕ → Option Wait × Bucket
unfolding refilled take_tokens
attempt b now cost = take_tokens (refilled b now) cost

-- The bucket of the key; one of another shape is replaced.
unfoldable pub bucket_for : Option Bucket → ℕ → ℕ → ℕ → Bucket
unfolding new_bucket
bucket_for none capacity refill now = new_bucket capacity refill now
bucket_for (some b) capacity refill now =
    if not (b.capacity == capacity) || not (b.refill_per_s == refill)
    then new_bucket capacity refill now
    else b

-- The times are those of the two readings of the clock: when the bucket is made, and after.
unfoldable pub try_consume :
    Buckets → Text → ℕ → ℕ → ℕ → ℕ → ℕ → Result LimitError (Option Wait × Buckets)
unfolding bucket_for attempt get put
try_consume bs key capacity refill cost made now =
    if capacity == 0 || refill == 0 || cost == 0
    then raised value_error
    else let (wait, b) = attempt (bucket_for (get key bs) capacity refill made) now cost in
      ok (wait, put key b bs)

-- One round of `acquire`: no bucket means no wait.
acquire_from : Option Bucket → Buckets → Text → ℕ → ℕ → Option Wait × Buckets
unfolding attempt put
acquire_from none bs key cost now = (none, bs)
acquire_from (some b) bs key cost now =
    let (wait, after) = attempt b now cost in (wait, put key after bs)

unfoldable pub acquire_round : Buckets → Text → ℕ → ℕ → Option Wait × Buckets
unfolding acquire_from get
acquire_round bs key cost now = acquire_from (get key bs) bs key cost now
