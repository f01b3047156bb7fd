-- ===== src/RateLimit/Bounds.antt =====
-- How much a bucket lets through.
use open_playlist_engine.Prelude.{ℕ, ◌≤◌, ◌≡◌, List, [], ◌∷◌, arith}
use open_playlist_engine.RateLimit.{Bucket, refilled, take_tokens, attempt}

-- Attempts at one bucket, each a time and a cost.
unfoldable pub attempts : Bucket → List (ℕ × ℕ) → Bucket
unfolding attempt
attempts b [] = b
attempts b ((now, cost) ∷ rest) = attempts (attempt b now cost).1 rest

take-less : (b : Bucket) (cost : ℕ) → (take_tokens b cost).1.tokens ≤ b.tokens
unfolding take_tokens
take-less b cost = ground arith

take-shape :
    (b : Bucket) (cost : ℕ)
    → ((take_tokens b cost).1.capacity ≡ b.capacity)
      × ((take_tokens b cost).1.refill_per_s ≡ b.refill_per_s)
      × ((take_tokens b cost).1.updated ≡ b.updated)
unfolding take_tokens
take-shape b cost = ground arith

attempt-shape :
    (b : Bucket) (now cost : ℕ)
    → ((attempt b now cost).1.capacity ≡ b.capacity)
      × ((attempt b now cost).1.refill_per_s ≡ b.refill_per_s)
      × ((attempt b now cost).1.updated ≡ now)
unfolding attempt refilled
attempt-shape b now cost = take-shape (refilled b now) cost

attempt-less : (b : Bucket) (now cost : ℕ) → (attempt b now cost).1.tokens ≤ b.capacity
unfolding attempt refilled
attempt-less b now cost = omega (arith, take-less (refilled b now) cost)

-- A bucket that holds no more than its capacity holds no more than that after any attempts.
pub attempts_bounded :
    (b : Bucket) (xs : List (ℕ × ℕ)) → b.tokens ≤ b.capacity → (attempts b xs).tokens ≤ b.capacity
unfolding attempts
attempts_bounded b [] h = h
attempts_bounded b ((now, cost) ∷ rest) h =
    let c = (attempt b now cost).1 in
    let (cap, rate, time) = attempt-shape b now cost in
    let fits : c.tokens ≤ c.capacity = omega (arith, cap, attempt-less b now cost) in
    omega (arith, cap, attempts_bounded c rest fits)
