-- ===== src/RateLimit/Tests.antt =====
-- A bucket of three tokens, and instances of the theorems.
use open_playlist_engine.Prelude.{ℕ, ◌≤◌, List, [], ◌∷◌, arith}
use open_playlist_engine.RateLimit.{Bucket}
use open_playlist_engine.RateLimit.Bounds.{attempts, attempts_bounded}

abbrev bucket : Bucket
bucket = record { capacity = 3; refill_per_s = 1; tokens = 3; updated = 10 }

abbrev tries : List (ℕ × ℕ)
tries = (10, 2) ∷ (10, 2) ∷ (11, 2) ∷ []

attempts_bounded_example : (attempts bucket tries).tokens ≤ 3
attempts_bounded_example = attempts_bounded bucket tries (omega arith)
