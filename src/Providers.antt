-- ===== src/Providers.antt =====
-- What a provider adapter answers (backend/app/core/adapter.py): its errors, the candidates of a
-- search, the results of a write. Confidences count ten-thousandths, since the program rounds each
-- to four decimals.
use open_playlist_engine.Prelude.{ℕ, Bool, true, false, Option, Text, Result, ok, raised, ◌≡◌}

-- What a call of an adapter may raise: the subclasses of `ProviderError` that the program tells
-- apart, each with its message, and any other exception, with its class and its text.
pub data AdapterError : Type 0 where
  auth_expired refresh_token_expired access_denied not_found unsupported other : Text → AdapterError
  rate_limited : Option ℕ → Text → AdapterError
  foreign : Text → Text → AdapterError

-- `str(exc)`
unfoldable pub message : AdapterError → Text
message (auth_expired m) = m
message (refresh_token_expired m) = m
message (access_denied m) = m
message (not_found m) = m
message (unsupported m) = m
message (other m) = m
message (rate_limited _ m) = m
message (foreign _ m) = m

-- `except ProviderError` does not catch it.
unfoldable pub is_foreign : AdapterError → Bool
is_foreign (foreign _ _) = true
is_foreign _ = false

-- A call that answers, or raises a `ProviderError`.
abbrev pub IsHandled : {A : Type 0} → Result AdapterError A → Type 0
IsHandled (ok a) = Unit
IsHandled (raised e) = is_foreign e ≡ false

-- `isinstance(exc, (AuthExpired, RateLimited))`
unfoldable pub is_auth_or_rate : AdapterError → Bool
is_auth_or_rate (auth_expired _) = true
is_auth_or_rate (refresh_token_expired _) = true
is_auth_or_rate (rate_limited _ _) = true
is_auth_or_rate _ = false

pub record TrackCandidate : Type 0 where
  pub provider_track_id : Text
  pub uri : Text
  pub title : Text
  pub artist : Text
  pub album : Option Text
  pub duration_s : Option ℕ
  pub isrc : Option Text

pub record MatchResult : Type 0 where
  pub candidate : Option TrackCandidate
  pub confidence : ℕ
  pub source : Text
  pub needs_review : Bool
  pub review_reason : Option Text

pub record AddItemResult : Type 0 where
  pub uri : Text
  pub is_ok : Bool
  pub already_present : Bool
  pub position : Option ℕ
  pub error : Option Text
