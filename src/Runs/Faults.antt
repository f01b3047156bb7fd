-- ===== src/Runs/Faults.antt =====
-- What a run may fail with, and what is done about it (`sync_error_policy` of
-- backend/app/jobs/sync.py).
use open_playlist_engine.Prelude.{
  ℕ, Bool, true, false, Option, none, some, Text, text_eq, codes, nat_eq,
}
use mathlib.Core.Option.{get_or}
use open_playlist_engine.Models.{truthy}
use open_playlist_engine.Providers.{
  AdapterError, auth_expired, refresh_token_expired, access_denied, rate_limited, not_found,
  unsupported, other, foreign, message,
}
use open_playlist_engine.Runs.{SyncStatus, failed, partial_failure, reconnect_required}

pub data SyncFault : Type 0 where
  key_error sync_already_running integrity_error checkpoint_missing value_error overflow_error :
      SyncFault

-- The exceptions that a run may end with.
pub data RunError : Type 0 where
  sync_partial_failure : Text → RunError
  account_not_found credential_not_found : Text → RunError
  provider : AdapterError → RunError
  unexpected : Text → Text → RunError

pub record SyncErrorPolicy : Type 0 where
  pub status : SyncStatus
  pub pause_rule : Bool
  pub retry_after_s : Option ℕ

unfoldable pub sync_error_policy : RunError → SyncErrorPolicy
sync_error_policy (sync_partial_failure _) = record {
  status = partial_failure;
  pause_rule = false;
  retry_after_s = none;
}
sync_error_policy (account_not_found _) = record {
  status = reconnect_required;
  pause_rule = true;
  retry_after_s = none;
}
sync_error_policy (credential_not_found _) = record {
  status = reconnect_required;
  pause_rule = true;
  retry_after_s = none;
}
sync_error_policy (provider (auth_expired _)) = record {
  status = reconnect_required;
  pause_rule = true;
  retry_after_s = none;
}
sync_error_policy (provider (refresh_token_expired _)) = record {
  status = reconnect_required;
  pause_rule = true;
  retry_after_s = none;
}
sync_error_policy (provider (rate_limited after _)) = record {
  status = failed;
  pause_rule = false;
  retry_after_s = after;
}
sync_error_policy _ = record { status = failed; pause_rule = false; retry_after_s = none }

-- `error.__class__.__name__`
class_name : RunError → Text
class_name (sync_partial_failure _) = codes "SyncPartialFailure"
class_name (account_not_found _) = codes "AccountNotFound"
class_name (credential_not_found _) = codes "CredentialNotFound"
class_name (provider (auth_expired _)) = codes "AuthExpired"
class_name (provider (refresh_token_expired _)) = codes "RefreshTokenExpired"
class_name (provider (access_denied _)) = codes "AccessDenied"
class_name (provider (not_found _)) = codes "NotFound"
class_name (provider (unsupported _)) = codes "Unsupported"
class_name (provider (other _)) = codes "ProviderError"
class_name (provider (rate_limited _ _)) = codes "RateLimited"
class_name (provider (foreign name _)) = name
class_name (unexpected name _) = name

raised_text : RunError → Text
unfolding message
raised_text (sync_partial_failure m) = m
raised_text (account_not_found m) = m
raised_text (credential_not_found m) = m
raised_text (provider e) = message e
raised_text (unexpected _ m) = m

-- `str(error) or error.__class__.__name__`
unfoldable pub error_message : RunError → Text
unfolding class_name raised_text
error_message e = get_or (truthy (some (raised_text e))) (class_name e)
