-- ===== src/Session.antt =====
-- Signed session tokens (backend/app/core/session_tokens.py). Base64, SHA-256, HMAC and JSON are
-- parameters. Times are whole seconds; text and its UTF-8 bytes are one.
pub mod RoundTrip
pub mod Checks
mod Tests
use open_playlist_engine.Prelude.{
  ℕ, ◌+◌, ◌-◌, Bool, true, false, Option, none, some, List, [], ◌∷◌, ◌++◌, if◌then◌else◌, ltb, Text,
  text_eq, codes, nat_eq, ◌==◌, Result, ok, raised,
}

-- The messages of `SessionTokenError`.
pub data SessionTokenError : Type 0 where
  malformed invalid_signature invalid_payload invalid_subject invalid_purpose : SessionTokenError
  invalid_issue_time expired : SessionTokenError

-- The fields of the signed payload.
pub record Payload : Type 0 where
  pub sub : Text
  pub purpose : Text
  pub iat : ℕ

-- The fields of a payload that was read back: `sub` is absent if it is not a text, and the whole is
-- absent if a field is missing or of a type that the reader refuses.
pub record ReadPayload : Type 0 where
  pub sub : Option Text
  pub purpose : Option Text
  pub iat : ℕ

-- `encode` is `base64.urlsafe_b64encode(...).rstrip(b"=")`, `decode` its inverse, which fails on
-- other text; `digest secret text` is the HMAC of the text under `_key(secret)`; `dumps` and `loads`
-- are the JSON of the payload.
pub record TokenOps : Type 0 where
  pub encode : Text → Text
  pub decode : Text → Option Text
  pub digest : Text → Text → Text
  pub dumps : Payload → Text
  pub loads : Text → Option ReadPayload

-- A character before the left part of a split.
unfoldable pub keep_before : ℕ → Option (Text × Text) → Option (Text × Text)
keep_before d none = none
keep_before d (some (left, right)) = some (d ∷ left, right)

-- `token.split(".", 1)`, which needs a dot.
unfoldable pub split_dot : Text → Option (Text × Text)
unfolding keep_before
split_dot [] = none
split_dot (c ∷ s) = let rest = split_dot s in if c == b'.' then some ([], s) else keep_before c rest

module _ (ops : TokenOps) where
  -- The signature of an encoded payload.
  unfoldable pub signature_of : Text → Text → Text
  signature_of secret encoded = ops.encode (ops.digest secret encoded)

  unfoldable pub sign_session : Text → Text → Text → ℕ → Text
  unfolding signature_of
  sign_session subject purpose secret now =
      let encoded =
        ops.encode (ops.dumps (record { sub = subject; purpose = purpose; iat = now })) in
      encoded ++ b'.' ∷ signature_of secret encoded

  -- `age < -60` and `age > max_age_s`, for the age `now - iat`.
  unfoldable pub check_age : Text → ℕ → ℕ → ℕ → Result SessionTokenError Text
  check_age subject issued max_age now =
      if ltb (now + 60) issued
      then raised invalid_issue_time
      else if ltb (issued + max_age) now
      then raised expired
      else ok subject

  unfoldable pub check_purpose :
      Text → Option Text → Text → ℕ → ℕ → ℕ → Result SessionTokenError Text
  unfolding check_age
  check_purpose subject none purpose issued max_age now = raised invalid_purpose
  check_purpose subject (some found) purpose issued max_age now =
      if found == purpose then check_age subject issued max_age now else raised invalid_purpose

  -- `not isinstance(subject, str) or not subject`
  unfoldable pub check_subject :
      ReadPayload → Text → ℕ → ℕ → Option Text → Result SessionTokenError Text
  unfolding check_purpose
  check_subject p purpose max_age now none = raised invalid_subject
  check_subject p purpose max_age now (some []) = raised invalid_subject
  check_subject p purpose max_age now (some (c ∷ s)) =
      check_purpose (c ∷ s) p.purpose purpose p.iat max_age now

  unfoldable pub check_payload : Option ReadPayload → Text → ℕ → ℕ → Result SessionTokenError Text
  unfolding check_subject
  check_payload none purpose max_age now = raised invalid_payload
  check_payload (some p) purpose max_age now = check_subject p purpose max_age now p.sub

  -- `json.loads(_decode(encoded))`; an encoding that cannot be decoded is an invalid payload too.
  unfoldable pub read_payload : Option Text → Option ReadPayload
  read_payload none = none
  read_payload (some s) = ops.loads s

  unfoldable pub verify_parts :
      Option (Text × Text) → Text → Text → ℕ → ℕ → Result SessionTokenError Text
  unfolding signature_of check_payload read_payload
  verify_parts none purpose secret max_age now = raised malformed
  verify_parts (some (encoded, signature)) purpose secret max_age now =
      if signature == signature_of secret encoded
      then check_payload (read_payload (ops.decode encoded)) purpose max_age now
      else raised invalid_signature

  unfoldable pub verify_session : Text → Text → Text → ℕ → ℕ → Result SessionTokenError Text
  unfolding split_dot verify_parts
  verify_session token purpose secret max_age now =
      verify_parts (split_dot token) purpose secret max_age now
