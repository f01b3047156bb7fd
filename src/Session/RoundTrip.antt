-- ===== src/Session/RoundTrip.antt =====
-- Tokens that are signed and verified again.
use open_playlist_engine.Prelude.{
  ℕ, ◌+◌, ◌≡◌, ◌≢◌, refl, false, some, [], ◌∷◌, ◌++◌, All, if◌then◌else◌, ltb, arith, Text, text_eq,
  text_beq_refl, nat_eq, ◌==◌, ok, raised,
}
use open_playlist_engine.Session.{
  expired, invalid_issue_time, Payload, TokenOps, split_dot, signature_of, sign_session, check_age,
  check_purpose, check_payload, check_subject, read_payload, verify_parts, verify_session,
}

-- Text without a dot before the first dot is split off whole.
split_dot-append : (s t : Text) → All (λ c. c ≢ b'.') s → split_dot (s ++ b'.' ∷ t) ≡ some (s, t)
unfolding split_dot
split_dot-append [] t h = refl
split_dot-append (c ∷ s) t h =
    let differs : (c == b'.') ≡ false = ground (arith, h.0) in
    rw (split_dot-append s t h.1) (rw differs refl)

module _ (ops : TokenOps)
    -- What base64 and JSON promise: the alphabet has no dot, and both can be read back.
    (encode-no_dot : (s : Text) → All (λ c. c ≢ b'.') (ops.encode s))
    (decode-encode : (s : Text) → ops.decode (ops.encode s) ≡ some s)
    (loads-dumps : (p : Payload)
      → ops.loads (ops.dumps p)
        ≡ some (record { sub = some p.sub; purpose = some p.purpose; iat = p.iat })) where
  -- Over an encoding without dots that can be read back, and JSON that can be read back: a token
  -- that was signed for a subject that is not empty, verified with the same purpose and secret,
  -- gives the subject, or the error for an issue time more than a minute ahead, or for an age
  -- above the limit.
  pub verify_session-sign_session :
      (c : ℕ) (s purpose secret : Text) (issued max_age now : ℕ)
      → verify_session ops
          (sign_session ops (c ∷ s) purpose secret issued)
          purpose
          secret
          max_age
          now
        ≡ (if ltb (now + 60) issued
            then raised invalid_issue_time
            else if ltb (issued + max_age) now
            then raised expired
            else ok (c ∷ s))
  unfolding verify_session sign_session verify_parts read_payload check_payload check_subject
      check_purpose check_age
  verify_session-sign_session c s purpose secret issued max_age now =
      let payload : Payload = record { sub = c ∷ s; purpose = purpose; iat = issued } in
      let encoded = ops.encode (ops.dumps payload) in
      rw
        (split_dot-append encoded (signature_of ops secret encoded)
          (encode-no_dot (ops.dumps payload)))
        (rw (text_beq_refl (signature_of ops secret encoded)) (
          rw (decode-encode (ops.dumps payload))
            (rw (loads-dumps payload) (rw (text_beq_refl purpose) refl))))
