-- ===== src/Session/Tests.antt =====
-- Tokens over transparent parameters: the payload is the subject, its length and the time, and the
-- signature is the secret and the payload.
use open_playlist_engine.Prelude.{
  arith, ℕ, ◌+◌, ◌-◌, ◌≡◌, ◌≢◌, refl, ap, Option, none, some, [], ◌∷◌, ◌++◌, All, Text, codes,
  length, take, drop, nat_eq, ok, raised, map, text_beq,
}
use open_playlist_engine.Session.{
  expired, invalid_signature, Payload, ReadPayload, TokenOps, sign_session, verify_session,
}
use open_playlist_engine.Session.RoundTrip.{verify_session-sign_session}
use open_playlist_engine.Session.Checks.{IsGenuine, verify_session-IsGenuine}

abbrev high : ℕ → ℕ
high c = c + 100

abbrev low : ℕ → ℕ
low c = c - 100

high-no_dot : (s : Text) → All (λ c. c ≢ b'.') (map high s)
high-no_dot [] = tt
high-no_dot (c ∷ s) = (omega arith, high-no_dot s)

low-high : (s : Text) → map low (map high s) ≡ s
low-high [] = refl
low-high (c ∷ s) =
    let back : low (high c) ≡ c = omega arith in let rest = low-high s in rw back (ap (◌∷◌ c) rest)

take-length : (s t : Text) → take (length s) (s ++ t) ≡ s
take-length [] t = refl
take-length (c ∷ s) t = ap (◌∷◌ c) (take-length s t)

drop-length : (s t : Text) → drop (length s) (s ++ t) ≡ t
drop-length [] t = refl
drop-length (c ∷ s) t = drop-length s t

abbrev plain : TokenOps
plain = record {
  encode = map high;
  decode = λ s. some (map low s);
  digest = λ secret s. secret ++ s;
  dumps = λ p. length p.sub ∷ p.iat ∷ p.sub ++ p.purpose;
  loads = load;
}
  where
    load : Text → Option ReadPayload
    load (n ∷ iat ∷ s) =
        some (record { sub = some (take n s); purpose = some (drop n s); iat = iat })
    load _ = none

load-dump :
    (p : Payload)
    → plain.loads (plain.dumps p)
      ≡ some (record { sub = some p.sub; purpose = some p.purpose; iat = p.iat })
load-dump p = rw (take-length p.sub p.purpose) (rw (drop-length p.sub p.purpose) refl)

abbrev token : Text
token = sign_session plain (codes "u") (codes "web") (codes "k") 1000

verify_session-sign_session_example :
    verify_session plain token (codes "web") (codes "k") 3600 2000 ≡ ok (codes "u")
verify_session-sign_session_example =
    verify_session-sign_session plain high-no_dot (λ s. ap some (low-high s)) load-dump b'u' []
      (codes "web") (codes "k") 1000 3600 2000

too_late : verify_session plain token (codes "web") (codes "k") 3600 5000 ≡ raised expired
unfolding verify_session sign_session text_beq
too_late = refl

other_secret :
    verify_session plain token (codes "web") (codes "l") 3600 2000 ≡ raised invalid_signature
unfolding verify_session sign_session text_beq
other_secret = refl

accepted : verify_session plain token (codes "web") (codes "k") 3600 2000 ≡ ok (codes "u")
unfolding verify_session sign_session text_beq
accepted = refl

verify_session-IsGenuine_example :
    IsGenuine plain token (codes "web") (codes "k") 3600 2000 (codes "u")
verify_session-IsGenuine_example =
    verify_session-IsGenuine plain token (codes "web") (codes "k") 3600 2000 (codes "u") accepted
