-- ===== src/Session/Checks.antt =====
-- What a token that is accepted holds.
use open_playlist_engine.Prelude.{
  sym, ℕ, ◌+◌, ◌≤◌, ◌≡◌, inl, inr, refl, ◌∙◌, Option, none, some, [], ◌∷◌, ◌++◌, ltb, arith, Text,
  text_eq, text_beq_iff, nat_eq, nat_beq_iff, ◌==◌, Result, ok, raised, Bool-cases, ap,
}
use open_playlist_engine.Session.{
  ReadPayload, TokenOps, expired, invalid_issue_time, invalid_purpose, keep_before, split_dot,
  signature_of, check_age, check_purpose, check_payload, check_subject, invalid_signature,
  read_payload, verify_parts, verify_session,
}

ok-differs {ℓ} : {E T : Type ℓ} {e : E} {t : T} → ◌≡◌ {A = Result E T} (raised e) (ok t) → ⊥
ok-differs h = cc

ok-injective {ℓ} : {E T : Type ℓ} {s t : T} → ◌≡◌ {A = Result E T} (ok s) (ok t) → s ≡ t
ok-injective h = cc

abbrev parts_of : Option (Text × Text) → Text × Text
parts_of none = ([], [])
parts_of (some p) = p

some_pair-injective :
    (l r left right : Text)
    → ◌≡◌ {A = Option (Text × Text)} (some (l, r)) (some (left, right))
    → (l ≡ left) × (r ≡ right)
some_pair-injective l r left right h = (ap (λ o. (parts_of o).0) h, ap (λ o. (parts_of o).1) h)

-- What the token, the expectations and the clock say of each other.
pub record IsGenuine (ops : TokenOps) (token purpose secret : Text) (max_age now : ℕ)
    (subject : Text) : Type 0 where
  pub encoded : Text
  pub payload : ReadPayload
  pub signed : token ≡ encoded ++ b'.' ∷ signature_of ops secret encoded
  pub decoded : read_payload ops (ops.decode encoded) ≡ some payload
  pub of_subject : payload.sub ≡ some subject
  pub for_purpose : payload.purpose ≡ some purpose
  pub not_early : payload.iat ≤ now + 60
  pub not_late : now ≤ payload.iat + max_age

keep_before-eq :
    (d : ℕ) (rest : Option (Text × Text)) (left right : Text)
    → keep_before d rest ≡ some (left, right)
    → (before : Text) × (rest ≡ some (before, right)) × (left ≡ d ∷ before)
unfolding keep_before
keep_before-eq d none left right h = cc
keep_before-eq d (some (l, r)) left right h =
    let (first, second) = some_pair-injective (d ∷ l) r left right h in
    (l, ap (λ t. some (l, t)) second, sym first)

split_dot-eq :
    (token left right : Text) → split_dot token ≡ some (left, right) → token ≡ left ++ b'.' ∷ right
unfolding split_dot
split_dot-eq [] left right h = cc
split_dot-eq (c ∷ s) left right h = elim (Bool-cases (c == b'.')) [
  | inl dot ↦
      let here : some ([], s) ≡ some (left, right) = (rw dot at h) in
      let is_dot : c ≡ b'.' = (nat_beq_iff c b'.').0 dot in
      let (first, second) = some_pair-injective [] s left right here in
      rw (← first) (rw is_dot (ap (◌∷◌ b'.') second))
  | inr other ↦
      let later : keep_before c (split_dot s) ≡ some (left, right) = (rw other at h) in
      let (before, split, e) = keep_before-eq c (split_dot s) left right later in
      let rest = split_dot-eq s before right split in rw e (ap (◌∷◌ c) rest)
]

module _ (ops : TokenOps) where
  check_age-ok :
      (subject out : Text) (issued max_age now : ℕ)
      → check_age ops subject issued max_age now ≡ ok out
      → (subject ≡ out) × (issued ≤ now + 60) × (now ≤ issued + max_age)
  unfolding check_age
  check_age-ok subject out issued max_age now h = elim (Bool-cases (ltb (now + 60) issued)) [
    | inl early ↦
        let wrong : raised invalid_issue_time ≡ ok out = (rw early at h) in
        absurd (ok-differs wrong)
    | inr fine ↦ elim (Bool-cases (ltb (issued + max_age) now)) [
      | inl late ↦
          let wrong : raised expired ≡ ok out = (rw fine at (rw late at h)) in
          absurd (ok-differs wrong)
      | inr kept ↦
          let right : ok subject ≡ ok out = (rw fine at (rw kept at h)) in
          (ok-injective right, ground (arith, fine), ground (arith, kept))
    ]
  ]

  check_purpose-ok :
      (subject out purpose : Text) (found : Option Text) (issued max_age now : ℕ)
      → check_purpose ops subject found purpose issued max_age now ≡ ok out
      → (found ≡ some purpose) × (check_age ops subject issued max_age now ≡ ok out)
  unfolding check_purpose
  check_purpose-ok subject out purpose none issued max_age now h = absurd (ok-differs h)
  check_purpose-ok subject out purpose (some found) issued max_age now h =
      elim (Bool-cases (found == purpose)) [
        | inl same ↦ (ap some ((text_beq_iff found purpose).0 same), rw same at h)
        | inr other ↦
            let wrong : raised invalid_purpose ≡ ok out = (rw other at h) in
            absurd (ok-differs wrong)
      ]

  check_subject-ok :
      (p : ReadPayload) (sub : Option Text) (out purpose : Text) (max_age now : ℕ)
      → check_subject ops p purpose max_age now sub ≡ ok out
      → (s : Text) × (sub ≡ some s)
        × (check_purpose ops s p.purpose purpose p.iat max_age now ≡ ok out)
  unfolding check_subject
  check_subject-ok p none out purpose max_age now h = absurd (ok-differs h)
  check_subject-ok p (some []) out purpose max_age now h = absurd (ok-differs h)
  check_subject-ok p (some (c ∷ s)) out purpose max_age now h = (c ∷ s, refl, h)

  check_payload-ok :
      (read : Option ReadPayload) (out purpose : Text) (max_age now : ℕ)
      → check_payload ops read purpose max_age now ≡ ok out
      → (p : ReadPayload) × (read ≡ some p)
        × (p.sub ≡ some out)
        × (p.purpose ≡ some purpose)
        × (p.iat ≤ now + 60)
        × (now ≤ p.iat + max_age)
  unfolding check_payload check_subject
  check_payload-ok none out purpose max_age now h = absurd (ok-differs h)
  check_payload-ok (some p) out purpose max_age now h =
      let (s, is_sub, accepted) = check_subject-ok p p.sub out purpose max_age now h in
      let (found, aged) = check_purpose-ok s out purpose p.purpose p.iat max_age now accepted in
      let (same, early, late) = check_age-ok s out p.iat max_age now aged in
      (p, refl, is_sub ∙ ap some same, found, early, late)

  verify_parts-ok :
      (parts : Option (Text × Text)) (out purpose secret : Text) (max_age now : ℕ)
      → verify_parts ops parts purpose secret max_age now ≡ ok out
      → (encoded : Text) × (parts ≡ some (encoded, signature_of ops secret encoded))
        × (check_payload ops (read_payload ops (ops.decode encoded)) purpose max_age now ≡ ok out)
  unfolding verify_parts
  verify_parts-ok none out purpose secret max_age now h = absurd (ok-differs h)
  verify_parts-ok (some (encoded, signature)) out purpose secret max_age now h =
      elim (Bool-cases (signature == signature_of ops secret encoded)) [
        | inl same ↦ (
          encoded,
          ap (λ s. some (encoded, s))
              ((text_beq_iff signature (signature_of ops secret encoded)).0 same),
          rw same at h,
        )
        | inr other ↦
            let wrong : raised invalid_signature ≡ ok out = (rw other at h) in
            absurd (ok-differs wrong)
      ]

  -- A token that is accepted is an encoded payload and its signature under the secret; the payload
  -- holds the subject that is returned and the purpose that is expected, was issued at most a
  -- minute ahead, and is not older than the limit.
  pub verify_session-IsGenuine :
      (token purpose secret : Text) (max_age now : ℕ) (subject : Text)
      → verify_session ops token purpose secret max_age now ≡ ok subject
      → IsGenuine ops token purpose secret max_age now subject
  unfolding verify_session
  verify_session-IsGenuine token purpose secret max_age now subject h =
      let (encoded, split, checked) =
        verify_parts-ok (split_dot token) subject purpose secret max_age now h in
      let (p, read, is_sub, for_purpose, early, late) =
        check_payload-ok (read_payload ops (ops.decode encoded)) subject purpose max_age now
          checked in
      record {
        encoded = encoded;
        payload = p;
        signed = split_dot-eq token encoded (signature_of ops secret encoded) split;
        decoded = read;
        of_subject = is_sub;
        for_purpose = for_purpose;
        not_early = early;
        not_late = late;
      }
