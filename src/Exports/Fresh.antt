-- ===== src/Exports/Fresh.antt =====
-- What the allocation of a file name returns.
use open_playlist_engine.Prelude.{
  sym, ℕ, zero, suc, ◌+◌, ◌-◌, ◌≡◌, ◌≢◌, ◌⊎◌, inl, inr, refl, ap, ◌∙◌, Bool, true, false, ◌&&◌,
  ◌||◌, some, List, [], ◌∷◌, ◌++◌, map, All, All-weaken, all, length, take, if◌then◌else◌, leb,
  arith, Text, numeral, numeral-IsDigit, numeral-injective, IsDigit, split_at_sep, nat_eq,
  Bool-cases, codes,
}
use mathlib.Core.Option.{get_or}
use mathlib.Core.List.{map-append}
use open_playlist_engine.Models.{truthy}
use open_playlist_engine.Models.Normalize.{TextOps}
use open_playlist_engine.Counter.{mem}
use open_playlist_engine.Exports.Names.{
  NameOps, rstrip_hyphens, max_length, is_extension, safe_filename, sequence_name, next_free,
  allocated, allocation, allocate,
}
use open_playlist_engine.Exports.Attempts.{AllIn, AllIn-length}
use open_playlist_engine.Exports.Ascii.{
  Ascii, Ascii-extension, Ascii-safe_filename, Ascii-sequence_name,
}

-- `str.casefold` of an ASCII character.
abbrev pub lower_char : ℕ → ℕ
lower_char c = if leb b'A' c && leb c b'Z' then c + 32 else c

-- Lower case keeps digits.
lower-digits : (s : Text) → All IsDigit s → map lower_char s ≡ s
lower-digits [] h = refl
lower-digits (c ∷ s) h =
    let same : lower_char c ≡ c = ground (arith, h.0) in
    let rest = lower-digits s h.1 in rw same (ap (◌∷◌ c) rest)

-- A text without a character, by a test on each.
No : ℕ → Text → Type 0
No sep s = All (λ c. c ≢ sep) s

No-append : (sep : ℕ) (s t : Text) → No sep s → No sep t → No sep (s ++ t)
unfolding No
No-append sep [] t h k = k
No-append sep (c ∷ s) t h k = (h.0, No-append sep s t h.1 k)

abbrev is_extension_char : ℕ → Bool
is_extension_char d = leb b'a' d && leb d b'z' || leb b'0' d && leb d b'9'

both-true : (a b : Bool) → (a && b) ≡ true → (a ≡ true) × (b ≡ true)
both-true true b h = (refl, h)
both-true false b h = cc

extension_char-lower :
    (c : ℕ) → is_extension_char c ≡ true → (lower_char c ≢ b'-') × (lower_char c ≢ b'.')
extension_char-lower c h = (ground (arith, h), ground (arith, h))

-- An extension in lower case has neither a hyphen nor a dot.
No-extension_chars :
    (s : Text)
    → all is_extension_char s ≡ true
    → No b'-' (map lower_char s) × No b'.' (map lower_char s)
unfolding No
No-extension_chars [] h = (tt, tt)
No-extension_chars (c ∷ s) h =
    let (first, others) = both-true (is_extension_char c) (all is_extension_char s) h in
    let one = extension_char-lower c first in
    let rest = No-extension_chars s others in ((one.0, rest.0), (one.1, rest.1))

No-extension :
    (e : Text) → is_extension e ≡ true → No b'-' (map lower_char e) × No b'.' (map lower_char e)
unfolding is_extension
No-extension [] h = cc
No-extension (c ∷ s) h = No-extension_chars (c ∷ s) h

module _ ⦃text : TextOps⦄ (ops : NameOps)
    -- On ASCII text, the case folding of Python maps letters to lower case.
    (casefold-ascii : (s : Text) → Ascii s → ops.casefold s ≡ map lower_char s) where
  -- The end of a numbered name, in lower case.
  abbrev ending : Text → ℕ → Text
  ending extension n = numeral n ++ b'.' ∷ map lower_char extension

  lower-sequence_name :
      (base extension : Text) (n : ℕ)
      → Ascii base
      → is_extension extension ≡ true
      → (stem : Text) × (ops.casefold (sequence_name ops base extension n)
          ≡ stem ++ b'-' ∷ ending extension n)
  unfolding sequence_name
  lower-sequence_name base extension n h e =
      let suffix = b'-' ∷ numeral n in
      let stem =
        get_or (truthy (some (rstrip_hyphens (take (max_length - length suffix) base))))
          (codes "playlist") in
      (
        map lower_char stem,
        casefold-ascii (sequence_name ops base extension n)
              (Ascii-sequence_name ops base extension n h (Ascii-extension extension e))
            ∙ map-append lower_char stem (suffix ++ b'.' ∷ extension)
            ∙ ap (λ t. map lower_char stem ++ b'-' ∷ t)
                (map-append lower_char (numeral n) (b'.' ∷ extension)
                  ∙ ap (λ t. t ++ b'.' ∷ map lower_char extension)
                      (lower-digits (numeral n) (numeral-IsDigit n))),
      )

  No-ending :
      (extension : Text) (n : ℕ) → is_extension extension ≡ true → No b'-' (ending extension n)
  unfolding No
  No-ending extension n e =
      No-append b'-' (numeral n) (b'.' ∷ map lower_char extension)
        (All-weaken IsDigit (λ c. c ≢ b'-') (numeral n) (λ c h. omega (arith, h))
          (numeral-IsDigit n))
        (omega arith, (No-extension extension e).0)

  -- The number of a name can be read off its lower case.
  sequence_name-injective :
      (base extension : Text) (m n : ℕ)
      → Ascii base
      → is_extension extension ≡ true
      → ops.casefold (sequence_name ops base extension m)
        ≡ ops.casefold (sequence_name ops base extension n)
      → m ≡ n
  unfolding No
  sequence_name-injective base extension m n h e same =
      let (s, low_m) = lower-sequence_name base extension m h e in
      let (t, low_n) = lower-sequence_name base extension n h e in
      let cut =
        split_at_sep b'-' s t (ending extension m) (ending extension n) (No-ending extension m e)
          (No-ending extension n e) (sym low_m ∙ same ∙ low_n) in
      let dotless = (No-extension extension e).1 in
      let numbers =
        split_at_sep b'.' (numeral m) (numeral n) (map lower_char extension)
          (map lower_char extension) dotless dotless cut.1 in
      numeral-injective m n numbers.0

  -- A search finds a free name, or all its names are in use.
  next_free-cases :
      (fuel n : ℕ) (base extension : Text) (used : List Text)
      → ((name : Text) × (next_free ops fuel n base extension used ≡ some name)
          × (mem (ops.casefold name) used ≡ false))
        ⊎ AllIn (λ k. ops.casefold (sequence_name ops base extension k)) used n fuel
  unfolding next_free
  next_free-cases zero n base extension used = inr tt
  next_free-cases (suc fuel) n base extension used =
      let name = sequence_name ops base extension n in
      elim (Bool-cases (mem (ops.casefold name) used)) [
        | inr free ↦ inl (name, rw free refl, free)
        | inl taken ↦ elim (next_free-cases fuel (suc n) base extension used) [
          | inl (later, found, free) ↦ inl (later, rw taken found, free)
          | inr all_taken ↦ inr (taken, all_taken)
        ]
      ]

  -- Where the case folding maps ASCII letters to lower case, and for a safe extension: the
  -- allocation of a file name ends with a name that differs from all the names in use when case is
  -- ignored, and adds it to them.
  pub allocate-fresh :
      (value extension fallback : Text) (used : List Text)
      → is_extension extension ≡ true
      → (name : Text) × (allocate ops value extension fallback used
          ≡ allocated name (ops.casefold name ∷ used))
        × (mem (ops.casefold name) used ≡ false)
  unfolding allocate allocation
  allocate-fresh value extension fallback used e =
      let base = safe_filename ops value fallback in
      let plain = base ++ b'.' ∷ extension in
      elim (Bool-cases (mem (ops.casefold plain) used)) [
        | inr free ↦ (plain, rw e (rw free refl), free)
        | inl taken ↦ elim (next_free-cases (suc (length used)) 2 base extension used) [
          | inl (name, found, free) ↦ (name, rw e (rw taken (rw found refl)), free)
          | inr all_taken ↦ absurd (
              omega (
                arith,
                AllIn-length (λ k. ops.casefold (sequence_name ops base extension k)) used 2
                    (suc (length used))
                    (λ i j.
                      sequence_name-injective base extension i j
                        (Ascii-safe_filename ops value fallback) e)
                    all_taken,
              ))
        ]
      ]
