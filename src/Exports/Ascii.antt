-- ===== src/Exports/Ascii.antt =====
-- The characters of the file names of an export.
use open_playlist_engine.Prelude.{
  ℕ, zero, suc, ◌-◌, ◌<◌, ◌≡◌, inl, inr, Bool, true, false, ◌&&◌, ◌||◌, some, [], ◌∷◌, ◌++◌, All,
  All-weaken, all, length, take, leb, arith, Text, numeral, numeral-IsDigit, IsDigit, nat_eq, ◌==◌,
  Bool-cases, codes,
}
use mathlib.Core.Option.{get_or}
use mathlib.Core.List.{reverse, reverse_aux}
use open_playlist_engine.Models.{truthy}
use open_playlist_engine.Models.Normalize.{TextOps}
use open_playlist_engine.Counter.{mem}
use open_playlist_engine.Exports.Names.{
  NameOps, is_letter_or_digit, hyphenate, lstrip_hyphens, rstrip_hyphens, is_outside, is_dash,
  windows_reserved, max_length, is_extension, filename_base, safe_filename, sequence_name,
}

abbrev pub IsAscii : ℕ → Type 0
IsAscii c = c < 128

abbrev pub Ascii : Text → Type 0
Ascii s = All IsAscii s

pub Ascii-append : (s t : Text) → Ascii s → Ascii t → Ascii (s ++ t)
Ascii-append [] t h k = k
Ascii-append (c ∷ s) t h k = (h.0, Ascii-append s t h.1 k)

pub Ascii-numeral : (n : ℕ) → Ascii (numeral n)
Ascii-numeral n =
    All-weaken IsDigit IsAscii (numeral n) (λ c h. omega (arith, h)) (numeral-IsDigit n)

Ascii-take : (n : ℕ) (s : Text) → Ascii s → Ascii (take n s)
Ascii-take zero s h = tt
Ascii-take (suc n) [] h = tt
Ascii-take (suc n) (c ∷ s) h = (h.0, Ascii-take n s h.1)

Ascii-reverse_aux : (s acc : Text) → Ascii s → Ascii acc → Ascii (reverse_aux s acc)
Ascii-reverse_aux [] acc h k = k
Ascii-reverse_aux (c ∷ s) acc h k = Ascii-reverse_aux s (c ∷ acc) h.1 (h.0, k)

Ascii-reverse : (s : Text) → Ascii s → Ascii (reverse s)
Ascii-reverse [] h = tt
Ascii-reverse (c ∷ s) h = Ascii-reverse_aux s (c ∷ []) h.1 (h.0, tt)

Ascii-lstrip : (s : Text) → Ascii s → Ascii (lstrip_hyphens s)
unfolding lstrip_hyphens
Ascii-lstrip [] h = tt
Ascii-lstrip (c ∷ s) h = elim (Bool-cases (c == b'-')) [
  | inl e ↦ rw e (Ascii-lstrip s h.1)
  | inr e ↦ rw e h
]

Ascii-rstrip : (s : Text) → Ascii s → Ascii (rstrip_hyphens s)
unfolding rstrip_hyphens
Ascii-rstrip s h =
    Ascii-reverse (lstrip_hyphens (reverse s)) (Ascii-lstrip (reverse s) (Ascii-reverse s h))

-- What a class of characters lets through is ASCII.
Ascii-hyphenate :
    (drops : ℕ → Bool) (run : Bool) (s : Text)
    → ((c : ℕ) → drops c ≡ false → IsAscii c)
    → Ascii (hyphenate drops run s)
unfolding hyphenate
Ascii-hyphenate drops run [] f = tt
Ascii-hyphenate drops run (c ∷ s) f =
    let rest = Ascii-hyphenate drops (drops c) s f in
    elim (Bool-cases (drops c)) [
      | inl e ↦ elim (Bool-cases run) [
        | inl g ↦ rw e (rw g (rw e at rest))
        | inr g ↦ rw e (rw g (omega arith, rw e at rest))
      ]
      | inr e ↦ rw e (f c e, rw e at rest)
    ]

-- A class that only adds to the hyphens keeps ASCII.
Ascii-hyphenate_dashes : (run : Bool) (s : Text) → Ascii s → Ascii (hyphenate is_dash run s)
unfolding hyphenate
Ascii-hyphenate_dashes run [] h = tt
Ascii-hyphenate_dashes run (c ∷ s) h =
    let rest = Ascii-hyphenate_dashes (is_dash c) s h.1 in
    elim (Bool-cases (is_dash c)) [
      | inl e ↦ elim (Bool-cases run) [
        | inl g ↦ rw e (rw g (rw e at rest))
        | inr g ↦ rw e (rw g (omega arith, rw e at rest))
      ]
      | inr e ↦ rw e (h.0, rw e at rest)
    ]

outside-IsAscii : (c : ℕ) → is_outside c ≡ false → IsAscii c
unfolding is_letter_or_digit
outside-IsAscii c h = ground (arith, h)

-- The truthy text or the default.
pub Ascii-or : (s d : Text) → Ascii s → Ascii d → Ascii (get_or (truthy (some s)) d)
Ascii-or [] d h k = k
Ascii-or (c ∷ s) d h k = h

Ascii-cut :
    (n : ℕ) (s d : Text)
    → Ascii s
    → Ascii d
    → Ascii (get_or (truthy (some (rstrip_hyphens (take n s)))) d)
Ascii-cut n s d h k =
    Ascii-or (rstrip_hyphens (take n s)) d (Ascii-rstrip (take n s) (Ascii-take n s h)) k

codes-Ascii : Ascii (codes "playlist") × Ascii (codes "playlist-")
codes-Ascii = (ground arith, ground arith)

pub Ascii-extension : (s : Text) → is_extension s ≡ true → Ascii s
unfolding is_extension
Ascii-extension [] h = tt
Ascii-extension (c ∷ s) h = Ascii-all (c ∷ s) h
  where
    Ascii-all :
        (s : Text)
        → all (λ d. leb b'a' d && leb d b'z' || leb b'0' d && leb d b'9') s ≡ true
        → Ascii s
    Ascii-all [] h = tt
    Ascii-all (c ∷ s) h = let rest = Ascii-all s in ground (arith, h, rest)

module _ ⦃text : TextOps⦄ (ops : NameOps) where
  Ascii-filename_base : (s : Text) → Ascii (filename_base ops s)
  unfolding filename_base
  Ascii-filename_base s =
      let first = hyphenate is_outside false (ops.to_ascii s) in
      let second = hyphenate is_dash false first in
      Ascii-rstrip (lstrip_hyphens second) (
        Ascii-lstrip second (
          Ascii-hyphenate_dashes false first
            (Ascii-hyphenate is_outside false (ops.to_ascii s) outside-IsAscii)))

  pub Ascii-safe_filename : (value fallback : Text) → Ascii (safe_filename ops value fallback)
  unfolding safe_filename
  Ascii-safe_filename value fallback =
      let fallback_base = get_or (truthy (some (filename_base ops fallback))) (codes "playlist") in
      let base = get_or (truthy (some (filename_base ops value))) fallback_base in
      let one : Ascii fallback_base =
        Ascii-or (filename_base ops fallback) (codes "playlist") (Ascii-filename_base fallback)
          codes-Ascii.0 in
      let two : Ascii base =
        Ascii-or (filename_base ops value) fallback_base (Ascii-filename_base value) one in
      let rest : Ascii (get_or (truthy (some (take max_length fallback_base))) (codes "playlist")) =
        Ascii-or (take max_length fallback_base) (codes "playlist")
          (Ascii-take max_length fallback_base one) codes-Ascii.0 in
      elim (Bool-cases (mem (text.upper base) windows_reserved)) [
        | inl e ↦ rw e (
            Ascii-cut max_length (codes "playlist-" ++ base) _
              (Ascii-append (codes "playlist-") base codes-Ascii.1 two) rest)
        | inr e ↦ rw e (Ascii-cut max_length base _ two rest)
      ]

  pub Ascii-sequence_name :
      (base extension : Text) (n : ℕ)
      → Ascii base
      → Ascii extension
      → Ascii (sequence_name ops base extension n)
  unfolding sequence_name
  Ascii-sequence_name base extension n h k =
      let suffix = b'-' ∷ numeral n in
      let stem =
        get_or (truthy (some (rstrip_hyphens (take (max_length - length suffix) base))))
          (codes "playlist") in
      Ascii-append stem (suffix ++ b'.' ∷ extension)
        (Ascii-cut (max_length - length suffix) base (codes "playlist") h codes-Ascii.0)
        (Ascii-append suffix (b'.' ∷ extension) (omega arith, Ascii-numeral n) (omega arith, k))
