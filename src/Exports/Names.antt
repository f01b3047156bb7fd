-- ===== src/Exports/Names.antt =====
-- File names: `safe_filename`, `_filename_base` and `FilenameAllocator`
-- (backend/app/exports/serializers.py). A search for a free name has as fuel one more than the number
-- of the names in use.
use open_playlist_engine.Prelude.{
  ℕ, zero, suc, ◌-◌, Bool, false, not, ◌&&◌, ◌||◌, Option, none, some, List, [], ◌∷◌, ◌++◌, map,
  all, length, take, if◌then◌else◌, leb, nat_eq, Text, text_eq, codes, ◌==◌, numeral,
}
use mathlib.Core.Option.{get_or}
use mathlib.Core.List.{reverse}
use open_playlist_engine.Models.{truthy}
use open_playlist_engine.Models.Normalize.{TextOps}
use open_playlist_engine.Counter.{mem}

-- `to_ascii` is NFKD with what is not ASCII left out; `casefold` is `str.casefold`.
pub record NameOps : Type 0 where
  pub to_ascii : Text → Text
  pub casefold : Text → Text

unfoldable pub is_letter_or_digit : ℕ → Bool
is_letter_or_digit c =
    leb b'A' c && leb c b'Z' || leb b'a' c && leb c b'z' || leb b'0' c && leb c b'9'

-- `re.sub` of a class of characters, one or more, by a hyphen; the flag says that a run is under way.
unfoldable pub hyphenate : (ℕ → Bool) → Bool → Text → Text
hyphenate drops run [] = []
hyphenate drops run (c ∷ s) =
    let rest = hyphenate drops (drops c) s in
    if drops c then if run then rest else b'-' ∷ rest else c ∷ rest

unfoldable pub lstrip_hyphens : Text → Text
lstrip_hyphens [] = []
lstrip_hyphens (c ∷ s) = let rest = lstrip_hyphens s in if c == b'-' then rest else c ∷ s

unfoldable pub rstrip_hyphens : Text → Text
unfolding lstrip_hyphens
rstrip_hyphens s = reverse (lstrip_hyphens (reverse s))

abbrev pub is_outside : ℕ → Bool
is_outside c = not (is_letter_or_digit c || c == b'_' || c == b'-')

abbrev pub is_dash : ℕ → Bool
is_dash c = c == b'-' || c == b'_'

-- `_WINDOWS_RESERVED`
abbrev pub windows_reserved : List Text
windows_reserved =
    codes "CON"
      ∷ codes "PRN"
      ∷ codes "AUX"
      ∷ codes "NUL"
      ∷ map (λ d. codes "COM" ++ d ∷ []) (codes "123456789")
    ++ map (λ d. codes "LPT" ++ d ∷ []) (codes "123456789")

-- The longest base of a name.
abbrev pub max_length : ℕ
max_length = 96

-- `re.fullmatch(r"[a-z0-9]+", extension)`
unfoldable pub is_extension : Text → Bool
is_extension [] = false
is_extension (c ∷ s) = all (λ d. leb b'a' d && leb d b'z' || leb b'0' d && leb d b'9') (c ∷ s)

-- A name, with the names in use after it; the `ValueError`; or a search that ran out of fuel.
pub data Allocation : Type 0 where
  allocated : Text → List Text → Allocation
  unsafe_extension : Allocation
  out_of_fuel : Allocation

module _ ⦃text : TextOps⦄ (ops : NameOps) where
  unfoldable pub filename_base : Text → Text
  unfolding hyphenate is_letter_or_digit lstrip_hyphens rstrip_hyphens
  filename_base value =
      rstrip_hyphens
        (lstrip_hyphens (hyphenate is_dash false (hyphenate is_outside false (ops.to_ascii value))))

  unfoldable pub safe_filename : Text → Text → Text
  unfolding filename_base rstrip_hyphens mem
  safe_filename value fallback =
      let fallback_base = get_or (truthy (some (filename_base fallback))) (codes "playlist") in
      let base = get_or (truthy (some (filename_base value))) fallback_base in
      let named =
        if mem (text.upper base) windows_reserved then codes "playlist-" ++ base else base in
      get_or (truthy (some (rstrip_hyphens (take max_length named))))
        (get_or (truthy (some (take max_length fallback_base))) (codes "playlist"))

  -- f"{trimmed or 'playlist'}-{sequence}.{extension}"
  unfoldable pub sequence_name : Text → Text → ℕ → Text
  unfolding rstrip_hyphens
  sequence_name base extension n =
      let suffix = b'-' ∷ numeral n in
      get_or (truthy (some (rstrip_hyphens (take (max_length - length suffix) base))))
        (codes "playlist")
      ++ (suffix ++ b'.' ∷ extension)

  -- The loop over the sequence numbers.
  unfoldable pub next_free : ℕ → ℕ → Text → Text → List Text → Option Text
  unfolding sequence_name mem
  next_free zero n base extension used = none
  next_free (suc fuel) n base extension used =
      let name = sequence_name base extension n in
      let later = next_free fuel (suc n) base extension used in
      if mem (ops.casefold name) used then later else some name

  unfoldable pub allocation : List Text → Option Text → Allocation
  allocation used none = out_of_fuel
  allocation used (some name) = allocated name (ops.casefold name ∷ used)

  unfoldable pub allocate : Text → Text → Text → List Text → Allocation
  unfolding is_extension safe_filename next_free allocation mem
  allocate value extension fallback used =
      let base = safe_filename value fallback in
      let plain = base ++ b'.' ∷ extension in
      let search = next_free (suc (length used)) 2 base extension used in
      if not (is_extension extension)
      then unsafe_extension
      else if mem (ops.casefold plain) used
      then allocation used search
      else allocation used (some plain)
