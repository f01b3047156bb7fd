-- ===== src/Models/Normalize.antt =====
-- Text normalisation (backend/app/core/migration_state.py, `normalize_text` and the
-- rounding of durations). The case mappings of
-- Unicode and the substitution of the pattern `_FEAT` by the `re` engine are parameters.
use open_playlist_engine.Prelude.{
  ◌*◌, ◌/◌, ◌+◌, numeral, ℕ, Bool, false, not, ◌&&◌, ◌||◌, Option, none, some, [], ◌∷◌,
  if◌then◌else◌, leb, nat_eq, ◌==◌, Text,
}
use mathlib.Core.List.{reverse}

pub record TextOps : Type 0 where
  pub lower : Text → Text
  pub upper : Text → Text
  -- `_FEAT.sub("", value)`
  pub sub_feat : Text → Text

-- `[a-z0-9]`
unfoldable pub is_alphanumeric : ℕ → Bool
is_alphanumeric c = leb b'a' c && leb c b'z' || leb b'0' c && leb c b'9'

-- `str.isspace` of one code point.
unfoldable pub is_space : ℕ → Bool
is_space c =
    leb 9 c && leb c 13
    || leb 28 c && leb c 32
    || c == 133
    || c == 160
    || c == 5760
    || leb 8192 c && leb c 8202
    || c == 8232
    || c == 8233
    || c == 8239
    || c == 8287
    || c == 12288

unfoldable pub strip_left : Text → Text
unfolding is_space
strip_left [] = []
strip_left (c ∷ s) = let rest = strip_left s in if is_space c then rest else c ∷ s

-- `value.strip()`
unfoldable pub strip : Text → Text
unfolding strip_left
strip s = reverse (strip_left (reverse (strip_left s)))

-- `re.compile(r"[^a-z0-9]+").sub(" ", value)`: each run of other characters becomes one space;
-- the flag says that a run is under way.
unfoldable pub sub_noise : Bool → Text → Text
unfolding is_alphanumeric
sub_noise run [] = []
sub_noise run (c ∷ s) =
    let rest = sub_noise (not (is_alphanumeric c)) s in
    if is_alphanumeric c then c ∷ rest else if run then rest else b' ' ∷ rest

-- `round(seconds / 5) * 5`; a quotient by five never lies half way between two integers.
unfoldable pub duration_bucket : Option ℕ → Text
duration_bucket none = []
duration_bucket (some n) = if n == 0 then [] else numeral ((n + 2) / 5 * 5)

module _ ⦃ops : TextOps⦄ where
  unfoldable pub normalize_text : Option Text → Text
  unfolding sub_noise strip
  normalize_text none = []
  normalize_text (some []) = []
  normalize_text (some (c ∷ s)) = strip (sub_noise false (ops.sub_feat (ops.lower (c ∷ s))))
