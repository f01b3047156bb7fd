-- ===== src/Prelude/Texts.antt =====
-- Python's `str` as a list of code points: equality, decimal numerals, splitting at a separator.
use Prim.Native.Char.{code}
use Prim.Native.String.{String}
use Prim.Native.Nat.{ℕ, zero, suc, ◌+◌, ◌-◌, ◌*◌, ◌/◌, ◌%◌, ◌≤◌, ◌<◌}
use mathlib.Core.Path.{◌≡◌, refl, ap, ◌∙◌, sym}
use mathlib.Core.Logic.{◌↔◌, ◌≢◌}
use mathlib.Core.Bool.{Bool, true, false, ◌&&◌}
use mathlib.Core.List.{List, [], ◌∷◌, ◌++◌}
use native.Mathlib.Omega.{arith}
use open_playlist_engine.Prelude.Tests.{if◌then◌else◌, Eq, ◌==◌, nat_eq, ltb}
use open_playlist_engine.Prelude.Lists.{All}

abbrev pub Text : Type 0
Text = List ℕ

-- The code points of a literal.
abbrev pub codes : String → Text
codes String.[] = []
codes (String.◌∷◌ c s) = code c ∷ codes s

unfoldable pub text_beq : Text → Text → Bool
text_beq [] [] = true
text_beq (a ∷ s) (b ∷ t) = a == b && text_beq s t
text_beq _ _ = false

text_beq-to_eq : (s t : Text) → text_beq s t ≡ true → s ≡ t
unfolding text_beq
text_beq-to_eq [] [] h = refl
text_beq-to_eq [] (b ∷ t) h = cc
text_beq-to_eq (a ∷ s) [] h = cc
text_beq-to_eq (a ∷ s) (b ∷ t) h = ground (arith, text_beq-to_eq s t)

pub text_beq_refl : (s : Text) → text_beq s s ≡ true
unfolding text_beq
text_beq_refl [] = refl
text_beq_refl (a ∷ s) = ground (arith, text_beq_refl s)

text_beq-of_eq : (s t : Text) → s ≡ t → text_beq s t ≡ true
text_beq-of_eq s t e = rw (← e) (text_beq_refl s)

pub text_beq_iff : (s t : Text) → (text_beq s t ≡ true) ↔ (s ≡ t)
text_beq_iff s t = (text_beq-to_eq s t, text_beq-of_eq s t)

-- The order of Python's `str`, by code points.
unfoldable pub text_ltb : Text → Text → Bool
text_ltb s [] = false
text_ltb [] (b ∷ t) = true
text_ltb (a ∷ s) (b ∷ t) = let rest = text_ltb s t in if a == b then rest else ltb a b

instance abbrev pub text_eq : Eq Text
text_eq = record { equals = text_beq; equals_iff = text_beq_iff }

-- The decimal numeral of a number; a fuel of `suc n` is enough for `n`.
unfoldable pub digits : ℕ → ℕ → Text
digits zero n = []
digits (suc f) n = elim (ltb n 10) [
  | true ↦ (b'0' + n) ∷ []
  | false ↦ digits f (n / 10) ++ (b'0' + n % 10) ∷ []
]

-- `str(n)`
unfoldable pub numeral : ℕ → Text
unfolding digits
numeral n = digits (suc n) n

value : ℕ → Text → ℕ
value acc [] = acc
value acc (d ∷ s) = value (acc * 10 + (d - b'0')) s

value-snoc : (acc : ℕ) (s : Text) (d : ℕ) → value acc (s ++ d ∷ []) ≡ value acc s * 10 + (d - b'0')
unfolding value
value-snoc acc [] d = refl
value-snoc acc (c ∷ s) d = value-snoc (acc * 10 + (c - b'0')) s d

value-digits : (f n : ℕ) → n < f → value 0 (digits f n) ≡ n
unfolding digits value
value-digits zero n h = elim h [ ]
value-digits (suc f) n h =
    ground (arith, value-digits f (n / 10), value-snoc 0 (digits f (n / 10)) (b'0' + n % 10))

All-snoc {ℓ κ} :
    {A : Type ℓ} (P : A → Type κ) (xs : List A) (x : A) → All P xs → P x → All P (xs ++ x ∷ [])
All-snoc P [] x h p = (p, tt)
All-snoc P (y ∷ xs) x h p = (h.0, All-snoc P xs x h.1 p)

abbrev pub IsDigit : ℕ → Type 0
IsDigit c = (b'0' ≤ c) × (c ≤ b'9')

-- Each digit is one.
digits-IsDigit : (f n : ℕ) → All IsDigit (digits f n)
unfolding digits
digits-IsDigit zero n = tt
digits-IsDigit (suc f) n =
    elim (ltb n 10)
        as (λ b.
          (ltb n 10 ≡ b)
          → All IsDigit (elim b [
            | true ↦ (b'0' + n) ∷ []
            | false ↦ digits f (n / 10) ++ (b'0' + n % 10) ∷ []
          ])) [
            | true ↦ λ e. ((omega arith, ground (arith, e)), tt)
            | false ↦ λ e.
                All-snoc IsDigit (digits f (n / 10)) (b'0' + n % 10) (digits-IsDigit f (n / 10))
                  (omega arith, omega arith)
          ]
      refl

pub numeral-injective : (m n : ℕ) → numeral m ≡ numeral n → m ≡ n
unfolding numeral
numeral-injective m n e =
    sym (value-digits (suc m) m (omega arith))
    ∙ ap (value 0) e
    ∙ value-digits (suc n) n (omega arith)

pub All-weaken {ℓ κ μ} :
    {A : Type ℓ} (P : A → Type κ) (Q : A → Type μ) (xs : List A)
    → ((x : A) → P x → Q x)
    → All P xs
    → All Q xs
All-weaken P Q [] f h = tt
All-weaken P Q (x ∷ xs) f h = (f x h.0, All-weaken P Q xs f h.1)

pub numeral-IsDigit : (n : ℕ) → All IsDigit (numeral n)
unfolding numeral
numeral-IsDigit n = digits-IsDigit (suc n) n

sep_inside : (sep : ℕ) (s t : Text) → All (λ c. c ≢ sep) (s ++ sep ∷ t) → ⊥
sep_inside sep [] t h = h.0 refl
sep_inside sep (c ∷ s) t h = sep_inside sep s t h.1

abbrev head_or : ℕ → Text → ℕ
head_or d [] = d
head_or d (c ∷ s) = c

abbrev tail : Text → Text
tail [] = []
tail (c ∷ s) = s

-- Two texts that end in a separator and a part without it are split alike.
pub split_at_sep :
    (sep : ℕ) (a b s t : Text)
    → All (λ c. c ≢ sep) s
    → All (λ c. c ≢ sep) t
    → a ++ sep ∷ s ≡ b ++ sep ∷ t
    → (a ≡ b) × (s ≡ t)
split_at_sep sep [] [] s t hs ht e = (refl, ap tail e)
split_at_sep sep [] (y ∷ b) s t hs ht e =
    absurd (sep_inside sep b t (let e' : s ≡ b ++ sep ∷ t = ap tail e in rw e' at hs))
split_at_sep sep (x ∷ a) [] s t hs ht e =
    absurd (sep_inside sep a s (let e' : t ≡ a ++ sep ∷ s = sym (ap tail e) in rw e' at ht))
split_at_sep sep (x ∷ a) (y ∷ b) s t hs ht e =
    let (p, q) = split_at_sep sep a b s t hs ht (ap tail e) in
    let h : x ≡ y = ap (head_or 0) e in (cc, q)

numeral-no_hash : (n : ℕ) → All (λ c. c ≢ b'#') (numeral n)
numeral-no_hash n =
    All-weaken IsDigit (λ c. c ≢ b'#') (numeral n) (λ c h. omega (arith, h)) (numeral-IsDigit n)

-- f"{identity}#{occurrence}" determines both of its parts.
pub hash_numeral-injective :
    (a b : Text) (m n : ℕ) → a ++ b'#' ∷ numeral m ≡ b ++ b'#' ∷ numeral n → (a ≡ b) × (m ≡ n)
hash_numeral-injective a b m n e =
    let (p, q) =
      split_at_sep b'#' a b (numeral m) (numeral n) (numeral-no_hash m) (numeral-no_hash n) e in
    (p, numeral-injective m n q)
