-- ===== src/Exports/Attempts.antt =====
-- Names that a search tries: distinct names cannot all be in use.
use open_playlist_engine.Prelude.{
  ℕ, zero, suc, ◌≤◌, ◌<◌, ◌≡◌, inl, inr, refl, true, false, List, [], ◌∷◌, length, if◌then◌else◌,
  arith, Text, text_eq, text_beq_iff, ◌==◌, Bool-cases,
}
use open_playlist_engine.Counter.{mem}

-- The list without the first of a text.
remove_first : Text → List Text → List Text
remove_first y [] = []
remove_first y (x ∷ xs) = if x == y then xs else x ∷ remove_first y xs

length-remove_first :
    (y : Text) (xs : List Text) → mem y xs ≡ true → suc (length (remove_first y xs)) ≡ length xs
unfolding remove_first mem
length-remove_first y [] h = cc
length-remove_first y (x ∷ xs) h = elim (Bool-cases (x == y)) [
  | inl e ↦ rw e refl
  | inr e ↦ let rest = length-remove_first y xs (rw e at h) in rw e (omega (arith, rest))
]

mem-remove_first :
    (y z : Text) (xs : List Text)
    → (y == z) ≡ false
    → mem z xs ≡ true
    → mem z (remove_first y xs) ≡ true
unfolding remove_first mem
mem-remove_first y z [] d h = cc
mem-remove_first y z (x ∷ xs) d h = elim (Bool-cases (x == y)) [
  | inl e ↦ let same : x ≡ y = (text_beq_iff x y).0 e in rw e (let k = (rw same at h) in rw d at k)
  | inr e ↦ elim (Bool-cases (x == z)) [
    | inl f ↦ rw e (rw f refl)
    | inr f ↦ rw e (rw f (mem-remove_first y z xs d (rw f at h)))
  ]
]

-- `k` distinct texts from the `n`-th on, all of them in the list.
abbrev pub AllIn : (ℕ → Text) → List Text → ℕ → ℕ → Type 0
AllIn f used n zero = Unit
AllIn f used n (suc k) = (mem (f n) used ≡ true) × AllIn f used (suc n) k

AllIn-remove_first :
    (f : ℕ → Text) (used : List Text) (m n k : ℕ)
    → ((i j : ℕ) → f i ≡ f j → i ≡ j)
    → m < n
    → AllIn f used n k
    → AllIn f (remove_first (f m) used) n k
AllIn-remove_first f used m n zero inj less h = tt
AllIn-remove_first f used m n (suc k) inj less h =
    let differ : (f m == f n) ≡ false = different in
    (
      mem-remove_first (f m) (f n) used differ h.0,
      AllIn-remove_first f used m (suc n) k inj (omega (arith, less)) h.1,
    )
  where
    different : (f m == f n) ≡ false
    different = elim (Bool-cases (f m == f n)) [
      | inl e ↦ absurd (omega (arith, less, inj m n ((text_beq_iff (f m) (f n)).0 e)))
      | inr e ↦ e
    ]

-- Distinct texts of a list are no more than its length.
pub AllIn-length :
    (f : ℕ → Text) (used : List Text) (n k : ℕ)
    → ((i j : ℕ) → f i ≡ f j → i ≡ j)
    → AllIn f used n k
    → k ≤ length used
AllIn-length f used n zero inj h = omega arith
AllIn-length f used n (suc k) inj h =
    let rest =
      AllIn-length f (remove_first (f n) used) (suc n) k inj
        (AllIn-remove_first f used n (suc n) k inj (omega arith) h.1) in
    omega (arith, rest, length-remove_first (f n) used h.0)
