-- ===== src/Unified/Forest.antt =====
-- The parents of keys as a forest in which every parent comes before its child.
use open_playlist_engine.Prelude.{
  sym, ℕ, zero, suc, ◌≤◌, ◌<◌, ◌≡◌, ◌⊎◌, inl, inr, refl, ap, Bool, true, false, List, [], ◌∷◌,
  count_if, length, arith, Text, text_eq, text_ltb, text_beq_iff, nat_eq, nat_beq_iff, ◌==◌,
  Bool-cases,
}
use open_playlist_engine.Counter.{mem}
use open_playlist_engine.Unified.Groups.{Parents, set_parent, find}

-- The order of texts is strict and transitive.
pub text_ltb_irrefl : (s : Text) → text_ltb s s ≡ false
unfolding text_ltb
text_ltb_irrefl [] = refl
text_ltb_irrefl (a ∷ s) = ground (arith, text_ltb_irrefl s)

pub text_ltb_trans :
    (s t u : Text) → text_ltb s t ≡ true → text_ltb t u ≡ true → text_ltb s u ≡ true
unfolding text_ltb
text_ltb_trans s [] u h k = cc
text_ltb_trans s (b ∷ t) [] h k = cc
text_ltb_trans [] (b ∷ t) (c ∷ u) h k = refl
text_ltb_trans (a ∷ s) (b ∷ t) (c ∷ u) h k = ground (arith, text_ltb_trans s t u)

pub text_ltb_total : (s t : Text) → (s ≡ t) ⊎ (text_ltb s t ≡ true) ⊎ (text_ltb t s ≡ true)
unfolding text_ltb
text_ltb_total [] [] = inl refl
text_ltb_total [] (b ∷ t) = inr (inl refl)
text_ltb_total (a ∷ s) [] = inr (inr refl)
text_ltb_total (a ∷ s) (b ∷ t) = elim (Bool-cases (a == b)) [
  | inl e ↦
      let same : a ≡ b = (nat_beq_iff a b).0 e in
      let back : (b == a) ≡ true = (nat_beq_iff b a).1 (sym same) in
      rw e (
        rw back (elim (text_ltb_total s t) [
          | inl f ↦ inl (rw same (ap (◌∷◌ b) f))
          | inr (inl f) ↦ inr (inl f)
          | inr (inr f) ↦ inr (inr f)
        ]))
  | inr e ↦
      let differ : (b == a) ≡ false = ground (arith, e) in
      rw e (rw differ (inr (ground (arith, e))))
]

-- A test that passes less often, and fails at a member where the other passes, counts less.
count_if-le {ℓ} :
    {A : Type ℓ} (p q : A → Bool) (xs : List A)
    → ((x : A) → p x ≡ true → q x ≡ true)
    → count_if p xs ≤ count_if q xs
count_if-le p q [] h = omega arith
count_if-le p q (x ∷ xs) h = ground (arith, h x, count_if-le p q xs h)

count_if-lt :
    (p q : Text → Bool) (y : Text) (xs : List Text)
    → ((x : Text) → p x ≡ true → q x ≡ true)
    → p y ≡ false
    → q y ≡ true
    → mem y xs ≡ true
    → count_if p xs < count_if q xs
unfolding mem
count_if-lt p q y [] h out within there = cc
count_if-lt p q y (x ∷ xs) h out within there = elim (Bool-cases (x == y)) [
  | inl e ↦
      let same : x ≡ y = (text_beq_iff x y).0 e in
      let rest = count_if-le p q xs h in rw same (rw out (rw within (omega (arith, rest))))
  | inr e ↦
      let rest = count_if-lt p q y xs h out within (rw e at there) in ground (arith, h x, rest)
]

-- The number of the keys before a key.
abbrev pub before : Text → List Text → ℕ
before key ks = count_if (λ k. text_ltb k key) ks

before-lt :
    (p key : Text) (ks : List Text)
    → text_ltb p key ≡ true
    → mem p ks ≡ true
    → before p ks < before key ks
before-lt p key ks less there =
    count_if-lt (λ k. text_ltb k p) (λ k. text_ltb k key) p ks
      (λ k h. text_ltb_trans k p key h less) (text_ltb_irrefl p) less there

count_if-length {ℓ} : {A : Type ℓ} (p : A → Bool) (xs : List A) → count_if p xs ≤ length xs
count_if-length p [] = omega arith
count_if-length p (x ∷ xs) = ground (arith, count_if-length p xs)

pub before-length : (key : Text) (ks : List Text) → before key ks < suc (length ks)
before-length key ks = omega (arith, count_if-length (λ k. text_ltb k key) ks)

-- One key is another, or comes before it.
abbrev pub Upto : Text → Text → Type 0
Upto s t = (s ≡ t) ⊎ (text_ltb s t ≡ true)

Upto-lt : (s t u : Text) → Upto s t → text_ltb t u ≡ true → text_ltb s u ≡ true
Upto-lt s t u (inl e) h = rw e h
Upto-lt s t u (inr l) h = text_ltb_trans s t u l h

-- The parent of each key is a key, and is the key itself or comes before it.
abbrev pub IsForest : List Text → Parents → Type 0
IsForest ks ps = (k : Text) → mem k ks ≡ true → (mem (ps k) ks ≡ true) × Upto (ps k) k

-- What a search that has reached a root returns.
pub record IsFound (ks : List Text) (key : Text) (found : Text × Parents) : Type 0 where
  pub is_root : found.1 found.0 ≡ found.0
  pub is_key : mem found.0 ks ≡ true
  pub is_upto : Upto found.0 key
  pub forest : IsForest ks found.1

pub set_parent-IsForest :
    (ks : List Text) (ps : Parents) (key root : Text)
    → IsForest ks ps
    → mem root ks ≡ true
    → Upto root key
    → IsForest ks (set_parent key root ps)
unfolding set_parent
set_parent-IsForest ks ps key root forest there upto k h = elim (Bool-cases (k == key)) [
  | inl e ↦ let same : k ≡ key = (text_beq_iff k key).0 e in rw e (there, (rw same upto))
  | inr e ↦ rw e (forest k h)
]

set_parent-root :
    (key root : Text) (ps : Parents) → ps root ≡ root → set_parent key root ps root ≡ root
unfolding set_parent
set_parent-root key root ps h = elim (Bool-cases (root == key)) [
  | inl e ↦ rw e refl
  | inr e ↦ rw e h
]

strictly : (s t : Text) → Upto s t → (s == t) ≡ false → text_ltb s t ≡ true
strictly s t (inl e) h = let same = (text_beq_iff s t).1 e in cc
strictly s t (inr l) h = l

pub find-IsFound :
    (fuel : ℕ) (ks : List Text) (key : Text) (ps : Parents)
    → IsForest ks ps
    → mem key ks ≡ true
    → before key ks < fuel
    → IsFound ks key (find fuel key ps)
unfolding find
find-IsFound zero ks key ps forest there enough = absurd (omega (arith, enough))
find-IsFound (suc fuel) ks key ps forest there enough = elim (Bool-cases (ps key == key)) [
  | inl e ↦ rw e (record {
    is_root = (text_beq_iff (ps key) key).0 e;
    is_key = there;
    is_upto = inl refl;
    forest = forest;
  })
  | inr e ↦
      let parent = ps key in
      let (known, upto) = forest key there in
      let less : text_ltb parent key ≡ true = strictly parent key upto e in
      let rest =
        find-IsFound fuel ks parent ps forest known
          (omega (arith, before-lt parent key ks less known, enough)) in
      let root = (find fuel parent ps).0 in
      let qs = (find fuel parent ps).1 in
      let below : Upto root key = inr (Upto-lt root parent key rest.is_upto less) in
      rw e (record {
        is_root = set_parent-root key root qs rest.is_root;
        is_key = rest.is_key;
        is_upto = below;
        forest = set_parent-IsForest ks qs key root rest.forest rest.is_key below;
      })
]
