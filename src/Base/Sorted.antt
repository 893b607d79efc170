-- ===== src/Base/Sorted.antt =====
-- Sorted lists of instants, and how many elements of a list pass a test.
use mathlib.Core.List.{reverse, reverse-cons}
use twstools.Base.{
  ℕ, zero, suc, ◌+◌, ◌≤◌, ◌<◌, ◌≡◌, refl, sym, subst, ap, Bool, true, false, List, [], ◌∷◌, ◌++◌,
  none, some, arith, if◌then◌else◌, length, get_elem?, last?, All,
}
use twstools.Base.Int.{ℤ, ◌≤ℤ◌}

-- No element is above a later one.
abbrev pub Sorted : List ℤ → Type 0
Sorted [] = Unit
Sorted (x ∷ xs) = All (λ y. x ≤ℤ y) xs × Sorted xs

-- No element is below a later one.
abbrev pub Falling : List ℤ → Type 0
Falling [] = Unit
Falling (x ∷ xs) = All (λ y. y ≤ℤ x) xs × Falling xs

module _ {ℓ} {A : Type ℓ} where
  abbrev pub count_if : (A → Bool) → List A → ℕ
  count_if p [] = 0
  count_if p (x ∷ xs) = let n = count_if p xs in if p x then suc n else n

  pub count_if-append :
      (p : A → Bool) (xs ys : List A) → count_if p (xs ++ ys) ≡ count_if p xs + count_if p ys
  count_if-append p [] ys = omega arith
  count_if-append p (x ∷ xs) ys = ground (arith, count_if-append p xs ys)

  pub count_if-reverse : (p : A → Bool) (xs : List A) → count_if p (reverse xs) ≡ count_if p xs
  count_if-reverse p [] = refl
  count_if-reverse p (x ∷ xs) =
      rw (reverse-cons x xs, count_if-append p (reverse xs) (x ∷ []), count_if-reverse p xs)
        (ground arith)

  pub count_if-le : (p : A → Bool) (xs : List A) → count_if p xs ≤ length xs
  count_if-le p [] = omega arith
  count_if-le p (x ∷ xs) = ground (arith, count_if-le p xs)

  pub count_if-none : (p : A → Bool) (xs : List A) → All (λ x. p x ≡ false) xs → count_if p xs ≡ 0
  count_if-none p [] h = refl
  count_if-none p (x ∷ xs) h = rw h.0 (count_if-none p xs h.1)

  pub count_if-All :
      (p : A → Bool) (xs : List A) → All (λ x. p x ≡ true) xs → count_if p xs ≡ length xs
  count_if-All p [] h = refl
  count_if-All p (x ∷ xs) h = rw h.0 (ap suc (count_if-All p xs h.1))

  pub All-append : (P : A → Type 0) (xs ys : List A) → All P xs → All P ys → All P (xs ++ ys)
  All-append P [] ys h k = k
  All-append P (x ∷ xs) ys h k = (h.0, All-append P xs ys h.1 k)

  pub All-reverse : (P : A → Type 0) (xs : List A) → All P xs → All P (reverse xs)
  All-reverse P [] h = tt
  All-reverse P (x ∷ xs) h =
      subst (All P) (sym (reverse-cons x xs))
        (All-append P (reverse xs) (x ∷ []) (All-reverse P xs h.1) (h.0, tt))

  pub All-map : {P Q : A → Type 0} (f : (x : A) → P x → Q x) (xs : List A) → All P xs → All Q xs
  All-map f [] h = tt
  All-map f (x ∷ xs) h = (f x h.0, All-map f xs h.1)

  pub All-get_elem? :
      (P : A → Type 0) (xs : List A) (i : ℕ) (t : A) → All P xs → get_elem? xs i ≡ some t → P t
  All-get_elem? P [] i t h e = cc
  All-get_elem? P (x ∷ xs) zero t h e = let same : x ≡ t = cc in subst P same h.0
  All-get_elem? P (x ∷ xs) (suc i) t h e = All-get_elem? P xs i t h.1 e

pub Falling-snoc :
    (xs : List ℤ) (y : ℤ) → Falling xs → All (λ x. y ≤ℤ x) xs → Falling (xs ++ y ∷ [])
Falling-snoc [] y f h = (tt, tt)
Falling-snoc (x ∷ xs) y f h =
    (All-append (λ z. z ≤ℤ x) xs (y ∷ []) f.0 (h.0, tt), Falling-snoc xs y f.1 h.1)

pub Falling-reverse : (xs : List ℤ) → Sorted xs → Falling (reverse xs)
Falling-reverse [] s = tt
Falling-reverse (x ∷ xs) s =
    subst Falling (sym (reverse-cons x xs))
      (Falling-snoc (reverse xs) x (Falling-reverse xs s.1) (All-reverse (λ z. x ≤ℤ z) xs s.0))

pub Sorted-snoc : (xs : List ℤ) (y : ℤ) → Sorted xs → All (λ x. x ≤ℤ y) xs → Sorted (xs ++ y ∷ [])
Sorted-snoc [] y s h = (tt, tt)
Sorted-snoc (x ∷ xs) y s h =
    (All-append (λ z. x ≤ℤ z) xs (y ∷ []) s.0 (h.0, tt), Sorted-snoc xs y s.1 h.1)

module _ {ℓ} {A : Type ℓ} where
  pub get_elem?-some : (xs : List A) (i : ℕ) → i < length xs → (t : A) × (get_elem? xs i ≡ some t)
  get_elem?-some [] i h = elim h [ ]
  get_elem?-some (x ∷ xs) zero h = (x, refl)
  get_elem?-some (x ∷ xs) (suc i) h = get_elem?-some xs i (omega arith)

  pub last?-some : (x : A) (xs : List A) → (t : A) × (last? (x ∷ xs) ≡ some t)
  last?-some x [] = (x, refl)
  last?-some x (y ∷ xs) = last?-some y xs

  pub All-last? : (P : A → Type 0) (xs : List A) (t : A) → All P xs → last? xs ≡ some t → P t
  All-last? P [] t h e = cc
  All-last? P (x ∷ []) t h e = let same : x ≡ t = cc in subst P same h.0
  All-last? P (x ∷ y ∷ xs) t h e = All-last? P (y ∷ xs) t h.1 e

module _ {ℓ} {A : Type ℓ} where
  pub last?-none : (xs : List A) → last? xs ≡ none → xs ≡ []
  last?-none [] e = refl
  last?-none (x ∷ []) e = cc
  last?-none (x ∷ y ∷ xs) e = let bad = last?-none (y ∷ xs) e in cc bad

  -- A list as long as one that has a last element has one too.
  pub last?-paired {κ} :
      {B : Type κ} (xs : List A) (ys : List B) (x : A)
      → length xs ≡ length ys
      → last? xs ≡ some x
      → (y : B) × (last? ys ≡ some y)
  last?-paired [] ys x e h = cc
  last?-paired (z ∷ xs) [] x e h = absurd (omega arith)
  last?-paired (z ∷ xs) (y ∷ ys) x e h = last?-some y ys
