-- ===== src/Base/Lists.antt =====
-- Lists measured and indexed by native numbers, under the library's names, and what a
-- std::vector or a std::list does at its end.
use Prim.Native.Nat.{ℕ, zero, suc, ◌+◌}
use mathlib.Core.Path.{◌≡◌, refl, ap}
use mathlib.Core.List.{List, [], ◌∷◌, ◌++◌, map}
use mathlib.Core.Bool.{Bool}
use mathlib.Core.Option.{Option, none, some}
use native.Mathlib.Omega.{arith}
use twstools.Base.Tests.{if◌then◌else◌}

module _ {ℓ} {A : Type ℓ} where
  abbrev pub length : List A → ℕ
  length [] = 0
  length (x ∷ xs) = suc (length xs)

  abbrev pub get_elem? : List A → ℕ → Option A
  get_elem? [] i = none
  get_elem? (x ∷ xs) zero = some x
  get_elem? (x ∷ xs) (suc i) = get_elem? xs i

  pub length-append : (xs ys : List A) → length (xs ++ ys) ≡ length xs + length ys
  length-append [] ys = omega arith
  length-append (x ∷ xs) ys = omega (arith, length-append xs ys)

  -- v.back(): the last element, of a vector that has one.
  abbrev pub last? : List A → Option A
  last? [] = none
  last? (x ∷ []) = some x
  last? (x ∷ y ∷ xs) = last? (y ∷ xs)

  -- v.pop_back(): all but the last element.
  abbrev pub init : List A → List A
  init [] = []
  init (x ∷ []) = []
  init (x ∷ y ∷ xs) = x ∷ init (y ∷ xs)

  -- v.erase(begin, end - 1): the last element alone.
  abbrev pub keep_last : List A → List A
  keep_last [] = []
  keep_last (x ∷ []) = x ∷ []
  keep_last (x ∷ y ∷ xs) = keep_last (y ∷ xs)

  -- v.back() = a, of a vector that is not empty.
  abbrev pub set_last : A → List A → List A
  set_last a [] = []
  set_last a (x ∷ []) = a ∷ []
  set_last a (x ∷ y ∷ xs) = x ∷ set_last a (y ∷ xs)

  pub length-set_last : (a : A) (xs : List A) → length (set_last a xs) ≡ length xs
  length-set_last a [] = refl
  length-set_last a (x ∷ []) = refl
  length-set_last a (x ∷ y ∷ xs) = ap suc (length-set_last a (y ∷ xs))

  pub last?-set_last : (a x : A) (xs : List A) → last? (set_last a (x ∷ xs)) ≡ some a
  last?-set_last a x [] = refl
  last?-set_last a x (y ∷ []) = refl
  last?-set_last a x (y ∷ z ∷ xs) = last?-set_last a y (z ∷ xs)

  pub last?-append : (xs : List A) (a : A) → last? (xs ++ a ∷ []) ≡ some a
  last?-append [] a = refl
  last?-append (x ∷ []) a = refl
  last?-append (x ∷ y ∷ xs) a = last?-append (y ∷ xs) a

  pub init-append : (xs : List A) (a : A) → init (xs ++ a ∷ []) ≡ xs
  init-append [] a = refl
  init-append (x ∷ []) a = refl
  init-append (x ∷ y ∷ xs) a = ap (◌∷◌ x) (init-append (y ∷ xs) a)

  pub length-init : (x : A) (xs : List A) → suc (length (init (x ∷ xs))) ≡ length (x ∷ xs)
  length-init x [] = refl
  length-init x (y ∷ xs) = ap suc (length-init y xs)

  pub length-keep_last : (x : A) (xs : List A) → length (keep_last (x ∷ xs)) ≡ 1
  length-keep_last x [] = refl
  length-keep_last x (y ∷ xs) = length-keep_last y xs

  -- Every element satisfies P; tactics read it as a tuple.
  abbrev pub All {κ} : (A → Type κ) → List A → Type κ
  All P [] = Unit
  All P (x ∷ xs) = P x × All P xs

  -- The elements that pass a test, in order, and those that fail it.
  unfoldable pub keep_if : (A → Bool) → List A → List A
  keep_if p [] = []
  keep_if p (x ∷ xs) = let rest = keep_if p xs in if p x then x ∷ rest else rest

  unfoldable pub drop_if : (A → Bool) → List A → List A
  drop_if p [] = []
  drop_if p (x ∷ xs) = let rest = drop_if p xs in if p x then rest else x ∷ rest

  pub length-keep_if-drop_if :
      (p : A → Bool) (xs : List A) → length (keep_if p xs) + length (drop_if p xs) ≡ length xs
  unfolding keep_if drop_if
  length-keep_if-drop_if p [] = omega arith
  length-keep_if-drop_if p (x ∷ xs) = ground (arith, length-keep_if-drop_if p xs)

module _ {ℓ κ} {A : Type ℓ} {B : Type κ} where
  pub length-map : (f : A → B) (xs : List A) → length (map f xs) ≡ length xs
  length-map f [] = refl
  length-map f (x ∷ xs) = ap suc (length-map f xs)
