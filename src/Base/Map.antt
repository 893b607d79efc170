-- ===== src/Base/Map.antt =====
-- std::map: an association list in the order of the keys.
use mathlib.Core.Path.{◌≡◌, refl, subst}
use mathlib.Core.Logic.{◌↔◌, inl, inr}
use mathlib.Core.Bool.{Bool, true, false}
use twstools.Base.Results.{is_none}
use mathlib.Core.List.{List, [], ◌∷◌}
use mathlib.Core.Option.{Option, none, some}
use native.Mathlib.Omega.{arith}
use twstools.Base.Tests.{if◌then◌else◌, Bool-cases}
use twstools.Base.Text.{Text, text_eq, text_eq_iff, text_lt}
use twstools.Base.Int.{ℤ, eqb_ℤ, eqb_ℤ_iff, ltb_ℤ}

-- What a std::map asks of its keys.
pub record Key (K : Type 0) : Type 0 where
  pub beq : K → K → Bool
  pub lt : K → K → Bool
  pub beq_iff : (a b : K) → (beq a b ≡ true) ↔ (a ≡ b)

instance abbrev pub text_key : Key Text
text_key = record { beq = text_eq; lt = text_lt; beq_iff = text_eq_iff }

instance abbrev pub int_key : Key ℤ
int_key = record { beq = eqb_ℤ; lt = ltb_ℤ; beq_iff = eqb_ℤ_iff }

abbrev pub Map {ℓ} : Type 0 → Type ℓ → Type ℓ
Map K V = List (K × V)

pub beq_refl : {K : Type 0} ⦃key : Key K⦄ (k : K) → key.beq k k ≡ true
beq_refl ⦃key⦄ k = (key.beq_iff k k).1 refl

module _ {ℓ} {K : Type 0} {V : Type ℓ} ⦃key : Key K⦄ where
  -- m.find( k )
  unfoldable pub find : K → Map K V → Option V
  find k [] = none
  find k ((j, v) ∷ m) = if key.beq j k then some v else find k m

  -- m[k] = v
  unfoldable pub insert : K → V → Map K V → Map K V
  insert k v [] = (k, v) ∷ []
  insert k v ((j, w) ∷ m) =
      if key.beq j k
      then (k, v) ∷ m
      else (if key.lt k j then (k, v) ∷ (j, w) ∷ m else (j, w) ∷ insert k v m)

  -- m.erase( k ); a std::map has at most one entry to drop.
  unfoldable pub erase : K → Map K V → Map K V
  erase k [] = []
  erase k ((j, v) ∷ m) = let rest = erase k m in if key.beq j k then rest else (j, v) ∷ rest

  pub find-insert :
      (k j : K) (v : V) (m : Map K V)
      → find j (insert k v m) ≡ (if key.beq k j then some v else find j m)
  unfolding find insert
  find-insert k j v [] = refl
  find-insert k j v ((i, w) ∷ m) =
      ground (arith, key.beq_iff k j, key.beq_iff i k, key.beq_iff i j, find-insert k j v m)

  pub find-erase :
      (k j : K) (m : Map K V) → find j (erase k m) ≡ (if key.beq k j then none else find j m)
  unfolding find erase
  find-erase k j [] = ground arith
  find-erase k j ((i, w) ∷ m) =
      ground (arith, key.beq_iff k j, key.beq_iff i k, key.beq_iff i j, find-erase k j m)

  pub find-insert_self : (k : K) (v : V) (m : Map K V) → find k (insert k v m) ≡ some v
  find-insert_self k v m = ground (arith, find-insert k k v m, beq_refl k)

  pub find-erase_self : (k : K) (m : Map K V) → find k (erase k m) ≡ none
  find-erase_self k m = ground (arith, find-erase k k m, beq_refl k)

  -- Every value of the map satisfies P.
  abbrev pub Values {κ} : (V → Type κ) → Map K V → Type κ
  Values P [] = Unit
  Values P ((k, v) ∷ m) = P v × Values P m

  pub Values-find :
      (P : V → Type 0) (k : K) (v : V) (m : Map K V) → Values P m → find k m ≡ some v → P v
  unfolding find
  Values-find P k v [] h e = cc
  Values-find P k v ((j, w) ∷ m) h e = elim (Bool-cases (key.beq j k)) [
    | inl hit ↦ let same : w ≡ v = ground arith in subst P same h.0
    | inr miss ↦ Values-find P k v m h.1 (ground arith)
  ]

  pub Values-insert :
      (P : V → Type 0) (k : K) (v : V) (m : Map K V) → P v → Values P m → Values P (insert k v m)
  unfolding insert
  Values-insert P k v [] p h = (p, tt)
  Values-insert P k v ((j, w) ∷ m) p h = elim (Bool-cases (key.beq j k)) [
    | inl hit ↦ rw hit (p, h.1)
    | inr miss ↦ elim (Bool-cases (key.lt k j)) [
      | inl before ↦ rw (miss, before) (p, h)
      | inr behind ↦ rw (miss, behind) (h.0, Values-insert P k v m p h.1)
    ]
  ]

  pub Values-erase : (P : V → Type 0) (k : K) (m : Map K V) → Values P m → Values P (erase k m)
  unfolding erase
  Values-erase P k [] h = tt
  Values-erase P k ((j, w) ∷ m) h = elim (Bool-cases (key.beq j k)) [
    | inl hit ↦ rw hit (Values-erase P k m h.1)
    | inr miss ↦ rw miss (h.0, Values-erase P k m h.1)
  ]

  -- The keys of a map, in order.
  abbrev pub keys : Map K V → List K
  keys [] = []
  keys ((k, v) ∷ m) = k ∷ keys m

  pub find-insert_ne :
      (k j : K) (v : V) (m : Map K V) → (k ≡ j → ⊥) → find j (insert k v m) ≡ find j m
  find-insert_ne k j v m h = ground (arith, find-insert k j v m, key.beq_iff k j)

  pub find-erase_ne : (k j : K) (m : Map K V) → (k ≡ j → ⊥) → find j (erase k m) ≡ find j m
  find-erase_ne k j m h = ground (arith, find-erase k j m, key.beq_iff k j)

  -- An insertion drops no key.
  pub present-insert :
      (k j : K) (v : V) (m : Map K V)
      → is_none (find j m) ≡ false
      → is_none (find j (insert k v m)) ≡ false
  present-insert k j v m h = ground (arith, find-insert k j v m)
