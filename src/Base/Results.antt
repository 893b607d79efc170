-- ===== src/Base/Results.antt =====
-- A run of the program's code: it returns, or it stops. `none` is a failed assertion, an exception
-- that nobody catches, or undefined behaviour.
use mathlib.Core.Bool.{Bool, true, false}
use mathlib.Core.Path.{◌≡◌, refl}
use mathlib.Core.List.{List, [], ◌∷◌}
use mathlib.Core.Option.{Option, none, some}
use twstools.Base.Tests.{if◌then◌else◌}

infixl 5 ◌>>=◌ ◌>>◌
abbrev pub ◌>>=◌ {ℓ κ} : {A : Type ℓ} {B : Type κ} → Option A → (A → Option B) → Option B
none >>= f = none
some a >>= f = f a

abbrev pub ◌>>◌ {ℓ} : {B : Type ℓ} → Option (Unit {0}) → Option B → Option B
m >> k = m >>= λ _. k

-- assert( b )
abbrev pub assert : Bool → Option (Unit {0})
assert true = some tt
assert false = none

-- What an access to the last element of a vector asks for.
abbrev pub not_empty {ℓ} : {A : Type ℓ} → List A → Option (Unit {0})
not_empty [] = none
not_empty (x ∷ xs) = some tt

abbrev pub is_none {ℓ} : {A : Type ℓ} → Option A → Bool
is_none none = true
is_none (some a) = false

-- A run that returns, with a result that satisfies P.
abbrev pub Returns {ℓ} : {A : Type ℓ} → (A → Type 0) → Option A → Type 0
Returns P none = ⊥
Returns P (some a) = P a

pub Returns-map {ℓ} :
    {A : Type ℓ} (P Q : A → Type 0)
    → ((a : A) → P a → Q a)
    → (m : Option A) → Returns P m
    → Returns Q m
Returns-map P Q f none h = h
Returns-map P Q f (some a) h = f a h

pub Returns-bind {ℓ κ} :
    {A : Type ℓ} {B : Type κ} (P : A → Type 0) (Q : B → Type 0) (m : Option A) (f : A → Option B)
    → Returns P m
    → ((a : A) → P a → Returns Q (f a))
    → Returns Q (m >>= f)
Returns-bind P Q none f h k = absurd h
Returns-bind P Q (some a) f h k = k a h

-- A run whose result satisfies P if it returns.
abbrev pub IfReturns {ℓ} : {A : Type ℓ} → (A → Type 0) → Option A → Type 0
IfReturns P none = Unit
IfReturns P (some a) = P a

pub IfReturns-bind {ℓ κ} :
    {A : Type ℓ} {B : Type κ} (P : A → Type 0) (Q : B → Type 0) (m : Option A) (f : A → Option B)
    → IfReturns P m
    → ((a : A) → P a → IfReturns Q (f a))
    → IfReturns Q (m >>= f)
IfReturns-bind P Q none f h k = tt
IfReturns-bind P Q (some a) f h k = k a h

pub IfReturns-map {ℓ} :
    {A : Type ℓ} (P Q : A → Type 0)
    → ((a : A) → P a → Q a)
    → (m : Option A) → IfReturns P m
    → IfReturns Q m
IfReturns-map P Q f none h = tt
IfReturns-map P Q f (some a) h = f a h

-- Nothing is known of the result.
pub IfReturns-any {ℓ} : {A : Type ℓ} (m : Option A) → IfReturns (λ _. Unit {0}) m
IfReturns-any none = tt
IfReturns-any (some a) = tt

pub IfReturns-eq : {A : Type 0} (m : Option A) → IfReturns (λ a. m ≡ some a) m
IfReturns-eq none = tt
IfReturns-eq (some a) = refl

pub IfReturns-both {ℓ} :
    {A : Type ℓ} (P Q : A → Type 0) (m : Option A)
    → IfReturns P m
    → IfReturns Q m
    → IfReturns (λ a. P a × Q a) m
IfReturns-both P Q none h k = tt
IfReturns-both P Q (some a) h k = (h, k)

-- A run that returns under a hypothesis.
pub IfReturns-under {ℓ} :
    {A : Type ℓ} (H : Type 0) (P : A → Type 0) (m : Option A)
    → (H → Returns P m)
    → IfReturns (λ a. H → P a) m
IfReturns-under H P none h = tt
IfReturns-under H P (some a) h = h

pub IfReturns-of {ℓ} : {A : Type ℓ} (P : A → Type 0) (m : Option A) → Returns P m → IfReturns P m
IfReturns-of P none h = tt
IfReturns-of P (some a) h = h

pub IfReturns-if {ℓ} :
    {A : Type ℓ} (P : A → Type 0) (b : Bool) (m n : Option A)
    → (b ≡ true → IfReturns P m)
    → (b ≡ false → IfReturns P n)
    → IfReturns P (if b then m else n)
IfReturns-if P true m n h k = h refl
IfReturns-if P false m n h k = k refl
