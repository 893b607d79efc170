-- ===== src/Pacing/Control/History.antt =====
-- Every operation of PacingControl (src/tws_meta.cpp) keeps its two vectors in step and its instants
-- in order, and touches nothing out of range.
use twstools.Base.{
  ap, ◌++◌, ◌-◌, ◌≡◌, refl, inl, inr, sym, ◌∙◌, Bool, true, false, some, List, [], ◌∷◌, arith,
  length, length-append, All, Returns, Bool-cases, last?, init, keep_last, length-set_last,
  set_last, length-init, length-keep_last,
}
use twstools.Base.Int.{◌<ℤ◌, int_laws, ℤ, pos, ◌≤ℤ◌, ◌-ℤ◌, ltb_ℤ}
use twstools.Base.Sorted.{Sorted, Sorted-snoc, last?-some}
use twstools.Pacing.Control.{
  PacingControl, clear, add_request, remove_last_request, notify_violation,
}
use twstools.Pacing.Control.Merge.{IsKept}

All-init : (P : ℤ → Type 0) (xs : List ℤ) → All P xs → All P (init xs)
All-init P [] h = tt
All-init P (x ∷ []) h = tt
All-init P (x ∷ y ∷ xs) h = (h.0, All-init P (y ∷ xs) h.1)

Sorted-init : (xs : List ℤ) → Sorted xs → Sorted (init xs)
Sorted-init [] s = tt
Sorted-init (x ∷ []) s = tt
Sorted-init (x ∷ y ∷ xs) s = (All-init (λ z. x ≤ℤ z) (y ∷ xs) s.0, Sorted-init (y ∷ xs) s.1)

Sorted-keep_last : (xs : List ℤ) → Sorted (keep_last xs)
Sorted-keep_last [] = tt
Sorted-keep_last (x ∷ []) = (tt, tt)
Sorted-keep_last (x ∷ y ∷ xs) = Sorted-keep_last (y ∷ xs)

length_zero {ℓ} : {A : Type ℓ} (xs : List A) → length xs ≡ 0 → xs ≡ []
length_zero [] e = refl
length_zero (x ∷ xs) e = absurd (omega arith)

-- No request of the history is later than `now`.
abbrev pub Past : ℤ → PacingControl → Type 0
Past now p = All (λ t. t ≤ℤ now) p.date_times

pub add_request-IsKept :
    (now : ℤ) (p : PacingControl) → IsKept p → Past now p → IsKept (add_request now p)
unfolding add_request
add_request-IsKept now p k past = record {
  in_step = omega (
    arith,
    k.in_step,
    length-append p.date_times (now ∷ []),
    length-append p.violations (false ∷ []),
  );
  in_order = Sorted-snoc p.date_times now k.in_order past;
}

-- The control with these two vectors.
abbrev holding : PacingControl → List ℤ → List Bool → PacingControl
holding p ds vs = record p { date_times = ds; violations = vs }

remove_step :
    (p : PacingControl) (ds : List ℤ) (vs : List Bool)
    → length ds ≡ length vs
    → Sorted ds
    → Returns
        (λ q. IsKept q × (length q.date_times ≡ length ds - 1))
        (remove_last_request (holding p ds vs))
unfolding remove_last_request
remove_step p [] vs e s = (record { in_step = e; in_order = s }, refl)
remove_step p (d ∷ ds) [] e s = absurd (omega arith)
remove_step p (d ∷ ds) (v ∷ vs) e s = (
  record {
    in_step = omega (arith, length-init d ds, length-init v vs);
    in_order = Sorted-init (d ∷ ds) s;
  },
  omega (arith, length-init d ds),
)

-- The last request goes, if there is one; the vectors are never popped when empty.
pub remove_last_request-IsKept :
    (p : PacingControl)
    → IsKept p
    → Returns
        (λ q. IsKept q × (length q.date_times ≡ length p.date_times - 1))
        (remove_last_request p)
remove_last_request-IsKept p k = remove_step p p.date_times p.violations k.in_step k.in_order

-- What notifyViolation makes of a history: the last request is marked, and nothing else is changed; of an empty
-- one, a request at this instant, that is marked.
pub record Marked (now : ℤ) (p q : PacingControl) : Type 0 where
  pub unknown : p.violations ≡ [] → q ≡ record p { date_times = now ∷ []; violations = true ∷ [] }
  pub last :
      (vs : List Bool) (v : Bool)
      → p.violations ≡ vs ++ v ∷ []
      → q ≡ record p { violations = vs ++ true ∷ [] }

set_last-snoc : (vs : List Bool) (v : Bool) → set_last true (vs ++ v ∷ []) ≡ vs ++ true ∷ []
set_last-snoc [] v = refl
set_last-snoc (w ∷ []) v = refl
set_last-snoc (w ∷ x ∷ vs) v = ap (◌∷◌ w) (set_last-snoc (x ∷ vs) v)

no_snoc : (vs : List Bool) (v : Bool) → [] ≡ vs ++ v ∷ [] → ⊥
no_snoc [] v e = cc
no_snoc (w ∷ vs) v e = cc

notify_step :
    (now : ℤ) (p : PacingControl) (ds : List ℤ) (vs : List Bool)
    → length ds ≡ length vs
    → Sorted ds
    → Returns
        (λ q. IsKept q × Marked now (holding p ds vs) q)
        (notify_violation now (holding p ds vs))
unfolding notify_violation add_request
notify_step now p [] [] e s = (
  record { in_step = refl; in_order = (tt, tt) },
  record { unknown = λ _. refl; last = λ vs v h. absurd (no_snoc vs v h) },
)
notify_step now p (d ∷ ds) [] e s = absurd (omega arith)
notify_step now p ds (v ∷ vs) e s = (
  record { in_step = e ∙ sym (length-set_last true (v ∷ vs)); in_order = s },
  record {
    unknown = λ h. cc;
    last = λ ws w h. ap (holding p ds) (ap (set_last true) h ∙ set_last-snoc ws w);
  },
)

-- On a history whose vectors are in step and whose instants are in order, notifyViolation returns, which
-- means that it never looks at the end of an empty vector, and keeps it so. It marks the last request as
-- violating and changes nothing else; into an empty history it first puts a request at this instant.
pub notify_violation_lem :
    (now : ℤ) (p : PacingControl)
    → IsKept p
    → Returns (λ q. IsKept q × Marked now p q) (notify_violation now p)
notify_violation_lem now p k = notify_step now p p.date_times p.violations k.in_step k.in_order

-- What clear leaves of a history: nothing of an empty one, of any other its last request, with its mark, if that
-- is younger than five seconds, else nothing.
pub record Cleared (now : ℤ) (p q : PacingControl) : Type 0 where
  pub empty : p.date_times ≡ [] → q ≡ p
  pub young :
      (back : ℤ) (violated : Bool)
      → last? p.date_times ≡ some back
      → last? p.violations ≡ some violated
      → now -ℤ back <ℤ pos 5000
      → q ≡ record p { date_times = back ∷ []; violations = violated ∷ [] }
  pub old :
      (back : ℤ)
      → last? p.date_times ≡ some back
      → pos 5000 ≤ℤ now -ℤ back
      → q ≡ record p { date_times = []; violations = [] }

keep_last_of {ℓ} : {A : Type ℓ} (xs : List A) (x : A) → last? xs ≡ some x → keep_last xs ≡ x ∷ []
keep_last_of [] x h = cc
keep_last_of (y ∷ []) x h = let same : y ≡ x = cc in ap (λ z. z ∷ []) same
keep_last_of (y ∷ z ∷ xs) x h = keep_last_of (z ∷ xs) x h

clear_step :
    (now : ℤ) (p : PacingControl) (ds : List ℤ) (vs : List Bool)
    → length ds ≡ length vs
    → Sorted ds
    → Returns (λ q. IsKept q × Cleared now (holding p ds vs) q) (clear now (holding p ds vs))
unfolding clear
clear_step now p [] vs e s = (
  record { in_step = e; in_order = s },
  record { empty = λ _. refl; young = λ b m eb em lt. cc; old = λ b eb le. cc },
)
clear_step now p (d ∷ ds) [] e s = absurd (omega arith)
clear_step now p (d ∷ ds) (v ∷ vs) e s =
    let (back, last) = last?-some d ds in
    elim (Bool-cases (ltb_ℤ (now -ℤ back) (pos 5000))) [
      | inl young ↦
          rw (last, young, clear)
            (
              record {
                in_step = length-keep_last d ds ∙ sym (length-keep_last v vs);
                in_order = Sorted-keep_last (d ∷ ds);
              },
              record {
                empty = λ h. cc;
                young = λ b m eb em lt.
                    ap (λ xs. holding p xs (keep_last (v ∷ vs))) (keep_last_of (d ∷ ds) b eb)
                    ∙ ap (holding p (b ∷ [])) (keep_last_of (v ∷ vs) m em);
                old = λ b eb le.
                    let same : back ≡ b = cc in absurd (grind (int_laws, young, le, same));
              },
            )
      | inr old ↦
          rw (last, old, clear)
            (
              record { in_step = refl; in_order = tt },
              record {
                empty = λ h. cc;
                young = λ b m eb em lt.
                    let same : back ≡ b = cc in absurd (grind (int_laws, old, lt, same));
                old = λ b eb le. refl;
              },
            )
    ]

-- On a history whose vectors are in step and whose instants are in order, clear returns and keeps it
-- so. An empty history stays; of any other it leaves just the last request, with its mark, when
-- that is less than 5000 ms old, and else nothing.
pub clear-IsKept :
    (now : ℤ) (p : PacingControl)
    → IsKept p
    → Returns (λ q. IsKept q × Cleared now p q) (clear now p)
clear-IsKept now p k = clear_step now p p.date_times p.violations k.in_step k.in_order
