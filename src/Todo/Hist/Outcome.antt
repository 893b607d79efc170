-- ===== src/Todo/Hist/Outcome.antt =====
-- HistTodo::checkoutOpt (src/tws_meta.cpp): what it leaves behind if it returns, whatever the pacing
-- controls hold.
use twstools.Base.{
  ℕ, ◌+◌, ◌==◌, ◌≡◌, refl, ap, inl, inr, Bool, true, false, none, some, List, [], ◌∷◌,
  if◌then◌else◌, ◌>>◌, assert, arith, get_elem?, is_none, IfReturns, IfReturns-bind, IfReturns-any,
  Bool-cases, Option-cases,
}
use twstools.Base.Int.{ℤ, pos, leb_ℤ}
use twstools.Farms.{DataFarmStates}
use twstools.Pacing.God.{PacingGod}
use twstools.Pacing.God
use twstools.Todo.Hist.{HistTodo, tally, choose, erase_ptr, checkout_best, checkout_opt}
use twstools.Todo.Hist.Places.{times, times_at, IsKept}

-- The list is the one before with one address taken out.
abbrev Taken : ℕ → List ℕ → List ℕ → Type 0
Taken p left r = (q : ℕ) → times q r + (if p == q then 1 else 0) ≡ times q left

erase_ptr-Taken : (p : ℕ) (left : List ℕ) → IfReturns (Taken p left) (erase_ptr p left)
unfolding erase_ptr times
erase_ptr-Taken p [] = tt
erase_ptr-Taken p (q ∷ left) = elim (Bool-cases (q == p)) [
  | inl hit ↦ rw (hit, erase_ptr) (λ j. ground arith)
  | inr miss ↦
      rw (miss, erase_ptr)
        (IfReturns-bind (Taken p left) (Taken p (q ∷ left)) (erase_ptr p left) (λ r. some (q ∷ r))
          (erase_ptr-Taken p left) (λ r k j. omega (arith, k j)))
]

-- Each request is in one place still; the list is as it was when there is to be a wait, else a
-- request is checked out; what leaves the open ones is checked out, and nothing is done or in error by it.
pub record Outcome (t : HistTodo) (r : ℤ × PacingGod × HistTodo) : Type 0 where
  pub kept : IsKept r.2
  pub waits : leb_ℤ r.0 (pos 0) ≡ false → r.2 ≡ t
  pub goes : leb_ℤ r.0 (pos 0) ≡ true → is_none r.2.checked_out_request ≡ false
  pub free : is_none t.checked_out_request ≡ true
  pub done : r.2.done_requests ≡ t.done_requests
  pub errors : r.2.error_requests ≡ t.error_requests
  pub taken :
      (q : ℕ)
      → times q r.2.left_requests + times_at q r.2.checked_out_request ≡ times q t.left_requests

finish :
    (t : HistTodo) (p : ℕ) (left : List ℕ) (wait : ℤ) (g : PacingGod)
    → IsKept t
    → is_none t.checked_out_request ≡ true
    → Taken p t.left_requests left
    → Outcome t (
      wait,
      g,
      (if leb_ℤ wait (pos 0)
          then record t { left_requests = left; checked_out_request = some p }
          else t),
    )
finish t p left wait g k free taken = elim (Bool-cases (leb_ℤ wait (pos 0))) [
  | inl now ↦ elim (Option-cases (t.checked_out_request)) [
    | inr (q, f) ↦ absurd (ground (arith, f))
    | inl e ↦ rw now (record {
      kept = λ q. omega (arith, k q, taken q, ap (times_at q) e);
      waits = λ late. absurd (ground (arith, now));
      goes = λ _. refl;
      free = free;
      done = refl;
      errors = refl;
      taken = taken;
    })
  ]
  | inr later ↦ elim (Option-cases (t.checked_out_request)) [
    | inr (q, f) ↦ absurd (ground (arith, f))
    | inl e ↦ rw later (record {
      kept = k;
      waits = λ _. refl;
      goes = λ soon. absurd (ground (arith, later));
      free = free;
      done = refl;
      errors = refl;
      taken = λ q. omega (arith, ap (times_at q) e);
    })
  ]
]

best :
    (clock : ℕ → ℤ) (d : DataFarmStates) (g : PacingGod) (p : ℕ) (t : HistTodo)
    → IsKept t
    → is_none t.checked_out_request ≡ true
    → IfReturns (Outcome t) (checkout_best clock d g p t)
unfolding checkout_best
best clock d g p t k free =
    IfReturns-bind _ (Outcome t) (tally d t.store t.left_requests [] []) _ (IfReturns-any _)
      λ hash _.
        IfReturns-bind _ (Outcome t) (choose clock d t.store hash.1 hash.0 0 p (pos 0) g) _
          (IfReturns-any _)
          λ best _.
            IfReturns-bind (Taken best.1 t.left_requests) (Outcome t)
              (erase_ptr best.1 t.left_requests) _ (erase_ptr-Taken best.1 t.left_requests)
              λ left taken.
                IfReturns-bind _ (Outcome t) (get_elem? t.store best.1) _ (IfReturns-any _) λ hr _.
                  IfReturns-bind _ (Outcome t)
                    (God.good_time (clock best.0) d hr.ib_contract best.2) _ (IfReturns-any _)
                    λ r _. finish t best.1 left r.0 r.1 k free taken

-- With every request in exactly one place checkoutOpt, if it returns, leaves them so; it either checks
-- one out, or gives a wait and changes nothing.
pub checkout_opt-Outcome :
    (clock : ℕ → ℤ) (d : DataFarmStates) (g : PacingGod) (t : HistTodo)
    → IsKept t
    → IfReturns (Outcome t) (checkout_opt clock d g t)
unfolding checkout_opt
checkout_opt-Outcome clock d g t k = go (is_none t.checked_out_request) refl t.left_requests
  where
    go :
        (b : Bool)
        → is_none t.checked_out_request ≡ b
        → (left : List ℕ)
        → IfReturns
            (Outcome t)
            (assert b >> elim left [ [] ↦ none | front ∷ _ ↦ checkout_best clock d g front t ])
    go false e left = tt
    go true e [] = tt
    go true e (p ∷ left) = best clock d g p t k e
