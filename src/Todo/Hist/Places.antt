-- ===== src/Todo/Hist/Places.antt =====
-- class HistTodo (src/tws_meta.cpp): every request that was added is in exactly one place, and every
-- operation keeps it so.
use twstools.Base.{
  true, ℕ, ◌+◌, ◌≤◌, ◌<◌, ◌==◌, ◌≡◌, refl, ap, inl, inr, ltb, Option, none, some, List, [], ◌∷◌,
  ◌++◌, if◌then◌else◌, arith, length, length-append, Returns, Bool-cases,
}
use twstools.Base.Int.{int_laws, ℤ, pos, leb_ℤ}
use twstools.Requests.{HistRequest}
use twstools.Todo.Hist.{HistTodo, new_hist_todo, checkout, cancel_for_repeat, tell_done, add}

-- How often an address stands in a list, and in a pointer.
unfoldable pub times : ℕ → List ℕ → ℕ
times p [] = 0
times p (q ∷ qs) = (if q == p then 1 else 0) + times p qs

abbrev pub times_at : ℕ → Option ℕ → ℕ
times_at p none = 0
times_at p (some q) = if q == p then 1 else 0

-- In how many places the request with this address is.
abbrev pub places : ℕ → HistTodo → ℕ
places p t =
    times p t.done_requests
    + times p t.left_requests
    + times p t.error_requests
    + times_at p t.checked_out_request

-- Every request that was added is in exactly one place, and nothing else is in any.
abbrev pub IsKept : HistTodo → Type 0
IsKept t = (p : ℕ) → places p t ≡ (if ltb p (length t.store) then 1 else 0)

pub times-append : (p : ℕ) (xs ys : List ℕ) → times p (xs ++ ys) ≡ times p xs + times p ys
unfolding times
times-append p [] ys = omega arith
times-append p (x ∷ xs) ys = omega (arith, times-append p xs ys)

pub times-snoc :
    (p q : ℕ) (xs : List ℕ) → times p (xs ++ q ∷ []) ≡ times p xs + (if q == p then 1 else 0)
unfolding times
times-snoc p q xs = omega (arith, times-append p xs (q ∷ []))

-- What stands in the list of open requests is allocated.
pub left_allocated :
    (t : HistTodo) (p : ℕ) → IsKept t → 1 ≤ times p t.left_requests → p < length t.store
left_allocated t p k h = let once = k p in ground (arith, once)

pub new-IsKept : IsKept new_hist_todo
unfolding times new_hist_todo
new-IsKept p = ground arith

-- If every request is in exactly one place, it is so with one more added.
pub add-IsKept : (hr : HistRequest) (t : HistTodo) → IsKept t → IsKept (add hr t)
unfolding add
add-IsKept hr t k p =
    let once = k p in
    ground
      (arith, once, length-append t.store (hr ∷ []), times-snoc p (length t.store) t.left_requests)

-- checkout, without a request checked out and with one left, returns with the first one out, and
-- every request is still in exactly one place.
pub checkout_lem :
    (t : HistTodo) (p : ℕ) (left : List ℕ)
    → IsKept t
    → t.checked_out_request ≡ none
    → t.left_requests ≡ p ∷ left
    → Returns
        (λ t'. IsKept t' × (t'.checked_out_request ≡ some p) × (t'.left_requests ≡ left))
        (checkout t)
unfolding checkout times
checkout_lem t p left k e f =
    rw (e, f, checkout) ((λ q. omega (arith, k q, ap (times q) f, ap (times_at q) e)), refl, refl)

-- cancelForRepeat returns when a request is checked out: it goes to the front, to the back or to the
-- errors as the priority says, and every request is still in exactly one place.
pub cancel_for_repeat_lem :
    (priority : ℤ) (t : HistTodo) (p : ℕ)
    → IsKept t
    → t.checked_out_request ≡ some p
    → Returns
        (λ t'.
          IsKept t'
          × (t'.checked_out_request ≡ none)
          × (t'.left_requests ≡ (
              if leb_ℤ priority (pos 0)
              then p ∷ t.left_requests
              else (if leb_ℤ priority (pos 1) then t.left_requests ++ p ∷ [] else t.left_requests)))
          × (t'.done_requests ≡ t.done_requests)
          × (t'.error_requests
              ≡ (if leb_ℤ priority (pos 1) then t.error_requests else t.error_requests ++ p ∷ [])))
        (cancel_for_repeat priority t)
unfolding cancel_for_repeat times
cancel_for_repeat_lem priority t p k e = elim (Bool-cases (leb_ℤ priority (pos 0))) [
  | inl front ↦
      let low : leb_ℤ priority (pos 1) ≡ true = grind (int_laws, front) in
      rw (e, front, low, cancel_for_repeat)
        ((λ q. omega (arith, k q, ap (times_at q) e)), refl, refl, refl, refl)
  | inr not_front ↦ elim (Bool-cases (leb_ℤ priority (pos 1))) [
    | inl back ↦
        rw (e, not_front, back, cancel_for_repeat)
          (
            (λ q. omega (arith, k q, ap (times_at q) e, times-snoc q p t.left_requests)),
            refl,
            refl,
            refl,
            refl,
          )
    | inr fail ↦
        rw (e, not_front, fail, cancel_for_repeat)
          (
            (λ q. omega (arith, k q, ap (times_at q) e, times-snoc q p t.error_requests)),
            refl,
            refl,
            refl,
            refl,
          )
  ]
]

-- tellDone returns when a request is checked out, puts that one with the done ones, and leaves the
-- open ones as they are; every request is still in exactly one place.
pub tell_done_lem :
    (t : HistTodo) (p : ℕ)
    → IsKept t
    → t.checked_out_request ≡ some p
    → Returns
        (λ t'.
          IsKept t'
          × (t'.checked_out_request ≡ none)
          × (t'.left_requests ≡ t.left_requests)
          × (t'.done_requests ≡ t.done_requests ++ p ∷ [])
          × (t'.error_requests ≡ t.error_requests))
        (tell_done t)
unfolding tell_done times
tell_done_lem t p k e =
    rw (e, tell_done)
      (
        (λ q. omega (arith, k q, ap (times_at q) e, times-snoc q p t.done_requests)),
        refl,
        refl,
        refl,
        refl,
      )
