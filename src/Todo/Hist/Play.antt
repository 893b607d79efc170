-- ===== src/Todo/Hist/Play.antt =====
-- class HistTodo (src/tws_meta.cpp): its methods move the requests on the board as the board's rules say.
use twstools.Base.{
  ℕ, ◌+◌, ◌≤◌, ◌≡◌, refl, ap, inl, inr, Bool, true, false, Option, none, some, List, [], ◌∷◌,
  if◌then◌else◌, ◌>>=◌, arith, length, keep_if, IfReturns, IfReturns-bind, IfReturns-of, Bool-cases,
  Option-cases, is_none,
}
use twstools.Base.Int.{ℤ, pos, leb_ℤ}
use twstools.Requests.{Contract, HistRequest}
use twstools.Farms.{DataFarmStates}
use twstools.Pacing.God.{PacingGod}
use twstools.Todo.Hist.{
  HistTodo, add, checkout, checkout_opt, tell_done, cancel_for_repeat, skip_by_perm, skip_by_nodata,
}
use twstools.Todo.Hist.Places.{times, times_at, times-snoc, times-append, IsKept, add-IsKept}
use twstools.Todo.Hist.Skips.{times-split, test_at, Skipped, skip_by_perm_lem, skip_by_nodata_lem}
use twstools.Todo.Hist.Outcome.{Outcome, checkout_opt-Outcome}
use twstools.Todo.Hist.Board.{
  Standing, unknown, waiting, out, done, failed, standing, Moves, add_move, take_move, done_move,
  back_move, fail_move, skip_move,
}

-- The calls of the methods that change a HistTodo.
pub data Call : Type 0 where
  call_add : HistRequest → Call
  call_checkout : Call
  call_checkout_opt : (ℕ → ℤ) → DataFarmStates → PacingGod → Call
  call_done : Call
  call_cancel : ℤ → Call
  call_skip_perm : Contract → Call
  call_skip_nodata : HistRequest → Call

unfoldable pub run_call : Call → HistTodo → Option HistTodo
run_call (call_add hr) t = some (add hr t)
run_call call_checkout t = checkout t
run_call (call_checkout_opt clock d g) t = checkout_opt clock d g t >>= λ r. some r.2
run_call call_done t = tell_done t
run_call (call_cancel priority) t = cancel_for_repeat priority t
run_call (call_skip_perm con) t = skip_by_perm con t >>= λ r. some r.1
run_call (call_skip_nodata hr) t = skip_by_nodata hr t >>= λ r. some r.1

unfoldable pub run_calls : List Call → HistTodo → Option HistTodo
run_calls [] t = some t
run_calls (c ∷ cs) t = run_call c t >>= run_calls cs

-- From where to where a call moves requests.
unfoldable pub move_of : Call → Standing × Standing
move_of (call_add hr) = (unknown, waiting)
move_of call_checkout = (waiting, out)
move_of (call_checkout_opt clock d g) = (waiting, out)
move_of call_done = (out, done)
move_of (call_cancel priority) = (out, (if leb_ℤ priority (pos 1) then waiting else failed))
move_of (call_skip_perm con) = (waiting, failed)
move_of (call_skip_nodata hr) = (waiting, failed)

-- The requests are in one place each, and have moved as the call moves them.
abbrev pub Obeys : Call → HistTodo → HistTodo → Type 0
Obeys c t t' =
    IsKept t' × ((p : ℕ) → Moves (move_of c).0 (move_of c).1 (standing p t) (standing p t'))

one_place :
    (t : HistTodo) (p : ℕ)
    → IsKept t
    → times p t.left_requests
        + times_at p t.checked_out_request
        + times p t.done_requests
        + times p t.error_requests
      ≤ 1
one_place t p k = let once = k p in ground (arith, once)

add-Obeys : (hr : HistRequest) (t : HistTodo) → IsKept t → Obeys (call_add hr) t (add hr t)
unfolding add move_of standing
add-Obeys hr t k = (
  add-IsKept hr t k,
  λ p.
      let once = k p in
      rw (times-snoc p (length t.store) t.left_requests) (
        add_move (times p t.left_requests) (times_at p t.checked_out_request)
          (times p t.done_requests) (times p t.error_requests) _ (ground (arith, once))),
)

checkout-Obeys : (t : HistTodo) → IsKept t → IfReturns (Obeys call_checkout t) (checkout t)
unfolding checkout move_of standing times
checkout-Obeys t k = elim (Option-cases (t.checked_out_request)) [
  | inr (q, e) ↦ rw e tt
  | inl e ↦ go t.left_requests refl e
]
  where
    go :
        (left : List ℕ)
        → t.left_requests ≡ left
        → t.checked_out_request ≡ none
        → IfReturns (Obeys call_checkout t) (checkout t)
    go [] f e = rw (e, f) tt
    go (q ∷ left) f e =
        rw (e, f)
          (
            (λ p. omega (arith, k p, ap (times p) f, ap (times_at p) e)),
            λ p.
                take_move (times p (q ∷ left)) 0 (times p t.done_requests)
                  (times p t.error_requests) _ _
                  (omega (arith, one_place t p k, ap (times p) f, ap (times_at p) e)) (omega arith)
                  refl,
          )

none_out : (p : ℕ) (o : Option ℕ) → is_none o ≡ true → times_at p o ≡ 0
none_out p none h = refl
none_out p (some q) h = absurd (ground (arith, h))

checkout_opt-Obeys :
    (clock : ℕ → ℤ) (d : DataFarmStates) (g : PacingGod) (t : HistTodo)
    → IsKept t
    → IfReturns (Obeys (call_checkout_opt clock d g) t) (run_call (call_checkout_opt clock d g) t)
unfolding run_call move_of standing
checkout_opt-Obeys clock d g t k =
    IfReturns-bind (Outcome t) _ (checkout_opt clock d g t) (λ r. some r.2)
      (checkout_opt-Outcome clock d g t k)
      λ r o. (
        o.kept,
        λ p.
            rw (o.done, o.errors)
              (take_move _ _ _ _ _ _ (one_place t p k) (o.taken p)
                (none_out p t.checked_out_request o.free)),
      )

tell_done-Obeys : (t : HistTodo) → IsKept t → IfReturns (Obeys call_done t) (tell_done t)
unfolding tell_done move_of standing
tell_done-Obeys t k = elim (Option-cases (t.checked_out_request)) [
  | inl e ↦ rw e tt
  | inr (q, e) ↦ rw e (
    (λ p. omega (arith, k p, ap (times_at p) e, times-snoc p q t.done_requests)),
    λ p.
        rw (times-snoc p q t.done_requests) (
          done_move _ (times_at p (some q)) _ _
            (omega (arith, one_place t p k, ap (times_at p) e))),
  )
]

skip-Obeys :
    (nothing : Bool) (test : HistRequest → Bool) (c : Call) (t : HistTodo) (r : ℕ × HistTodo)
    → move_of c ≡ (waiting, failed)
    → IsKept t
    → (nothing ≡ true → r ≡ (0, t)) × (nothing ≡ false → Skipped test t r)
    → Obeys c t r.1
unfolding standing
skip-Obeys true test c t r e k h = rw (h.0 refl) (k, λ p. inl refl)
skip-Obeys false test c t r e k h =
    let s = h.1 refl in
    let keeps = keep_if (test_at test t.store) t.left_requests in
    (
      s.kept,
      λ p.
          rw (s.left, s.errors, s.done, s.out, e, times-append p t.error_requests keeps)
            (skip_move _ _ _ _ _ _ (one_place t p k)
              (times-split (test_at test t.store) p t.left_requests)),
    )

cancel-Obeys :
    (priority : ℤ) (t : HistTodo)
    → IsKept t
    → IfReturns (Obeys (call_cancel priority) t) (cancel_for_repeat priority t)
unfolding cancel_for_repeat move_of standing times
cancel-Obeys priority t k = elim (Option-cases (t.checked_out_request)) [
  | inl e ↦ rw e tt
  | inr (q, e) ↦
      let once : (p : ℕ)
          → times p t.left_requests
              + times_at p (some q)
              + times p t.done_requests
              + times p t.error_requests
            ≤ 1 =
        λ p. omega (arith, one_place t p k, ap (times_at p) e) in
      elim (Bool-cases (leb_ℤ priority (pos 0))) [
        | inl front ↦
            let soon : leb_ℤ priority (pos 1) ≡ true = ground (arith, front) in
            let first : (p : ℕ)
                → times p (q ∷ t.left_requests) ≡ times p t.left_requests + times_at p (some q) =
              λ p. omega arith in
            rw (e, front, soon)
              (
                (λ p. omega (arith, k p, ap (times_at p) e)),
                λ p. rw (first p) (back_move _ (times_at p (some q)) _ _ (once p)),
              )
        | inr not_front ↦ elim (Bool-cases (leb_ℤ priority (pos 1))) [
          | inl back ↦
              rw (e, not_front, back)
                (
                  (λ p.
                      omega
                        (arith, once p, k p, ap (times_at p) e, times-snoc p q t.left_requests)),
                  λ p.
                      rw (times-snoc p q t.left_requests)
                        (back_move _ (times_at p (some q)) _ _ (once p)),
                )
          | inr fail ↦
              rw (e, not_front, fail)
                (
                  (λ p.
                      omega
                        (arith, once p, k p, ap (times_at p) e, times-snoc p q t.error_requests)),
                  λ p.
                      rw (times-snoc p q t.error_requests)
                        (fail_move _ (times_at p (some q)) _ _ (once p)),
                )
        ]
      ]
]

pub call-Obeys : (c : Call) (t : HistTodo) → IsKept t → IfReturns (Obeys c t) (run_call c t)
unfolding run_call move_of
call-Obeys (call_add hr) t k = add-Obeys hr t k
call-Obeys call_checkout t k = checkout-Obeys t k
call-Obeys (call_checkout_opt clock d g) t k = checkout_opt-Obeys clock d g t k
call-Obeys call_done t k = tell_done-Obeys t k
call-Obeys (call_cancel priority) t k = cancel-Obeys priority t k
call-Obeys (call_skip_perm con) t k =
    IfReturns-bind _ (Obeys (call_skip_perm con) t) (skip_by_perm con t) (λ r. some r.1)
      (IfReturns-of _ (skip_by_perm con t) (skip_by_perm_lem con t k))
      λ r h. skip-Obeys _ _ (call_skip_perm con) t r refl k h
call-Obeys (call_skip_nodata hr) t k =
    IfReturns-bind _ (Obeys (call_skip_nodata hr) t) (skip_by_nodata hr t) (λ r. some r.1)
      (IfReturns-of _ (skip_by_nodata hr t) (skip_by_nodata_lem hr t k))
      λ r h. skip-Obeys _ _ (call_skip_nodata hr) t r refl k h
