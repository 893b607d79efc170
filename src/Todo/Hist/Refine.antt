-- ===== src/Todo/Hist/Refine.antt =====
-- class HistTodo (src/tws_meta.cpp): any sequence of its calls is a play by the rules of the board.
use twstools.Base.{
  ℕ, ◌≤◌, ◌≡◌, refl, inl, inr, ltb, Bool, true, false, Option, none, some, List, [], ◌∷◌, ◌>>=◌,
  arith, IfReturns, IfReturns-bind, IfReturns-map, Option-cases, is_none, not, ◌&&◌, length,
  Returns,
}
use twstools.Todo.Hist.{
  HistTodo, checkout, tell_done, cancel_for_repeat, skip_by_perm, skip_by_nodata,
}
use twstools.Todo.Hist.Skips.{skip_by_perm_lem, skip_by_nodata_lem}
use twstools.Todo.Hist.Places.{times_at, IsKept}
use twstools.Todo.Hist.Board.{Standing, out, done, failed, standing_of, standing, Moves}
use twstools.Todo.Hist.Play.{
  Call, call_add, call_checkout, call_checkout_opt, call_done, call_cancel, call_skip_perm,
  call_skip_nodata, run_call, run_calls, move_of, call-Obeys, Obeys,
}

-- What the callers of a HistTodo can tell of it.
abbrev pub Board : Type 0
Board = ℕ → Standing

abbrev pub board : HistTodo → Board
board t p = standing p t

-- A call moves requests from the one place to the other only, and one at most is checked out behind it.
pub record Rule (c : Call) (a b : Board) : Type 0 where
  pub moves : (p : ℕ) → Moves (move_of c).0 (move_of c).1 (a p) (b p)
  pub one_out : (p q : ℕ) → b p ≡ out → b q ≡ out → p ≡ q

pub data Play : List Call → Board → Board → Type 0 where
  stop : (a : Board) → Play [] a a
  play : (c : Call) (cs : List Call) (a b d : Board) → Rule c a b → Play cs b d → Play (c ∷ cs) a d

out_once : (l o d e : ℕ) → standing_of l o d e ≡ out → 1 ≤ o
unfolding standing_of
out_once l o d e h = ground arith

out_at : (p : ℕ) (o : Option ℕ) → 1 ≤ times_at p o → o ≡ some p
out_at p none h = absurd (omega (arith, h))
out_at p (some q) h = let same : q ≡ p = ground (arith, h) in rw same refl

one_out_lem : (t : HistTodo) (p q : ℕ) → standing p t ≡ out → standing q t ≡ out → p ≡ q
unfolding standing
one_out_lem t p q h k =
    let hp = out_at p t.checked_out_request (out_once _ _ _ _ h) in
    let hq = out_at q t.checked_out_request (out_once _ _ _ _ k) in cc

-- If every request is in exactly one place, any sequence of calls that returns keeps them so, and each
-- call of it obeys its rule: it moves requests only from the place to the place that it is for, and
-- leaves at most one checked out.
pub run_calls-Play :
    (cs : List Call) (t : HistTodo)
    → IsKept t
    → IfReturns (λ t'. IsKept t' × Play cs (board t) (board t')) (run_calls cs t)
unfolding run_calls
run_calls-Play [] t k = (k, stop (board t))
run_calls-Play (c ∷ cs) t k =
    IfReturns-bind (Obeys c t) _ (run_call c t) (run_calls cs) (call-Obeys c t k) λ u h.
      IfReturns-map _ _
        (λ t' r. (
          r.0,
          play c cs (board t) (board u) (board t') (record { moves = h.1; one_out = one_out_lem u })
              r.1,
        ))
        (run_calls cs u) (run_calls-Play cs u h.0)

unfoldable pub is_settled : Standing → Bool
is_settled done = true
is_settled failed = true
is_settled _ = false

move_of-settled : (c : Call) → is_settled (move_of c).0 ≡ false
unfolding move_of is_settled
move_of-settled (call_add hr) = refl
move_of-settled call_checkout = refl
move_of-settled (call_checkout_opt clock d g) = refl
move_of-settled call_done = refl
move_of-settled (call_cancel priority) = refl
move_of-settled (call_skip_perm con) = refl
move_of-settled (call_skip_nodata hr) = refl

move-settled :
    (c : Call) (a b : Standing)
    → Moves (move_of c).0 (move_of c).1 a b
    → is_settled a ≡ true
    → b ≡ a
move-settled c a b (inl same) h = same
move-settled c a b (inr (from, to)) h =
    let free = move_of-settled c in absurd (grind (arith, from, h, free))

Play-settled :
    (cs : List Call) (a b : Board) (p : ℕ) → Play cs a b → is_settled (a p) ≡ true → b p ≡ a p
Play-settled cs a b p (stop x) h = refl
Play-settled all a d p (play c cs x b y r rest) h =
    let same = move-settled c (x p) (b p) (r.moves p) h in
    let rest_same = Play-settled cs b y p rest (rw same h) in cc

-- If every request is in exactly one place, a request that is done, or has failed, still is so behind
-- any sequence of calls that returns.
pub run_calls-settled :
    (cs : List Call) (t : HistTodo) (p : ℕ)
    → IsKept t
    → is_settled (standing p t) ≡ true
    → IfReturns (λ t'. standing p t' ≡ standing p t) (run_calls cs t)
run_calls-settled cs t p k h =
    IfReturns-map _ _ (λ t' r. Play-settled cs (board t) (board t') p r.1 h) (run_calls cs t)
      (run_calls-Play cs t k)

-- What a call but checkoutOpt asks of the object; the asserts at its start, and front() of the list.
unfoldable pub can_run : Call → HistTodo → Bool
can_run call_checkout t = is_none t.checked_out_request && ltb 0 (length t.left_requests)
can_run call_done t = not (is_none t.checked_out_request)
can_run (call_cancel priority) t = not (is_none t.checked_out_request)
can_run _ t = true

unfoldable pub is_paced : Call → Bool
is_paced (call_checkout_opt clock d g) = true
is_paced _ = false

returned : {A : Type 0} (P : A → Type 0) (m : Option A) → Returns P m → is_none m ≡ false
returned P none h = absurd h
returned P (some a) h = refl

is_none-some :
    {A B : Type 0} (m : Option A) (f : A → B) → is_none (m >>= λ a. some (f a)) ≡ is_none m
is_none-some none f = refl
is_none-some (some a) f = refl

checkout-aborts :
    (o : Option ℕ) (left : List ℕ) (t : HistTodo)
    → t.checked_out_request ≡ o
    → t.left_requests ≡ left
    → is_none (checkout t) ≡ not (is_none o && ltb 0 (length left))
unfolding checkout
checkout-aborts (some q) left t e f = rw e refl
checkout-aborts none [] t e f = rw (e, f) refl
checkout-aborts none (q ∷ left) t e f = rw (e, f) (ground arith)

-- If every request is in exactly one place, a call but checkoutOpt returns just when a request is
-- checked out, for tellDone and cancelForRepeat, when none is and one is left, for checkout, and always
-- for add, skip_by_perm and skip_by_nodata.
pub run_call-aborts :
    (c : Call) (t : HistTodo)
    → IsKept t
    → is_paced c ≡ false
    → is_none (run_call c t) ≡ not (can_run c t)
unfolding run_call can_run is_paced tell_done cancel_for_repeat
run_call-aborts (call_add hr) t k e = refl
run_call-aborts call_checkout t k e =
    checkout-aborts t.checked_out_request t.left_requests t refl refl
run_call-aborts (call_checkout_opt clock d g) t k e = absurd (ground (arith, e))
run_call-aborts call_done t k e = elim (Option-cases (t.checked_out_request)) [
  | inl f ↦ rw f refl
  | inr (q, f) ↦ rw f refl
]
run_call-aborts (call_cancel priority) t k e = elim (Option-cases (t.checked_out_request)) [
  | inl f ↦ rw f refl
  | inr (q, f) ↦ rw f refl
]
run_call-aborts (call_skip_perm con) t k e =
    rw (is_none-some (skip_by_perm con t) (λ r. r.1))
      (returned _ (skip_by_perm con t) (skip_by_perm_lem con t k))
run_call-aborts (call_skip_nodata hr) t k e =
    rw (is_none-some (skip_by_nodata hr t) (λ r. r.1))
      (returned _ (skip_by_nodata hr t) (skip_by_nodata_lem hr t k))
