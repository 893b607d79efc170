-- ===== src/Twsdo/Reach.antt =====
-- The states that the event loop of TwsDL (src/twsdo.cpp) comes to, and what holds in all of them.
use twstools.Base.{
  ℕ, ◌≡◌, refl, sym, ap, ◌∙◌, subst, Bool, true, false, not, Option, some, if◌then◌else◌, ◌>>=◌,
  IfReturns, IfReturns-bind, arith, ◌&&◌, ◌||◌, is_none,
}
use twstools.Base.Int.{ℤ, pos, negsuc, ◌-ℤ◌, ltb_ℤ, leb_ℤ, eqb_ℤ, to_int}
use twstools.Todo.Hist.{HistTodo}
use twstools.Todo.Hist.Places.{IsKept}
use twstools.Todo.Work.{
  ReqType, no_request, acc_status_request, executions_request, orders_request,
  contract_details_request, hist_request, opt_params_request, next_req_type,
}
use twstools.Todo.Work.Laws.{next_req_type_once}
use twstools.Twsdo.{State, wait_tws_con, idle, TwsDl, new_heart_beat, change_state, is_idle, send}
use twstools.Twsdo.Sending.{allow, req_mkt_data}
use twstools.Twsdo.Finish.{wait_data, is_open}
use twstools.Twsdo.Loop.{
  connect_tws, disconnect_tws, ask_time, wait_connection, wait_tws_con_step, Outside, Round,
  ask_once, trade, start_request, quit_if_done, idle_connected, idle_step, state_step, loop_body,
  Step, event, round,
}
use twstools.Twsdo.Same.{IsSame, IsSame-refl}
use twstools.Twsdo.Handlers.{handle-Keeps, closed-Keeps}
use twstools.Twsdo.Working.{
  IsWorking, IsWorking-same, Works, Works-some, Works-if, Works-given, Works-then, Works-assert,
  working-Keeps, wait_data-Works,
}
use twstools.Twsdo.Asking.{
  IsIdle, acc_status-Works, executions-Works, orders-Works, contract_details-Works,
  opt_params-Works, historical_data-Works, place_all_orders-Keeps, req_mkt_data-IsSame,
}

-- What the code outside, the API's connect with its callbacks and the strategy, must leave in order.
pub record Respects (o : Outside) : Type 0 where
  pub connect :
      (t : TwsDl)
      → IsWorking t
      → IfReturns (λ (r : Bool × Bool × TwsDl). IsWorking r.2) (o.connect t)
  pub work : (t : TwsDl) → IsWorking t → Works (o.work t)

change_state-Works : (s : State) (t : TwsDl) → IsWorking t → Works (change_state s t)
unfolding change_state
change_state-Works idle t w =
    Works-assert (not (is_idle t.state)) _
      (λ _. Works-some _ (record { fits = w.fits; out = w.out; kept = w.kept }))
change_state-Works wait_tws_con t w =
    Works-assert (is_idle t.state) _
      (λ _. Works-some _ (record { fits = w.fits; out = w.out; kept = w.kept }))

connect_tws-Works :
    (o : Outside) (connected : Bool) (now : ℕ) (t : TwsDl)
    → Respects o
    → IsWorking t
    → Works (connect_tws o.connect connected now t)
unfolding connect_tws
connect_tws-Works o connected now t ok w =
    let t₀ : TwsDl = record t { last_connection_time = pos now } in
    Works-assert (not connected && not t.connectivity_ib_tws) _ λ _.
      Works-if (ltb_ℤ (pos now -ℤ t.last_connection_time) t.cfg.tws_con_timeout) _ _
        (λ _. Works-some _ (record { fits = w.fits; out = w.out; kept = w.kept }))
        λ _.
          Works-then (change_state wait_tws_con t₀) _
            (change_state-Works wait_tws_con t₀
              (record { fits = w.fits; out = w.out; kept = w.kept }))
            λ t₁ w₁.
              Works-given (λ (r : Bool × Bool × TwsDl). IsWorking r.2)
                (o.connect (record t₁ { tws_hb = new_heart_beat })) _
                (ok.connect _ (record { fits = w₁.fits; out = w₁.out; kept = w₁.kept }))
                λ r w₂.
                  Works-if (not r.0) _ _ (λ _. change_state-Works idle r.2 w₂)
                    λ _.
                      Works-if r.1 _ _ (λ _. Works-some r.2 w₂)
                        λ _. Works-some _ (record { fits = w₂.fits; out = w₂.out; kept = w₂.kept })

ask_time-IsSame : (now : ℕ) (t : TwsDl) → IsSame t (ask_time now t)
unfolding ask_time send allow
ask_time-IsSame now t = record {
  request = ground arith;
  packet = ground arith;
  out = ground arith;
  kept = λ k. ground arith;
}

asked-IsWorking :
    (b : Bool) (now : ℕ) (t : TwsDl) → IsWorking t → IsWorking (if b then ask_time now t else t)
asked-IsWorking true now t w = IsWorking-same t _ (ask_time-IsSame now t) w
asked-IsWorking false now t w = w

finish_wait-Works :
    (connected : Bool) (now : ℕ) (left : ℤ) (t : TwsDl)
    → IsWorking t
    → Works (
        if not (eqb_ℤ t.tws_hb.tws_time (pos 0)) && not (eqb_ℤ t.tws_valid_order_id (pos 0))
        then change_state idle t
        else (if ltb_ℤ (pos 0) left
            then some (record t { cur_idle_time = to_int left })
            else disconnect_tws connected now t))
unfolding disconnect_tws
finish_wait-Works connected now left t w =
    Works-if (not (eqb_ℤ t.tws_hb.tws_time (pos 0)) && not (eqb_ℤ t.tws_valid_order_id (pos 0))) _ _
      (λ _. change_state-Works idle t w)
      λ _.
        Works-if (ltb_ℤ (pos 0) left) _ _
          (λ _. Works-some _ (record { fits = w.fits; out = w.out; kept = w.kept }))
          λ _.
            Works-if connected _ _ (λ _. working-Keeps t _ (closed-Keeps now t) w)
              (λ _. Works-some t w)

wait_tws_con_step-Works :
    (connected : Bool) (now : ℕ) (t : TwsDl)
    → IsWorking t
    → Works (wait_tws_con_step connected now t)
unfolding wait_tws_con_step wait_connection
wait_tws_con_step-Works connected now t w =
    let ask = eqb_ℤ t.tws_hb.tws_time (pos 0) && not (eqb_ℤ t.tws_valid_order_id (pos 0)) in
    Works-if connected _ _
      (λ _.
        finish_wait-Works connected now
          (t.cfg.tws_con_timeout -ℤ (pos now -ℤ t.last_connection_time))
          (if ask then ask_time now t else t) (asked-IsWorking ask now t w))
      (λ _. change_state-Works idle t w)

trade-Works : (o : Outside) (r : Round) (t : TwsDl) → Respects o → IsWorking t → Works (trade o r t)
unfolding trade
trade-Works o r t ok w =
    Works-then (if t.strat then o.work t else some t) _
      (Works-if t.strat _ _ (λ _. ok.work t w) (λ _. Works-some t w))
      λ u v. working-Keeps u _ (place_all_orders-Keeps r.now u) v

start_request-Works :
    (o : Outside) (r : Round) (type : ReqType) (t : TwsDl)
    → Respects o
    → IsIdle t
    → Works (start_request o r type t)
unfolding start_request
start_request-Works o r acc_status_request t ok i = acc_status-Works r.now t i
start_request-Works o r executions_request t ok i = executions-Works r.now t i
start_request-Works o r orders_request t ok i = orders-Works r.now t i
start_request-Works o r contract_details_request t ok i = contract_details-Works r.now t i
start_request-Works o r hist_request t ok i = historical_data-Works r.clock r.now t i
start_request-Works o r opt_params_request t ok i = opt_params-Works r.now t i
start_request-Works o r no_request t ok i = trade-Works o r t ok i.0

quit_if_done-IsSame : (type : ReqType) (t : TwsDl) → IsSame t (quit_if_done type t)
unfolding quit_if_done
quit_if_done-IsSame type t = record {
  request = ground arith;
  packet = ground arith;
  out = ground arith;
  kept = λ k. ground arith;
}

-- What ask_once leaves: the same request, and nothing else that is open.
ask_once-IsSame : (t : TwsDl) → IfReturns (IsSame t) (ask_once t)
unfolding ask_once
ask_once-IsSame t = go (leb_ℤ t.mkt_req_id (pos 0))
  where
    go :
        (b : Bool)
        → IfReturns
            (IsSame t)
            (if b then (req_mkt_data t >>= λ r. some (record r.1 { mkt_req_id = r.0 })) else some t)
    go false = IsSame-refl t
    go true =
        IfReturns-bind (λ (r : ℤ × TwsDl). IsSame t r.1) (IsSame t) (req_mkt_data t) _
          (req_mkt_data-IsSame t)
          λ r s. record { request = s.request; packet = s.packet; out = s.out; kept = s.kept }

idle_connected-Works :
    (o : Outside) (r : Round) (t : TwsDl) → Respects o → IsIdle t → Works (idle_connected o r t)
unfolding idle_connected
idle_connected-Works o r t ok i = Works-given (IsSame t) (ask_once t) _ (ask_once-IsSame t) λ u s.
    let next = next_req_type u.work_todo in
    let v : TwsDl = record u { work_todo = next.1 } in
    let same : next.1.hist_todo ≡ u.work_todo.hist_todo = (next_req_type_once u.work_todo).3 in
    let w = IsWorking-same t u s i.0 in
    let w' : IsWorking v = record {
      fits = w.fits;
      out = ap (λ (h : HistTodo). is_none h.checked_out_request) same ∙ w.out;
      kept = subst IsKept (sym same) w.kept;
    } in
    let free : v.current_request.req_type ≡ no_request = ap (λ q. q.req_type) s.request ∙ i.1 in
    Works-then (start_request o r next.0 v) _ (start_request-Works o r next.0 v ok (w', free))
      λ x y. Works-some _ (IsWorking-same x _ (quit_if_done-IsSame next.0 x) y)

closed_now : (type : ReqType) (b : Bool) → (b || is_open type) ≡ false → type ≡ no_request
closed_now no_request b h = refl
closed_now acc_status_request b h = absurd (ground arith)
closed_now executions_request b h = absurd (ground arith)
closed_now orders_request b h = absurd (ground arith)
closed_now contract_details_request b h = absurd (ground arith)
closed_now hist_request b h = absurd (ground arith)
closed_now opt_params_request b h = absurd (ground arith)

idle_step-Works :
    (o : Outside) (r : Round) (t : TwsDl) → Respects o → IsWorking t → Works (idle_step o r t)
unfolding idle_step
idle_step-Works o r t ok w = Works-then (wait_data r.now t) _ (wait_data-Works r.now t w) λ u v.
    Works-if (u.quit || is_open u.current_request.req_type) _ _ (λ _. Works-some u v)
      λ closed.
        Works-if r.connected _ _
          (λ _.
            idle_connected-Works o r u ok (v, closed_now u.current_request.req_type u.quit closed))
          (λ _. connect_tws-Works o r.connected r.now u ok v)

state_step-Works :
    (o : Outside) (r : Round) (s : State) (t : TwsDl)
    → Respects o
    → IsWorking t
    → Works (state_step o r s t)
unfolding state_step
state_step-Works o r wait_tws_con t ok w = wait_tws_con_step-Works r.connected r.now t w
state_step-Works o r idle t ok w = idle_step-Works o r t ok w

rest_time-IsWorking :
    (b : Bool) (t : TwsDl)
    → IsWorking t
    → IsWorking (if b then record t { cur_idle_time = pos 50 } else t)
rest_time-IsWorking true t w = record { fits = w.fits; out = w.out; kept = w.kept }
rest_time-IsWorking false t w = w

pub loop_body-Works :
    (o : Outside) (r : Round) (t : TwsDl) → Respects o → IsWorking t → Works (loop_body o r t)
unfolding loop_body
loop_body-Works o r t ok w =
    let t₀ : TwsDl = record t { cur_idle_time = negsuc 0 } in
    Works-then (state_step o r t.state t₀) _
      (state_step-Works o r t.state t₀ ok (record { fits = w.fits; out = w.out; kept = w.kept }))
      λ u v. Works-some _ (rest_time-IsWorking (eqb_ℤ u.cur_idle_time (negsuc 0)) u v)

-- The states behind any number of callbacks and rounds.
pub data Reachable (o : Outside) (t : TwsDl) : TwsDl → Type 0 where
  here : Reachable o t t
  after : (u v : TwsDl) → Reachable o t u → Step o u v → Reachable o t v

result-IsWorking : (m : Option TwsDl) (t : TwsDl) → Works m → m ≡ some t → IsWorking t
unfolding Works
result-IsWorking m t w e = subst Works e w

step-IsWorking : (o : Outside) (t u : TwsDl) → Respects o → IsWorking t → Step o t u → IsWorking u
step-IsWorking o t u ok w (event connected async now e t' h) =
    result-IsWorking _ t' (working-Keeps t _ (handle-Keeps connected async now e t) w) h
step-IsWorking o t u ok w (round r t' q h) = result-IsWorking _ t' (loop_body-Works o r t ok w) h

-- If the code outside leaves the object in order, and it is in order at the start, then it is so
-- behind any sequence of callbacks and rounds of the loop: there is a packet just while a request is
-- open, and of its kind, a historical request is checked out just while one is open, and every
-- historical request is in exactly one place.
pub reachable-IsWorking :
    (o : Outside) (t u : TwsDl) → Respects o → IsWorking t → Reachable o t u → IsWorking u
reachable-IsWorking o t u ok w here = w
reachable-IsWorking o t u ok w (after v x r s) =
    step-IsWorking o v x ok (reachable-IsWorking o t v ok w r) s
