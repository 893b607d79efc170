-- ===== src/Twsdo/Asking.antt =====
-- The methods of TwsDL (src/twsdo.cpp) that send a request: they open it, with its packet.
use twstools.Base.{
  ℕ, zero, suc, ◌==◌, ◌≡◌, refl, sym, ap, ◌∙◌, subst, false, not, none, some, List, [], ◌∷◌, length,
  assert, is_none, IfReturns, IfReturns-bind, IfReturns-any, arith,
}
use twstools.Base.Int.{ℤ, pos, ◌+ℤ◌, ltb_ℤ}
use twstools.Base.Map.{Map, find, insert, int_key}
use twstools.Requests.{PlaceOrder, MktDataRequest}
use twstools.Packets.Lists
use twstools.Packets.History
use twstools.Packets.Placing.{record_order, modify}
use twstools.Packets.Streams.{new_acc, record_acc, new_executions, record_executions, record_orders}
use twstools.Pacing.God.{PacingGod}
use twstools.Pacing.God
use twstools.Todo.Hist.{HistTodo, checkout_opt, checkout_best, erase_ptr, tally, choose}
use twstools.Todo.Hist
use twstools.Todo.Hist.Outcome.{Outcome, checkout_opt-Outcome}
use twstools.Todo.Hist.Places.{IsKept}
use twstools.Todo.Indexed
use twstools.Todo.Work.{
  ReqType, no_request, acc_status_request, executions_request, orders_request,
  contract_details_request, opt_params_request, next_request,
}
use twstools.Twsdo.{TwsDl, send}
use twstools.Twsdo.Packets.{OrderPacket, new_hist_packet, new_order_packet, new_orders_packet}
use twstools.Twsdo.Same.{
  kind_in, IsSame, IsSame-refl, IsSame-trans, Keeps, Keeps-some, Keeps-refl, Keeps-after,
  Keeps-then, Keeps-if,
}
use twstools.Twsdo.Sending.{
  allow, next, fetch_inc_order_id, send_contract_details, req_contract_details, send_opt_params,
  req_opt_params, send_historical_data, req_historical_data, req_acc_status, req_executions,
  req_orders, order_id_of, send_order, place_as, place_order, place_orders, place_all_orders,
  ask_mkt_data, req_mkt_data,
}
use twstools.Twsdo.Working.{
  open_kind, is_hist, IsWorking, IsWorking-same, Works, Works-some, Works-if, Works-given,
  Works-after, Works-assert,
}

-- No request is open.
abbrev pub IsIdle : TwsDl → Type 0
IsIdle t = IsWorking t × (t.current_request.req_type ≡ no_request)

-- A request that is not a historical one has been opened.
opened :
    (type : ReqType) (t u : TwsDl)
    → IsIdle t
    → is_hist type ≡ false
    → u.current_request.req_type ≡ type
    → kind_in u.packet ≡ open_kind type
    → u.work_todo.hist_todo ≡ t.work_todo.hist_todo
    → Works (some u)
opened type t u i other e kind h = Works-some u (record {
  fits = kind ∙ ap open_kind (sym e);
  out =
      ap (λ (j : HistTodo). is_none j.checked_out_request) h
      ∙ i.0.out
      ∙ ap (λ y. not (is_hist y)) i.1
      ∙ ap not (sym other)
      ∙ ap (λ y. not (is_hist y)) (sym e);
  kept = subst IsKept (sym h) i.0.kept;
})

pub acc_status-Works : (now : ℕ) (t : TwsDl) → IsIdle t → Works (req_acc_status now t)
unfolding req_acc_status send next next_request
acc_status-Works now t i =
    Works-after (record_acc _ new_acc) _ λ p. opened acc_status_request t _ i refl refl refl refl

pub executions-Works : (now : ℕ) (t : TwsDl) → IsIdle t → Works (req_executions now t)
unfolding req_executions send next next_request
executions-Works now t i =
    Works-after (record_executions _ _ new_executions) _
      λ p. opened executions_request t _ i refl refl refl refl

pub orders-Works : (now : ℕ) (t : TwsDl) → IsIdle t → Works (req_orders now t)
unfolding req_orders send next next_request
orders-Works now t i =
    Works-after (record_orders tt new_orders_packet) _
      λ p. opened orders_request t _ i refl refl refl refl

send_contract_details-Works : (now : ℕ) (t : TwsDl) → IsIdle t → Works (send_contract_details now t)
unfolding send_contract_details send next next_request
send_contract_details-Works now t i =
    Works-after (Indexed.checkout t.work_todo.contract_details_todo) _ λ todo.
      Works-after (Indexed.current todo) _ λ cdr.
        Works-after (Lists.record_request _ cdr Lists.new_packet) _
          λ p. opened contract_details_request t _ i refl refl refl refl

send_opt_params-Works : (now : ℕ) (t : TwsDl) → IsIdle t → Works (send_opt_params now t)
unfolding send_opt_params send next next_request
send_opt_params-Works now t i = Works-after (Indexed.checkout t.work_todo.opt_params_todo) _ λ todo.
    Works-after (Indexed.current todo) _ λ opr.
      Works-after (Lists.record_request _ opr Lists.new_packet) _
        λ p. opened opt_params_request t _ i refl refl refl refl

-- Asking the rate limit changes nothing else.
pub allow-IsSame : (now n : ℕ) (t : TwsDl) → IsSame t (allow now n t).1
unfolding allow
allow-IsSame now n t = record { request = refl; packet = refl; out = refl; kept = λ k. k }

allow-IsIdle : (now n : ℕ) (t : TwsDl) → IsIdle t → IsIdle (allow now n t).1
unfolding allow
allow-IsIdle now n t i = (IsWorking-same t _ (allow-IsSame now n t) i.0, i.1)

pub contract_details-Works : (now : ℕ) (t : TwsDl) → IsIdle t → Works (req_contract_details now t)
unfolding req_contract_details
contract_details-Works now t i =
    let i' = allow-IsIdle now 1 t i in
    Works-if (allow now 1 t).0 _ _ (λ _. send_contract_details-Works now (allow now 1 t).1 i')
      (λ _. Works-some _ i'.0)

pub opt_params-Works : (now : ℕ) (t : TwsDl) → IsIdle t → Works (req_opt_params now t)
unfolding req_opt_params
opt_params-Works now t i =
    let i' = allow-IsIdle now 1 t i in
    Works-if (allow now 1 t).0 _ _ (λ _. send_opt_params-Works now (allow now 1 t).1 i')
      (λ _. Works-some _ i'.0)

-- Orders are not requests of this kind.
order_id-IsSame : (po : PlaceOrder) (t : TwsDl) → IsSame t (order_id_of po t).1
unfolding order_id_of fetch_inc_order_id
order_id-IsSame po t = record {
  request = ground arith;
  packet = ground arith;
  out = ground arith;
  kept = λ k. ground arith;
}

send_historical_data-Works :
    (now : ℕ) (t : TwsDl)
    → IsKept t.work_todo.hist_todo
    → is_none t.work_todo.hist_todo.checked_out_request ≡ false
    → Works (send_historical_data now t)
unfolding send_historical_data send next next_request
send_historical_data-Works now t k out = Works-after (Hist.current t.work_todo.hist_todo) _ λ hr.
    Works-after (God.add_request (pos now) t.data_farms hr.ib_contract t.pacing_control) _ λ g.
      Works-after (History.record_request _ hr new_hist_packet) _
        λ p. Works-some _ (record { fits = refl; out = out; kept = k })

pub historical_data-Works :
    (clock : ℕ → ℤ) (now : ℕ) (t : TwsDl) → IsIdle t → Works (req_historical_data clock now t)
unfolding req_historical_data
historical_data-Works clock now t i =
    Works-assert (ltb_ℤ (pos 0) (Hist.count_left t.work_todo.hist_todo)) _ λ _.
      Works-given (Outcome t.work_todo.hist_todo)
        (checkout_opt clock t.data_farms t.pacing_control t.work_todo.hist_todo) _
        (checkout_opt-Outcome clock t.data_farms t.pacing_control t.work_todo.hist_todo i.0.kept)
        λ r h.
          Works-if (ltb_ℤ (pos 0) r.0) _ _
            (λ late.
              let same : r.2 ≡ t.work_todo.hist_todo = h.waits (ground (arith, late)) in
              Works-some _ (record {
                fits = i.0.fits;
                out = ap (λ (j : HistTodo). is_none j.checked_out_request) same ∙ i.0.out;
                kept = h.kept;
              }))
            (λ soon. send_historical_data-Works now _ h.kept (h.goes (ground (arith, soon))))

send_order-IsSame : (id : ℤ) (po : PlaceOrder) (t : TwsDl) → IsSame t (send_order id po t)
unfolding send_order send
send_order-IsSame id po t = record {
  request = ground arith;
  packet = ground arith;
  out = ground arith;
  kept = λ k. ground arith;
}

put_order-IsSame : (t : TwsDl) (m : Map ℤ OrderPacket) → IsSame t (record t { p_orders = m })
put_order-IsSame t m = record { request = refl; packet = refl; out = refl; kept = λ k. k }

place_as-Keeps : (now : ℕ) (po : PlaceOrder) (id : ℤ) (t : TwsDl) → Keeps t (place_as now po id t)
unfolding place_as
place_as-Keeps now po id t =
    Keeps-after t
      (elim (find id t.p_orders) [
        | none ↦ record_order (pos now) id po new_order_packet
        | some p ↦ modify (pos now) po p
      ])
      _
      λ p.
        let u : TwsDl = record t { p_orders = insert id p t.p_orders } in
        Keeps-some t _ (IsSame-trans t u _ (put_order-IsSame t _) (send_order-IsSame id po u))

place_order-Keeps : (now : ℕ) (t : TwsDl) → Keeps t (place_order now t)
unfolding place_order
place_order-Keeps now t = Keeps-after t (Indexed.checkout t.work_todo.place_order_todo) _ λ todo.
    Keeps-after t (Indexed.current todo) _ λ po.
      let u : TwsDl = record t { work_todo = record t.work_todo { place_order_todo = todo } } in
      let r = order_id_of po u in
      let same : IsSame t r.1 =
        IsSame-trans t u r.1 (record { request = refl; packet = refl; out = refl; kept = λ k. k })
          (order_id-IsSame po u) in
      Keeps-then t (some r.1) (place_as now po r.0) (Keeps-some t r.1 same)
        (place_as-Keeps now po r.0)

place_orders-Keeps : (n now : ℕ) (t : TwsDl) → Keeps t (place_orders n now t)
unfolding place_orders
place_orders-Keeps zero now t = Keeps-refl t
place_orders-Keeps (suc n) now t =
    let u = (allow now 1 t).1 in
    let first : Keeps t (some u) = Keeps-some t u (allow-IsSame now 1 t) in
    Keeps-if t (ltb_ℤ (pos 0) (Indexed.count_left t.work_todo.place_order_todo)) _ _
      (Keeps-if t (allow now 1 t).0 _ _
        (Keeps-then t (some u) _ first λ v.
          Keeps-then v (place_order now v) _ (place_order-Keeps now v) (place_orders-Keeps n now))
        first)
      (Keeps-refl t)

pub place_all_orders-Keeps : (now : ℕ) (t : TwsDl) → Keeps t (place_all_orders now t)
unfolding place_all_orders
place_all_orders-Keeps now t = place_orders-Keeps _ now t

ask_mkt_data-IsSame :
    (id : ℤ) (rs : List MktDataRequest) (t : TwsDl) → IsSame t (ask_mkt_data id rs t).1
unfolding ask_mkt_data send
ask_mkt_data-IsSame id [] t = IsSame-refl t
ask_mkt_data-IsSame id (r ∷ rs) t =
    IsSame-trans t _ _ (record { request = refl; packet = refl; out = refl; kept = λ k. k })
      (ask_mkt_data-IsSame (id +ℤ pos 1) rs _)

pub req_mkt_data-IsSame : (t : TwsDl) → IfReturns (λ (r : ℤ × TwsDl). IsSame t r.1) (req_mkt_data t)
unfolding req_mkt_data
req_mkt_data-IsSame t =
    IfReturns-bind _ _ (assert (t.quotes == 0)) _ (IfReturns-any (assert (t.quotes == 0))) λ _ _.
      let todo = t.work_todo.market_data_todo in
      let u : TwsDl = record t { quotes = length todo } in
      IsSame-trans t u _ (record { request = refl; packet = refl; out = refl; kept = λ k. k })
        (ask_mkt_data-IsSame (pos 1) todo u)
