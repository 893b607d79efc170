-- ===== src/Twsdo/Sending.antt =====
-- The methods of TwsDL (src/twsdo.cpp) that send a request. `now` is what nowInMsecs() returns to all
-- calls of one method but those of checkoutOpt, which has a `clock` of its own.
use twstools.Base.{
  ℕ, zero, suc, ◌==◌, Bool, true, not, ◌||◌, Option, none, some, List, [], ◌∷◌, if◌then◌else◌,
  ◌>>=◌, ◌>>◌, assert, length,
}
use twstools.Base.Int.{ℤ, pos, ◌+ℤ◌, ltb_ℤ, eqb_ℤ}
use twstools.Base.Text.{bytes, same_case}
use twstools.Base.Map.{find, insert, int_key}
use twstools.Requests.{PlaceOrder, MktDataRequest, AccStatusRequest}
use twstools.Rate.{can_send}
use twstools.Packets.Lists
use twstools.Packets.History
use twstools.Packets.Placing.{is_zero, record_order, modify}
use twstools.Packets.Streams.{new_acc, record_acc, new_executions, record_executions, record_orders}
use twstools.Pacing.God
use twstools.Todo.Hist
use twstools.Todo.Indexed
use twstools.Todo.Work.{
  ReqType, next_request, acc_status_request, executions_request, orders_request,
  contract_details_request, hist_request, opt_params_request,
}
use twstools.Twsdo.{
  TwsDl, send, req_contract_details_msg, req_historical_data_msg, req_account_updates_msg,
  req_executions_msg, req_all_open_orders_msg, req_sec_def_opt_params_msg, req_mkt_data_msg,
  place_order_msg, cancel_order_msg,
}
use twstools.Twsdo.Packets.{
  contracts_packet, hist_packet, acc_packet, executions_packet, orders_packet, opt_params_packet,
  new_hist_packet, new_order_packet, new_orders_packet,
}

-- rate_limit->can_send( n )
unfoldable pub allow : ℕ → ℕ → TwsDl → Bool × TwsDl
allow now n t = let r = can_send now n t.rate_limit in (r.0, record t { rate_limit = r.1 })

-- currentRequest.nextRequest( type )
unfoldable pub next : ℕ → ReqType → TwsDl → TwsDl
next now type t = record t { current_request = next_request (pos now) type t.current_request }

unfoldable pub fetch_inc_order_id : TwsDl → ℤ × TwsDl
fetch_inc_order_id t =
    (t.tws_valid_order_id, record t { tws_valid_order_id = t.tws_valid_order_id +ℤ pos 1 })

-- What reqContractDetails does when the rate limit allows it.
unfoldable pub send_contract_details : ℕ → TwsDl → Option TwsDl
send_contract_details now t₀ = do
  todo ← Indexed.checkout t₀.work_todo.contract_details_todo
  cdr ← Indexed.current todo
  let t =
      next now contract_details_request
        (record t₀ { work_todo = record t₀.work_todo { contract_details_todo = todo } })
  p ← Lists.record_request t.current_request.req_id cdr Lists.new_packet
  some (
      send (req_contract_details_msg t.current_request.req_id cdr.contract)
        (record t { packet = some (contracts_packet p) }))

unfoldable pub req_contract_details : ℕ → TwsDl → Option TwsDl
req_contract_details now t =
    let (ok, t') = allow now 1 t in if ok then send_contract_details now t' else some t'

unfoldable pub send_opt_params : ℕ → TwsDl → Option TwsDl
send_opt_params now t₀ = do
  todo ← Indexed.checkout t₀.work_todo.opt_params_todo
  opr ← Indexed.current todo
  let t =
      next now opt_params_request
        (record t₀ { work_todo = record t₀.work_todo { opt_params_todo = todo } })
  p ← Lists.record_request t.current_request.req_id opr Lists.new_packet
  some (
      send (req_sec_def_opt_params_msg t.current_request.req_id opr.ib_contract)
        (record t { packet = some (opt_params_packet p) }))

unfoldable pub req_opt_params : ℕ → TwsDl → Option TwsDl
req_opt_params now t =
    let (ok, t') = allow now 1 t in if ok then send_opt_params now t' else some t'

-- The part of reqHistoricalData behind the return, with a request checked out.
unfoldable pub send_historical_data : ℕ → TwsDl → Option TwsDl
send_historical_data now t₀ = do
  let t = next now hist_request t₀
  hr ← Hist.current t.work_todo.hist_todo
  g ← God.add_request (pos now) t.data_farms hr.ib_contract t.pacing_control
  p ← History.record_request t.current_request.req_id hr new_hist_packet
  some (
      send (req_historical_data_msg t.current_request.req_id hr)
        (record t { packet = some (hist_packet p); pacing_control = g }))

unfoldable pub req_historical_data : (ℕ → ℤ) → ℕ → TwsDl → Option TwsDl
req_historical_data clock now t = do
  assert (ltb_ℤ (pos 0) (Hist.count_left t.work_todo.hist_todo))
  (wait, g, todo) ← Hist.checkout_opt clock t.data_farms t.pacing_control t.work_todo.hist_todo
  let t' = record t { pacing_control = g; work_todo = record t.work_todo { hist_todo = todo } }
  (if ltb_ℤ (pos 0) wait
      then some (record t' { cur_idle_time = if ltb_ℤ wait (pos 1000) then wait else pos 1000 })
      else send_historical_data now t')

unfoldable pub req_acc_status : ℕ → TwsDl → Option TwsDl
req_acc_status now t₀ = do
  let t = next now acc_status_request t₀
  let a : AccStatusRequest = record { subscribe = true; acct_code = t.cfg.tws_account_name }
  p ← record_acc a new_acc
  some (
      send (req_account_updates_msg a.subscribe a.acct_code)
        (record t { packet = some (acc_packet p) }))

unfoldable pub req_executions : ℕ → TwsDl → Option TwsDl
req_executions now t₀ = do
  let t = next now executions_request t₀
  p ← record_executions t.current_request.req_id tt new_executions
  some (
      send (req_executions_msg t.current_request.req_id)
        (record t { packet = some (executions_packet p) }))

unfoldable pub req_orders : ℕ → TwsDl → Option TwsDl
req_orders now t₀ = do
  let t = next now orders_request t₀
  p ← record_orders tt new_orders_packet
  some (send req_all_open_orders_msg (record t { packet = some (orders_packet p) }))

-- The orderId: the next valid one for an order that names none.
unfoldable pub order_id_of : PlaceOrder → TwsDl → ℤ × TwsDl
unfolding fetch_inc_order_id
order_id_of po t = if eqb_ℤ po.order_id (pos 0) then fetch_inc_order_id t else (po.order_id, t)

-- An order of no quantity with the action CANCEL is cancelled, any other is placed.
unfoldable pub send_order : ℤ → PlaceOrder → TwsDl → TwsDl
send_order id po t =
    if not (is_zero po.order.total_quantity) || not (same_case po.order.action (bytes "CANCEL"))
    then send (place_order_msg id po.contract po.order) t
    else send (cancel_order_msg id) t

-- The part of placeOrder behind the orderId.
unfoldable pub place_as : ℕ → PlaceOrder → ℤ → TwsDl → Option TwsDl
place_as now po id t = do
  p ← elim (find id t.p_orders) [
    | none ↦ record_order (pos now) id po new_order_packet
    | some p ↦ modify (pos now) po p
  ]
  some (send_order id po (record t { p_orders = insert id p t.p_orders }))

unfoldable pub place_order : ℕ → TwsDl → Option TwsDl
place_order now t = do
  todo ← Indexed.checkout t.work_todo.place_order_todo
  po ← Indexed.current todo
  let r = order_id_of po (record t { work_todo = record t.work_todo { place_order_todo = todo } })
  place_as now po r.0 r.1

-- The loop of placeAllOrders: as many rounds as there are orders behind the current one.
unfoldable pub place_orders : ℕ → ℕ → TwsDl → Option TwsDl
place_orders zero now t = some t
place_orders (suc n) now t =
    let (ok, t') = allow now 1 t in
    if ltb_ℤ (pos 0) (Indexed.count_left t.work_todo.place_order_todo)
    then (if ok then place_order now t' >>= place_orders n now else some t')
    else some t

unfoldable pub place_all_orders : ℕ → TwsDl → Option TwsDl
place_all_orders now t = place_orders (length t.work_todo.place_order_todo.requests) now t

-- The loop of reqMktData.
unfoldable pub ask_mkt_data : ℤ → List MktDataRequest → TwsDl → ℤ × TwsDl
ask_mkt_data id [] t = (id, t)
ask_mkt_data id (r ∷ rs) t =
    ask_mkt_data (id +ℤ pos 1) rs
      (send (req_mkt_data_msg id r.ib_contract r.generic_ticks r.snapshot) t)

unfoldable pub req_mkt_data : TwsDl → Option (ℤ × TwsDl)
req_mkt_data t =
    assert (t.quotes == 0)
    >> some (
        let todo = t.work_todo.market_data_todo in
        ask_mkt_data (pos 1) todo (record t { quotes = length todo }))
