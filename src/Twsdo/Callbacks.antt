-- ===== src/Twsdo/Callbacks.antt =====
-- The callbacks of TwsDL (src/twsdo.cpp) that its wrapper passes on. Log lines are left out.
use twstools.Base.{
  ℕ, ◌==◌, Bool, true, false, not, ◌&&◌, Option, none, some, if◌then◌else◌, ◌>>=◌, ◌>>◌, assert,
}
use twstools.Base.Int.{ℤ, pos, ◌+ℤ◌, eqb_ℤ}
use twstools.Base.Text.{Text}
use twstools.Rows.{
  ContractDetails, RowAccVal, RowPrtfl, RowExecution, RowOrderStatus, RowOpenOrder, RowOptParams,
}
use twstools.Account.{update_portfolio, update_oo, update_os}
use twstools.Farms
use twstools.Packets.{err_twscon, finished}
use twstools.Packets.Lists
use twstools.Packets.History.{RowHist}
use twstools.Packets.History
use twstools.Packets.Placing.{append_order_status, append_open_order}
use twstools.Packets.Streams.{
  append_acc_val, append_prtfl, append_update_account_time, append_account_download_end,
  append_execution, append_executions_end, append_status, append_open, append_open_order_end,
}
use twstools.Pacing.God
use twstools.Todo.Hist.{current}
use twstools.Todo.Work.{
  ReqType, no_request, acc_status_request, executions_request, orders_request,
  contract_details_request, hist_request, opt_params_request,
}
use twstools.Twsdo.{TwsDl, is_idle, send, start_api_msg, with_packet}
use twstools.Twsdo.Packets.{
  AnyPacket, status_of, as_contracts, as_opt_params, as_hist, as_acc, as_executions, as_orders,
}
use twstools.Twsdo.Errors.{close_with, on_order}
use twstools.Twsdo.Sending.{allow}

-- The values of GenericRequest::ReqType, to be compared.
abbrev pub type_code : ReqType → ℕ
type_code acc_status_request = 0
type_code executions_request = 1
type_code orders_request = 2
type_code contract_details_request = 3
type_code hist_request = 4
type_code opt_params_request = 5
type_code no_request = 6

-- currentRequest.reqType() == type
abbrev pub asks_for : ReqType → TwsDl → Bool
asks_for type t = type_code t.current_request.req_type == type_code type

-- A callback that belongs to the open request of a type, or with a reqId to that request; else there is
-- a warning.
unfoldable pub answer : ReqType → (AnyPacket → Option AnyPacket) → TwsDl → Option TwsDl
answer type f t = if asks_for type t then with_packet f t else some t

unfoldable pub answer_to : ReqType → ℤ → (AnyPacket → Option AnyPacket) → TwsDl → Option TwsDl
answer_to type id f t =
    if asks_for type t && eqb_ℤ t.current_request.req_id id then with_packet f t else some t

unfoldable pub tws_contract_details : ℤ → ContractDetails → TwsDl → Option TwsDl
tws_contract_details id cd =
    answer_to contract_details_request id (as_contracts (Lists.append id cd))

unfoldable pub tws_bond_contract_details : ℤ → ContractDetails → TwsDl → Option TwsDl
tws_bond_contract_details id cd =
    answer_to contract_details_request id (as_contracts (Lists.append id cd))

unfoldable pub tws_contract_details_end : ℤ → TwsDl → Option TwsDl
tws_contract_details_end id =
    answer_to contract_details_request id (as_contracts Lists.set_finished)

unfoldable pub tws_opt_params : ℤ → RowOptParams → TwsDl → Option TwsDl
tws_opt_params id row = answer_to opt_params_request id (as_opt_params (Lists.append id row))

unfoldable pub tws_opt_params_end : ℤ → TwsDl → Option TwsDl
tws_opt_params_end id = answer_to opt_params_request id (as_opt_params Lists.set_finished)

-- The rest of twsHistoricalData, for the open request.
unfoldable pub take_row : ℤ → RowHist → TwsDl → Option TwsDl
take_row id row t = do
  hr ← current t.work_todo.hist_todo
  let t' = record t { data_farms = Farms.learn_hmds hr.ib_contract t.data_farms }
  p ← t'.packet
  assert (not (finished (status_of p)))
  with_packet (as_hist (History.append id row)) t'

unfoldable pub tws_historical_data : ℤ → RowHist → TwsDl → Option TwsDl
tws_historical_data id row t =
    if asks_for hist_request t && eqb_ℤ t.current_request.req_id id
    then take_row id row t
    else some t

unfoldable pub tws_update_account_value : RowAccVal → TwsDl → Option TwsDl
tws_update_account_value row = answer acc_status_request (as_acc (append_acc_val row))

unfoldable pub tws_update_portfolio : RowPrtfl → TwsDl → Option TwsDl
tws_update_portfolio row t = update_portfolio row t.account >>= λ a.
    answer acc_status_request (as_acc (append_prtfl row)) (record t { account = a })

unfoldable pub tws_update_account_time : Text → TwsDl → Option TwsDl
tws_update_account_time stamp =
    answer acc_status_request (as_acc (append_update_account_time stamp))

unfoldable pub tws_account_download_end : Text → TwsDl → Option TwsDl
tws_account_download_end name =
    answer acc_status_request (as_acc (append_account_download_end name))

unfoldable pub tws_exec_details : ℤ → RowExecution → TwsDl → Option TwsDl
tws_exec_details id row = answer executions_request (as_executions (append_execution id row))

unfoldable pub tws_exec_details_end : ℤ → TwsDl → Option TwsDl
tws_exec_details_end id = answer executions_request (as_executions (append_executions_end id))

unfoldable pub tws_order_status : RowOrderStatus → TwsDl → Option TwsDl
tws_order_status row t₀ = update_os row t₀.account >>= λ a.
    let t = record t₀ { account = a } in
    let tell = append_order_status (λ (s : RowOrderStatus). s.remaining) row in
    if asks_for orders_request t
    then with_packet (as_orders (append_status row)) t
    else on_order row.id (λ p. some (tell p)) (λ p. some (tell p)) t

unfoldable pub tws_open_order : RowOpenOrder → TwsDl → Option TwsDl
tws_open_order row t₀ = update_oo row t₀.account >>= λ a.
    let t = record t₀ { account = a } in
    if asks_for orders_request t
    then with_packet (as_orders (append_open row)) t
    else on_order row.order_id (append_open_order row) (append_open_order row) t

unfoldable pub tws_open_order_end : TwsDl → Option TwsDl
tws_open_order_end = answer orders_request (as_orders append_open_order_end)

unfoldable pub tws_current_time : ℕ → ℤ → TwsDl → TwsDl
tws_current_time now time t =
    let hb = t.tws_hb in
    record t {
      tws_hb = record hb { cnt_recv = hb.cnt_recv +ℤ pos 1; time_recv = pos now; tws_time = time };
    }

unfoldable pub next_valid_id : ℤ → TwsDl → TwsDl
next_valid_id id t = if is_idle t.state then t else record t { tws_valid_order_id = id }

-- twsConnectAck; `async` is what asyncEConnect of the API returns.
unfoldable pub tws_connect_ack : Bool → ℕ → TwsDl → TwsDl
tws_connect_ack async now t =
    if async
    then send start_api_msg ((allow now 2 (record t { connectivity_ib_tws = true })).1)
    else t

-- The switch of twsConnectionClosed for a request whose packet is not finished.
unfoldable pub break_request : ReqType → TwsDl → Option TwsDl
break_request contract_details_request t = close_with err_twscon t
break_request opt_params_request t = close_with err_twscon t
break_request hist_request t = close_with err_twscon t
break_request _ t = none

-- The part of twsConnectionClosed that looks at the open request.
unfoldable pub break_packet : TwsDl → Option TwsDl
break_packet t =
    if asks_for no_request t
    then some t
    else t.packet >>= λ p.
        if finished (status_of p) then some t else break_request t.current_request.req_type t

unfoldable pub tws_connection_closed : ℕ → TwsDl → Option TwsDl
tws_connection_closed now t₀ = do
  t ← break_packet t₀
  assert (Lists.no_rows t.p_orders)
  let d = Farms.set_all_broken t.data_farms
  g ← God.clear (pos now) d t.pacing_control
  some (record t {
    connectivity_ib_tws = false;
    data_farms = d;
    pacing_control = g;
    last_connection_time = pos now;
  })
