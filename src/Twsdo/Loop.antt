-- ===== src/Twsdo/Loop.antt =====
-- The event loop of TwsDL (src/twsdo.cpp) and its states. What the strategy does, what the API
-- connects and what TWS calls back are parameters.
use twstools.Base.{
  ℕ, ◌≡◌, Bool, true, false, not, ◌&&◌, ◌||◌, Option, none, some, List, if◌then◌else◌, ◌>>=◌, ◌>>◌,
  assert, is_none,
}
use twstools.Base.Int.{ℤ, pos, negsuc, ◌-ℤ◌, ltb_ℤ, leb_ℤ, eqb_ℤ, to_int}
use twstools.Base.Text.{Text, bytes}
use twstools.Rows.{
  ContractDetails, RowError, RowAccVal, RowPrtfl, RowExecution, RowOrderStatus, RowOpenOrder,
  RowOptParams,
}
use twstools.Packets.History.{RowHist}
use twstools.Packets.Lists.{no_rows}
use twstools.Pacing.God
use twstools.Todo.Indexed
use twstools.Todo.Work.{
  ReqType, no_request, acc_status_request, executions_request, orders_request,
  contract_details_request, hist_request, opt_params_request, next_req_type, add_simple_request,
  Element, read_file, WorkTodo,
}
use twstools.Twsdo.{
  State, wait_tws_con, idle, new_heart_beat, TwsDl, change_state, send, req_market_data_type_msg,
  req_current_time_msg,
}
use twstools.Twsdo.Config.{ConfigTwsdo}
use twstools.Twsdo.Sending.{
  allow, req_contract_details, req_opt_params, req_historical_data, req_acc_status, req_executions,
  req_orders, place_all_orders, req_mkt_data,
}
use twstools.Twsdo.Finish.{wait_data, is_open}
use twstools.Twsdo.Errors.{tws_error}
use twstools.Twsdo.Callbacks.{
  tws_contract_details, tws_bond_contract_details, tws_contract_details_end, tws_opt_params,
  tws_opt_params_end, tws_historical_data, tws_update_account_value, tws_update_portfolio,
  tws_update_account_time, tws_account_download_end, tws_exec_details, tws_exec_details_end,
  tws_order_status, tws_open_order, tws_open_order_end, tws_current_time, next_valid_id,
  tws_connect_ack, tws_connection_closed,
}

-- addSimpleRequest if the option is given
unfoldable pub add_if : Bool → ReqType → WorkTodo → Option WorkTodo
add_if true type w = add_simple_request type w
add_if false type w = some w

-- initWork; the elements are those of the work file, and the result is its return value.
unfoldable pub init_work : Option (List Element) → TwsDl → Option (ℤ × TwsDl)
init_work file t = do
  w₁ ← add_if t.cfg.get_account acc_status_request t.work_todo
  w₂ ← add_if t.cfg.get_exec executions_request w₁
  w₃ ← add_if t.cfg.get_order orders_request w₂
  (cnt, w) ← read_file file w₃
  let t' = record t { work_todo = w }
  some (
    (if ltb_ℤ cnt (pos 0) then (if is_none t.cfg.workfile then pos 0 else negsuc 0) else cnt),
    t',
  )

-- The strategy of the configuration; `load` is open_dso with this object, which gives true if the strategy could be loaded.
unfoldable pub load_strategy :
    (Text → TwsDl → Option (Bool × TwsDl)) → Option Text → TwsDl → Option (Bool × TwsDl)
load_strategy load none t = some (true, t)
load_strategy load (some name) t = load name t >>= λ r. some (r.0, record r.1 { strat = r.0 })

unfoldable pub setup :
    (Text → TwsDl → Option (Bool × TwsDl))
    → Option (List Element)
    → ConfigTwsdo
    → TwsDl
    → Option (ℤ × TwsDl)
setup load file c t₀ = do
  let g = God.set_violation_pause c.tws_violation_pause (
      God.set_pacing_time c.tws_max_requests c.tws_pacing_interval c.tws_min_pacing_time
        t₀.pacing_control)
  let t = record t₀ { cfg = c; pacing_control = g }
  loaded ← load_strategy load c.strat_file t
  (if loaded.0
      then (init_work file loaded.1 >>= λ r.
          some ((if ltb_ℤ r.0 (pos 0) then negsuc 0 else pos 0), r.1))
      else some (negsuc 0, loaded.1))

-- connectTws; `connect` is connectTWS with what it calls back, and gives whether it connects, and
-- what asyncEConnect returns then. The code asserts that isConnected says the same as connectTWS.
unfoldable pub connect_tws :
    (TwsDl → Option (Bool × Bool × TwsDl)) → Bool → ℕ → TwsDl → Option TwsDl
connect_tws connect connected now t = do
  assert (not connected && not t.connectivity_ib_tws)
  let w = pos now -ℤ t.last_connection_time
  (if ltb_ℤ w t.cfg.tws_con_timeout
      then some (record t { cur_idle_time = to_int (t.cfg.tws_con_timeout -ℤ w) })
      else (change_state wait_tws_con (record t { last_connection_time = pos now }) >>= λ t₁.
          connect (record t₁ { tws_hb = new_heart_beat }) >>= λ r.
          (if not r.0
            then change_state idle r.2
            else (if r.1 then some r.2 else some (record r.2 { connectivity_ib_tws = true })))))

-- disconnectTWS, which calls back that the connection is closed
unfoldable pub disconnect_tws : Bool → ℕ → TwsDl → Option TwsDl
disconnect_tws connected now t = if connected then tws_connection_closed now t else some t

-- The first if of waitTwsCon.
unfoldable pub ask_time : ℕ → TwsDl → TwsDl
ask_time now t₀ =
    let t =
      (allow now 2
        (record t₀ { tws_hb = record t₀.tws_hb { cnt_sent = pos 1; time_sent = pos now } })).1 in
    let t' =
      if eqb_ℤ t.cfg.mkt_data_type (pos 0)
      then t
      else send (req_market_data_type_msg t.cfg.mkt_data_type) t in
    send req_current_time_msg t'

unfoldable pub wait_connection : Bool → ℕ → TwsDl → Option TwsDl
wait_connection connected now t₀ =
    let w = t₀.cfg.tws_con_timeout -ℤ (pos now -ℤ t₀.last_connection_time) in
    let t =
      if eqb_ℤ t₀.tws_hb.tws_time (pos 0) && not (eqb_ℤ t₀.tws_valid_order_id (pos 0))
      then ask_time now t₀
      else t₀ in
    if not (eqb_ℤ t.tws_hb.tws_time (pos 0)) && not (eqb_ℤ t.tws_valid_order_id (pos 0))
    then change_state idle t
    else (if ltb_ℤ (pos 0) w
        then some (record t { cur_idle_time = to_int w })
        else disconnect_tws connected now t)

unfoldable pub wait_tws_con_step : Bool → ℕ → TwsDl → Option TwsDl
wait_tws_con_step connected now t =
    if connected then wait_connection connected now t else change_state idle t

-- The code that is not the program's: connectTWS with what it calls back, and work_dso.
pub record Outside : Type 0 where
  pub connect : TwsDl → Option (Bool × Bool × TwsDl)
  pub work : TwsDl → Option TwsDl

-- What a round of the loop sees: the clocks, and whether the API is connected.
pub record Round : Type 0 where
  pub now : ℕ
  pub clock : ℕ → ℤ
  pub connected : Bool

-- The requests for market data are sent once.
unfoldable pub ask_once : TwsDl → Option TwsDl
ask_once t =
    if leb_ℤ t.mkt_req_id (pos 0)
    then (req_mkt_data t >>= λ r. some (record r.1 { mkt_req_id = r.0 }))
    else some t

-- The case that nothing is to be asked: the strategy works, and all orders are placed.
unfoldable pub trade : Outside → Round → TwsDl → Option TwsDl
trade o r t = (if t.strat then o.work t else some t) >>= place_all_orders r.now

-- The switch of idle.
unfoldable pub start_request : Outside → Round → ReqType → TwsDl → Option TwsDl
start_request o r acc_status_request t = req_acc_status r.now t
start_request o r executions_request t = req_executions r.now t
start_request o r orders_request t = req_orders r.now t
start_request o r contract_details_request t = req_contract_details r.now t
start_request o r hist_request t = req_historical_data r.clock r.now t
start_request o r opt_params_request t = req_opt_params r.now t
start_request o r no_request t = trade o r t

-- The end of idle.
unfoldable pub quit_if_done : ReqType → TwsDl → TwsDl
quit_if_done type t =
    if not (is_open type)
      && (leb_ℤ t.mkt_req_id (pos 1)
          && (leb_ℤ (Indexed.count_left t.work_todo.place_order_todo) (pos 0)
              && no_rows t.p_orders))
    then record t { last_error = bytes "No more work to do."; quit = true }
    else t

-- idle behind the test for the connection.
unfoldable pub idle_connected : Outside → Round → TwsDl → Option TwsDl
idle_connected o r t₀ = do
  t ← ask_once t₀
  let (type, todo) = next_req_type t.work_todo
  t' ← start_request o r type (record t { work_todo = todo })
  some (quit_if_done type t')

unfoldable pub idle_step : Outside → Round → TwsDl → Option TwsDl
idle_step o r t₀ = wait_data r.now t₀ >>= λ t.
    if t.quit || is_open t.current_request.req_type
    then some t
    else (if r.connected then idle_connected o r t else connect_tws o.connect r.connected r.now t)

-- A callback of the wrapper.
pub data Event : Type 0 where
  error_event : RowError → Event
  closed_event connect_ack_event : Event
  contract_details_event bond_details_event : ℤ → ContractDetails → Event
  contract_details_end_event opt_params_end_event exec_details_end_event : ℤ → Event
  opt_params_event : ℤ → RowOptParams → Event
  hist_event : ℤ → RowHist → Event
  acc_val_event : RowAccVal → Event
  prtfl_event : RowPrtfl → Event
  acc_time_event acc_end_event : Text → Event
  exec_details_event : ℤ → RowExecution → Event
  order_status_event : RowOrderStatus → Event
  open_order_event : RowOpenOrder → Event
  open_order_end_event : Event
  current_time_event valid_id_event : ℤ → Event

-- Its handler. `connected` and `async` are what isConnected and asyncEConnect return.
unfoldable pub handle : Bool → Bool → ℕ → Event → TwsDl → Option TwsDl
handle connected async now (error_event row) t = tws_error connected now row t
handle connected async now closed_event t = tws_connection_closed now t
handle connected async now connect_ack_event t = some (tws_connect_ack async now t)
handle connected async now (contract_details_event id row) t = tws_contract_details id row t
handle connected async now (bond_details_event id row) t = tws_bond_contract_details id row t
handle connected async now (contract_details_end_event id) t = tws_contract_details_end id t
handle connected async now (opt_params_event id row) t = tws_opt_params id row t
handle connected async now (opt_params_end_event id) t = tws_opt_params_end id t
handle connected async now (hist_event id row) t = tws_historical_data id row t
handle connected async now (acc_val_event row) t = tws_update_account_value row t
handle connected async now (prtfl_event row) t = tws_update_portfolio row t
handle connected async now (acc_time_event stamp) t = tws_update_account_time stamp t
handle connected async now (acc_end_event name) t = tws_account_download_end name t
handle connected async now (exec_details_event id row) t = tws_exec_details id row t
handle connected async now (exec_details_end_event id) t = tws_exec_details_end id t
handle connected async now (order_status_event row) t = tws_order_status row t
handle connected async now (open_order_event row) t = tws_open_order row t
handle connected async now open_order_end_event t = tws_open_order_end t
handle connected async now (current_time_event time) t = some (tws_current_time now time t)
handle connected async now (valid_id_event id) t = some (next_valid_id id t)

-- The switch of eventLoop.
unfoldable pub state_step : Outside → Round → State → TwsDl → Option TwsDl
state_step o r wait_tws_con t = wait_tws_con_step r.connected r.now t
state_step o r idle t = idle_step o r t

-- The body of eventLoop behind selectStuff.
unfoldable pub loop_body : Outside → Round → TwsDl → Option TwsDl
loop_body o r t₀ = state_step o r t₀.state (record t₀ { cur_idle_time = negsuc 0 }) >>= λ t.
    some (if eqb_ℤ t.cur_idle_time (negsuc 0) then record t { cur_idle_time = pos 50 } else t)

-- start up to the loop
unfoldable pub start : TwsDl → Option TwsDl
start t = elim (t.state) [
  | wait_tws_con ↦ none
  | idle ↦ some (record t { quit = false; cur_idle_time = pos 0 })
]

-- What happens to the object: a callback, or a round of the loop while it is not to quit.
pub data Step (o : Outside) (t : TwsDl) : TwsDl → Type 0 where
  event :
      (connected async : Bool) (now : ℕ) (e : Event) (t' : TwsDl)
      → handle connected async now e t ≡ some t'
      → Step o t t'
  round : (r : Round) (t' : TwsDl) → t.quit ≡ false → loop_body o r t ≡ some t' → Step o t t'
