-- ===== src/Twsdo/Handlers.antt =====
-- Each callback of TwsDL (src/twsdo.cpp) leaves the open request open.
use twstools.Base.{ℕ, refl, Bool, true, false, not, Option, some, if◌then◌else◌, ◌&&◌}
use twstools.Base.Int.{ℤ, pos, eqb_ℤ}
use twstools.Rows.{RowPrtfl, RowOrderStatus, RowOpenOrder}
use twstools.Account.{update_portfolio, update_oo, update_os}
use twstools.Farms
use twstools.Packets.{finished, err_twscon}
use twstools.Packets.Lists.{no_rows}
use twstools.Packets.Placing.{append_order_status, append_open_order}
use twstools.Packets.Streams.{append_status, append_open}
use twstools.Packets.History.{RowHist}
use twstools.Pacing.God
use twstools.Todo.Hist.{current}
use twstools.Todo.Work.{
  ReqType, no_request, acc_status_request, executions_request, orders_request,
  contract_details_request, hist_request, opt_params_request,
}
use twstools.Twsdo.{TwsDl, is_idle, send, with_packet}
use twstools.Twsdo.Packets.{AnyPacket, OrderPacket, OrdersPacket, status_of, as_orders}
use twstools.Twsdo.Sending.{allow}
use twstools.Twsdo.Same.{
  IsSame, Keeps, Keeps-some, Keeps-none, Keeps-refl, Keeps-then, Keeps-if, Keeps-assert,
  Keeps-after, KeepsKind, with_packet-Keeps, as_contracts-KeepsKind, as_opt_params-KeepsKind,
  as_hist-KeepsKind, as_acc-KeepsKind, as_executions-KeepsKind, as_orders-KeepsKind,
}
use twstools.Twsdo.Errors.{on_order}
use twstools.Twsdo.Callbacks.{
  answer, answer_to, take_row, tws_historical_data, tws_contract_details, tws_bond_contract_details,
  tws_contract_details_end, tws_opt_params, tws_opt_params_end, tws_update_account_value,
  tws_update_portfolio, tws_update_account_time, tws_account_download_end, tws_exec_details,
  tws_exec_details_end, tws_order_status, tws_open_order, tws_open_order_end, tws_current_time,
  next_valid_id, tws_connect_ack, break_request, break_packet, tws_connection_closed, asks_for,
}
use twstools.Twsdo.Answers.{on_order-Keeps, tws_error-Keeps, close_with-Keeps}
use twstools.Twsdo.Loop.{
  Event, error_event, closed_event, connect_ack_event, contract_details_event, bond_details_event,
  contract_details_end_event, opt_params_end_event, exec_details_end_event, opt_params_event,
  hist_event, acc_val_event, prtfl_event, acc_time_event, acc_end_event, exec_details_event,
  order_status_event, open_order_event, open_order_end_event, current_time_event, valid_id_event,
  handle,
}

answer-Keeps :
    (type : ReqType) (f : AnyPacket → Option AnyPacket)
    → KeepsKind f
    → (t : TwsDl) → Keeps t (answer type f t)
unfolding answer
answer-Keeps type f k t = Keeps-if t (asks_for type t) _ _ (with_packet-Keeps f k t) (Keeps-refl t)

answer_to-Keeps :
    (type : ReqType) (id : ℤ) (f : AnyPacket → Option AnyPacket)
    → KeepsKind f
    → (t : TwsDl) → Keeps t (answer_to type id f t)
unfolding answer_to
answer_to-Keeps type id f k t =
    Keeps-if t (asks_for type t && eqb_ℤ t.current_request.req_id id) _ _ (with_packet-Keeps f k t)
      (Keeps-refl t)

hist-Keeps : (id : ℤ) (row : RowHist) (t : TwsDl) → Keeps t (tws_historical_data id row t)
unfolding tws_historical_data take_row
hist-Keeps id row t =
    Keeps-if t (asks_for hist_request t && eqb_ℤ t.current_request.req_id id) _ _
      (Keeps-after t (current t.work_todo.hist_todo) _ λ hr.
        let u : TwsDl = record t { data_farms = Farms.learn_hmds hr.ib_contract t.data_farms } in
        Keeps-after t t.packet _ λ p. Keeps-assert t (not (finished (status_of p))) _ (
          Keeps-then t (some u) _
            (Keeps-some t u (record { request = refl; packet = refl; out = refl; kept = λ k. k }))
            (with_packet-Keeps _ (as_hist-KeepsKind _))))
      (Keeps-refl t)

prtfl-Keeps : (row : RowPrtfl) (t : TwsDl) → Keeps t (tws_update_portfolio row t)
unfolding tws_update_portfolio
prtfl-Keeps row t = Keeps-after t (update_portfolio row t.account) _ λ a.
    let u : TwsDl = record t { account = a } in
    Keeps-then t (some u) _
      (Keeps-some t u (record { request = refl; packet = refl; out = refl; kept = λ k. k }))
      (answer-Keeps acc_status_request _ (as_acc-KeepsKind _))

-- What a callback about orders does behind the account.
order-Keeps :
    (id : ℤ) (f : OrdersPacket → OrdersPacket) (g h : OrderPacket → Option OrderPacket) (t : TwsDl)
    → Keeps t (if asks_for orders_request t then with_packet (as_orders f) t else on_order id g h t)
order-Keeps id f g h t =
    Keeps-if t (asks_for orders_request t) _ _ (with_packet-Keeps _ (as_orders-KeepsKind f) t)
      (on_order-Keeps id g h t)

status-Keeps : (row : RowOrderStatus) (t : TwsDl) → Keeps t (tws_order_status row t)
unfolding tws_order_status
status-Keeps row t =
    let tell : OrderPacket → OrderPacket =
      append_order_status (λ (s : RowOrderStatus). s.remaining) row in
    Keeps-after t (update_os row t.account) _ λ a.
      let u : TwsDl = record t { account = a } in
      Keeps-then t (some u) _
        (Keeps-some t u (record { request = refl; packet = refl; out = refl; kept = λ k. k }))
        (order-Keeps row.id (append_status row) (λ p. some (tell p)) (λ p. some (tell p)))

open-Keeps : (row : RowOpenOrder) (t : TwsDl) → Keeps t (tws_open_order row t)
unfolding tws_open_order
open-Keeps row t = Keeps-after t (update_oo row t.account) _ λ a.
    let u : TwsDl = record t { account = a } in
    Keeps-then t (some u) _
      (Keeps-some t u (record { request = refl; packet = refl; out = refl; kept = λ k. k }))
      (order-Keeps row.order_id (append_open row) (append_open_order row) (append_open_order row))

break_request-Keeps : (type : ReqType) (t : TwsDl) → Keeps t (break_request type t)
unfolding break_request
break_request-Keeps contract_details_request t = close_with-Keeps err_twscon t
break_request-Keeps opt_params_request t = close_with-Keeps err_twscon t
break_request-Keeps hist_request t = close_with-Keeps err_twscon t
break_request-Keeps acc_status_request t = Keeps-none t
break_request-Keeps executions_request t = Keeps-none t
break_request-Keeps orders_request t = Keeps-none t
break_request-Keeps no_request t = Keeps-none t

pub closed-Keeps : (now : ℕ) (t : TwsDl) → Keeps t (tws_connection_closed now t)
unfolding tws_connection_closed break_packet
closed-Keeps now t =
    Keeps-then t (break_packet t) _
      (Keeps-if t (asks_for no_request t) _ _ (Keeps-refl t) (
        Keeps-after t t.packet _ λ p.
          Keeps-if t (finished (status_of p)) _ _ (Keeps-refl t)
            (break_request-Keeps t.current_request.req_type t)))
      λ u. Keeps-assert u (no_rows u.p_orders) _ (
        Keeps-after u (God.clear (pos now) (Farms.set_all_broken u.data_farms) u.pacing_control) _
          λ g. Keeps-some _ _ (record { request = refl; packet = refl; out = refl; kept = λ k. k }))

valid_id-IsSame :
    (b : Bool) (id : ℤ) (t : TwsDl)
    → IsSame t (if b then t else record t { tws_valid_order_id = id })
valid_id-IsSame true id t = record { request = refl; packet = refl; out = refl; kept = λ k. k }
valid_id-IsSame false id t = record { request = refl; packet = refl; out = refl; kept = λ k. k }

ack-IsSame : (async : Bool) (now : ℕ) (t : TwsDl) → IsSame t (tws_connect_ack async now t)
unfolding tws_connect_ack allow send
ack-IsSame true now t = record { request = refl; packet = refl; out = refl; kept = λ k. k }
ack-IsSame false now t = record { request = refl; packet = refl; out = refl; kept = λ k. k }

-- A callback, if it returns, leaves the same request open and the kind of its packet, leaves the
-- historical request that is checked out, and keeps every historical request in exactly one place.
pub handle-Keeps :
    (connected async : Bool) (now : ℕ) (e : Event) (t : TwsDl)
    → Keeps t (handle connected async now e t)
unfolding handle tws_contract_details tws_bond_contract_details tws_contract_details_end
    tws_opt_params tws_opt_params_end tws_update_account_value tws_update_account_time
    tws_account_download_end tws_exec_details tws_exec_details_end tws_open_order_end
    tws_current_time next_valid_id
handle-Keeps connected async now (error_event row) t = tws_error-Keeps connected now row t
handle-Keeps connected async now closed_event t = closed-Keeps now t
handle-Keeps connected async now connect_ack_event t = Keeps-some t _ (ack-IsSame async now t)
handle-Keeps connected async now (contract_details_event id row) t =
    answer_to-Keeps _ id _ (as_contracts-KeepsKind _) t
handle-Keeps connected async now (bond_details_event id row) t =
    answer_to-Keeps _ id _ (as_contracts-KeepsKind _) t
handle-Keeps connected async now (contract_details_end_event id) t =
    answer_to-Keeps _ id _ (as_contracts-KeepsKind _) t
handle-Keeps connected async now (opt_params_event id row) t =
    answer_to-Keeps _ id _ (as_opt_params-KeepsKind _) t
handle-Keeps connected async now (opt_params_end_event id) t =
    answer_to-Keeps _ id _ (as_opt_params-KeepsKind _) t
handle-Keeps connected async now (hist_event id row) t = hist-Keeps id row t
handle-Keeps connected async now (acc_val_event row) t = answer-Keeps _ _ (as_acc-KeepsKind _) t
handle-Keeps connected async now (prtfl_event row) t = prtfl-Keeps row t
handle-Keeps connected async now (acc_time_event stamp) t = answer-Keeps _ _ (as_acc-KeepsKind _) t
handle-Keeps connected async now (acc_end_event name) t = answer-Keeps _ _ (as_acc-KeepsKind _) t
handle-Keeps connected async now (exec_details_event id row) t =
    answer-Keeps _ _ (as_executions-KeepsKind _) t
handle-Keeps connected async now (exec_details_end_event id) t =
    answer-Keeps _ _ (as_executions-KeepsKind _) t
handle-Keeps connected async now (order_status_event row) t = status-Keeps row t
handle-Keeps connected async now (open_order_event row) t = open-Keeps row t
handle-Keeps connected async now open_order_end_event t = answer-Keeps _ _ (as_orders-KeepsKind _) t
handle-Keeps connected async now (current_time_event time) t =
    Keeps-some t _ (record { request = refl; packet = refl; out = refl; kept = λ k. k })
handle-Keeps connected async now (valid_id_event id) t =
    Keeps-some t _ (valid_id-IsSame (is_idle t.state) id t)
