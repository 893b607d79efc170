-- ===== src/Twsdo/Tests.antt =====
-- Examples for class TwsDL of src/twsdo.cpp.
use twstools.Base.{◌+◌, ◌≡◌, ◌↔◌, refl, true, false, Option, none, some, [], ◌∷◌, arith, Returns}
use twstools.Base.Int.{pos, negsuc, ◌+ℤ◌, ◌-ℤ◌, to_int}
use twstools.Base.Text.{bytes}
use twstools.Base.Map.{find, int_key}
use twstools.Samples.{contract_a, request_a, request_b}
use twstools.Requests.{PlaceOrder}
use twstools.Packets.{new_status, is_empty, recording, closed, err_none}
use twstools.Packets.History.{PacketHistData, dflt_row}
use twstools.Packets.Streams.{new_acc, record_acc}
use twstools.Todo.Hist.{new_hist_todo, add, checkout}
use twstools.Todo.Hist.Places.{IsKept, new-IsKept, add-IsKept, checkout_lem}
use twstools.Todo.Indexed.{IndexedTodo, new_todo}
use twstools.Todo.Indexed
use twstools.Todo.Hist
use twstools.Todo.Work.{
  new_work_todo, new_request, hist_request, next_request, next_req_type, next_listed,
}
use twstools.Twsdo.{TwsDl, new_tws_dl, send, with_packet}
use twstools.Twsdo.Packets.{hist_packet, OrderPacket, as_acc}
use twstools.Twsdo.Sending.{
  next, req_acc_status, req_mkt_data, ask_mkt_data, place_order, place_orders, place_all_orders,
}
use twstools.Twsdo.Finish.{wait_data, fin_place_order, fin_orders}
use twstools.Twsdo.Callbacks.{answer, tws_account_download_end}
use twstools.Twsdo.Loop.{
  Outside, Round, ask_once, trade, start_request, quit_if_done, idle_connected, idle_step,
  acc_end_event, handle, state_step, loop_body, event, round,
}
use twstools.Twsdo.Same.{IsSame, Keeps}
use twstools.Twsdo.Handlers.{handle-Keeps}
use twstools.Twsdo.Working.{IsWorking, Works}
use twstools.Twsdo.Quitting.{IsOver, idle_connected_quits}
use twstools.Twsdo.Reach.{Respects, Reachable, here, after, reachable-IsWorking}
use twstools.Twsdo.Orders.{Apart, Moved, fin_place_order-Moved}
use twstools.Twsdo.Resent.{Twice, place_order-Twice}
use twstools.Twsdo.Waiting.{is_over, last_error_of, Waits, Ended, wait_data_hist}

-- The account is to be asked for, and two historical requests.
abbrev first_state : TwsDl
first_state = record new_tws_dl {
  work_todo = record new_work_todo {
    acc_status_todo = true;
    hist_todo = record {
      store = request_a ∷ request_b ∷ [];
      done_requests = [];
      left_requests = 0 ∷ 1 ∷ [];
      error_requests = [];
      checked_out_request = none;
    };
  };
}

two_open-IsKept : IsKept first_state.work_todo.hist_todo
unfolding new_hist_todo add new_tws_dl new_work_todo
two_open-IsKept =
    add-IsKept request_b (add request_a new_hist_todo)
      (add-IsKept request_a new_hist_todo new-IsKept)

first_state-IsWorking : IsWorking first_state
unfolding new_tws_dl new_work_todo new_request
first_state-IsWorking = record { fits = refl; out = refl; kept = two_open-IsKept }

-- An API that does not connect, and a strategy that does nothing.
abbrev nothing_outside : Outside
nothing_outside = record { connect = λ t. some (false, true, t); work = λ t. some t }

nothing_outside-Respects : Respects nothing_outside
unfolding Works
nothing_outside-Respects = record { connect = λ t w. w; work = λ t w. w }

abbrev a_round : Round
a_round = record { now = 1000000; clock = λ i. pos (1000000 + i); connected = true }

-- What a run gives if it returns.
abbrev result_of : Option TwsDl → TwsDl
result_of none = new_tws_dl
result_of (some t) = t

abbrev asked_state : TwsDl
asked_state = result_of (loop_body nothing_outside a_round first_state)

abbrev told_state : TwsDl
told_state = result_of (handle true false 1000500 (acc_end_event (bytes "DU1")) asked_state)

told-Reachable : Reachable nothing_outside first_state told_state
unfolding loop_body state_step idle_step wait_data fin_place_order fin_orders ask_once req_mkt_data
    ask_mkt_data idle_connected next_req_type start_request req_acc_status next next_request
    record_acc new_acc send quit_if_done new_status is_empty new_tws_dl new_work_todo new_request
    ◌+ℤ◌ to_int handle tws_account_download_end answer with_packet as_acc
told-Reachable =
    after asked_state told_state
      (after first_state asked_state here (round a_round asked_state refl refl))
      (event true false 1000500 (acc_end_event (bytes "DU1")) told_state refl)

reachable-IsWorking_example : IsWorking told_state
reachable-IsWorking_example =
    reachable-IsWorking nothing_outside first_state told_state nothing_outside-Respects
      first_state-IsWorking told-Reachable

-- The account is complete: the packet of the request is closed, and the request is still open.
handle-Keeps_example : IsSame asked_state told_state
unfolding loop_body state_step idle_step wait_data fin_place_order fin_orders ask_once req_mkt_data
    ask_mkt_data idle_connected next_req_type start_request req_acc_status next next_request
    record_acc new_acc send quit_if_done new_status is_empty new_tws_dl new_work_todo new_request
    ◌+ℤ◌ to_int handle tws_account_download_end answer with_packet as_acc Keeps
handle-Keeps_example = handle-Keeps true false 1000500 (acc_end_event (bytes "DU1")) asked_state

abbrev order_five : PlaceOrder
order_five = record {
  order_id = pos 5;
  time_sent = pos 999000;
  contract = contract_a;
  order = record {
    perm_id = pos 0;
    action = bytes "BUY";
    total_quantity = 4607182418800017408;
    transmit = true;
    what_if = false;
  };
}

-- The order 5 is done, the order 6 is not.
abbrev done_five : OrderPacket
done_five = record {
  status = record { mode = closed; error = err_none };
  request = some order_five;
  rows = [];
}

abbrev open_six : OrderPacket
open_six = record {
  status = record { mode = recording; error = err_none };
  request = some (record order_five { order_id = pos 6 });
  rows = [];
}

abbrev two_orders : TwsDl
two_orders = record first_state { p_orders = (pos 5, done_five) ∷ (pos 6, open_six) ∷ [] }

two_orders-Apart : Apart two_orders.p_orders two_orders.p_orders_old
unfolding find new_tws_dl
two_orders-Apart = (
  (order_five, refl, refl, refl),
  refl,
  refl,
  ((record order_five { order_id = pos 6 }, refl, refl, refl), refl, refl, tt),
)

fin_place_order-Moved_example :
    Returns
      (λ r.
        Moved
          (pos 1000000)
          two_orders.p_orders
          two_orders.p_orders_old
          (r.1.p_orders, r.1.p_orders_old, r.0)
        × (r.1 ≡ record two_orders { p_orders = r.1.p_orders; p_orders_old = r.1.p_orders_old }))
      (fin_place_order 1000000 two_orders)
fin_place_order-Moved_example = fin_place_order-Moved 1000000 two_orders two_orders-Apart

-- The order 5 is done, and the work has it once more.
abbrev five_again : TwsDl
five_again = record first_state {
  work_todo = record first_state.work_todo {
    place_order_todo = record { cur_index = negsuc 0; requests = order_five ∷ [] };
  };
  p_orders_old = (pos 5, done_five) ∷ [];
}

place_order-Twice_example : Returns (Twice (pos 5) done_five) (place_order 1000000 five_again)
unfolding Indexed.checkout Indexed.current find to_int ◌+ℤ◌ ◌-ℤ◌ new_tws_dl
place_order-Twice_example =
    place_order-Twice 1000000 five_again (record { cur_index = pos 0; requests = order_five ∷ [] })
      order_five done_five refl refl (λ e. ground arith) refl refl

abbrev recording_packet : PacketHistData
recording_packet = record {
  status = record { mode = recording; error = err_none };
  req_id = pos 1;
  request = some request_a;
  rows = [];
  finish_row = dflt_row;
}

-- The first historical request has been sent, at the time 0.
abbrev hist_sent : TwsDl
hist_sent = record first_state {
  work_todo = record first_state.work_todo {
    hist_todo = record first_state.work_todo.hist_todo {
      left_requests = 1 ∷ [];
      checked_out_request = some 0;
    };
  };
  current_request = record { req_type = hist_request; req_id = pos 1; ctime = pos 0 };
  packet = some (hist_packet recording_packet);
}

hist_sent-IsKept : IsKept hist_sent.work_todo.hist_todo
unfolding checkout
hist_sent-IsKept =
    (checkout_lem first_state.work_todo.hist_todo 0 (1 ∷ []) two_open-IsKept refl refl).0

wait_data_hist_example :
    Returns
      (λ u.
        (is_over 9000000 recording_packet hist_sent ≡ false → Waits hist_sent u)
        × (is_over 9000000 recording_packet hist_sent ≡ true
            → Ended (last_error_of recording_packet) 0 hist_sent u))
      (wait_data 9000000 hist_sent)
unfolding new_tws_dl
wait_data_hist_example =
    wait_data_hist 9000000 hist_sent recording_packet 0 tt hist_sent-IsKept refl refl refl refl

-- Without any work.
abbrev no_work : TwsDl
no_work = result_of (ask_once new_tws_dl)

abbrev traded : TwsDl
traded = result_of (
    start_request nothing_outside a_round (next_req_type no_work.work_todo).0
      (record no_work { work_todo = (next_req_type no_work.work_todo).1 }))

abbrev over_state : TwsDl
over_state = result_of (idle_connected nothing_outside a_round new_tws_dl)

idle_connected_quits_example : (over_state.quit ≡ true) ↔ IsOver no_work traded
unfolding ask_once req_mkt_data ask_mkt_data idle_connected next_req_type next_listed start_request
    trade place_all_orders place_orders quit_if_done new_tws_dl new_work_todo new_todo new_hist_todo
    Indexed.count_left Hist.count_left ◌+ℤ◌ ◌-ℤ◌ to_int
idle_connected_quits_example =
    idle_connected_quits nothing_outside a_round new_tws_dl no_work traded over_state refl refl refl
      refl
