-- ===== src/Twsdo/Finish.antt =====
-- TwsDL::waitData (src/twsdo.cpp) and what it calls when a packet is closed. XML output is left out.
use twstools.Base.{
  ℕ, zero, suc, ◌-◌, Bool, true, false, not, ◌&&◌, ◌||◌, Option, none, some, List, [], ◌∷◌,
  if◌then◌else◌, ◌>>=◌, ◌>>◌, assert, length, get_elem?,
}
use twstools.Base.Int.{ℤ, pos, ◌-ℤ◌, ltb_ℤ, leb_ℤ, eqb_ℤ}
use twstools.Base.Text.{bytes}
use twstools.Base.Map.{Map, find, insert, int_key}
use twstools.Requests.{MktDataRequest, PlaceOrder}
use twstools.Rows.{ContractDetails}
use twstools.Packets.{
  ReqErr, err_none, err_nodata, err_nav, err_twscon, err_timeout, err_request, finished,
  close_error,
}
use twstools.Todo.Indexed
use twstools.Todo.Finish.{fin_hist}
use twstools.Todo.Work.{
  ReqType, no_request, acc_status_request, executions_request, orders_request,
  contract_details_request, hist_request, opt_params_request, age, close,
}
use twstools.Twsdo.{TwsDl}
use twstools.Twsdo.Packets.{AnyPacket, OrderPacket, contracts_packet, status_of, close_packet}

-- The assignment v[i] = x of a vector, which is undefined out of range.
unfoldable pub put : {A : Type 0} → ℕ → A → List A → Option (List A)
put i x [] = none
put zero x (y ∷ ys) = some (x ∷ ys)
put (suc i) x (y ∷ ys) = put i x ys >>= λ zs. some (y ∷ zs)

-- The conId of the contract at an index of the market data, which must be 0 or the same before.
unfoldable pub name_contract : ℤ → ℕ → List MktDataRequest → Option (List MktDataRequest)
name_contract id mi todo = do
  r ← get_elem? todo mi
  assert (eqb_ℤ r.ib_contract.con_id (pos 0) || eqb_ℤ r.ib_contract.con_id id)
  put mi (record r { ib_contract = record r.ib_contract { con_id = id } }) todo

-- A strategy wants one ContractDetails for each contract of the market data, in their order.
unfoldable pub take_details : List ContractDetails → TwsDl → Option TwsDl
take_details (cd ∷ []) t =
    let id = cd.summary.con_id in
    let details = insert id cd t.con_details in
    name_contract id (length details - 1) t.work_todo.market_data_todo >>= λ todo.
    some (record t {
      con_details = details;
      work_todo = record t.work_todo { market_data_todo = todo };
    })
take_details _ t = none

-- finContracts with the error of the packet and its rows.
unfoldable pub fin_contracts_with : ReqErr → List ContractDetails → TwsDl → Option TwsDl
fin_contracts_with err_twscon rows t = Indexed.repeat t.work_todo.contract_details_todo >>= λ todo.
    some (record t { work_todo = record t.work_todo { contract_details_todo = todo } })
fin_contracts_with _ rows t = if t.strat then take_details rows t else some t

-- finContracts; the cast of another packet is undefined. It always gives true, as do finOptParams
-- and finHist.
unfoldable pub fin_contracts : AnyPacket → TwsDl → Option (Bool × TwsDl)
fin_contracts (contracts_packet p) t =
    fin_contracts_with p.status.error p.cd_list t >>= λ t'. some (true, t')
fin_contracts _ t = none

unfoldable pub fin_opt_params_with : ReqErr → TwsDl → Option TwsDl
fin_opt_params_with err_twscon t = Indexed.repeat t.work_todo.opt_params_todo >>= λ todo.
    some (record t { work_todo = record t.work_todo { opt_params_todo = todo } })
fin_opt_params_with _ t = some t

unfoldable pub fin_opt_params : AnyPacket → TwsDl → Option (Bool × TwsDl)
fin_opt_params p t = fin_opt_params_with (status_of p).error t >>= λ t'. some (true, t')

unfoldable pub fin_hist_data : AnyPacket → TwsDl → Option (Bool × TwsDl)
fin_hist_data p t = fin_hist (status_of p).error t.work_todo.hist_todo >>= λ todo.
    some (true, record t { work_todo = record t.work_todo { hist_todo = todo } })

-- The switch of waitData.
unfoldable pub fin_request : ReqType → AnyPacket → TwsDl → Option (Bool × TwsDl)
fin_request opt_params_request p t = fin_opt_params p t
fin_request contract_details_request p t = fin_contracts p t
fin_request hist_request p t = fin_hist_data p t
fin_request acc_status_request p t = some (true, t)
fin_request executions_request p t = some (true, t)
fin_request orders_request p t = some (true, t)
fin_request no_request p t = none

-- The errors with which finPlaceOrder moves an order to the old ones.
abbrev pub is_final : ReqErr → Bool
is_final err_none = true
is_final err_request = true
is_final err_timeout = true
is_final err_nodata = false
is_final err_nav = false
is_final err_twscon = false

abbrev pub is_twscon : ReqErr → Bool
is_twscon err_twscon = true
is_twscon _ = false

-- An order that is not transmitted is closed five seconds after it was sent.
unfoldable pub expire : ℕ → PlaceOrder → OrderPacket → Option OrderPacket
expire now r p =
    if not (finished p.status)
      && (not r.order.transmit && ltb_ℤ (pos 5000) (pos now -ℤ r.time_sent))
    then (close_error err_none p.status >>= λ s. some (record p { status = s }))
    else some p

-- The loop of finPlaceOrder: what stays in p_orders, p_orders_old, and the result.
unfoldable pub fin_orders :
    ℕ
    → Map ℤ OrderPacket
    → Map ℤ OrderPacket
    → Bool
    → Option (Map ℤ OrderPacket × Map ℤ OrderPacket × Bool)
fin_orders now [] old ok = some ([], old, ok)
fin_orders now ((id, p) ∷ orders) old ok = do
  r ← p.request
  assert (eqb_ℤ id r.order_id)
  q ← expire now r p
  elim (finished q.status && is_final q.status.error) [
    | true ↦ elim (find id old) [
      | some _ ↦ none
      | none ↦ fin_orders now orders (insert id q old) ok
    ]
    | false ↦
        fin_orders now orders old (ok && not (finished q.status && is_twscon q.status.error))
        >>= λ rest. some ((id, q) ∷ rest.0, rest.1, rest.2)
  ]

unfoldable pub fin_place_order : ℕ → TwsDl → Option (Bool × TwsDl)
fin_place_order now t = fin_orders now t.p_orders t.p_orders_old true >>= λ r.
    some (r.2, record t { p_orders = r.0; p_orders_old = r.1 })

-- The end of waitData.
unfoldable pub end_request : Bool → TwsDl → TwsDl
end_request ok t =
    let done = record t { packet = none; current_request = close t.current_request } in
    if ok
    then done
    else record done { error = pos 1; last_error = bytes "Fatal error."; quit = true }

-- waitData behind its first return, while a request is open.
unfoldable pub wait_packet : ℕ → AnyPacket → TwsDl → Option TwsDl
wait_packet now p t =
    if not (finished (status_of p)) && leb_ℤ (age (pos now) t.current_request) t.cfg.tws_req_timeout
    then some t
    else (if finished (status_of p) then some p else close_packet err_timeout p) >>= λ q.
        fin_request t.current_request.req_type q t >>= λ r. some (end_request r.0 r.1)

abbrev pub is_open : ReqType → Bool
is_open no_request = false
is_open _ = true

unfoldable pub wait_data : ℕ → TwsDl → Option TwsDl
wait_data now t₀ = fin_place_order now t₀ >>= λ r. elim (r.1.packet) [
  | none ↦ some r.1
  | some p ↦ elim (is_open r.1.current_request.req_type) [
    | false ↦ some r.1
    | true ↦ wait_packet now p r.1
  ]
]
