-- ===== src/Twsdo/Errors.antt =====
-- TwsDL::twsError (src/twsdo.cpp) and the handlers that it passes a message of TWS on to. Log lines are
-- left out.
use twstools.Base.{
  ℕ, Bool, true, false, not, ◌||◌, Option, none, some, List, [], ◌∷◌, if◌then◌else◌, ◌>>=◌, ◌>>◌,
  assert,
}
use twstools.Base.Int.{ℤ, pos, negsuc, ◌+ℤ◌, eqb_ℤ}
use twstools.Base.Text.{Text, bytes, contains}
use twstools.Base.Map.{find, insert, int_key}
use twstools.Requests.{Contract, HistRequest}
use twstools.Rows.{RowError}
use twstools.Farms
use twstools.Packets.{
  ReqErr, err_nodata, err_nav, err_twscon, err_timeout, err_request, close_error,
}
use twstools.Packets.Placing.{append_error}
use twstools.Pacing.God
use twstools.Todo.Hist.{current, skip_by_nodata, skip_by_perm}
use twstools.Todo.Work.{
  ReqType, no_request, contract_details_request, hist_request, opt_params_request,
}
use twstools.Twsdo.{TwsDl, with_packet}
use twstools.Twsdo.Packets.{OrderPacket, close_packet}

-- packet->closeError( e )
unfoldable pub close_with : ReqErr → TwsDl → Option TwsDl
close_with e = with_packet (close_packet e)

-- Without the connection to IB the timeout puts the request back.
unfoldable pub close_unknown : TwsDl → Option TwsDl
close_unknown t =
    if t.connectivity_ib_tws then close_with err_request t else close_with err_timeout t

unfoldable pub error_contracts : RowError → TwsDl → Option TwsDl
error_contracts err t =
    if eqb_ℤ err.code (pos 200)
    then close_unknown t
    else (if eqb_ℤ err.code (pos 321) || eqb_ℤ err.code (pos 322)
        then close_with err_request t
        else some t)

-- dataFarms.learnHmds( c )
unfoldable pub learn : Contract → TwsDl → TwsDl
learn c t = record t { data_farms = Farms.learn_hmds c t.data_farms }

-- pacingControl.remove_last_request( c )
unfoldable pub take_back : Contract → TwsDl → Option TwsDl
take_back c t = God.remove_last_request t.data_farms c t.pacing_control >>= λ g.
    some (record t { pacing_control = g })

-- workTodo->histTodo()->skip_by_nodata( hr ) and skip_by_perm( c )
unfoldable pub skip_nodata : HistRequest → TwsDl → Option TwsDl
skip_nodata hr t = skip_by_nodata hr t.work_todo.hist_todo >>= λ r.
    some (record t { work_todo = record t.work_todo { hist_todo = r.1 } })

unfoldable pub skip_perm : Contract → TwsDl → Option TwsDl
skip_perm c t = skip_by_perm c t.work_todo.hist_todo >>= λ r.
    some (record t { work_todo = record t.work_todo { hist_todo = r.1 } })

-- What the text of a message with the code 162 says; the tests are tried in this order.
pub data ServiceError : Type 0 where
  pacing_violation no_data not_on_server no_route no_permission unknown_contract other_error :
      ServiceError

unfoldable pub service_error : Text → ServiceError
service_error msg =
    if contains (bytes "Historical data request pacing violation") msg
    then pacing_violation
    else (if contains (bytes "HMDS query returned no data:") msg
        then no_data
        else (if contains (bytes "No historical market data for") msg
            then not_on_server
            else (if contains (bytes "No data of type EODChart is available") msg
                  || (contains (bytes "No data of type DayChart is available") msg
                      || contains (bytes "BEST queries are not supported for this contract") msg)
                then no_route
                else (if contains (bytes "No market data permissions for") msg
                    then no_permission
                    else (if contains (bytes "Unknown contract") msg
                        then unknown_contract
                        else other_error)))))

unfoldable pub service_failed : ℕ → ServiceError → HistRequest → TwsDl → Option TwsDl
service_failed now pacing_violation hr t₀ = do
  t ← close_with err_twscon t₀
  g ← God.notify_violation (pos now) t.data_farms hr.ib_contract t.pacing_control
  some (record t { pacing_control = g })
service_failed now no_data hr t = close_with err_nodata (learn hr.ib_contract t)
service_failed now not_on_server hr t = close_with err_nav (learn hr.ib_contract t)
service_failed now no_route hr t =
    close_with err_nav t >>= λ t₁. skip_nodata hr t₁ >>= take_back hr.ib_contract
service_failed now no_permission hr t = close_with err_request (learn hr.ib_contract t) >>= λ t₁.
    skip_perm hr.ib_contract t₁ >>= take_back hr.ib_contract
service_failed now unknown_contract hr t = close_with err_request (learn hr.ib_contract t)
service_failed now other_error hr t = some t

-- A message with the code 165.
unfoldable pub query_message : Text → HistRequest → TwsDl → Option TwsDl
query_message msg hr t =
    if contains (bytes "HMDS server disconnect occurred.  Attempting reconnection") msg
      || contains (bytes "HMDS connection attempt failed.  Connection will be re-attempted") msg
    then some (record t { cur_idle_time = t.cfg.tws_req_timeout })
    else (if contains (bytes "HMDS server connection was successful") msg
        then (Farms.learn_hmds_last_ok t.msg_counter hr.ib_contract t.data_farms >>= λ d.
            some (record t { data_farms = d }))
        else some t)

unfoldable pub error_hist_data : ℕ → RowError → TwsDl → Option TwsDl
error_hist_data now err t = current t.work_todo.hist_todo >>= λ hr.
    if eqb_ℤ err.code (pos 162)
    then service_failed now (service_error err.msg) hr t
    else (if eqb_ℤ err.code (pos 165)
        then query_message err.msg hr t
        else (if eqb_ℤ err.code (pos 200)
            then close_unknown t
            else (if eqb_ℤ err.code (pos 321) then close_with err_request t else some t)))

-- What errorPlaceOrder does with the packet of an order that is not done.
unfoldable pub reject_order : RowError → OrderPacket → Option OrderPacket
reject_order err p =
    let p' = append_error err p in
    if eqb_ℤ err.code (pos 2102)
    then some p'
    else close_error err_request p'.status >>= λ s. some (record p' { status = s })

-- The branches of errorPlaceOrder, twsOrderStatus and twsOpenOrder: a call on the packet of an order,
-- in p_orders or in p_orders_old but not in both.
unfoldable pub on_order :
    ℤ
    → (OrderPacket → Option OrderPacket)
    → (OrderPacket → Option OrderPacket)
    → TwsDl
    → Option TwsDl
on_order id f g t = elim (find id t.p_orders) [
  | some p ↦ elim (find id t.p_orders_old) [
    | some _ ↦ none
    | none ↦ f p >>= λ q. some (record t { p_orders = insert id q t.p_orders })
  ]
  | none ↦ elim (find id t.p_orders_old) [
    | none ↦ some t
    | some p ↦ g p >>= λ q. some (record t { p_orders_old = insert id q t.p_orders_old })
  ]
]

unfoldable pub error_place_order : RowError → TwsDl → Option TwsDl
error_place_order err = on_order err.id (reject_order err) (λ p. some (append_error err p))

-- The messages 1101 and 1102: the connection between IB and TWS is back.
unfoldable pub restored : TwsDl → Option TwsDl
restored t =
    let t' = record t { connectivity_ib_tws = true } in
    elim (t.current_request.req_type) [ hist_request ↦ close_with err_twscon t' | _ ↦ some t' ]

-- A message about a data farm.
unfoldable pub farm_message : ℕ → RowError → TwsDl → Option TwsDl
farm_message now err t = do
  d ← Farms.notify t.msg_counter err.code err.msg t.data_farms
  g ← God.clear (pos now) d t.pacing_control
  some (record t { data_farms = d; pacing_control = g })

-- One of the codes.
unfoldable pub one_of : List ℕ → ℤ → Bool
one_of [] code = false
one_of (n ∷ ns) code = eqb_ℤ code (pos n) || one_of ns code

unfoldable pub generic_message : ℕ → RowError → TwsDl → Option TwsDl
generic_message now err t =
    if eqb_ℤ err.code (pos 1100)
    then assert (contains (bytes "Connectivity between IB and T") err.msg)
      >> (assert (contains (bytes " has been lost.") err.msg)
          >> some (record t { connectivity_ib_tws = false; cur_idle_time = t.cfg.tws_req_timeout }))
    else (if eqb_ℤ err.code (pos 1101)
        then assert (contains (bytes "Connectivity between IB and T") err.msg)
          >> (assert (contains (bytes " has been restored - data lost.") err.msg) >> restored t)
        else (if eqb_ℤ err.code (pos 1102)
            then assert (contains (bytes "Connectivity between IB and T") err.msg)
              >> (assert (contains (bytes " has been restored - data maintained.") err.msg)
                  >> restored t)
            else (if eqb_ℤ err.code (pos 1300)
                then assert (
                    contains
                      (bytes "TWS socket port has been reset and this connection is being dropped.")
                      err.msg)
                  >> some t
                else (if one_of (2103 ∷ 2104 ∷ 2105 ∷ 2106 ∷ 2107 ∷ 2108 ∷ []) err.code
                    then farm_message now err t
                    else (if eqb_ℤ err.code (pos 2110)
                        then assert (contains (bytes "Connectivity between T") err.msg)
                          >> (assert (
                                contains
                                  (bytes
                                    " and server is broken. It will be restored automatically.")
                                  err.msg)
                              >> some (record t { connectivity_ib_tws = false }))
                        else some t)))))

-- A message for the open request.
unfoldable pub request_message : ℕ → ReqType → RowError → TwsDl → Option TwsDl
request_message now contract_details_request err t = error_contracts err t
request_message now opt_params_request err t = error_contracts err t
request_message now hist_request err t = error_hist_data now err t
request_message now no_request err t = some t
request_message now _ err t = none

-- twsError; `connected` is what isConnected of the API returns.
unfoldable pub tws_error : Bool → ℕ → RowError → TwsDl → Option TwsDl
tws_error connected now err t₀ =
    let t = record t₀ { msg_counter = t₀.msg_counter +ℤ pos 1 } in
    if not connected
    then assert (eqb_ℤ err.code (pos 503) || eqb_ℤ err.code (pos 502)) >> some t
    else (if eqb_ℤ err.id t.current_request.req_id
        then request_message now t.current_request.req_type err t
        else error_place_order err t >>= λ t'.
            if eqb_ℤ err.id (negsuc 0) then generic_message now err t' else some t')
