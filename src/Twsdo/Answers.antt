-- ===== src/Twsdo/Answers.antt =====
-- The callbacks of TwsDL (src/twsdo.cpp) leave the open request open.
use twstools.Base.{
  ℕ, ◌≡◌, refl, sym, subst, Bool, true, false, not, Option, none, some, ◌>>=◌, ◌>>◌, assert,
  IfReturns, IfReturns-bind, IfReturns-any, IfReturns-both, IfReturns-under, Returns-map, ◌||◌,
}
use twstools.Base.Int.{ℤ, pos, negsuc, ◌+ℤ◌, eqb_ℤ}
use twstools.Base.Text.{Text}
use twstools.Base.Map.{find, insert, int_key}
use twstools.Requests.{Contract, HistRequest}
use twstools.Rows.{RowError}
use twstools.Farms
use twstools.Packets.{ReqErr, err_twscon, err_nav, err_request}
use twstools.Pacing.God
use twstools.Todo.Hist.{
  HistTodo, current, skip, skip_by_nodata, skip_by_perm, skip_loop, is_partial, same_product,
  same_data,
}
use twstools.Todo.Hist.Places.{IsKept}
use twstools.Todo.Hist.Skips.{skip_by_perm_lem, skip_by_nodata_lem, Skipped}
use twstools.Todo.Work.{
  ReqType, no_request, acc_status_request, executions_request, orders_request,
  contract_details_request, hist_request, opt_params_request,
}
use twstools.Twsdo.{TwsDl}
use twstools.Twsdo.Packets.{OrderPacket}
use twstools.Twsdo.Same.{
  Keeps, Keeps-some, Keeps-none, Keeps-refl, Keeps-then, Keeps-if, Keeps-assert, Keeps-after,
  Keeps-given, with_packet-Keeps, close_packet-KeepsKind,
}
use twstools.Twsdo.Errors.{
  close_with, close_unknown, error_contracts, learn, take_back, skip_nodata, skip_perm,
  pacing_violation, no_data, not_on_server, no_route, no_permission, unknown_contract, other_error,
  ServiceError, service_error, service_failed, query_message, error_hist_data, on_order,
  error_place_order, restored, farm_message, generic_message, request_message, tws_error,
}

pub close_with-Keeps : (e : ReqErr) (t : TwsDl) → Keeps t (close_with e t)
unfolding close_with
close_with-Keeps e = with_packet-Keeps _ (close_packet-KeepsKind e)

close_unknown-Keeps : (t : TwsDl) → Keeps t (close_unknown t)
unfolding close_unknown
close_unknown-Keeps t =
    Keeps-if t t.connectivity_ib_tws _ _ (close_with-Keeps _ t) (close_with-Keeps _ t)

error_contracts-Keeps : (err : RowError) (t : TwsDl) → Keeps t (error_contracts err t)
unfolding error_contracts
error_contracts-Keeps err t =
    Keeps-if t _ _ _ (close_unknown-Keeps t)
      (Keeps-if t _ _ _ (close_with-Keeps _ t) (Keeps-refl t))

learn-Keeps : (c : Contract) (t : TwsDl) → Keeps t (some (learn c t))
unfolding learn
learn-Keeps c t =
    Keeps-some _ _ (record { request = refl; packet = refl; out = refl; kept = λ k. k })

-- What follows on a lesson of DataFarmStates.
learned_then :
    (c : Contract) (t : TwsDl) (f : TwsDl → Option TwsDl)
    → ((u : TwsDl) → Keeps u (f u))
    → Keeps t (f (learn c t))
learned_then c t f k = Keeps-then t (some (learn c t)) f (learn-Keeps c t) k

take_back-Keeps : (c : Contract) (t : TwsDl) → Keeps t (take_back c t)
unfolding take_back
take_back-Keeps c t =
    Keeps-after t (God.remove_last_request t.data_farms c t.pacing_control) _
      λ g. Keeps-some _ _ (record { request = refl; packet = refl; out = refl; kept = λ k. k })

skip-out :
    (nothing : Bool) (test : HistRequest → Bool) (t : HistTodo)
    → IfReturns
        (λ (r : ℕ × HistTodo). r.1.checked_out_request ≡ t.checked_out_request)
        (skip nothing test t)
unfolding skip
skip-out true test t = refl
skip-out false test t =
    IfReturns-bind _ _ (skip_loop test t.store t.left_requests t.error_requests) _ (IfReturns-any _)
      (λ r _. refl)

-- What both methods that give up requests keep.
abbrev SkipKeeps : HistTodo → ℕ × HistTodo → Type 0
SkipKeeps t r = (r.1.checked_out_request ≡ t.checked_out_request) × (IsKept t → IsKept r.1)

Skipped-IsKept :
    (nothing : Bool) (test : HistRequest → Bool) (t : HistTodo) (r : ℕ × HistTodo)
    → IsKept t
    → (nothing ≡ true → r ≡ (0, t)) × (nothing ≡ false → Skipped test t r)
    → IsKept r.1
Skipped-IsKept true test t r k h = subst (λ (s : ℕ × HistTodo). IsKept s.1) (sym (h.0 refl)) k
Skipped-IsKept false test t r k h = (h.1 refl).kept

skip_by_perm-SkipKeeps : (c : Contract) (t : HistTodo) → IfReturns (SkipKeeps t) (skip_by_perm c t)
unfolding skip_by_perm
skip_by_perm-SkipKeeps c t =
    IfReturns-both _ _ (skip_by_perm c t) (skip-out (is_partial c) (same_product c) t) (
      IfReturns-under (IsKept t) (λ r. IsKept r.1) (skip_by_perm c t)
        λ k.
          Returns-map _ _ (λ r. Skipped-IsKept (is_partial c) (same_product c) t r k)
            (skip_by_perm c t) (skip_by_perm_lem c t k))

skip_by_nodata-SkipKeeps :
    (hr : HistRequest) (t : HistTodo) → IfReturns (SkipKeeps t) (skip_by_nodata hr t)
unfolding skip_by_nodata
skip_by_nodata-SkipKeeps hr t =
    let nothing = is_partial hr.ib_contract in
    IfReturns-both _ _ (skip_by_nodata hr t) (skip-out nothing (same_data hr) t) (
      IfReturns-under (IsKept t) (λ r. IsKept r.1) (skip_by_nodata hr t)
        λ k.
          Returns-map _ _ (λ r. Skipped-IsKept nothing (same_data hr) t r k) (skip_by_nodata hr t)
            (skip_by_nodata_lem hr t k))

skip_perm-Keeps : (c : Contract) (t : TwsDl) → Keeps t (skip_perm c t)
unfolding skip_perm
skip_perm-Keeps c t =
    Keeps-given t (SkipKeeps t.work_todo.hist_todo) (skip_by_perm c t.work_todo.hist_todo) _
      (skip_by_perm-SkipKeeps c t.work_todo.hist_todo)
      λ r h. Keeps-some _ _ (record { request = refl; packet = refl; out = h.0; kept = h.1 })

skip_nodata-Keeps : (hr : HistRequest) (t : TwsDl) → Keeps t (skip_nodata hr t)
unfolding skip_nodata
skip_nodata-Keeps hr t =
    Keeps-given t (SkipKeeps t.work_todo.hist_todo) (skip_by_nodata hr t.work_todo.hist_todo) _
      (skip_by_nodata-SkipKeeps hr t.work_todo.hist_todo)
      λ r h. Keeps-some _ _ (record { request = refl; packet = refl; out = h.0; kept = h.1 })

service_failed-Keeps :
    (now : ℕ) (e : ServiceError) (hr : HistRequest) (t : TwsDl)
    → Keeps t (service_failed now e hr t)
unfolding service_failed
service_failed-Keeps now pacing_violation hr t =
    Keeps-then t (close_with err_twscon t) _ (close_with-Keeps err_twscon t) λ u.
      Keeps-after u (God.notify_violation (pos now) u.data_farms hr.ib_contract u.pacing_control) _
        λ g. Keeps-some _ _ (record { request = refl; packet = refl; out = refl; kept = λ k. k })
service_failed-Keeps now no_data hr t = learned_then hr.ib_contract t _ (close_with-Keeps _)
service_failed-Keeps now not_on_server hr t = learned_then hr.ib_contract t _ (close_with-Keeps _)
service_failed-Keeps now no_route hr t =
    Keeps-then t (close_with err_nav t) _ (close_with-Keeps _ t) λ u.
      Keeps-then u (skip_nodata hr u) _ (skip_nodata-Keeps hr u) (take_back-Keeps hr.ib_contract)
service_failed-Keeps now no_permission hr t =
    Keeps-then t (close_with err_request (learn hr.ib_contract t)) _
      (learned_then hr.ib_contract t (close_with err_request) (close_with-Keeps _))
      λ u.
        Keeps-then u (skip_perm hr.ib_contract u) _ (skip_perm-Keeps hr.ib_contract u)
          (take_back-Keeps hr.ib_contract)
service_failed-Keeps now unknown_contract hr t =
    learned_then hr.ib_contract t _ (close_with-Keeps _)
service_failed-Keeps now other_error hr t = Keeps-refl t

query_message-Keeps : (msg : Text) (hr : HistRequest) (t : TwsDl) → Keeps t (query_message msg hr t)
unfolding query_message
query_message-Keeps msg hr t =
    Keeps-if t _ _ _
      (Keeps-some _ _ (record { request = refl; packet = refl; out = refl; kept = λ k. k }))
      (Keeps-if t _ _ _
        (Keeps-after t (Farms.learn_hmds_last_ok t.msg_counter hr.ib_contract t.data_farms) _
          λ d. Keeps-some _ _ (record { request = refl; packet = refl; out = refl; kept = λ k. k }))
        (Keeps-refl t))

error_hist_data-Keeps : (now : ℕ) (err : RowError) (t : TwsDl) → Keeps t (error_hist_data now err t)
unfolding error_hist_data
error_hist_data-Keeps now err t = Keeps-after t (current t.work_todo.hist_todo) _ λ hr.
    Keeps-if t _ _ _ (service_failed-Keeps now (service_error err.msg) hr t) (
      Keeps-if t _ _ _ (query_message-Keeps err.msg hr t) (
        Keeps-if t _ _ _ (close_unknown-Keeps t)
          (Keeps-if t _ _ _ (close_with-Keeps _ t) (Keeps-refl t))))

pub on_order-Keeps :
    (id : ℤ) (f g : OrderPacket → Option OrderPacket) (t : TwsDl) → Keeps t (on_order id f g t)
unfolding on_order
on_order-Keeps id f g t = go (find id t.p_orders) (find id t.p_orders_old)
  where
    go :
        (a b : Option OrderPacket)
        → Keeps t (elim a [
          | some p ↦ elim b [
            | some _ ↦ none
            | none ↦ f p >>= λ q. some (record t { p_orders = insert id q t.p_orders })
          ]
          | none ↦ elim b [
            | none ↦ some t
            | some p ↦ g p >>= λ q. some (record t { p_orders_old = insert id q t.p_orders_old })
          ]
        ])
    go (some p) (some q) = Keeps-none t
    go (some p) none =
        Keeps-after t (f p) _
          λ q. Keeps-some _ _ (record { request = refl; packet = refl; out = refl; kept = λ k. k })
    go none none = Keeps-refl t
    go none (some p) =
        Keeps-after t (g p) _
          λ q. Keeps-some _ _ (record { request = refl; packet = refl; out = refl; kept = λ k. k })

restored-Keeps : (t : TwsDl) → Keeps t (restored t)
unfolding restored
restored-Keeps t =
    let on : TwsDl = record t { connectivity_ib_tws = true } in
    let first : Keeps t (some on) =
      Keeps-some _ _ (record { request = refl; packet = refl; out = refl; kept = λ k. k }) in
    let closed : Keeps t (close_with err_twscon on) =
      Keeps-then t (some on) (close_with err_twscon) first (close_with-Keeps err_twscon) in
    elim (t.current_request.req_type)
      as (λ y. Keeps t (elim y [ hist_request ↦ close_with err_twscon on | _ ↦ some on ])) [
        | hist_request ↦ closed
        | _ ↦ first
      ]

farm_message-Keeps : (now : ℕ) (err : RowError) (t : TwsDl) → Keeps t (farm_message now err t)
unfolding farm_message
farm_message-Keeps now err t =
    Keeps-after t (Farms.notify t.msg_counter err.code err.msg t.data_farms) _ λ d.
      Keeps-after t (God.clear (pos now) d t.pacing_control) _
        λ g. Keeps-some _ _ (record { request = refl; packet = refl; out = refl; kept = λ k. k })

generic_message-Keeps : (now : ℕ) (err : RowError) (t : TwsDl) → Keeps t (generic_message now err t)
unfolding generic_message
generic_message-Keeps now err t =
    let broken : Keeps t (some (record t { connectivity_ib_tws = false })) =
      Keeps-some _ _ (record { request = refl; packet = refl; out = refl; kept = λ k. k }) in
    let lost : Keeps t
        (some (record t { connectivity_ib_tws = false; cur_idle_time = t.cfg.tws_req_timeout })) =
      Keeps-some _ _ (record { request = refl; packet = refl; out = refl; kept = λ k. k }) in
    let back : (a b : Bool) → Keeps t (assert a >> (assert b >> restored t)) =
      λ a b. Keeps-assert t a _ (Keeps-assert t b _ (restored-Keeps t)) in
    let refl_if : (a : Bool) → Keeps t (assert a >> some t) =
      λ a. Keeps-assert t a _ (Keeps-refl t) in
    let down : (a b : Bool)
        → Keeps t (assert a >> (assert b >> some (record t { connectivity_ib_tws = false }))) =
      λ a b. Keeps-assert t a _ (Keeps-assert t b _ broken) in
    let away : (a b : Bool)
        → Keeps t (
            assert a
            >> (assert b
                >> some (record t {
                  connectivity_ib_tws = false;
                  cur_idle_time = t.cfg.tws_req_timeout;
                }))) =
      λ a b. Keeps-assert t a _ (Keeps-assert t b _ lost) in
    Keeps-if t (eqb_ℤ err.code (pos 1100)) _ _ (away _ _) (
      Keeps-if t (eqb_ℤ err.code (pos 1101)) _ _ (back _ _) (
        Keeps-if t (eqb_ℤ err.code (pos 1102)) _ _ (back _ _) (
          Keeps-if t (eqb_ℤ err.code (pos 1300)) _ _ (refl_if _) (
            Keeps-if t _ _ _ (farm_message-Keeps now err t)
              (Keeps-if t (eqb_ℤ err.code (pos 2110)) _ _ (down _ _) (Keeps-refl t))))))

request_message-Keeps :
    (now : ℕ) (type : ReqType) (err : RowError) (t : TwsDl)
    → Keeps t (request_message now type err t)
unfolding request_message
request_message-Keeps now contract_details_request err t = error_contracts-Keeps err t
request_message-Keeps now opt_params_request err t = error_contracts-Keeps err t
request_message-Keeps now hist_request err t = error_hist_data-Keeps now err t
request_message-Keeps now no_request err t = Keeps-refl t
request_message-Keeps now acc_status_request err t = Keeps-none t
request_message-Keeps now executions_request err t = Keeps-none t
request_message-Keeps now orders_request err t = Keeps-none t

-- An error of TWS leaves the request open and its packet of the same kind, whatever it says.
pub tws_error-Keeps :
    (connected : Bool) (now : ℕ) (err : RowError) (t : TwsDl)
    → Keeps t (tws_error connected now err t)
unfolding tws_error error_place_order
tws_error-Keeps connected now err t₀ =
    let t : TwsDl = record t₀ { msg_counter = t₀.msg_counter +ℤ pos 1 } in
    let first : Keeps t₀ (some t) =
      Keeps-some _ _ (record { request = refl; packet = refl; out = refl; kept = λ k. k }) in
    Keeps-then t₀ (some t) _ first λ u.
      Keeps-if u (not connected) _ _
        (Keeps-assert u (eqb_ℤ err.code (pos 503) || eqb_ℤ err.code (pos 502)) _ (Keeps-refl u))
        (Keeps-if u (eqb_ℤ err.id u.current_request.req_id) _ _
          (request_message-Keeps now u.current_request.req_type err u)
          (Keeps-then u (error_place_order err u) _ (on_order-Keeps err.id _ _ u) λ v.
            Keeps-if v (eqb_ℤ err.id (negsuc 0)) _ _ (generic_message-Keeps now err v)
              (Keeps-refl v)))
