-- ===== src/Twsdo/Working.antt =====
-- What holds between two steps of TwsDL (src/twsdo.cpp): the packet is that of the open request, and a
-- historical request is checked out just while one is open.
use twstools.Base.{
  ℕ, ◌-◌, length, ◌≡◌, refl, sym, ap, ◌∙◌, Bool, true, false, not, Option, none, some, List, [],
  ◌∷◌, if◌then◌else◌, ◌>>=◌, ◌>>◌, assert, inl, inr, Option-cases, is_none, IfReturns,
  IfReturns-bind, IfReturns-map, IfReturns-any, IfReturns-if, IfReturns-of, Returns-map, arith,
  ◌&&◌,
}
use twstools.Base.Int.{pos, leb_ℤ}
use twstools.Base.Map.{insert, int_key}
use twstools.Rows.{ContractDetails}
use twstools.Packets.{
  ReqErr, err_none, err_nodata, err_nav, err_twscon, err_timeout, err_request, finished,
}
use twstools.Todo.Hist.{HistTodo}
use twstools.Todo.Hist.Places.{IsKept}
use twstools.Todo.Indexed
use twstools.Todo.Finish.{fin_hist, fin_hist_lem}
use twstools.Todo.Work.{
  ReqType, no_request, acc_status_request, executions_request, orders_request,
  contract_details_request, hist_request, opt_params_request, age, close,
}
use twstools.Twsdo.{TwsDl}
use twstools.Twsdo.Packets.{
  AnyPacket, contracts_packet, hist_packet, acc_packet, executions_packet, orders_packet,
  opt_params_packet, status_of, close_packet,
}
use twstools.Twsdo.Same.{kind_in, IsSame, Keeps}
use twstools.Twsdo.Finish.{
  name_contract, take_details, fin_contracts_with, fin_contracts, fin_opt_params_with,
  fin_opt_params, fin_hist_data, fin_request, fin_place_order, fin_orders, end_request, wait_packet,
  is_open, wait_data,
}

-- The kind of packet that goes with the open request.
abbrev pub open_kind : ReqType → Option ReqType
open_kind no_request = none
open_kind acc_status_request = some acc_status_request
open_kind executions_request = some executions_request
open_kind orders_request = some orders_request
open_kind contract_details_request = some contract_details_request
open_kind hist_request = some hist_request
open_kind opt_params_request = some opt_params_request

abbrev pub is_hist : ReqType → Bool
is_hist hist_request = true
is_hist _ = false

-- There is a packet just while a request is open, and it is of its kind; a historical request is
-- checked out just while one is open; and every historical request is in exactly one place.
pub record IsWorking (t : TwsDl) : Type 0 where
  pub fits : kind_in t.packet ≡ open_kind t.current_request.req_type
  pub out :
      is_none t.work_todo.hist_todo.checked_out_request ≡ not (is_hist t.current_request.req_type)
  pub kept : IsKept t.work_todo.hist_todo

pub IsWorking-same : (t u : TwsDl) → IsSame t u → IsWorking t → IsWorking u
IsWorking-same t u s w = record {
  fits = s.packet ∙ w.fits ∙ ap (λ r. open_kind r.req_type) (sym s.request);
  out = ap is_none s.out ∙ w.out ∙ ap (λ r. not (is_hist r.req_type)) (sym s.request);
  kept = s.kept w.kept;
}

-- A run whose result, if it returns, is in order.
unfoldable pub Works : Option TwsDl → Type 0
Works m = IfReturns IsWorking m

pub Works-some : (t : TwsDl) → IsWorking t → Works (some t)
unfolding Works
Works-some t w = w

pub Works-none : Works none
unfolding Works
Works-none = tt

pub Works-if :
    (b : Bool) (m n : Option TwsDl)
    → (b ≡ true → Works m)
    → (b ≡ false → Works n)
    → Works (if b then m else n)
Works-if true m n h k = h refl
Works-if false m n h k = k refl

pub Works-given {ℓ} :
    {A : Type ℓ} (P : A → Type 0) (m : Option A) (f : A → Option TwsDl)
    → IfReturns P m
    → ((a : A) → P a → Works (f a))
    → Works (m >>= f)
unfolding Works
Works-given P m f h k = IfReturns-bind P IsWorking m f h k

pub Works-then :
    (m : Option TwsDl) (f : TwsDl → Option TwsDl)
    → Works m
    → ((t : TwsDl) → IsWorking t → Works (f t))
    → Works (m >>= f)
unfolding Works
Works-then m f h k = IfReturns-bind IsWorking IsWorking m f h k

pub Works-after {ℓ} :
    {A : Type ℓ} (m : Option A) (f : A → Option TwsDl) → ((a : A) → Works (f a)) → Works (m >>= f)
unfolding Works
Works-after m f k = IfReturns-bind (λ _. Unit {0}) IsWorking m f (IfReturns-any m) (λ a _. k a)

pub Works-assert : (b : Bool) (m : Option TwsDl) → (b ≡ true → Works m) → Works (assert b >> m)
unfolding Works
Works-assert true m h = h refl
Works-assert false m h = tt

pub working-Keeps : (t : TwsDl) (m : Option TwsDl) → Keeps t m → IsWorking t → Works m
unfolding Keeps Works
working-Keeps t m k w = IfReturns-map (IsSame t) IsWorking (λ u s. IsWorking-same t u s w) m k

-- No historical request is checked out, and each is in one place.
abbrev IsFree : HistTodo → Type 0
IsFree h = (is_none h.checked_out_request ≡ true) × IsKept h

abbrev Freed : Bool × TwsDl → Type 0
Freed r = IsFree r.1.work_todo.hist_todo

take_details-IsFree :
    (rows : List ContractDetails) (t : TwsDl)
    → IsFree t.work_todo.hist_todo
    → IfReturns (λ u. IsFree u.work_todo.hist_todo) (take_details rows t)
unfolding take_details
take_details-IsFree [] t h = tt
take_details-IsFree (cd ∷ cd' ∷ rows) t h = tt
take_details-IsFree (cd ∷ []) t h =
    IfReturns-bind _ _
      (name_contract cd.summary.con_id (length (insert cd.summary.con_id cd t.con_details) - 1)
        t.work_todo.market_data_todo)
      _ (IfReturns-any _) (λ _ _. h)

fin_contracts_with-IsFree :
    (e : ReqErr) (rows : List ContractDetails) (t : TwsDl)
    → IsFree t.work_todo.hist_todo
    → IfReturns (λ u. IsFree u.work_todo.hist_todo) (fin_contracts_with e rows t)
unfolding fin_contracts_with
fin_contracts_with-IsFree err_twscon rows t h =
    IfReturns-bind _ _ (Indexed.repeat t.work_todo.contract_details_todo) _ (IfReturns-any _)
      (λ _ _. h)
fin_contracts_with-IsFree err_none rows t h =
    IfReturns-if _ t.strat _ _ (λ _. take_details-IsFree rows t h) (λ _. h)
fin_contracts_with-IsFree err_nodata rows t h =
    IfReturns-if _ t.strat _ _ (λ _. take_details-IsFree rows t h) (λ _. h)
fin_contracts_with-IsFree err_nav rows t h =
    IfReturns-if _ t.strat _ _ (λ _. take_details-IsFree rows t h) (λ _. h)
fin_contracts_with-IsFree err_timeout rows t h =
    IfReturns-if _ t.strat _ _ (λ _. take_details-IsFree rows t h) (λ _. h)
fin_contracts_with-IsFree err_request rows t h =
    IfReturns-if _ t.strat _ _ (λ _. take_details-IsFree rows t h) (λ _. h)

fin_opt_params_with-IsFree :
    (e : ReqErr) (t : TwsDl)
    → IsFree t.work_todo.hist_todo
    → IfReturns (λ u. IsFree u.work_todo.hist_todo) (fin_opt_params_with e t)
unfolding fin_opt_params_with
fin_opt_params_with-IsFree err_twscon t h =
    IfReturns-bind _ _ (Indexed.repeat t.work_todo.opt_params_todo) _ (IfReturns-any _) (λ _ _. h)
fin_opt_params_with-IsFree err_none t h = h
fin_opt_params_with-IsFree err_nodata t h = h
fin_opt_params_with-IsFree err_nav t h = h
fin_opt_params_with-IsFree err_timeout t h = h
fin_opt_params_with-IsFree err_request t h = h

fin_hist-IsFree :
    (e : ReqErr) (t : HistTodo)
    → is_none t.checked_out_request ≡ false
    → IsKept t
    → IfReturns IsFree (fin_hist e t)
fin_hist-IsFree e t out k = elim (Option-cases (t.checked_out_request)) [
  | inl free ↦ absurd (ground (arith, free))
  | inr (p, f) ↦ IfReturns-of IsFree (fin_hist e t) (
      Returns-map _ IsFree (λ u r. (ap is_none r.free, r.kept)) (fin_hist e t)
        (fin_hist_lem e t p k f))
]

-- When a request ends nothing is checked out.
fin_request-Freed :
    (type : ReqType) (p : AnyPacket) (t : TwsDl)
    → is_none t.work_todo.hist_todo.checked_out_request ≡ not (is_hist type)
    → IsKept t.work_todo.hist_todo
    → IfReturns Freed (fin_request type p t)
unfolding fin_request fin_contracts fin_opt_params fin_hist_data
fin_request-Freed no_request p t out k = tt
fin_request-Freed acc_status_request p t out k = (out, k)
fin_request-Freed executions_request p t out k = (out, k)
fin_request-Freed orders_request p t out k = (out, k)
fin_request-Freed opt_params_request p t out k =
    IfReturns-bind _ Freed (fin_opt_params_with (status_of p).error t) _
      (fin_opt_params_with-IsFree (status_of p).error t (out, k)) (λ u h. h)
fin_request-Freed hist_request p t out k =
    IfReturns-bind IsFree Freed (fin_hist (status_of p).error t.work_todo.hist_todo) _
      (fin_hist-IsFree (status_of p).error t.work_todo.hist_todo out k) (λ u h. h)
fin_request-Freed contract_details_request (contracts_packet p) t out k =
    IfReturns-bind _ Freed (fin_contracts_with p.status.error p.cd_list t) _
      (fin_contracts_with-IsFree p.status.error p.cd_list t (out, k)) (λ u h. h)
fin_request-Freed contract_details_request (hist_packet p) t out k = tt
fin_request-Freed contract_details_request (acc_packet p) t out k = tt
fin_request-Freed contract_details_request (executions_packet p) t out k = tt
fin_request-Freed contract_details_request (orders_packet p) t out k = tt
fin_request-Freed contract_details_request (opt_params_packet p) t out k = tt

end_request-IsWorking :
    (ok : Bool) (t : TwsDl) → IsFree t.work_todo.hist_todo → IsWorking (end_request ok t)
unfolding end_request close
end_request-IsWorking true t h = record { fits = refl; out = h.0; kept = h.1 }
end_request-IsWorking false t h = record { fits = refl; out = h.0; kept = h.1 }

pub fin_place_order-Keeps :
    (now : ℕ) (t : TwsDl) → IfReturns (λ r. IsSame t r.1) (fin_place_order now t)
unfolding fin_place_order
fin_place_order-Keeps now t =
    IfReturns-bind _ _ (fin_orders now t.p_orders t.p_orders_old true) _ (IfReturns-any _)
      λ r _. record { request = refl; packet = refl; out = refl; kept = λ k. k }

wait_packet-Works :
    (now : ℕ) (p : AnyPacket) (t : TwsDl) → IsWorking t → Works (wait_packet now p t)
unfolding wait_packet
wait_packet-Works now p t w =
    Works-if
      (not (finished (status_of p))
        && leb_ℤ (age (pos now) t.current_request) t.cfg.tws_req_timeout)
      _ _ (λ _. Works-some t w)
      λ _.
        Works-after (if finished (status_of p) then some p else close_packet err_timeout p) _ λ q.
          Works-given Freed (fin_request t.current_request.req_type q t) _
            (fin_request-Freed t.current_request.req_type q t w.out w.kept)
            λ r h. Works-some (end_request r.0 r.1) (end_request-IsWorking r.0 r.1 h)

wait_open-Works :
    (now : ℕ) (t : TwsDl) (p : Option AnyPacket) (open_now : Bool)
    → IsWorking t
    → Works (elim p [
      | none ↦ some t
      | some q ↦ elim open_now [ false ↦ some t | true ↦ wait_packet now q t ]
    ])
wait_open-Works now t none b w = Works-some t w
wait_open-Works now t (some q) false w = Works-some t w
wait_open-Works now t (some q) true w = wait_packet-Works now q t w

pub wait_data-Works : (now : ℕ) (t : TwsDl) → IsWorking t → Works (wait_data now t)
unfolding wait_data
wait_data-Works now t w =
    Works-given (λ (r : Bool × TwsDl). IsSame t r.1) (fin_place_order now t) _
      (fin_place_order-Keeps now t)
      λ r s.
        wait_open-Works now r.1 r.1.packet (is_open r.1.current_request.req_type)
          (IsWorking-same t r.1 s w)
