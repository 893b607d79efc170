-- ===== src/Todo/Work/Laws.antt =====
-- class WorkTodo (src/tws_meta.cpp): reading a work file, and the order in which the work is done.
use twstools.Base.{
  ℕ, suc, ◌≡◌, ◌↔◌, Bool, false, ◌||◌, none, some, List, [], ◌∷◌, if◌then◌else◌, arith,
}
use twstools.Base.Int.{pos, ◌≤ℤ◌}
use twstools.Base.Text.{Text, bytes, text_eq}
use twstools.Todo.Hist
use twstools.Todo.Indexed
use twstools.Todo.Work.{
  no_request, acc_status_request, executions_request, orders_request, WorkTodo, next_listed,
  next_req_type, Element, request, other,
}

-- Nothing is left of any kind.
pub record IsDone (w : WorkTodo) : Type 0 where
  pub no_acc_status : w.acc_status_todo ≡ false
  pub no_executions : w.executions_todo ≡ false
  pub no_orders : w.orders_todo ≡ false
  pub no_contracts : Indexed.count_left w.contract_details_todo ≤ℤ pos 0
  pub no_opt_params : Indexed.count_left w.opt_params_todo ≤ℤ pos 0
  pub no_hist : Hist.count_left w.hist_todo ≤ℤ pos 0

-- nextReqType says that there is no request exactly when nothing is left of any kind.
pub next_req_type_none : (w : WorkTodo) → ((next_req_type w).0 ≡ no_request) ↔ IsDone w
unfolding next_req_type next_listed
next_req_type_none w = ground arith

-- A flag that makes nextReqType ask for a simple request is down afterwards, the other work as before.
pub next_req_type_once :
    (w : WorkTodo)
    → ((next_req_type w).0 ≡ acc_status_request → (next_req_type w).1.acc_status_todo ≡ false)
      × ((next_req_type w).0 ≡ executions_request → (next_req_type w).1.executions_todo ≡ false)
      × ((next_req_type w).0 ≡ orders_request → (next_req_type w).1.orders_todo ≡ false)
      × ((next_req_type w).1.hist_todo ≡ w.hist_todo)
unfolding next_req_type next_listed
next_req_type_once w = ground arith

-- The request types that a work file may name.
unfoldable pub is_known : Text → Bool
is_known t =
    text_eq t (bytes "contract_details")
    || (text_eq t (bytes "historical_data")
        || (text_eq t (bytes "place_order")
            || (text_eq t (bytes "market_data")
                || (text_eq t (bytes "opt_params")
                    || (text_eq t (bytes "account")
                        || (text_eq t (bytes "executions") || text_eq t (bytes "open_orders")))))))

-- How many elements of a work file are requests of a known type.
unfoldable pub count_known : List Element → ℕ
count_known [] = 0
count_known (other ∷ es) = count_known es
count_known (request n ∷ es) =
    let rest = count_known es in
    elim (n.type_attr) [ none ↦ rest | some t ↦ if is_known t then suc rest else rest ]
