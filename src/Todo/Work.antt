-- ===== src/Todo/Work.antt =====
-- class GenericRequest and class WorkTodo (src/tws_meta.cpp). What a request node of the work file
-- holds is read by src/tws_xml.cpp; here it is the result of that, a Node.
pub mod Laws
use twstools.Base.{
  ℕ, suc, ◌+◌, ◌≡◌, refl, Bool, true, false, Option, none, some, List, [], ◌∷◌, ◌++◌, if◌then◌else◌,
  ◌>>=◌, arith, length,
}
use twstools.Base.Int.{ℤ, pos, ◌+ℤ◌, ◌-ℤ◌, ltb_ℤ, to_int}
use twstools.Base.Text.{Text, bytes, text_eq}
use twstools.Requests.{
  HistRequest, PlaceOrder, MktDataRequest, ContractDetailsRequest, OptParamsRequest,
}
use twstools.Todo.Hist.{HistTodo, new_hist_todo}
use twstools.Todo.Hist
use twstools.Todo.Indexed.{IndexedTodo, new_todo}
use twstools.Todo.Indexed

-- GenericRequest::ReqType; NONE is `no_request`.
pub data ReqType : Type 0 where
  no_request acc_status_request executions_request orders_request contract_details_request
        hist_request opt_params_request :
      ReqType

-- class GenericRequest
pub record GenericRequest : Type 0 where
  pub req_type : ReqType
  pub req_id : ℤ
  pub ctime : ℤ

unfoldable pub new_request : GenericRequest
new_request = record { req_type = no_request; req_id = pos 0; ctime = pos 0 }

unfoldable pub age : ℤ → GenericRequest → ℤ
age now r = to_int (now -ℤ r.ctime)

unfoldable pub next_request : ℤ → ReqType → GenericRequest → GenericRequest
next_request now t r = record { req_type = t; req_id = to_int (r.req_id +ℤ pos 1); ctime = now }

unfoldable pub close : GenericRequest → GenericRequest
close r = record r { req_type = no_request }

-- The lists of placed orders, of option parameters and of market data to ask for.
abbrev pub PlaceOrderTodo : Type 0
PlaceOrderTodo = IndexedTodo PlaceOrder

abbrev pub OptParamsTodo : Type 0
OptParamsTodo = IndexedTodo OptParamsRequest

abbrev pub MktDataTodo : Type 0
MktDataTodo = List MktDataRequest

-- class WorkTodo
pub record WorkTodo : Type 0 where
  pub acc_status_todo : Bool
  pub executions_todo : Bool
  pub orders_todo : Bool
  pub contract_details_todo : IndexedTodo ContractDetailsRequest
  pub hist_todo : HistTodo
  pub place_order_todo : PlaceOrderTodo
  pub market_data_todo : MktDataTodo
  pub opt_params_todo : OptParamsTodo

unfoldable pub new_work_todo : WorkTodo
new_work_todo = record {
  acc_status_todo = false;
  executions_todo = false;
  orders_todo = false;
  contract_details_todo = new_todo;
  hist_todo = new_hist_todo;
  place_order_todo = new_todo;
  market_data_todo = [];
  opt_params_todo = new_todo;
}

-- The part of nextReqType behind the three flags.
unfoldable pub next_listed : WorkTodo → ReqType
next_listed w =
    if ltb_ℤ (pos 0) (Indexed.count_left w.contract_details_todo)
    then contract_details_request
    else (if ltb_ℤ (pos 0) (Indexed.count_left w.opt_params_todo)
        then opt_params_request
        else (if ltb_ℤ (pos 0) (Hist.count_left w.hist_todo) then hist_request else no_request))

unfoldable pub next_req_type : WorkTodo → ReqType × WorkTodo
next_req_type w =
    if w.acc_status_todo
    then (acc_status_request, record w { acc_status_todo = false })
    else (if w.executions_todo
        then (executions_request, record w { executions_todo = false })
        else (if w.orders_todo
            then (orders_request, record w { orders_todo = false })
            else (next_listed w, w)))

unfoldable pub add_simple_request : ReqType → WorkTodo → Option WorkTodo
add_simple_request acc_status_request w = some (record w { acc_status_todo = true })
add_simple_request executions_request w = some (record w { executions_todo = true })
add_simple_request orders_request w = some (record w { orders_todo = true })
add_simple_request _ w = none

-- A `request` element: its type attribute, and what each fromXml reads from it.
pub record Node : Type 0 where
  pub type_attr : Option Text
  pub contract_details : ContractDetailsRequest
  pub historical_data : HistRequest
  pub place_order : PlaceOrder
  pub market_data : MktDataRequest
  pub opt_params : OptParamsRequest

-- The end of the chain of strcmp of read_req.
unfoldable pub read_simple : Text → WorkTodo → Option (ℤ × WorkTodo)
read_simple t w =
    if text_eq t (bytes "account")
    then (add_simple_request acc_status_request w >>= λ w'. some (pos 1, w'))
    else (if text_eq t (bytes "executions")
        then (add_simple_request executions_request w >>= λ w'. some (pos 1, w'))
        else (if text_eq t (bytes "open_orders")
            then (add_simple_request orders_request w >>= λ w'. some (pos 1, w'))
            else some (pos 0, w)))

-- Its start, on a node that has the attribute.
unfoldable pub read_typed : Text → Node → WorkTodo → Option (ℤ × WorkTodo)
read_typed t n w =
    if text_eq t (bytes "contract_details")
    then some (
      pos 1,
      record w { contract_details_todo = Indexed.add n.contract_details w.contract_details_todo },
    )
    else (if text_eq t (bytes "historical_data")
        then some (pos 1, record w { hist_todo = Hist.add n.historical_data w.hist_todo })
        else (if text_eq t (bytes "place_order")
            then some (
              pos 1,
              record w { place_order_todo = Indexed.add n.place_order w.place_order_todo },
            )
            else (if text_eq t (bytes "market_data")
                then some (
                  pos 1,
                  record w {
                    market_data_todo = w.market_data_todo ++ n.market_data ∷ [];
                    contract_details_todo = Indexed.add n.contract_details w.contract_details_todo;
                  },
                )
                else (if text_eq t (bytes "opt_params")
                    then some (
                      pos 1,
                      record w { opt_params_todo = Indexed.add n.opt_params w.opt_params_todo },
                    )
                    else read_simple t w))))

unfoldable pub read_req : Node → WorkTodo → Option (ℤ × WorkTodo)
read_req n w = elim (n.type_attr) [ none ↦ some (pos 0, w) | some t ↦ read_typed t n w ]

-- An element of the work file that is not a request is ignored with a warning.
pub data Element : Type 0 where
  request : Node → Element
  other : Element

-- The loop of read_file, on the elements of a file that could be opened.
unfoldable pub read_elements : List Element → WorkTodo → ℤ → Option (ℤ × WorkTodo)
read_elements [] w n = some (n, w)
read_elements (other ∷ es) w n = read_elements es w n
read_elements (request x ∷ es) w n = read_req x w >>= λ r. read_elements es r.1 (to_int (n +ℤ r.0))

-- read_file, on the elements of the file, or none if it cannot be opened.
unfoldable pub read_file : Option (List Element) → WorkTodo → Option (ℤ × WorkTodo)
read_file none w = some (ℤ.negsuc 0, w)
read_file (some es) w = read_elements es w (pos 0)
