-- ===== src/Todo/Tests.antt =====
-- Examples for the lists of requests of src/tws_meta.cpp.
use twstools.Base.{
  ℕ, ◌+◌, ◌*◌, ◌≡◌, refl, true, false, none, some, List, [], ◌∷◌, Returns, IfReturns, is_none, not,
}
use twstools.Base.Int.{ℤ, pos}
use twstools.Base.Text.{bytes}
use twstools.Samples.{contract_a, request_a, request_b}
use twstools.Packets.{err_timeout}
use twstools.Todo.Hist.{HistTodo, new_hist_todo, add, tell_done, checkout, skip_by_perm}
use twstools.Todo.Hist.Places.{IsKept, new-IsKept, add-IsKept, times, checkout_lem, tell_done_lem}
use twstools.Todo.Hist.Perm.{IsNamed, IsSameProduct, GivenUp, skip_by_perm-GivenUp}
use twstools.Todo.Hist.Board.{standing, standing_of}
use twstools.Todo.Hist.Play.{
  Call, call_add, call_checkout, call_done, call_cancel, call_skip_perm, run_call, run_calls,
}
use twstools.Todo.Hist.Refine.{
  Play, board, run_calls-Play, run_calls-settled, is_settled, is_paced, can_run, run_call-aborts,
}
use twstools.Todo.Work.{WorkTodo, new_work_todo, Element, Node, request, other}
use twstools.Todo.Finish.{fin_hist, Gone, fin_hist_lem}

-- Two open requests, and the first of them checked out.
abbrev two_open : HistTodo
two_open = record {
  store = request_a ∷ request_b ∷ [];
  done_requests = [];
  left_requests = 0 ∷ 1 ∷ [];
  error_requests = [];
  checked_out_request = none;
}

two_open-IsKept : IsKept two_open
unfolding new_hist_todo add
two_open-IsKept =
    add-IsKept request_b (add request_a new_hist_todo)
      (add-IsKept request_a new_hist_todo new-IsKept)

abbrev one_out : HistTodo
one_out = record two_open { left_requests = 1 ∷ []; checked_out_request = some 0 }

one_out-IsKept : IsKept one_out
unfolding checkout
one_out-IsKept = (checkout_lem two_open 0 (1 ∷ []) two_open-IsKept refl refl).0

-- The first is done.
abbrev one_done : HistTodo
one_done = record one_out { done_requests = 0 ∷ []; checked_out_request = none }

one_done-IsKept : IsKept one_done
unfolding tell_done
one_done-IsKept = (tell_done_lem one_out 0 one_out-IsKept refl).0

-- The first request is given back and taken again, then all are done with.
abbrev some_calls : List Call
some_calls =
    call_checkout
    ∷ call_cancel (pos 0)
    ∷ call_checkout
    ∷ call_done
    ∷ call_skip_perm contract_a
    ∷ call_add request_a
    ∷ []

run_calls-Play_example :
    IfReturns
      (λ t'. IsKept t' × Play some_calls (board two_open) (board t'))
      (run_calls some_calls two_open)
run_calls-Play_example = run_calls-Play some_calls two_open two_open-IsKept

run_calls-settled_example :
    IfReturns (λ t'. standing 0 t' ≡ standing 0 one_done) (run_calls some_calls one_done)
unfolding standing standing_of is_settled times
run_calls-settled_example = run_calls-settled some_calls one_done 0 one_done-IsKept refl

run_call-aborts_example : is_none (run_call call_done two_open) ≡ not (can_run call_done two_open)
unfolding is_paced
run_call-aborts_example = run_call-aborts call_done two_open two_open-IsKept refl

fin_hist_lem_example : Returns (Gone err_timeout 0 one_out) (fin_hist err_timeout one_out)
fin_hist_lem_example = fin_hist_lem err_timeout one_out 0 one_out-IsKept refl

skip_by_perm-GivenUp_example :
    Returns
      (λ r.
        ((IsNamed contract_a → ⊥) → r ≡ (0, two_open))
        × (IsNamed contract_a → GivenUp (IsSameProduct contract_a) two_open r))
      (skip_by_perm contract_a two_open)
skip_by_perm-GivenUp_example = skip_by_perm-GivenUp contract_a two_open two_open-IsKept

-- A clock that goes on by a tenth of a second at each look.
abbrev ticking : ℕ → ℤ
ticking i = pos (1000000 + 100 * i)

abbrev node_a : Node
node_a = record {
  type_attr = some (bytes "historical_data");
  contract_details = record { contract = contract_a };
  historical_data = request_a;
  place_order = record {
    order_id = pos 0;
    time_sent = pos 0;
    contract = contract_a;
    order = record {
      perm_id = pos 0;
      action = bytes "BUY";
      total_quantity = 0;
      transmit = false;
      what_if = false;
    };
  };
  market_data = record { ib_contract = contract_a; generic_ticks = []; snapshot = false };
  opt_params = record { ib_contract = contract_a };
}

abbrev work_file : List Element
work_file = request node_a ∷ other ∷ []

abbrev some_work : WorkTodo
some_work = record new_work_todo { executions_todo = true; hist_todo = two_open }
