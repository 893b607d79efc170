-- ===== src/Twsdo/Quitting.antt =====
-- TwsDL::idle of src/twsdo.cpp: when the program is done.
use twstools.Base.{
  ◌≡◌, refl, sym, ap, ◌∙◌, ◌↔◌, inl, inr, true, false, none, some, List, [], ◌∷◌, arith, Bool-cases,
}
use twstools.Base.Int.{pos, ◌≤ℤ◌}
use twstools.Todo.Indexed
use twstools.Todo.Work.{
  ReqType, no_request, acc_status_request, executions_request, orders_request,
  contract_details_request, hist_request, opt_params_request, next_req_type,
}
use twstools.Todo.Work.Laws.{IsDone, next_req_type_none}
use twstools.Packets.Lists.{no_rows}
use twstools.Twsdo.{TwsDl}
use twstools.Twsdo.Finish.{is_open}
use twstools.Twsdo.Loop.{Outside, Round, ask_once, start_request, quit_if_done, idle_connected}

-- Nothing is left of the work of `t`, and in `s`, behind what the round started, no order is left or open.
pub record IsOver (t s : TwsDl) : Type 0 where
  pub work : IsDone t.work_todo
  pub mkt_data : s.mkt_req_id ≤ℤ pos 1
  pub orders : Indexed.count_left s.work_todo.place_order_todo ≤ℤ pos 0
  pub p_orders : s.p_orders ≡ []

no_rows-eq : {A : Type 0} (xs : List A) → (no_rows xs ≡ true) ↔ (xs ≡ [])
no_rows-eq [] = (λ h. refl, λ h. refl)
no_rows-eq (x ∷ xs) = (λ h. ground (arith, h), λ h. ap no_rows h)

not_open : (type : ReqType) → is_open type ≡ false → type ≡ no_request
not_open no_request h = refl
not_open acc_status_request h = ground (arith, h)
not_open executions_request h = ground (arith, h)
not_open orders_request h = ground (arith, h)
not_open contract_details_request h = ground (arith, h)
not_open hist_request h = ground (arith, h)
not_open opt_params_request h = ground (arith, h)

closed_open : (type : ReqType) → is_open type ≡ true → type ≡ no_request → ⊥
closed_open type h e = ground (arith, h, ap is_open e)

-- The end of idle when something was to be asked.
still_open :
    (type : ReqType) (s : TwsDl)
    → is_open type ≡ true
    → s.quit ≡ false
    → ((quit_if_done type s).quit ≡ true) ↔ (type ≡ no_request)
unfolding quit_if_done
still_open type s h going =
    rw (h) (λ q. ground (arith, going, q), λ e. ground (arith, h, ap is_open e))

-- The end of idle when nothing was to be asked.
all_asked :
    (s : TwsDl)
    → s.quit ≡ false
    → ((quit_if_done no_request s).quit ≡ true) ↔ (
        (s.mkt_req_id ≤ℤ pos 1)
        × (Indexed.count_left s.work_todo.place_order_todo ≤ℤ pos 0)
        × (s.p_orders ≡ []))
unfolding quit_if_done
all_asked s going = ground (arith, going, no_rows-eq s.p_orders)

-- A round with a live connection and nothing open: when the requests for market data, and what is asked
-- next, return, and the strategy does not set quit itself, then idle sets quit exactly when nothing was
-- left of any kind of request, the id behind the market data is at most 1, countLeft of the orders is not
-- positive, and no order is in p_orders.
pub idle_connected_quits :
    (o : Outside) (r : Round) (t₀ t s t' : TwsDl)
    → ask_once t₀ ≡ some t
    → start_request o r
        (next_req_type t.work_todo).0
        (record t { work_todo = (next_req_type t.work_todo).1 })
      ≡ some s
    → s.quit ≡ false
    → idle_connected o r t₀ ≡ some t'
    → (t'.quit ≡ true) ↔ IsOver t s
unfolding idle_connected
idle_connected_quits o r t₀ t s t' asked started going ended =
    let type = (next_req_type t.work_todo).0 in
    let step : idle_connected o r t₀ ≡ some (quit_if_done type s) =
      rw (idle_connected, asked, started) refl in
    let same : quit_if_done type s ≡ t' =
      ap (λ o. elim o [ none ↦ s | some u ↦ u ]) (sym step ∙ ended) in
    let none_iff = next_req_type_none t.work_todo in
    elim (Bool-cases (is_open type)) [
      | inl h ↦ (
        λ q.
            absurd (closed_open type h ((still_open type s h going).0 (ap (λ u. u.quit) same ∙ q))),
        λ over. absurd (closed_open type h (none_iff.1 over.work)),
      )
      | inr h ↦ (
        λ q.
            let left = (all_asked s going).0 (
              ap (λ c. (quit_if_done c s).quit) (sym (not_open type h))
              ∙ ap (λ u. u.quit) same
              ∙ q) in
            record {
              work = none_iff.0 (not_open type h);
              mkt_data = left.0;
              orders = left.1;
              p_orders = left.2;
            },
        λ over.
            sym (ap (λ u. u.quit) same)
            ∙ ap (λ c. (quit_if_done c s).quit) (not_open type h)
            ∙ (all_asked s going).1 (over.mkt_data, over.orders, over.p_orders),
      )
    ]
