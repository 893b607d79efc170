-- ===== src/Todo/Hist.antt =====
-- class HistTodo (src/tws_meta.cpp). The requests that `add` allocates stand in `store`, the address of
-- one is its index there, and the three std::lists and checkedOutRequest hold addresses.
pub mod Places
pub mod Skips
pub mod Perm
pub mod Choice
pub mod Outcome
pub mod Board
pub mod Play
pub mod Refine
use twstools.Base.{
  ℕ, suc, ◌==◌, Bool, true, false, not, ◌&&◌, ◌||◌, Option, none, some, List, [], ◌∷◌, ◌++◌,
  if◌then◌else◌, ◌>>=◌, ◌>>◌, assert, is_none, length, get_elem?,
}
use twstools.Base.Int.{ℤ, pos, ◌+ℤ◌, ltb_ℤ, leb_ℤ, to_int}
use twstools.Base.Text.{Text, bytes, empty, same_case}
use twstools.Base.Map.{Map, find, insert, text_key}
use twstools.Requests.{Contract, HistRequest}
use twstools.Farms.{DataFarmStates, get_hmds_farm, lazy_contract_str}
use twstools.Pacing.God.{PacingGod}
use twstools.Pacing.God

pub record HistTodo : Type 0 where
  pub store : List HistRequest
  pub done_requests : List ℕ
  pub left_requests : List ℕ
  pub error_requests : List ℕ
  pub checked_out_request : Option ℕ

unfoldable pub new_hist_todo : HistTodo
new_hist_todo = record {
  store = [];
  done_requests = [];
  left_requests = [];
  error_requests = [];
  checked_out_request = none;
}

unfoldable pub count_done : HistTodo → ℤ
count_done t = to_int (pos (length t.done_requests))

unfoldable pub count_left : HistTodo → ℤ
count_left t = to_int (pos (length t.left_requests))

-- front() and pop_front(); they are undefined on an empty list.
unfoldable pub checkout : HistTodo → Option HistTodo
checkout t = elim (t.checked_out_request) [
  | some _ ↦ none
  | none ↦ elim (t.left_requests) [
    | [] ↦ none
    | p ∷ left ↦ some (record t { left_requests = left; checked_out_request = some p })
  ]
]

unfoldable pub cancel_for_repeat : ℤ → HistTodo → Option HistTodo
cancel_for_repeat priority t = elim (t.checked_out_request) [
  | none ↦ none
  | some p ↦
      let back = record t { checked_out_request = none } in
      some (
        if leb_ℤ priority (pos 0)
        then record back { left_requests = p ∷ t.left_requests }
        else (if leb_ℤ priority (pos 1)
            then record back { left_requests = t.left_requests ++ p ∷ [] }
            else record back { error_requests = t.error_requests ++ p ∷ [] }))
]

unfoldable pub current : HistTodo → Option HistRequest
current t = t.checked_out_request >>= get_elem? t.store

unfoldable pub tell_done : HistTodo → Option HistTodo
tell_done t = elim (t.checked_out_request) [
  | none ↦ none
  | some p ↦
      some (record t { done_requests = t.done_requests ++ p ∷ []; checked_out_request = none })
]

unfoldable pub add : HistRequest → HistTodo → HistTodo
add hr t = record t {
  store = t.store ++ hr ∷ [];
  left_requests = t.left_requests ++ length t.store ∷ [];
}

-- The test before the loops of skip_by_perm and skip_by_nodata.
unfoldable pub is_partial : Contract → Bool
is_partial c = empty c.symbol || (empty c.sec_type || empty c.exchange)

-- The test in the loop of skip_by_perm.
unfoldable pub same_product : Contract → HistRequest → Bool
same_product con hr =
    let ci = hr.ib_contract in
    same_case ci.symbol con.symbol
    && (same_case ci.sec_type con.sec_type && same_case ci.exchange con.exchange)

unfoldable pub is_quote_req : HistRequest → Bool
is_quote_req hr = same_case hr.what_to_show (bytes "BID") || same_case hr.what_to_show (bytes "ASK")

-- The test in the loop of skip_by_nodata.
unfoldable pub same_data : HistRequest → HistRequest → Bool
same_data hr hi =
    let con = hr.ib_contract in
    let ci = hi.ib_contract in
    same_product con hi
    && (same_case ci.currency con.currency
        && (same_case ci.multiplier con.multiplier
            && (same_case ci.local_symbol con.local_symbol
                && ((is_quote_req hr && is_quote_req hi)
                    || same_case hr.what_to_show hi.what_to_show))))

-- The loops: how many requests pass the test, which are left, and the error list.
unfoldable pub skip_loop :
    (HistRequest → Bool) → List HistRequest → List ℕ → List ℕ → Option (ℕ × List ℕ × List ℕ)
skip_loop test store [] errors = some (0, [], errors)
skip_loop test store (p ∷ left) errors = get_elem? store p >>= λ hr. elim (test hr) [
  | true ↦ skip_loop test store left (errors ++ p ∷ []) >>= λ r. some (suc r.0, r.1, r.2)
  | false ↦ skip_loop test store left errors >>= λ r. some (r.0, p ∷ r.1, r.2)
]

unfoldable pub skip : Bool → (HistRequest → Bool) → HistTodo → Option (ℕ × HistTodo)
skip nothing test t =
    if nothing
    then some (0, t)
    else skip_loop test t.store t.left_requests t.error_requests >>= λ r.
        some (r.0, record t { left_requests = r.1; error_requests = r.2 })

unfoldable pub skip_by_perm : Contract → HistTodo → Option (ℕ × HistTodo)
skip_by_perm con = skip (is_partial con) (same_product con)

unfoldable pub skip_by_nodata : HistRequest → HistTodo → Option (ℕ × HistTodo)
skip_by_nodata hr = skip (is_partial hr.ib_contract) (same_data hr)

-- The farm of a request.
unfoldable pub request_farm : DataFarmStates → HistRequest → Text
request_farm d hr = get_hmds_farm d (lazy_contract_str hr.ib_contract)

-- countByFarm[farm]
unfoldable pub count_at : Text → Map Text ℤ → ℤ
count_at farm counts = elim (find farm counts) [ none ↦ pos 0 | some n ↦ n ]

-- The first loop of checkoutOpt: for each farm the first request of the list, and how many.
unfoldable pub tally :
    DataFarmStates
    → List HistRequest
    → List ℕ
    → Map Text ℕ
    → Map Text ℤ
    → Option (Map Text ℕ × Map Text ℤ)
tally d store [] hash counts = some (hash, counts)
tally d store (p ∷ left) hash counts = get_elem? store p >>= λ hr.
    let farm = request_farm d hr in
    elim (find farm hash) [
      | none ↦ tally d store left (insert farm p hash) (insert farm (pos 1) counts)
      | some _ ↦
          tally d store left hash (insert farm (to_int (count_at farm counts +ℤ pos 1)) counts)
    ]

-- Its second loop, over the farms in order. `clock i` is what nowInMsecs returns to the i-th call; the
-- result is the number of calls so far, the request chosen, and the pacing controls.
unfoldable pub choose :
    (ℕ → ℤ)
    → DataFarmStates
    → List HistRequest
    → Map Text ℤ
    → Map Text ℕ
    → ℕ
    → ℕ
    → ℤ
    → PacingGod
    → Option (ℕ × ℕ × PacingGod)
choose clock d store counts [] i todo count_todo g = some (i, todo, g)
choose clock d store counts ((farm, p) ∷ hash) i todo count_todo g = get_elem? store p >>= λ hr.
    God.count_left (clock i) d hr.ib_contract g >>= λ r. elim (ltb_ℤ (pos 0) r.0) [
      | false ↦ choose clock d store counts hash (suc i) todo count_todo r.1
      | true ↦ elim (empty farm) [
        | true ↦ some (suc i, p, r.1)
        | false ↦ elim (ltb_ℤ count_todo (count_at farm counts)) [
          | true ↦ choose clock d store counts hash (suc i) p (count_at farm counts) r.1
          | false ↦ choose clock d store counts hash (suc i) todo count_todo r.1
        ]
      ]
    ]

-- The loop that looks for the request in the list, the assert behind it, and leftRequests.erase.
unfoldable pub erase_ptr : ℕ → List ℕ → Option (List ℕ)
erase_ptr p [] = none
erase_ptr p (q ∷ left) =
    let rest = erase_ptr p left in if q == p then some left else rest >>= λ r. some (q ∷ r)

-- What follows in checkoutOpt, the first request of the list in todo_hR.
unfoldable pub checkout_best :
    (ℕ → ℤ) → DataFarmStates → PacingGod → ℕ → HistTodo → Option (ℤ × PacingGod × HistTodo)
checkout_best clock d g front t = do
  (hash, counts) ← tally d t.store t.left_requests [] []
  (i, todo, g₁) ← choose clock d t.store counts hash 0 front (pos 0) g
  left ← erase_ptr todo t.left_requests
  hr ← get_elem? t.store todo
  (wait, g₂) ← God.good_time (clock i) d hr.ib_contract g₁
  some (
    wait,
    g₂,
    (if leb_ℤ wait (pos 0)
        then record t { left_requests = left; checked_out_request = some todo }
        else t),
  )

unfoldable pub checkout_opt :
    (ℕ → ℤ) → DataFarmStates → PacingGod → HistTodo → Option (ℤ × PacingGod × HistTodo)
checkout_opt clock d g t =
    assert (is_none t.checked_out_request)
    >> elim (t.left_requests) [ [] ↦ none | front ∷ _ ↦ checkout_best clock d g front t ]
