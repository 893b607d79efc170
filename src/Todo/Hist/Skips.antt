-- ===== src/Todo/Hist/Skips.antt =====
-- HistTodo::skip_by_perm and skip_by_nodata (src/tws_meta.cpp): which requests they give up.
use twstools.Base.{
  ℕ, ◌+◌, ◌≤◌, ◌<◌, ◌≡◌, refl, inl, inr, Bool, true, false, none, some, List, [], ◌∷◌, ◌++◌, arith,
  length, get_elem?, keep_if, drop_if, Returns, Returns-map, Bool-cases,
}
use mathlib.Core.List.{append_assoc, append-nil}
use twstools.Base.Sorted.{get_elem?-some}
use twstools.Requests.{Contract, HistRequest}
use twstools.Todo.Hist.{
  HistTodo, skip_loop, skip, skip_by_perm, skip_by_nodata, is_partial, same_product, same_data,
}
use twstools.Todo.Hist.Places.{times, times-append, IsKept, left_allocated}

-- The test at an address.
unfoldable pub test_at : (HistRequest → Bool) → List HistRequest → ℕ → Bool
test_at test store p = elim (get_elem? store p) [ none ↦ false | some hr ↦ test hr ]

pub times-split :
    (test : ℕ → Bool) (p : ℕ) (xs : List ℕ)
    → times p (keep_if test xs) + times p (drop_if test xs) ≡ times p xs
unfolding keep_if drop_if times
times-split test p [] = omega arith
times-split test p (x ∷ xs) = ground (arith, times-split test p xs)

skip_loop_lem :
    (test : HistRequest → Bool) (store : List HistRequest) (left errors : List ℕ)
    → ((p : ℕ) → 1 ≤ times p left → p < length store)
    → skip_loop test store left errors
      ≡ some (
        length (keep_if (test_at test store) left),
        drop_if (test_at test store) left,
        errors ++ keep_if (test_at test store) left,
      )
unfolding skip_loop keep_if drop_if times test_at
skip_loop_lem test store [] errors there = rw append-nil refl
skip_loop_lem test store (p ∷ left) errors there =
    let (hr, e) = get_elem?-some store p (there p (ground arith)) in
    let same : test_at test store p ≡ test hr = rw (e, test_at) refl in
    let rest : (q : ℕ) → 1 ≤ times q left → q < length store = λ q h. there q (omega arith) in
    elim (Bool-cases (test hr)) [
      | inl hit ↦
          rw
            (
              e,
              same,
              hit,
              skip_loop,
              skip_loop_lem test store left (errors ++ p ∷ []) rest,
              append_assoc,
            )
            refl
      | inr miss ↦ rw (e, same, miss, skip_loop, skip_loop_lem test store left errors rest) refl
    ]

-- What giving up the requests that pass a test means: they go behind the errors, in order, the others
-- stay, in order, and the result is how many went.
pub record Skipped (test : HistRequest → Bool) (t : HistTodo) (r : ℕ × HistTodo) : Type 0 where
  pub kept : IsKept r.1
  pub count : r.0 ≡ length (keep_if (test_at test t.store) t.left_requests)
  pub left : r.1.left_requests ≡ drop_if (test_at test t.store) t.left_requests
  pub errors :
      r.1.error_requests ≡ t.error_requests ++ keep_if (test_at test t.store) t.left_requests
  pub done : r.1.done_requests ≡ t.done_requests
  pub out : r.1.checked_out_request ≡ t.checked_out_request

skip_lem :
    (test : HistRequest → Bool) (t : HistTodo)
    → IsKept t
    → Returns (Skipped test t) (skip false test t)
unfolding skip
skip_lem test t k =
    let keeps = keep_if (test_at test t.store) t.left_requests in
    rw
      (
        skip_loop_lem test t.store t.left_requests t.error_requests (λ p. left_allocated t p k),
        skip,
      )
      (record {
        kept = λ p. omega (
          arith,
          k p,
          times-append p t.error_requests keeps,
          times-split (test_at test t.store) p t.left_requests,
        );
        count = refl;
        left = refl;
        errors = refl;
        done = refl;
        out = refl;
      })

skip_cases :
    (nothing : Bool) (test : HistRequest → Bool) (t : HistTodo)
    → IsKept t
    → Returns
        (λ r. (nothing ≡ true → r ≡ (0, t)) × (nothing ≡ false → Skipped test t r))
        (skip nothing test t)
unfolding skip
skip_cases true test t k = (λ h. refl, λ h. cc)
skip_cases false test t k =
    Returns-map (Skipped test t) _ (λ r s. (λ h. cc, λ h. s)) (skip false test t)
      (skip_lem test t k)

-- With every request in one place, skip_by_perm returns. Of a contract with symbol, secType and exchange it gives up every open
-- request for the same three, of any other contract none; every request is still in one place.
pub skip_by_perm_lem :
    (con : Contract) (t : HistTodo)
    → IsKept t
    → Returns
        (λ r.
          (is_partial con ≡ true → r ≡ (0, t))
          × (is_partial con ≡ false → Skipped (same_product con) t r))
        (skip_by_perm con t)
unfolding skip_by_perm
skip_by_perm_lem con t k = skip_cases (is_partial con) (same_product con) t k

-- With every request in one place, skip_by_nodata returns. For a request whose contract has symbol, secType and exchange it
-- gives up every open request for the same contract and the same data, where bid and ask are the
-- same; for any other request none. Every request is still in one place.
pub skip_by_nodata_lem :
    (hr : HistRequest) (t : HistTodo)
    → IsKept t
    → Returns
        (λ r.
          (is_partial hr.ib_contract ≡ true → r ≡ (0, t))
          × (is_partial hr.ib_contract ≡ false → Skipped (same_data hr) t r))
        (skip_by_nodata hr t)
unfolding skip_by_nodata
skip_by_nodata_lem hr t k = skip_cases (is_partial hr.ib_contract) (same_data hr) t k
