-- ===== src/Todo/Hist/Perm.antt =====
-- HistTodo::skip_by_perm (src/tws_meta.cpp), against a description of the requests that it gives up.
use twstools.Base.{
  ℕ, ◌≤◌, ◌<◌, ◌≡◌, ◌≢◌, ◌↔◌, refl, ◌∙◌, inl, inr, Bool, true, false, some, List, [], ◌∷◌, ◌++◌,
  arith, length, get_elem?, keep_if, drop_if, Returns, Returns-map, Bool-cases,
}
use twstools.Base.Sorted.{get_elem?-some}
use twstools.Base.Text.{Text, empty, empty_iff, same_case}
use twstools.Requests.{Contract, HistRequest}
use twstools.Todo.Hist.{HistTodo, skip_by_perm, is_partial, same_product}
use twstools.Todo.Hist.Places.{times, IsKept, left_allocated}
use twstools.Todo.Hist.Skips.{test_at, skip_by_perm_lem}

-- All three names are given.
pub record IsNamed (con : Contract) : Type 0 where
  pub symbol : con.symbol ≢ []
  pub sec_type : con.sec_type ≢ []
  pub exchange : con.exchange ≢ []

-- A request for the same symbol, secType and exchange, whatever the case of their letters.
pub record IsSameProduct (con : Contract) (hr : HistRequest) : Type 0 where
  pub symbol : same_case hr.ib_contract.symbol con.symbol ≡ true
  pub sec_type : same_case hr.ib_contract.sec_type con.sec_type ≡ true
  pub exchange : same_case hr.ib_contract.exchange con.exchange ≡ true

-- A list of requests, those that stay in it, and those that go since P is true of them, both in order.
pub data Splits (P : HistRequest → Type 0) (store : List HistRequest)
    : List ℕ → List ℕ → List ℕ → Type 0 where
  at_end : Splits P store [] [] []
  goes :
      (p : ℕ) (hr : HistRequest) (left stay gone : List ℕ)
      → get_elem? store p ≡ some hr
      → P hr
      → Splits P store left stay gone
      → Splits P store (p ∷ left) stay (p ∷ gone)
  stays :
      (p : ℕ) (hr : HistRequest) (left stay gone : List ℕ)
      → get_elem? store p ≡ some hr
      → (P hr → ⊥)
      → Splits P store left stay gone
      → Splits P store (p ∷ left) (p ∷ stay) gone

-- The open requests of which P is true are given up: they go behind the errors, and are counted.
pub record GivenUp (P : HistRequest → Type 0) (t : HistTodo) (r : ℕ × HistTodo) : Type 0 where
  pub kept : IsKept r.1
  pub gone : List ℕ
  pub split : Splits P t.store t.left_requests r.1.left_requests gone
  pub count : r.0 ≡ length gone
  pub errors : r.1.error_requests ≡ t.error_requests ++ gone
  pub done : r.1.done_requests ≡ t.done_requests
  pub out : r.1.checked_out_request ≡ t.checked_out_request

Splits-of :
    (P : HistRequest → Type 0) (test : HistRequest → Bool) (store : List HistRequest)
    (left : List ℕ)
    → ((hr : HistRequest) → (test hr ≡ true) ↔ P hr)
    → ((p : ℕ) → 1 ≤ times p left → p < length store)
    → Splits P store left (drop_if (test_at test store) left) (keep_if (test_at test store) left)
unfolding keep_if drop_if times test_at
Splits-of P test store [] iff there = at_end
Splits-of P test store (p ∷ left) iff there =
    let (hr, e) = get_elem?-some store p (there p (ground arith)) in
    let same : test_at test store p ≡ test hr = rw (e, test_at) refl in
    let rest = Splits-of P test store left iff (λ q h. there q (omega arith)) in
    elim (Bool-cases (test hr)) [
      | inl hit ↦ rw (same ∙ hit) (goes p hr left _ _ e ((iff hr).0 hit) rest)
      | inr miss ↦
          rw (same ∙ miss)
            (stays p hr left _ _ e (λ h. let yes = (iff hr).1 h in ground (arith, yes, miss)) rest)
    ]

same_product_iff :
    (con : Contract) (hr : HistRequest) → (same_product con hr ≡ true) ↔ IsSameProduct con hr
unfolding same_product
same_product_iff con hr = ground arith

given : (s : Text) → s ≢ [] → empty s ≡ false
given [] n = absurd (n refl)
given (c ∷ s) n = refl

is_partial_iff : (con : Contract) → (is_partial con ≡ false) ↔ IsNamed con
unfolding is_partial
is_partial_iff con = (
  (λ h. record {
    symbol = λ e. let yes = (empty_iff con.symbol).1 e in ground (arith, h, yes);
    sec_type = λ e. let yes = (empty_iff con.sec_type).1 e in ground (arith, h, yes);
    exchange = λ e. let yes = (empty_iff con.exchange).1 e in ground (arith, h, yes);
  }),
  (λ n. ground (
    arith,
    given con.symbol n.symbol,
    given con.sec_type n.sec_type,
    given con.exchange n.exchange,
  )),
)

-- With every request in one place, skip_by_perm returns. For a contract with symbol, secType and exchange it
-- gives up just the open requests that have the same three, whatever the case of their letters: they go
-- behind the errors in order, the others stay in order, the result is how many went, and every
-- request is still in one place. For a contract that lacks one of the three nothing is changed.
pub skip_by_perm-GivenUp :
    (con : Contract) (t : HistTodo)
    → IsKept t
    → Returns
        (λ r. ((IsNamed con → ⊥) → r ≡ (0, t)) × (IsNamed con → GivenUp (IsSameProduct con) t r))
        (skip_by_perm con t)
skip_by_perm-GivenUp con t k =
    Returns-map _ _
      (λ r h. (
        (λ no. elim (Bool-cases (is_partial con)) [
          | inl partial ↦ h.0 partial
          | inr whole ↦ absurd (no ((is_partial_iff con).0 whole))
        ]),
        (λ named.
            let s = h.1 ((is_partial_iff con).1 named) in
            record {
              kept = s.kept;
              gone = keep_if (test_at (same_product con) t.store) t.left_requests;
              split = rw s.left (
                  Splits-of (IsSameProduct con) (same_product con) t.store t.left_requests
                    (same_product_iff con) (λ p. left_allocated t p k));
              count = s.count;
              errors = s.errors;
              done = s.done;
              out = s.out;
            }),
      ))
      (skip_by_perm con t) (skip_by_perm_lem con t k)
