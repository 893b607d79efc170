-- ===== src/Todo/Indexed.antt =====
-- The other lists of requests of src/tws_meta.cpp: ContractDetailsTodo, PlaceOrderTodo, OptParamsTodo
-- (a vector and the index of the request that is checked out) and MktDataTodo (a vector).
use twstools.Base.{
  ◌≤◌, ◌≡◌, refl, ap, sym, ◌∙◌, true, ◌&&◌, Option, none, some, List, [], ◌∷◌, ◌++◌, ◌>>=◌, ◌>>◌,
  assert, length, get_elem?, arith, Returns,
}
use twstools.Base.Int.{
  ℤ, pos, negsuc, ◌+ℤ◌, ◌-ℤ◌, ◌≤ℤ◌, ◌<ℤ◌, ltb_ℤ, leb_ℤ, to_int, to_int-id, int_max, int_laws,
  parts_of_eq, ℤ_ext,
}
use twstools.Base.Sorted.{get_elem?-some}

-- class ContractDetailsTodo, over the requests; PlaceOrderTodo and OptParamsTodo have the same fields.
pub record IndexedTodo (A : Type 0) : Type 0 where
  pub cur_index : ℤ
  pub requests : List A

cancel : (n i : ℤ) → n -ℤ (i +ℤ pos 1) -ℤ pos 1 ≡ n -ℤ i -ℤ pos 1 -ℤ pos 1
cancel n i = ℤ_ext _ _ (omega int_laws)

give_back : (n i : ℤ) → n -ℤ (i -ℤ pos 1) -ℤ pos 1 ≡ n -ℤ i -ℤ pos 1 +ℤ pos 1
give_back n i = ℤ_ext _ _ (omega int_laws)

module _ {A : Type 0} where
  unfoldable pub new_todo : IndexedTodo A
  new_todo = record { cur_index = negsuc 0; requests = [] }

  unfoldable pub count_left : IndexedTodo A → ℤ
  count_left t = to_int (pos (length t.requests) -ℤ t.cur_index -ℤ pos 1)

  unfoldable pub checkout : IndexedTodo A → Option (IndexedTodo A)
  unfolding count_left
  checkout t =
      assert (ltb_ℤ (pos 0) (count_left t)) >> some (record t { cur_index = t.cur_index +ℤ pos 1 })

  unfoldable pub repeat : IndexedTodo A → Option (IndexedTodo A)
  repeat t =
      assert (ltb_ℤ (pos 0) t.cur_index) >> some (record t { cur_index = t.cur_index -ℤ pos 1 })

  -- The element at an index that may be negative.
  unfoldable pub at_index : List A → ℤ → Option A
  at_index xs (pos i) = get_elem? xs i
  at_index xs (negsuc i) = none

  unfoldable pub current : IndexedTodo A → Option A
  unfolding at_index
  current t =
      assert (leb_ℤ (pos 0) t.cur_index && ltb_ℤ t.cur_index (to_int (pos (length t.requests))))
      >> at_index t.requests t.cur_index

  unfoldable pub add : A → IndexedTodo A → IndexedTodo A
  add a t = record t { requests = t.requests ++ a ∷ [] }

  -- The index is -1 or that of a request, and the requests can be counted in an int.
  pub record IsIndexed (t : IndexedTodo A) : Type 0 where
    pub lower : negsuc 0 ≤ℤ t.cur_index
    pub upper : t.cur_index <ℤ pos (length t.requests)
    pub short : length t.requests ≤ int_max

  -- countLeft is the number of requests behind the current one.
  pub count_left_lem :
      (t : IndexedTodo A)
      → IsIndexed t
      → count_left t ≡ pos (length t.requests) -ℤ t.cur_index -ℤ pos 1
  unfolding count_left
  count_left_lem t ok = to_int-id _ (omega int_laws, omega int_laws)

  at_index-some :
      (xs : List A) (i : ℤ) → pos 0 ≤ℤ i → i <ℤ pos (length xs) → (a : A) × (at_index xs i ≡ some a)
  unfolding at_index
  at_index-some xs (pos i) h k = get_elem?-some xs i (omega arith)
  at_index-some xs (negsuc i) h k = absurd (omega arith)

  -- A request is there to be read once one is checked out.
  current_there :
      (t : IndexedTodo A) → IsIndexed t → pos 0 ≤ℤ t.cur_index → (a : A) × (current t ≡ some a)
  unfolding current
  current_there t ok h =
      let (a, e) = at_index-some t.requests t.cur_index h ok.upper in
      let lower : leb_ℤ (pos 0) t.cur_index ≡ true = ground (arith, h) in
      let fits : to_int (pos (length t.requests)) ≡ pos (length t.requests) =
        to_int-id _ (omega arith, omega arith) in
      let upper : ltb_ℤ t.cur_index (pos (length t.requests)) ≡ true = ground (arith, ok.upper) in
      (a, rw (fits, lower, upper, e) refl)

  -- With an index in range, and countLeft positive, checkout returns; it lowers countLeft by one, and there is a current
  -- request from then on.
  pub indexed_checkout_lem :
      (t : IndexedTodo A)
      → IsIndexed t
      → pos 0 <ℤ count_left t
      → Returns
          (λ t'.
            IsIndexed t'
            × (count_left t' ≡ count_left t -ℤ pos 1)
            × ((a : A) × (current t' ≡ some a)))
          (checkout t)
  unfolding checkout
  indexed_checkout_lem t ok left =
      let here = count_left_lem t ok in
      let more : ltb_ℤ (pos 0) (count_left t) ≡ true = ground (arith, left) in
      let t' = record t { cur_index = t.cur_index +ℤ pos 1 } in
      let ok' : IsIndexed t' = record {
        lower = omega int_laws;
        upper = omega (int_laws, parts_of_eq here);
        short = ok.short;
      } in
      rw more (
        ok',
        count_left_lem t' ok'
            ∙ cancel (pos (length t.requests)) t.cur_index
            ∙ sym (ap (λ n. n -ℤ pos 1) here),
        current_there t' ok' (omega int_laws),
      )

  -- repeat returns once a request but the first is checked out, and one more is left behind it.
  pub indexed_repeat_lem :
      (t : IndexedTodo A)
      → IsIndexed t
      → pos 0 <ℤ t.cur_index
      → Returns (λ t'. IsIndexed t' × (count_left t' ≡ count_left t +ℤ pos 1)) (repeat t)
  unfolding repeat
  indexed_repeat_lem t ok h =
      let more : ltb_ℤ (pos 0) t.cur_index ≡ true = ground (arith, h) in
      let t' = record t { cur_index = t.cur_index -ℤ pos 1 } in
      let ok' : IsIndexed t' = record {
        lower = omega int_laws;
        upper = omega int_laws;
        short = ok.short;
      } in
      rw more (
        ok',
        count_left_lem t' ok'
            ∙ give_back (pos (length t.requests)) t.cur_index
            ∙ sym (ap (λ n. n +ℤ pos 1) (count_left_lem t ok)),
      )

  -- repeat aborts while the first request of the list is checked out.
  pub repeat_aborts : (a : A) → (checkout (add a new_todo) >>= repeat) ≡ none
  unfolding checkout add new_todo repeat to_int ◌-ℤ◌ ◌+ℤ◌
  repeat_aborts a = refl
