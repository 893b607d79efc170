-- ===== src/Twsdo/Resent.antt =====
-- TwsDL::placeOrder (src/twsdo.cpp), when the work names the id of an order that is done.
use twstools.Base.{
  ℕ, ◌≡◌, ◌≢◌, refl, sym, ap, ◌∙◌, subst, false, Option, none, some, [], Returns, Returns-bind,
  arith,
}
use twstools.Base.Int.{ℤ, pos, eqb_ℤ, eqb_ℤ_iff}
use twstools.Base.Map.{find, insert, find-insert_self, int_key}
use twstools.Requests.{PlaceOrder}
use twstools.Rows.{RowError}
use twstools.Packets.{new_status, recording, err_none}
use twstools.Packets.Placing.{record_order}
use twstools.Todo.Indexed.{IndexedTodo, checkout, current}
use twstools.Twsdo.{TwsDl, send}
use twstools.Twsdo.Packets.{OrderPacket, new_order_packet}
use twstools.Twsdo.Errors.{on_order, error_place_order}
use twstools.Twsdo.Sending.{order_id_of, send_order, place_as, place_order}

-- A message about an id that is in both maps stops the program.
both-aborts :
    (id : ℤ) (f g : OrderPacket → Option OrderPacket) (t : TwsDl) (p q : OrderPacket)
    → find id t.p_orders ≡ some p
    → find id t.p_orders_old ≡ some q
    → on_order id f g t ≡ none
unfolding on_order
both-aborts id f g t p q e h = rw (e, h, on_order) refl

-- An order that names its id is sent under it.
own_id : (po : PlaceOrder) (t : TwsDl) → po.order_id ≢ pos 0 → order_id_of po t ≡ (po.order_id, t)
unfolding order_id_of
own_id po t h =
    let other : eqb_ℤ po.order_id (pos 0) ≡ false = ground (arith, eqb_ℤ_iff po.order_id (pos 0)) in
    rw other refl

sent-maps :
    (id : ℤ) (po : PlaceOrder) (t : TwsDl)
    → ((send_order id po t).p_orders ≡ t.p_orders)
      × ((send_order id po t).p_orders_old ≡ t.p_orders_old)
unfolding send_order send
sent-maps id po t = (ground arith, ground arith)

-- The order is in both maps, and errorPlaceOrder stops the program for it.
abbrev pub Twice : ℤ → OrderPacket → TwsDl → Type 0
Twice id q t =
    ((p : OrderPacket) × (find id t.p_orders ≡ some p))
    × (find id t.p_orders_old ≡ some q)
    × ((err : RowError) → err.id ≡ id → error_place_order err t ≡ none)

twice :
    (id : ℤ) (p q : OrderPacket) (t : TwsDl)
    → find id t.p_orders ≡ some p
    → find id t.p_orders_old ≡ some q
    → Twice id q t
unfolding error_place_order
twice id p q t e h = (
  (p, e),
  h,
  λ err same.
      both-aborts err.id _ _ t p q (ap (λ j. find j t.p_orders) same ∙ e)
        (ap (λ j. find j t.p_orders_old) same ∙ h),
)

place_as-Twice :
    (now : ℕ) (po : PlaceOrder) (id : ℤ) (t : TwsDl) (q : OrderPacket)
    → find id t.p_orders ≡ none
    → find id t.p_orders_old ≡ some q
    → Returns (Twice id q) (place_as now po id t)
unfolding place_as record_order new_order_packet new_status
place_as-Twice now po id t q new old =
    let p : OrderPacket = record {
      status = record { mode = recording; error = err_none };
      request = some (record po { order_id = id; time_sent = pos now });
      rows = [];
    } in
    let u : TwsDl = record t { p_orders = insert id p t.p_orders } in
    let maps = sent-maps id po u in
    rw (new, place_as)
      (twice id p q (send_order id po u) (ap (find id) maps.0 ∙ find-insert_self id p t.p_orders)
        (ap (find id) maps.1 ∙ old))

-- When the next order of the work names an id other than 0 whose order is done and not sent again
-- since, placeOrder returns with that id in both maps, in a state where errorPlaceOrder stops the program
-- for every message about this id.
pub place_order-Twice :
    (now : ℕ) (t : TwsDl) (todo : IndexedTodo PlaceOrder) (po : PlaceOrder) (q : OrderPacket)
    → checkout t.work_todo.place_order_todo ≡ some todo
    → current todo ≡ some po
    → po.order_id ≢ pos 0
    → find po.order_id t.p_orders ≡ none
    → find po.order_id t.p_orders_old ≡ some q
    → Returns (Twice po.order_id q) (place_order now t)
unfolding place_order
place_order-Twice now t todo po q out here named new old =
    Returns-bind (λ s. s ≡ todo) _ (checkout t.work_todo.place_order_todo) _
      (subst (Returns (λ s. s ≡ todo)) (sym out) refl)
      λ s this.
        let u : TwsDl = record t { work_todo = record t.work_todo { place_order_todo = s } } in
        Returns-bind (λ r. r ≡ po) _ (current s) _
          (subst (Returns (λ r. r ≡ po)) (sym (ap current this ∙ here)) refl)
          λ r that.
            subst
              (λ r.
                Returns (Twice po.order_id q)
                  (place_as now r (order_id_of r u).0 (order_id_of r u).1))
              (sym that)
              (subst (λ (k : ℤ × TwsDl). Returns (Twice po.order_id q) (place_as now po k.0 k.1))
                (sym (own_id po u named)) (place_as-Twice now po po.order_id u q new old))
