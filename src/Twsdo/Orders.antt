-- ===== src/Twsdo/Orders.antt =====
-- The two maps of orders of TwsDL (src/twsdo.cpp): finPlaceOrder moves an order from p_orders to
-- p_orders_old, and an order must not be in both.
use twstools.Base.{
  ℕ, ◌≡◌, refl, sym, ap, ◌∙◌, subst, Bool, true, not, none, some, [], ◌∷◌, assert, inl, inr,
  Bool-cases, Returns, Returns-bind, Returns-map, arith, ◌&&◌,
}
use twstools.Base.Int.{ℤ, pos, eqb_ℤ, eqb_ℤ_iff}
use twstools.Base.Map.{Map, find, insert, find-insert, find-insert_self, int_key}
use twstools.Requests.{PlaceOrder}
use twstools.Packets.{finished}
use twstools.Twsdo.{TwsDl}
use twstools.Twsdo.Packets.{OrderPacket}
use twstools.Twsdo.Finish.{is_final, is_twscon, expire, fin_orders, fin_place_order}
use twstools.Twsdo.Expiry.{IsPlaced, Becomes, IsDone, finished-IsDone, open-IsDone, expire_lem}

-- Each order is under its id, once, and not among the old ones.
abbrev pub Apart : Map ℤ OrderPacket → Map ℤ OrderPacket → Type 0
Apart [] old = Unit
Apart ((id, p) ∷ orders) old =
    IsPlaced id p × (find id old ≡ none) × (find id orders ≡ none) × Apart orders old

Apart-insert :
    (id : ℤ) (q : OrderPacket) (orders old : Map ℤ OrderPacket)
    → find id orders ≡ none
    → Apart orders old
    → Apart orders (insert id q old)
unfolding find
Apart-insert id q [] old h a = tt
Apart-insert id q ((j, p) ∷ orders) old h a = elim (Bool-cases (eqb_ℤ j id)) [
  | inl hit ↦ absurd (ground (arith, hit))
  | inr miss ↦ (
    a.0,
    ground (arith, find-insert id j q old, a.1, miss, eqb_ℤ_iff id j, eqb_ℤ_iff j id),
    a.2,
    Apart-insert id q orders old (ground (arith, miss)) a.3,
  )
]

-- Where the packet p of an id is behind the loop: what it becomes is in one of the maps, in the old one just
-- if the order is done.
abbrev pub Sorts : ℤ → ℤ → OrderPacket → Map ℤ OrderPacket → Map ℤ OrderPacket → Type 0
Sorts now id p orders old =
    (r : PlaceOrder) × (q : OrderPacket) × (p.request ≡ some r)
    × Becomes now r p q
    × (IsDone q → (find id orders ≡ none) × (find id old ≡ some q))
    × ((IsDone q → ⊥) → (find id orders ≡ some q) × (find id old ≡ none))

-- What the loop leaves: the maps apart; the packet of each order where it belongs; and no other id in the
-- first map, or with another packet in the old one.
pub record Moved (now : ℤ) (orders old : Map ℤ OrderPacket)
    (r : Map ℤ OrderPacket × Map ℤ OrderPacket × Bool) : Type 0 where
  pub apart : Apart r.0 r.1
  pub sorted : (id : ℤ) (p : OrderPacket) → find id orders ≡ some p → Sorts now id p r.0 r.1
  pub others : (id : ℤ) → find id orders ≡ none → (find id r.0 ≡ none) × (find id r.1 ≡ find id old)

-- The packet at the id of the first entry.
first_entry :
    (id j : ℤ) (p p' : OrderPacket) (orders : Map ℤ OrderPacket)
    → eqb_ℤ id j ≡ true
    → find j ((id, p) ∷ orders) ≡ some p'
    → (id ≡ j) × (p ≡ p')
unfolding find
first_entry id j p p' orders hit h =
    let top : find j ((id, p) ∷ orders) ≡ some p = rw hit refl in
    ((eqb_ℤ_iff id j).0 hit, ap (λ o. elim o [ none ↦ p | some x ↦ x ]) (sym top ∙ h))

sorted_first :
    (now id j : ℤ) (p p' : OrderPacket) (orders m n : Map ℤ OrderPacket)
    → eqb_ℤ id j ≡ true
    → find j ((id, p) ∷ orders) ≡ some p'
    → Sorts now id p m n
    → Sorts now j p' m n
sorted_first now id j p p' orders m n hit h s =
    let (i, x) = first_entry id j p p' orders hit h in
    subst (λ k. Sorts now k p' m n) i (subst (λ y. Sorts now id y m n) x s)

moved :
    (now id : ℤ) (s : PlaceOrder) (p q : OrderPacket) (orders old : Map ℤ OrderPacket)
    → p.request ≡ some s
    → Becomes now s p q
    → IsDone q
    → find id orders ≡ none
    → (m : Map ℤ OrderPacket × Map ℤ OrderPacket × Bool) → Moved now orders (insert id q old) m
    → Moved now ((id, p) ∷ orders) old m
unfolding find
moved now id s p q orders old e becomes done f m k = record {
  apart = k.apart;
  sorted = λ j p' h. elim (Bool-cases (eqb_ℤ id j)) [
    | inl hit ↦
        let there = k.others id f in
        sorted_first now id j p p' orders m.0 m.1 hit h (
          s,
          q,
          e,
          becomes,
          (λ _. (there.0, there.1 ∙ find-insert_self id q old)),
          (λ n. absurd (n done)),
        )
    | inr miss ↦ k.sorted j p' (ground (arith, h, miss))
  ];
  others = λ j h. elim (Bool-cases (eqb_ℤ id j)) [
    | inl hit ↦ absurd (ground (arith, h, hit))
    | inr miss ↦
        let there = k.others j (ground (arith, h, miss)) in
        (there.0, there.1 ∙ ground (arith, find-insert id j q old, miss))
  ];
}

stayed :
    (now id : ℤ) (s : PlaceOrder) (p q : OrderPacket) (orders old : Map ℤ OrderPacket)
    → p.request ≡ some s
    → IsPlaced id q
    → Becomes now s p q
    → (IsDone q → ⊥)
    → find id old ≡ none
    → find id orders ≡ none
    → (m : Map ℤ OrderPacket × Map ℤ OrderPacket × Bool) → Moved now orders old m
    → Moved now ((id, p) ∷ orders) old ((id, q) ∷ m.0, m.1, m.2)
unfolding find
stayed now id s p q orders old same placed becomes waits e f m k =
    let gone = k.others id f in
    record {
      apart = (placed, ground (arith, gone, e, f), ground (arith, gone, e, f), k.apart);
      sorted = λ j p' h. elim (Bool-cases (eqb_ℤ id j)) [
        | inl hit ↦ sorted_first now id j p p' orders ((id, q) ∷ m.0) m.1 hit h (
          s,
          q,
          same,
          becomes,
          (λ d. absurd (waits d)),
          (λ _. (ground (arith, eqb_ℤ_iff id id), gone.1 ∙ e)),
        )
        | inr miss ↦
            let (r, x, asked, b, over, not_over) = k.sorted j p' (ground (arith, h, miss)) in
            (
              r,
              x,
              asked,
              b,
              (λ d. (ground (arith, over d, miss), (over d).1)),
              (λ n. (ground (arith, not_over n, miss), (not_over n).1)),
            )
      ];
      others = λ j h. elim (Bool-cases (eqb_ℤ id j)) [
        | inl hit ↦ absurd (ground (arith, h, hit))
        | inr miss ↦
            let there = k.others j (ground (arith, h, miss)) in
            (ground (arith, there, miss), there.1)
      ];
    }

fin_orders-Moved :
    (now : ℕ) (orders old : Map ℤ OrderPacket) (ok : Bool)
    → Apart orders old
    → Returns (Moved (pos now) orders old) (fin_orders now orders old ok)
unfolding fin_orders find
fin_orders-Moved now [] old ok a = record {
  apart = tt;
  sorted = λ id p h. cc;
  others = λ id h. (refl, refl);
}
fin_orders-Moved now ((id, p) ∷ orders) old ok a =
    let (r, e, same, _) = a.0 in
    Returns-bind (λ s. s ≡ r) (Moved (pos now) ((id, p) ∷ orders) old) p.request _
      (subst (Returns (λ s. s ≡ r)) (sym e) refl)
      λ s this.
        let asked : p.request ≡ some s = e ∙ ap some (sym this) in
        let hit : eqb_ℤ id s.order_id ≡ true =
          (eqb_ℤ_iff id s.order_id).1 (sym same ∙ ap (λ q. q.order_id) (sym this)) in
        Returns-bind (λ _. Unit {0}) (Moved (pos now) ((id, p) ∷ orders) old)
          (assert (eqb_ℤ id s.order_id)) _ (rw hit tt)
          λ _ _.
            Returns-bind (λ q. IsPlaced id q × Becomes (pos now) s p q)
              (Moved (pos now) ((id, p) ∷ orders) old) (expire now s p) _
              (expire_lem now id s p a.0)
              λ q good. elim (Bool-cases (finished q.status && is_final q.status.error)) [
                | inl done ↦
                    rw (done, a.1)
                      (Returns-map (Moved (pos now) orders (insert id q old)) _
                        (moved (pos now) id s p q orders old asked good.1 (finished-IsDone q done)
                          a.2)
                        (fin_orders now orders (insert id q old) ok)
                        (fin_orders-Moved now orders (insert id q old) ok
                          (Apart-insert id q orders old a.2 a.3)))
                | inr waits ↦
                    let ok' = ok && not (finished q.status && is_twscon q.status.error) in
                    rw waits (
                      Returns-bind (Moved (pos now) orders old) _ (fin_orders now orders old ok') _
                        (fin_orders-Moved now orders old ok' a.3)
                        (stayed (pos now) id s p q orders old asked good.0 good.1
                          (open-IsDone q waits) a.1 a.2))
              ]

-- With every order under its id, sent, and not among the old ones, finPlaceOrder returns and changes
-- these two maps only. A packet that is open, not to be transmitted and more than five seconds old
-- is closed without an error, every other one stays as it is. Behind this, the packet of each order that is
-- closed with success, a refusal or a timeout is in p_orders_old under its id, that of any other is in
-- p_orders under its id, each in one map only; what was in p_orders_old stays.
pub fin_place_order-Moved :
    (now : ℕ) (t : TwsDl)
    → Apart t.p_orders t.p_orders_old
    → Returns
        (λ r.
          Moved (pos now) t.p_orders t.p_orders_old (r.1.p_orders, r.1.p_orders_old, r.0)
          × (r.1 ≡ record t { p_orders = r.1.p_orders; p_orders_old = r.1.p_orders_old }))
        (fin_place_order now t)
unfolding fin_place_order
fin_place_order-Moved now t a =
    Returns-bind (Moved (pos now) t.p_orders t.p_orders_old) _
      (fin_orders now t.p_orders t.p_orders_old true) _
      (fin_orders-Moved now t.p_orders t.p_orders_old true a) (λ r h. (h, refl))
