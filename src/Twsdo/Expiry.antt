-- ===== src/Twsdo/Expiry.antt =====
-- What becomes of the packet of an order in TwsDL::finPlaceOrder (src/twsdo.cpp), and when it is done.
use twstools.Base.{ℕ, ◌≡◌, refl, true, false, not, ◌&&◌, some, inl, inr, Bool-cases, Returns, arith}
use twstools.Base.Int.{ℤ, pos, ◌-ℤ◌, ◌<ℤ◌, ltb_ℤ, int_laws}
use twstools.Requests.{PlaceOrder}
use twstools.Packets.{
  Status, Mode, clean, recording, closed, ReqErr, err_none, err_nodata, err_nav, err_twscon,
  err_timeout, err_request, finished, is_clean, is_closed, close_error,
}
use twstools.Twsdo.Packets.{OrderPacket}
use twstools.Twsdo.Finish.{is_final, expire}

-- The packet of an order that was sent under this id.
abbrev pub IsPlaced : ℤ → OrderPacket → Type 0
IsPlaced id p =
    (r : PlaceOrder) × (p.request ≡ some r) × (r.order_id ≡ id) × (is_clean p.status.mode ≡ false)

-- Still open, not to be transmitted, and more than five seconds old.
pub record IsExpired (now : ℤ) (r : PlaceOrder) (p : OrderPacket) : Type 0 where
  pub recording : p.status.mode ≡ recording
  pub kept_back : r.order.transmit ≡ false
  pub old : pos 5000 <ℤ now -ℤ r.time_sent

-- The packet q that the packet p of the order r becomes: an expired one is closed without an error, any other
-- stays as it is.
pub record Becomes (now : ℤ) (r : PlaceOrder) (p q : OrderPacket) : Type 0 where
  pub expired :
      IsExpired now r p → q ≡ record p { status = record { mode = closed; error = err_none } }
  pub unchanged : (IsExpired now r p → ⊥) → q ≡ p

-- The errors behind which nothing more comes for an order.
pub data IsLast : ReqErr → Type 0 where
  success : IsLast err_none
  refused : IsLast err_request
  too_late : IsLast err_timeout

-- The order is done.
pub record IsDone (p : OrderPacket) : Type 0 where
  pub closed : p.status.mode ≡ closed
  pub last : IsLast p.status.error

IsLast-of : (e : ReqErr) → is_final e ≡ true → IsLast e
IsLast-of err_none h = success
IsLast-of err_request h = refused
IsLast-of err_timeout h = too_late
IsLast-of err_nodata h = absurd (ground (arith, h))
IsLast-of err_nav h = absurd (ground (arith, h))
IsLast-of err_twscon h = absurd (ground (arith, h))

IsLast-is_final : {e : ReqErr} → IsLast e → is_final e ≡ true
IsLast-is_final success = refl
IsLast-is_final refused = refl
IsLast-is_final too_late = refl

closed_of : (m : Mode) → is_closed m ≡ true → m ≡ closed
closed_of clean h = absurd (ground (arith, h))
closed_of recording h = absurd (ground (arith, h))
closed_of closed h = refl

-- The test of the loop.
pub finished-IsDone :
    (q : OrderPacket) → (finished q.status && is_final q.status.error) ≡ true → IsDone q
unfolding finished
finished-IsDone q h = record {
  closed = closed_of q.status.mode (ground (arith, h));
  last = IsLast-of q.status.error (ground (arith, h));
}

pub open-IsDone :
    (q : OrderPacket) → (finished q.status && is_final q.status.error) ≡ false → IsDone q → ⊥
unfolding finished
open-IsDone q h d =
    let e : is_final q.status.error ≡ true = IsLast-is_final d.last in
    ground (arith, h, e, d.closed)

open_of : (m : Mode) → is_clean m ≡ false → is_closed m ≡ false → m ≡ recording
open_of clean h n = absurd (ground (arith, h))
open_of recording h n = refl
open_of closed h n = absurd (ground (arith, n))

closing_lem :
    (s : Status)
    → s.mode ≡ recording
    → close_error err_none s ≡ some (record { mode = closed; error = err_none })
unfolding close_error
closing_lem s h = rw h refl

-- expire returns, with the packet that becomes of this one, under the same id.
pub expire_lem :
    (now : ℕ) (id : ℤ) (r : PlaceOrder) (p : OrderPacket)
    → IsPlaced id p
    → Returns (λ q. IsPlaced id q × Becomes (pos now) r p q) (expire now r p)
unfolding expire finished
expire_lem now id r p h =
    let late =
      not (finished p.status)
      && (not r.order.transmit && ltb_ℤ (pos 5000) (pos now -ℤ r.time_sent)) in
    elim (Bool-cases late) [
      | inl over ↦
          let begun = open_of p.status.mode h.3 (ground (arith, over)) in
          let is : IsExpired (pos now) r p = record {
            recording = begun;
            kept_back = ground (arith, over);
            old = grind (int_laws, over);
          } in
          let closing : close_error err_none p.status
              ≡ some (record { mode = closed; error = err_none }) =
            closing_lem p.status begun in
          rw (over, closing)
            ((h.0, h.1, h.2, refl), record { expired = λ _. refl; unchanged = λ n. absurd (n is) })
      | inr fine ↦ rw fine (
        h,
        record {
          expired = λ x. absurd (grind (int_laws, fine, x.recording, x.kept_back, x.old));
          unchanged = λ _. refl;
        },
      )
    ]
