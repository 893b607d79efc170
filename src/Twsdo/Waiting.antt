-- ===== src/Twsdo/Waiting.antt =====
-- TwsDL::waitData (src/twsdo.cpp) while a historical request is open.
use twstools.Base.{
  ℕ, ◌≡◌, refl, sym, ap, subst, Bool, true, false, not, Option, none, some, if◌then◌else◌, ◌>>=◌,
  Returns, Returns-bind, Returns-map, arith, ◌&&◌, ◌||◌,
}
use twstools.Base.Int.{pos, leb_ℤ}
use twstools.Packets.{
  Mode, clean, recording, closed, ReqErr, err_timeout, finished, is_clean, close_error,
}
use twstools.Packets.History.{PacketHistData}
use twstools.Todo.Hist.Places.{IsKept}
use twstools.Todo.Finish.{fin_hist, Gone, fin_hist_lem}
use twstools.Todo.Work.{ReqType, no_request, hist_request, age, close}
use twstools.Twsdo.{TwsDl}
use twstools.Twsdo.Packets.{AnyPacket, hist_packet, status_of, with_status, close_packet}
use twstools.Twsdo.Finish.{
  fin_hist_data, fin_request, fin_place_order, end_request, wait_packet, is_open, wait_data,
}
use twstools.Twsdo.Orders.{Apart, fin_place_order-Moved}

-- The request is over: its packet is finished, or it is too old.
abbrev pub is_over : ℕ → PacketHistData → TwsDl → Bool
is_over now p t =
    finished p.status || not (leb_ℤ (age (pos now) t.current_request) t.cfg.tws_req_timeout)

-- The error with which it ends.
abbrev pub last_error_of : PacketHistData → ReqErr
last_error_of p = if finished p.status then p.status.error else err_timeout

-- The request at the address a has ended with an error: nothing is open any more, and the request is
-- where its error says.
pub record Ended (e : ReqErr) (a : ℕ) (t u : TwsDl) : Type 0 where
  pub no_packet : u.packet ≡ none
  pub no_type : u.current_request.req_type ≡ no_request
  pub todo : Gone e a t.work_todo.hist_todo u.work_todo.hist_todo

-- The request is still open.
pub record Waits (t u : TwsDl) : Type 0 where
  pub request : u.current_request ≡ t.current_request
  pub packet : u.packet ≡ t.packet
  pub todo : u.work_todo.hist_todo ≡ t.work_todo.hist_todo

end_hist :
    (e : ReqErr) (a : ℕ) (t : TwsDl)
    → IsKept t.work_todo.hist_todo
    → t.work_todo.hist_todo.checked_out_request ≡ some a
    → (q : AnyPacket) → (status_of q).error ≡ e
    → Returns (Ended e a t) (fin_request hist_request q t >>= λ r. some (end_request r.0 r.1))
unfolding fin_request fin_hist_data end_request close
end_hist e a t k out q same =
    Returns-bind (λ (r : Bool × TwsDl). Ended e a t (end_request r.0 r.1)) (Ended e a t)
      (fin_request hist_request q t) _
      (Returns-bind (Gone e a t.work_todo.hist_todo) _
        (fin_hist (status_of q).error t.work_todo.hist_todo) _
        (subst (λ x. Returns (Gone e a t.work_todo.hist_todo) (fin_hist x t.work_todo.hist_todo))
          (sym same) (fin_hist_lem e t.work_todo.hist_todo a k out))
        λ h f. record { no_packet = refl; no_type = refl; todo = f })
      (λ r h. h)

-- Closing a packet that has begun and is not finished gives it the error.
close_hist :
    (e : ReqErr) (p : PacketHistData)
    → is_clean p.status.mode ≡ false
    → finished p.status ≡ false
    → Returns (λ q. (status_of q).error ≡ e) (close_packet e (hist_packet p))
unfolding close_packet close_error with_status status_of finished
close_hist e p h k = go p.status.mode refl
  where
    go :
        (m : Mode)
        → p.status.mode ≡ m
        → Returns
            (λ q. (status_of q).error ≡ e)
            (elim m [
              | clean ↦ none
              | recording ↦ some (record { mode = closed; error = e })
              | closed ↦ some p.status
            ]
              >>= λ s. some (with_status s (hist_packet p)))
    go clean f = absurd (ground (arith, f))
    go recording f = refl
    go closed f = absurd (ground (arith, f))

wait_hist :
    (now : ℕ) (p : PacketHistData) (a : ℕ) (t : TwsDl)
    → IsKept t.work_todo.hist_todo
    → t.work_todo.hist_todo.checked_out_request ≡ some a
    → is_clean p.status.mode ≡ false
    → t.current_request.req_type ≡ hist_request
    → Returns
        (λ u.
          (is_over now p t ≡ false → Waits t u)
          × (is_over now p t ≡ true → Ended (last_error_of p) a t u))
        (wait_packet now (hist_packet p) t)
unfolding wait_packet status_of
wait_hist now p a t k out begun type =
    subst (Returns _) (sym (ap (run (finished p.status) young) type))
      (go (finished p.status) young refl refl)
  where
    young : Bool
    young = leb_ℤ (age (pos now) t.current_request) t.cfg.tws_req_timeout

    run : Bool → Bool → ReqType → Option TwsDl
    run f l y =
        if not f && l
        then some t
        else (if f then some (hist_packet p) else close_packet err_timeout (hist_packet p)) >>= λ q.
            fin_request y q t >>= λ r. some (end_request r.0 r.1)

    go :
        (f l : Bool)
        → finished p.status ≡ f
        → young ≡ l
        → Returns
            (λ u.
              (is_over now p t ≡ false → Waits t u)
              × (is_over now p t ≡ true → Ended (last_error_of p) a t u))
            (run f l hist_request)
    go true l e h =
        Returns-map (Ended p.status.error a t) _
          (λ u d. (
            (λ not_over. absurd (ground (arith, e))),
            (λ over. subst (λ x. Ended x a t u) (ground (arith, e)) d),
          ))
          (run true l hist_request) (end_hist p.status.error a t k out (hist_packet p) refl)
    go false true e h = (
      (λ _. record { request = refl; packet = refl; todo = refl }),
      (λ over. absurd (ground (arith, e, h))),
    )
    go false false e h =
        Returns-map (Ended err_timeout a t) _
          (λ u d. (
            (λ not_over. absurd (ground (arith, e, h))),
            (λ over. subst (λ x. Ended x a t u) (ground (arith, e)) d),
          ))
          (run false false hist_request)
          (Returns-bind (λ q. (status_of q).error ≡ err_timeout) (Ended err_timeout a t)
            (close_packet err_timeout (hist_packet p)) _ (close_hist err_timeout p begun e)
            (end_hist err_timeout a t k out))

-- With the orders apart and each historical request in exactly one place, while the one at the address
-- a is checked out and open with a packet that has begun, waitData returns. It waits just while the
-- packet is not finished and the request not older than the timeout; else the request is closed, the
-- packet gone, and with the packet's error, or the timeout, the request at a has gone to the end of the
-- done ones (success, no data, not available), of the errors (refused) or of the open ones (timeout), or
-- to their front (connection lost), the other lists as before; each request is in exactly one place
-- again.
pub wait_data_hist :
    (now : ℕ) (t : TwsDl) (p : PacketHistData) (a : ℕ)
    → Apart t.p_orders t.p_orders_old
    → IsKept t.work_todo.hist_todo
    → t.work_todo.hist_todo.checked_out_request ≡ some a
    → is_clean p.status.mode ≡ false
    → t.packet ≡ some (hist_packet p)
    → t.current_request.req_type ≡ hist_request
    → Returns
        (λ u.
          (is_over now p t ≡ false → Waits t u)
          × (is_over now p t ≡ true → Ended (last_error_of p) a t u))
        (wait_data now t)
unfolding wait_data
wait_data_hist now t p a apart k out begun here type =
    Returns-bind _ Goal (fin_place_order now t) _ (fin_place_order-Moved now t apart) λ r h.
      let u : TwsDl = record t { p_orders = r.1.p_orders; p_orders_old = r.1.p_orders_old } in
      subst (λ v. Returns Goal (look v v.packet (is_open v.current_request.req_type))) (sym h.1)
        (subst (λ b. Returns Goal (look u t.packet b)) (sym (ap is_open type))
          (subst (λ q. Returns Goal (look u q true)) (sym here)
            (Returns-map _ Goal
              (λ w g. (
                (λ x.
                    let i = g.0 x in
                    record { request = i.request; packet = i.packet; todo = i.todo }),
                (λ x.
                    let i = g.1 x in
                    record { no_packet = i.no_packet; no_type = i.no_type; todo = i.todo }),
              ))
              (wait_packet now (hist_packet p) u) (wait_hist now p a u k out begun type))))
  where
    Goal : TwsDl → Type 0
    Goal u =
        (is_over now p t ≡ false → Waits t u)
        × (is_over now p t ≡ true → Ended (last_error_of p) a t u)

    look : TwsDl → Option AnyPacket → Bool → Option TwsDl
    look v q b = elim q [
      | none ↦ some v
      | some x ↦ elim b [ false ↦ some v | true ↦ wait_packet now x v ]
    ]
