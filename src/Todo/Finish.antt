-- ===== src/Todo/Finish.antt =====
-- TwsDL::finHist (src/twsdo.cpp): what becomes of the historical request when its packet is closed.
use twstools.Base.{ℕ, ◌≡◌, Option, none, some, List, [], ◌∷◌, ◌++◌, Returns, Returns-map}
use twstools.Base.Int.{pos}
use twstools.Packets.{ReqErr, err_none, err_nodata, err_nav, err_twscon, err_timeout, err_request}
use twstools.Todo.Hist.{HistTodo, tell_done, cancel_for_repeat}
use twstools.Todo.Hist.Places.{IsKept, tell_done_lem, cancel_for_repeat_lem}

-- The XML of the packet, which is printed when there is no error, is left out.
unfoldable pub fin_hist : ReqErr → HistTodo → Option HistTodo
fin_hist err_none t = tell_done t
fin_hist err_nodata t = tell_done t
fin_hist err_nav t = tell_done t
fin_hist err_twscon t = cancel_for_repeat (pos 0) t
fin_hist err_timeout t = cancel_for_repeat (pos 1) t
fin_hist err_request t = cancel_for_repeat (pos 2) t

-- Where a request goes that ends with this error. It is asked for again, next of all when the connection was
-- at fault, last of all on a timeout; it is an error when TWS refused it; else it is done, be it with data
-- or without.
unfoldable pub left_after : ReqErr → ℕ → List ℕ → List ℕ
left_after err_twscon p left = p ∷ left
left_after err_timeout p left = left ++ p ∷ []
left_after _ p left = left

unfoldable pub done_after : ReqErr → ℕ → List ℕ → List ℕ
done_after err_none p done = done ++ p ∷ []
done_after err_nodata p done = done ++ p ∷ []
done_after err_nav p done = done ++ p ∷ []
done_after _ p done = done

unfoldable pub errors_after : ReqErr → ℕ → List ℕ → List ℕ
errors_after err_request p errors = errors ++ p ∷ []
errors_after _ p errors = errors

-- The request p, that was checked out of t, is in t' where the error says, and none is checked out.
pub record Gone (e : ReqErr) (p : ℕ) (t t' : HistTodo) : Type 0 where
  pub kept : IsKept t'
  pub free : t'.checked_out_request ≡ none
  pub left : t'.left_requests ≡ left_after e p t.left_requests
  pub done : t'.done_requests ≡ done_after e p t.done_requests
  pub errors : t'.error_requests ≡ errors_after e p t.error_requests

-- With every request in exactly one place and one checked out, finHist returns whatever the error. The
-- request goes to the end of the done ones on success and when there are no data or they are not
-- available, to the front of the open ones when the connection was at fault, to their end on a timeout, and
-- to the end of the errors when TWS refused it. The other lists stay, none is checked out
-- afterwards, and every request is still in exactly one place.
pub fin_hist_lem :
    (e : ReqErr) (t : HistTodo) (p : ℕ)
    → IsKept t
    → t.checked_out_request ≡ some p
    → Returns (Gone e p t) (fin_hist e t)
unfolding fin_hist left_after done_after errors_after
fin_hist_lem err_none t p k h =
    Returns-map _ _
      (λ t' r. record { kept = r.0; free = r.1; left = r.2; done = r.3; errors = r.4 })
      (tell_done t) (tell_done_lem t p k h)
fin_hist_lem err_nodata t p k h =
    Returns-map _ _
      (λ t' r. record { kept = r.0; free = r.1; left = r.2; done = r.3; errors = r.4 })
      (tell_done t) (tell_done_lem t p k h)
fin_hist_lem err_nav t p k h =
    Returns-map _ _
      (λ t' r. record { kept = r.0; free = r.1; left = r.2; done = r.3; errors = r.4 })
      (tell_done t) (tell_done_lem t p k h)
fin_hist_lem err_twscon t p k h =
    Returns-map _ _
      (λ t' r. record { kept = r.0; free = r.1; left = r.2; done = r.3; errors = r.4 })
      (cancel_for_repeat (pos 0) t) (cancel_for_repeat_lem (pos 0) t p k h)
fin_hist_lem err_timeout t p k h =
    Returns-map _ _
      (λ t' r. record { kept = r.0; free = r.1; left = r.2; done = r.3; errors = r.4 })
      (cancel_for_repeat (pos 1) t) (cancel_for_repeat_lem (pos 1) t p k h)
fin_hist_lem err_request t p k h =
    Returns-map _ _
      (λ t' r. record { kept = r.0; free = r.1; left = r.2; done = r.3; errors = r.4 })
      (cancel_for_repeat (pos 2) t) (cancel_for_repeat_lem (pos 2) t p k h)
