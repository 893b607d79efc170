-- ===== src/Todo/Hist/Choice.antt =====
-- HistTodo::checkoutOpt (src/tws_meta.cpp): it always returns, and what it checks out was left to do.
use twstools.Base.{ℕ, suc, ◌≤◌, ◌≡◌, some, length}
use twstools.Base.Int.{ℤ, pos, ◌≤ℤ◌, ◌<ℤ◌}
use twstools.Base.Text.{Text}
use twstools.Base.Map.{Map, text_key}
use twstools.Pacing.God.{PacingGod, fresh_control}
use twstools.Pacing.God
use twstools.Pacing.God.Sound.{IsSound}
use twstools.Pacing.God.Queries.{IsReady}
use twstools.Todo.Hist.{HistTodo}
use twstools.Todo.Hist.Places.{times, IsKept}

-- What checkoutOpt needs of the pacing controls, and keeps.
abbrev pub CanAsk : PacingGod → Type 0
CanAsk g = IsSound IsReady g × IsReady (fresh_control g)

-- An open request.
abbrev Open : HistTodo → ℕ → Type 0
Open t p = 1 ≤ times p t.left_requests

-- What checkoutOpt leaves behind, when it is to wait and when it need not.
pub record CheckedOut (t : HistTodo) (r : ℤ × PacingGod × HistTodo) : Type 0 where
  pub kept : IsKept r.2
  pub can_ask : CanAsk r.1
  pub waits : pos 0 <ℤ r.0 → r.2 ≡ t
  pub goes :
      r.0 ≤ℤ pos 0
      → (p : ℕ) × (r.2.checked_out_request ≡ some p)
        × (1 ≤ times p t.left_requests)
        × (suc (length r.2.left_requests) ≡ length t.left_requests)
