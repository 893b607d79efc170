-- ===== src/Todo/Hist/Board.antt =====
-- class HistTodo (src/tws_meta.cpp) against a board that shows for each request only where it stands.
use twstools.Base.{ℕ, ◌+◌, ◌≤◌, ◌≡◌, inl, inr, ltb, if◌then◌else◌, arith, Bool-cases, ◌⊎◌}
use twstools.Todo.Hist.{HistTodo}
use twstools.Todo.Hist.Places.{times, times_at}

pub data Standing : Type 0 where
  unknown : Standing
  waiting : Standing
  out : Standing
  done : Standing
  failed : Standing

-- Where a request stands by the times it is in the open list, checked out, done and in error.
unfoldable pub standing_of : ℕ → ℕ → ℕ → ℕ → Standing
standing_of l o d e =
    if ltb 0 l
    then waiting
    else (if ltb 0 o
        then out
        else (if ltb 0 d then done else (if ltb 0 e then failed else unknown)))

unfoldable pub standing : ℕ → HistTodo → Standing
standing p t =
    standing_of (times p t.left_requests) (times_at p t.checked_out_request)
      (times p t.done_requests) (times p t.error_requests)

-- A request stays where it is, or goes from the one place to the other.
abbrev pub Moves : Standing → Standing → Standing → Standing → Type 0
Moves from to a b = (b ≡ a) ⊎ ((a ≡ from) × (b ≡ to))

pub add_move :
    (l o d e n : ℕ)
    → l + o + d + e + n ≤ 1
    → Moves unknown waiting (standing_of l o d e) (standing_of (l + n) o d e)
unfolding standing_of
add_move l o d e n h = elim (Bool-cases (ltb 0 n)) [
  | inl some_moved ↦ inr (ground arith, ground arith)
  | inr none_moved ↦ inl (ground arith)
]

pub take_move :
    (l o d e l' o' : ℕ)
    → l + o + d + e ≤ 1
    → l' + o' ≡ l
    → o ≡ 0
    → Moves waiting out (standing_of l o d e) (standing_of l' o' d e)
unfolding standing_of
take_move l o d e l' o' h k z = elim (Bool-cases (ltb 0 o')) [
  | inl some_moved ↦ inr (ground arith, ground arith)
  | inr none_moved ↦ inl (ground arith)
]

pub done_move :
    (l o d e : ℕ)
    → l + o + d + e ≤ 1
    → Moves out done (standing_of l o d e) (standing_of l 0 (d + o) e)
unfolding standing_of
done_move l o d e h = elim (Bool-cases (ltb 0 o)) [
  | inl some_moved ↦ inr (ground arith, ground arith)
  | inr none_moved ↦ inl (ground arith)
]

pub back_move :
    (l o d e : ℕ)
    → l + o + d + e ≤ 1
    → Moves out waiting (standing_of l o d e) (standing_of (l + o) 0 d e)
unfolding standing_of
back_move l o d e h = elim (Bool-cases (ltb 0 o)) [
  | inl some_moved ↦ inr (ground arith, ground arith)
  | inr none_moved ↦ inl (ground arith)
]

pub fail_move :
    (l o d e : ℕ)
    → l + o + d + e ≤ 1
    → Moves out failed (standing_of l o d e) (standing_of l 0 d (e + o))
unfolding standing_of
fail_move l o d e h = elim (Bool-cases (ltb 0 o)) [
  | inl some_moved ↦ inr (ground arith, ground arith)
  | inr none_moved ↦ inl (ground arith)
]

pub skip_move :
    (l o d e l' n : ℕ)
    → l + o + d + e ≤ 1
    → n + l' ≡ l
    → Moves waiting failed (standing_of l o d e) (standing_of l' o d (e + n))
unfolding standing_of
skip_move l o d e l' n h k = elim (Bool-cases (ltb 0 n)) [
  | inl some_moved ↦ inr (ground arith, ground arith)
  | inr none_moved ↦ inl (ground arith)
]
