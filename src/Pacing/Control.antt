-- ===== src/Pacing/Control.antt =====
-- class PacingControl of src/tws_meta.cpp: the history of requests of one data farm, and when the
-- next request may be sent. `now` is what nowInMsecs() returns to the call.
pub mod Burst
pub mod Window
pub mod CountLeft
pub mod Merge
pub mod History
use twstools.Base.{
  ℕ, zero, suc, ◌+◌, ◌-◌, ◌≤◌, ◌<◌, ◌≡◌, refl, Bool, true, false, Option, none, some, List, [], ◌∷◌,
  ◌++◌, arith, if◌then◌else◌, length, get_elem?, last?, init, keep_last, set_last, ◌>>=◌, ◌>>◌,
  not_empty, ◌&&◌,
}
use twstools.Base.Int.{ℤ, pos, negsuc, ◌+ℤ◌, ◌-ℤ◌, ltb_ℤ, to_int, int_min}
use mathlib.Core.List.{reverse}

pub record PacingControl : Type 0 where
  pub date_times : List ℤ
  pub violations : List Bool
  pub max_requests : ℤ
  pub check_interval : ℤ
  pub min_pacing_time : ℤ
  pub violation_pause : ℤ

-- PacingControl( r, i, m, v )
unfoldable pub new_control : ℤ → ℤ → ℤ → ℤ → PacingControl
new_control r i m v = record {
  date_times = [];
  violations = [];
  max_requests = r;
  check_interval = i;
  min_pacing_time = m;
  violation_pause = v;
}

unfoldable pub set_pacing_time : ℤ → ℤ → ℤ → PacingControl → PacingControl
set_pacing_time r i m p = record p { max_requests = r; check_interval = i; min_pacing_time = m }

unfoldable pub set_violation_pause : ℤ → PacingControl → PacingControl
set_violation_pause v p = record p { violation_pause = v }

unfoldable pub is_empty : PacingControl → Bool
is_empty p = elim p.date_times [ [] ↦ true | _ ∷ _ ↦ false ]

-- A request younger than five seconds is kept.
unfoldable pub clear : ℤ → PacingControl → Option PacingControl
clear now p = elim (last? p.date_times) [
  | none ↦ some p
  | some back ↦
      if ltb_ℤ (now -ℤ back) (pos 5000)
      then not_empty p.violations
        >> some
            (record p { date_times = keep_last p.date_times; violations = keep_last p.violations })
      else some (record p { date_times = []; violations = [] })
]

unfoldable pub add_request : ℤ → PacingControl → PacingControl
add_request now p = record p {
  date_times = p.date_times ++ now ∷ [];
  violations = p.violations ++ false ∷ [];
}

unfoldable pub remove_last_request : PacingControl → Option PacingControl
remove_last_request p = elim p.date_times [
  | [] ↦ some p
  | _ ∷ _ ↦
      not_empty p.violations
      >> some (record p { date_times = init p.date_times; violations = init p.violations })
]

-- back() of an empty vector is undefined.
unfoldable pub notify_violation : ℤ → PacingControl → Option PacingControl
unfolding add_request
notify_violation now p =
    let q : PacingControl = elim p.violations [ [] ↦ add_request now p | _ ∷ _ ↦ p ] in
    not_empty q.violations >> some (record q { violations = set_last true q.violations })

-- What good_time waits for.
pub data Limit : Type 0 where
  dont_wait wait_min wait_violation wait_burst : Limit

-- SWAP_MAX
unfoldable pub swap_max : ℤ → Limit → ℤ × Limit → ℤ × Limit
swap_max wait dbg r = if ltb_ℤ r.0 wait then (wait, dbg) else r

-- The request that must leave the interval before the next one: dateTimes.at( p_index )
unfoldable pub burst_wait : ℤ → PacingControl → Option ℤ
burst_wait now p = elim (to_int (pos (length p.date_times) -ℤ p.max_requests)) [
  | pos i ↦ elim (get_elem? p.date_times i) [
    | none ↦ none
    | some t ↦ some (to_int (t +ℤ p.check_interval -ℤ now))
  ]
  | negsuc _ ↦ some int_min
]

-- The three uses of SWAP_MAX, one behind the other.
unfoldable pub longest_wait : ℤ → ℤ → ℤ → ℤ × Limit
longest_wait min viol burst =
    swap_max burst wait_burst
      (swap_max viol wait_violation (swap_max min wait_min (int_min, dont_wait)))

unfoldable pub good_time : ℤ → PacingControl → Option (ℤ × Limit)
good_time now p = elim (last? p.date_times) [
  | none ↦ some (int_min, dont_wait)
  | some back ↦ last? p.violations >>= λ violated. burst_wait now p >>= λ burst. some (
      longest_wait (to_int (back +ℤ p.min_pacing_time -ℤ now))
        (if violated then to_int (back +ℤ p.violation_pause -ℤ now) else int_min) burst)
]

-- The loop of countLeft, over the requests from the last one back.
unfoldable pub count_loop : ℤ → ℤ → ℤ → List ℤ → ℤ
count_loop now interval left [] = left
count_loop now interval left (t ∷ older) =
    let rest = count_loop now interval (left -ℤ pos 1) older in
    if ltb_ℤ (pos 0) (to_int (t +ℤ interval -ℤ now)) then rest else left

unfoldable pub count_all : ℤ → PacingControl → ℤ
unfolding count_loop
count_all now p = count_loop now p.check_interval p.max_requests (reverse p.date_times)

unfoldable pub count_left : ℤ → PacingControl → Option ℤ
count_left now p = elim (last? p.date_times) [
  | none ↦ some (count_all now p)
  | some back ↦ last? p.violations >>= λ violated.
      if violated && ltb_ℤ (pos 0) (to_int (back +ℤ p.violation_pause -ℤ now))
      then some (pos 0)
      else some (count_all now p)
]

-- The two loops of merge, on the two vectors of each side in step. An insertion leaves the
-- iterators on the inserted element, which is then compared with the next one.
unfoldable pub merge_loop : List ℤ → List Bool → List ℤ → List Bool → Option (List ℤ × List Bool)
merge_loop td tv [] ov = some (td, tv)
merge_loop td tv (o ∷ od) [] = none
merge_loop [] tv (o ∷ od) (v ∷ ov) = merge_loop [] tv od ov >>= λ r. some (o ∷ r.0, v ∷ r.1)
merge_loop (t ∷ td) [] (o ∷ od) (v ∷ ov) = none
merge_loop (t ∷ td) (u ∷ tv) (o ∷ od) (v ∷ ov) =
    let before = merge_loop (o ∷ t ∷ td) (v ∷ u ∷ tv) od ov in
    let behind = merge_loop td tv (o ∷ od) (v ∷ ov) >>= λ r. some (t ∷ r.0, u ∷ r.1) in
    if ltb_ℤ o t then before else behind

unfoldable pub merge : PacingControl → PacingControl → Option PacingControl
unfolding merge_loop
merge p other = merge_loop p.date_times p.violations other.date_times other.violations >>= λ r.
    some (record p { date_times = r.0; violations = r.1 })
