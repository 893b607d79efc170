-- ===== src/Pacing/Tests.antt =====
-- Examples for the pacing controls of src/tws_meta.cpp.
use mathlib.Core.List.{Perm}
use twstools.Base.{◌≡◌, refl, subst, ◌↔◌, true, false, some, [], ◌∷◌, arith, Returns}
use twstools.Base.Int.{ℤ, pos, negsuc, ◌+ℤ◌, ◌-ℤ◌, ◌≤ℤ◌, ◌<ℤ◌, to_int}
use twstools.Base.Text.{text_eq, bytes}
use twstools.Base.Map.{find}
use twstools.Samples.{contract_a, contract_b}
use twstools.Farms.{new_states}
use twstools.Pacing.Control.{
  PacingControl, new_control, good_time, count_left, add_request, merge, clear, notify_violation,
  wait_min, swap_max, burst_wait, longest_wait,
}
use twstools.Pacing.Control.Burst.{IsTimely, in_window}
use twstools.Pacing.Control.Window.{MaySend, good_time_iff, add_request_within}
use twstools.Pacing.Control.CountLeft.{count_left_room, good_time-count_left}
use twstools.Pacing.Control.Merge.{IsKept, entries, merge_lem}
use twstools.Pacing.Control.History.{Cleared, clear-IsKept, Marked, notify_violation_lem}
use twstools.Pacing.God.{PacingGod, new_god, fresh_control}
use twstools.Pacing.God
use twstools.Pacing.God.Sound.{IsSound}
use twstools.Pacing.God.Calls.{IsKeptBy, add_request-IsSound}
use twstools.Pacing.God.Queries.{IsReady, good_time-Returns, count_left-Returns}

-- A control with a limit of two requests in ten seconds, and one request behind it; and the same
-- with a violation.
abbrev one_sent : PacingControl
one_sent = record {
  date_times = pos 1000 ∷ [];
  violations = false ∷ [];
  check_interval = pos 10000;
  max_requests = pos 2;
  min_pacing_time = pos 500;
  violation_pause = pos 60000;
}

abbrev one_violated : PacingControl
one_violated = record one_sent { violations = true ∷ [] }

one_sent-IsTimely : IsTimely (pos 4000) one_sent
unfolding ◌+ℤ◌ ◌-ℤ◌
one_sent-IsTimely = record {
  in_step = refl;
  in_order = (tt, tt);
  in_range =
      (((omega arith, omega arith), (omega arith, omega arith), (omega arith, omega arith)), tt);
  positive = omega arith;
  limit_int = (omega arith, omega arith);
  short = omega arith;
}

one_violated-IsTimely : IsTimely (pos 4000) one_violated
unfolding ◌+ℤ◌ ◌-ℤ◌
one_violated-IsTimely = record {
  in_step = refl;
  in_order = (tt, tt);
  in_range =
      (((omega arith, omega arith), (omega arith, omega arith), (omega arith, omega arith)), tt);
  positive = omega arith;
  limit_int = (omega arith, omega arith);
  short = omega arith;
}

good_time_iff_example :
    Returns (λ r. (r.0 ≤ℤ pos 0) ↔ MaySend (pos 4000) one_sent) (good_time (pos 4000) one_sent)
good_time_iff_example = good_time_iff (pos 4000) one_sent one_sent-IsTimely

add_request_within_example : pos (in_window (pos 4001) (add_request (pos 4001) one_sent)) ≤ℤ pos 2
unfolding good_time burst_wait longest_wait swap_max to_int ◌+ℤ◌ ◌-ℤ◌
add_request_within_example =
    add_request_within (pos 4000) (pos 4001) one_sent (negsuc 2499) wait_min one_sent-IsTimely refl
      (omega arith) (omega arith)

count_left_room_example :
    count_left (pos 4000) one_sent ≡ some (pos 2 -ℤ pos (in_window (pos 4000) one_sent))
count_left_room_example = count_left_room (pos 4000) one_sent one_sent-IsTimely (λ back e f. cc)

good_time-count_left_example :
    Returns
      (λ r. Returns (λ n. (r.0 ≤ℤ pos 0) ↔ (pos 0 <ℤ n)) (count_left (pos 4000) one_sent))
      (good_time (pos 4000) one_sent)
unfolding ◌+ℤ◌ ◌-ℤ◌
good_time-count_left_example = good_time-count_left (pos 4000) one_sent one_sent-IsTimely (λ back e.
    let same : pos 1000 ≡ back = cc in
    subst (λ t. t +ℤ pos 500 -ℤ pos 4000 ≤ℤ pos 0) same (omega arith))

one_sent-IsKept : IsKept one_sent
one_sent-IsKept = record { in_step = refl; in_order = (tt, tt) }

one_violated-IsKept : IsKept one_violated
one_violated-IsKept = record { in_step = refl; in_order = (tt, tt) }

merge_lem_example :
    Returns
      (λ r.
        IsKept r
        × Perm (entries r.date_times r.violations) ((pos 1000, false) ∷ (pos 1000, true) ∷ [])
        × (r.max_requests ≡ pos 2)
        × (r.check_interval ≡ pos 10000)
        × (r.min_pacing_time ≡ pos 500)
        × (r.violation_pause ≡ pos 60000))
      (merge one_sent one_violated)
merge_lem_example = merge_lem one_sent one_violated one_sent-IsKept one_violated-IsKept

clear-IsKept_example :
    Returns (λ q. IsKept q × Cleared (pos 4000) one_sent q) (clear (pos 4000) one_sent)
clear-IsKept_example = clear-IsKept (pos 4000) one_sent one_sent-IsKept

-- A control for the farm of the first contract, and one for the second, whose farm is not known.
abbrev two_controls : PacingGod
two_controls = record {
  max_requests = pos 2;
  check_interval = pos 10000;
  min_pacing_time = pos 500;
  violation_pause = pos 60000;
  control_global = one_sent;
  control_hmds = (contract_a.exchange, one_sent) ∷ [];
  control_lazy = (contract_b.exchange, one_violated) ∷ [];
}

two_controls-IsSound : IsSound IsKept two_controls
unfolding find text_eq bytes
two_controls-IsSound = record {
  global = one_sent-IsKept;
  hmds = (one_sent-IsKept, tt);
  lazy = (one_violated-IsKept, tt);
  named = refl;
}

one_sent-IsKeptBy : IsKeptBy (pos 4000) one_sent
one_sent-IsKeptBy = (one_sent-IsKept, (omega arith, tt))

one_violated-IsKeptBy : IsKeptBy (pos 4000) one_violated
one_violated-IsKeptBy = (one_violated-IsKept, (omega arith, tt))

add_request-IsSound_example :
    Returns
      (IsSound (IsKeptBy (pos 4000)))
      (God.add_request (pos 4000) new_states contract_b two_controls)
unfolding find text_eq bytes
add_request-IsSound_example =
    add_request-IsSound (pos 4000) new_states contract_b two_controls (record {
      global = one_sent-IsKeptBy;
      hmds = (one_sent-IsKeptBy, tt);
      lazy = (one_violated-IsKeptBy, tt);
      named = refl;
    })

notify_violation_lem_example :
    Returns (λ q. IsKept q × Marked (pos 4000) one_sent q) (notify_violation (pos 4000) one_sent)
notify_violation_lem_example = notify_violation_lem (pos 4000) one_sent one_sent-IsKept

two_controls-IsReady : IsReady (fresh_control two_controls) × IsSound IsReady two_controls
unfolding fresh_control new_control find text_eq bytes
two_controls-IsReady =
    let sent : IsReady one_sent = record {
      kept = one_sent-IsKept;
      positive = omega arith;
      limit_int = (omega arith, omega arith);
    } in
    let violated : IsReady one_violated = record {
      kept = one_violated-IsKept;
      positive = omega arith;
      limit_int = (omega arith, omega arith);
    } in
    (
      record {
        kept = record { in_step = refl; in_order = tt };
        positive = omega arith;
        limit_int = (omega arith, omega arith);
      },
      record { global = sent; hmds = (sent, tt); lazy = (violated, tt); named = refl },
    )

good_time-Returns_example :
    Returns
      (λ (r : ℤ × PacingGod). IsSound IsReady r.1 × IsReady (fresh_control r.1))
      (God.good_time (pos 4000) new_states contract_b two_controls)
good_time-Returns_example =
    good_time-Returns (pos 4000) new_states contract_b two_controls two_controls-IsReady.0
      two_controls-IsReady.1

count_left-Returns_example :
    Returns
      (λ (r : ℤ × PacingGod). IsSound IsReady r.1 × IsReady (fresh_control r.1))
      (God.count_left (pos 4000) new_states contract_a two_controls)
count_left-Returns_example =
    count_left-Returns (pos 4000) new_states contract_a two_controls two_controls-IsReady.0
      two_controls-IsReady.1
