-- ===== src/Pacing/Control/Window.antt =====
-- What goodTime of PacingControl (src/tws_meta.cpp) promises: the number of requests in any check
-- interval stays within the limit.
use twstools.Base.{
  List, ◌≤◌, ◌≡◌, refl, inl, inr, ◌↔◌, Bool, true, false, some, [], ◌∷◌, arith, last?, Returns,
  Returns-map, subst, Option-cases,
}
use twstools.Base.Int.{ℤ, pos, ◌+ℤ◌, ◌-ℤ◌, ◌≤ℤ◌, ◌<ℤ◌, to_int-id, int_laws, int_min}
use twstools.Base.Sorted.{All-last?, last?-none, last?-paired, count_if, count_if-append}
use twstools.Pacing.Control.{PacingControl, good_time, add_request, Limit, swap_max, longest_wait}
use twstools.Pacing.Control.Burst.{in_interval, in_window, InRange, IsTimely, burst_wait_lem}

record IsDue (now : ℤ) (p : PacingControl) (back : ℤ) (violated : Bool) : Type 0 where
  pub spaced : back +ℤ p.min_pacing_time -ℤ now ≤ℤ pos 0
  pub paused : violated ≡ true → back +ℤ p.violation_pause -ℤ now ≤ℤ pos 0
  pub room : pos (in_window now p) <ℤ p.max_requests

longest_wait_iff :
    (a b c : ℤ) → ((longest_wait a b c).0 ≤ℤ pos 0) ↔ ((a ≤ℤ pos 0) × (b ≤ℤ pos 0) × (c ≤ℤ pos 0))
unfolding longest_wait swap_max
longest_wait_iff a b c = grind int_laws

good_time_busy :
    (now : ℤ) (p : PacingControl) (back : ℤ) (violated : Bool)
    → IsTimely now p
    → last? p.date_times ≡ some back
    → last? p.violations ≡ some violated
    → Returns (λ r. (r.0 ≤ℤ pos 0) ↔ IsDue now p back violated) (good_time now p)
unfolding good_time
good_time_busy now p back true ok e f =
    let (w, value, iff) = burst_wait_lem now p ok in
    let fits = All-last? (InRange now p) p.date_times back ok.in_range e in
    let all =
      longest_wait_iff (back +ℤ p.min_pacing_time -ℤ now) (back +ℤ p.violation_pause -ℤ now) w in
    rw (e, f, value, to_int-id _ fits.1, to_int-id _ fits.2, good_time)
      (
        (λ h. let k = all.0 h in record { spaced = k.0; paused = λ _. k.1; room = iff.0 k.2 }),
        (λ m. all.1 (m.spaced, m.paused refl, iff.1 m.room)),
      )
good_time_busy now p back false ok e f =
    let (w, value, iff) = burst_wait_lem now p ok in
    let fits = All-last? (InRange now p) p.date_times back ok.in_range e in
    let all = longest_wait_iff (back +ℤ p.min_pacing_time -ℤ now) int_min w in
    rw (e, f, value, to_int-id _ fits.1, good_time)
      (
        (λ h. let k = all.0 h in record { spaced = k.0; paused = λ e. cc; room = iff.0 k.2 }),
        (λ m. all.1 (m.spaced, omega arith, iff.1 m.room)),
      )

-- What good_time asks for before another request: the minimal distance to the last request, the
-- pause behind a violation, and room in the window.
pub record MaySend (now : ℤ) (p : PacingControl) : Type 0 where
  pub spaced :
      (back : ℤ) → last? p.date_times ≡ some back → back +ℤ p.min_pacing_time -ℤ now ≤ℤ pos 0
  pub paused :
      (back : ℤ)
      → last? p.date_times ≡ some back
      → last? p.violations ≡ some true
      → back +ℤ p.violation_pause -ℤ now ≤ℤ pos 0
  pub room : pos (in_window now p) <ℤ p.max_requests

IsDue-iff :
    (now : ℤ) (p : PacingControl) (back : ℤ) (violated : Bool)
    → last? p.date_times ≡ some back
    → last? p.violations ≡ some violated
    → IsDue now p back violated ↔ MaySend now p
IsDue-iff now p back violated e f = (
  (λ d. record {
    spaced = λ b eb. let same : back ≡ b = cc in rw (← same) d.spaced;
    paused = λ b eb vb.
        let same : back ≡ b = cc in let hit : violated ≡ true = cc in rw (← same) (d.paused hit);
    room = d.room;
  }),
  (λ m. record {
    spaced = m.spaced back e;
    paused = λ hit. m.paused back e (rw (← hit) f);
    room = m.room;
  }),
)

-- With the two vectors in step, the instants in order, a limit of at least one request, and all numbers that the
-- code keeps in an int in its range: goodTime returns, and its wait is over (at most 0) exactly when the last request is min_pacing_time old, a violation by it is violation_pause old, and fewer
-- than max_requests requests lie in the check interval.
pub good_time_iff :
    (now : ℤ) (p : PacingControl)
    → IsTimely now p
    → Returns (λ r. (r.0 ≤ℤ pos 0) ↔ MaySend now p) (good_time now p)
unfolding in_window good_time
good_time_iff now p ok = elim (Option-cases (last? p.date_times)) [
  | inl e ↦
      let nil = last?-none p.date_times e in
      rw (e, good_time)
        (
          (λ _. record {
            spaced = λ b eb. cc;
            paused = λ b eb. cc;
            room = rw nil (omega (arith, ok.positive));
          }),
          (λ _. omega arith),
        )
  | inr (back, e) ↦
      let (v, f) = last?-paired p.date_times p.violations back ok.in_step e in
      let same = IsDue-iff now p back v e f in
      Returns-map _ _ (λ r h. ((λ le. same.0 (h.0 le)), (λ m. h.1 (same.1 m)))) (good_time now p)
        (good_time_busy now p back v ok e f)
]

in_interval_later :
    (now now' iv t : ℤ) → now ≤ℤ now' → in_interval now iv t ≡ false → in_interval now' iv t ≡ false
unfolding in_interval
in_interval_later now now' iv t later e = grind int_laws

-- Later, no more of the same requests lie in the check interval.
window_later :
    (now now' iv : ℤ) (xs : List ℤ)
    → now ≤ℤ now'
    → count_if (in_interval now' iv) xs ≤ count_if (in_interval now iv) xs
window_later now now' iv [] later = omega arith
window_later now now' iv (t ∷ xs) later =
    ground (arith, window_later now now' iv xs later, in_interval_later now now' iv t later)

-- With the two vectors in step, the instants in order, a limit of at least one request, and all numbers that the
-- code keeps in an int in its range: when goodTime allowed a request, and addRequest records it at the same or
-- a later look at the clock, at most max_requests requests lie in the check interval then.
pub add_request_within :
    (now now' : ℤ) (p : PacingControl) (w : ℤ) (l : Limit)
    → IsTimely now p
    → good_time now p ≡ some (w, l)
    → w ≤ℤ pos 0
    → now ≤ℤ now'
    → pos (in_window now' (add_request now' p)) ≤ℤ p.max_requests
unfolding in_window add_request
add_request_within now now' p w l ok e h later =
    let spec = subst (Returns (λ r. (r.0 ≤ℤ pos 0) ↔ MaySend now p)) e (good_time_iff now p ok) in
    let m = spec.0 h in
    let fewer = window_later now now' p.check_interval p.date_times later in
    rw (count_if-append (in_interval now' p.check_interval) p.date_times (now' ∷ []))
      (ground (arith, m.room, fewer))
