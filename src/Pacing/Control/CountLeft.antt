-- ===== src/Pacing/Control/CountLeft.antt =====
-- What countLeft of PacingControl (src/tws_meta.cpp) returns, and that goodTime agrees with it.
use mathlib.Core.List.{reverse}
use twstools.Base.{
  ◌≡◌, refl, ◌∙◌, ap, ◌⊎◌, inl, inr, ◌↔◌, Bool, true, false, Option, none, some, List, [], ◌∷◌,
  arith, last?, All, Returns, Returns-map, Option-cases, Bool-cases,
}
use twstools.Base.Int.{ℤ, pos, ◌+ℤ◌, ◌-ℤ◌, ◌≤ℤ◌, ◌<ℤ◌, ltb_ℤ, to_int-id, int_laws, leb-not-ltb}
use twstools.Base.Sorted.{
  Falling, Falling-reverse, count_if, count_if-reverse, count_if-none, All-reverse, All-map,
  All-last?, last?-paired,
}
use twstools.Pacing.Control.{PacingControl, good_time, count_loop, count_all, count_left}
use twstools.Pacing.Control.Burst.{
  in_interval, in_window, InRange, IsTimely, in_interval_test, in_interval_mono,
}
use twstools.Pacing.Control.Window.{good_time_iff}

-- Over instants from the last one back, the loop takes off one for each that counts.
count_loop_lem :
    (now : ℤ) (p : PacingControl) (left : ℤ) (xs : List ℤ)
    → Falling xs
    → All (InRange now p) xs
    → count_loop now p.check_interval left xs
      ≡ left -ℤ pos (count_if (in_interval now p.check_interval) xs)
unfolding count_loop
count_loop_lem now p left [] f r = omega int_laws
count_loop_lem now p left (t ∷ xs) f r = elim (Bool-cases (in_interval now p.check_interval t)) [
  | inl inside ↦
      let ih = count_loop_lem now p (left -ℤ pos 1) xs f.1 r.1 in
      rw (to_int-id _ r.0.0, in_interval_test, inside) (ih ∙ omega int_laws)
  | inr out ↦
      let older =
        count_if-none (in_interval now p.check_interval) xs
          (All-map (λ s le. in_interval_mono now p.check_interval s t le out) xs f.0) in
      rw (to_int-id _ r.0.0, in_interval_test, out, older) (omega int_laws)
]

count_all_lem :
    (now : ℤ) (p : PacingControl)
    → IsTimely now p
    → count_all now p ≡ p.max_requests -ℤ pos (in_window now p)
unfolding count_all in_window
count_all_lem now p ok =
    count_loop_lem now p p.max_requests (reverse p.date_times)
      (Falling-reverse p.date_times ok.in_order)
      (All-reverse (InRange now p) p.date_times ok.in_range)
    ∙ ap (λ n. p.max_requests -ℤ pos n)
        (count_if-reverse (in_interval now p.check_interval) p.date_times)

-- The pause behind a violation by the last request is over.
abbrev pub IsPaused : ℤ → PacingControl → Type 0
IsPaused now p =
    (back : ℤ)
    → last? p.date_times ≡ some back
    → last? p.violations ≡ some true
    → back +ℤ p.violation_pause -ℤ now ≤ℤ pos 0

count_left_busy :
    (now : ℤ) (p : PacingControl) (back : ℤ) (violated : Bool)
    → IsTimely now p
    → last? p.date_times ≡ some back
    → last? p.violations ≡ some violated
    → IsPaused now p
    → count_left now p ≡ some (p.max_requests -ℤ pos (in_window now p))
unfolding count_left
count_left_busy now p back false ok e f paused =
    rw (e, f, count_left) (ap some (count_all_lem now p ok))
count_left_busy now p back true ok e f paused =
    let fits = All-last? (InRange now p) p.date_times back ok.in_range e in
    let over = leb-not-ltb (pos 0) _ (paused back e f) in
    rw (e, f, to_int-id _ fits.2, over, count_left) (ap some (count_all_lem now p ok))

-- With the two vectors in step, the instants in order, a limit of at least one request, and all numbers that
-- the code keeps in an int in its range: without a pause to wait for, countLeft is max_requests
-- less the requests in the check interval.
pub count_left_room :
    (now : ℤ) (p : PacingControl)
    → IsTimely now p
    → IsPaused now p
    → count_left now p ≡ some (p.max_requests -ℤ pos (in_window now p))
unfolding count_left
count_left_room now p ok paused = elim (Option-cases (last? p.date_times)) [
  | inl e ↦ rw (e, count_left) (ap some (count_all_lem now p ok))
  | inr (back, e) ↦
      let (v, f) = last?-paired p.date_times p.violations back ok.in_step e in
      count_left_busy now p back v ok e f paused
]

-- Within the pause behind a violation countLeft is 0.
pub count_left_paused :
    (now : ℤ) (p : PacingControl) (back : ℤ)
    → IsTimely now p
    → last? p.date_times ≡ some back
    → last? p.violations ≡ some true
    → pos 0 <ℤ back +ℤ p.violation_pause -ℤ now
    → count_left now p ≡ some (pos 0)
unfolding count_left
count_left_paused now p back ok e v late =
    let fits = All-last? (InRange now p) p.date_times back ok.in_range e in
    let wait : ltb_ℤ (pos 0) (back +ℤ p.violation_pause -ℤ now) ≡ true = ground (arith, late) in
    rw (e, v, to_int-id _ fits.2, wait, count_left)

IsPaused-cases :
    (now : ℤ) (p : PacingControl)
    → IsPaused now p
      ⊎ ((back : ℤ) × (last? p.date_times ≡ some back)
          × (last? p.violations ≡ some true)
          × (pos 0 <ℤ back +ℤ p.violation_pause -ℤ now))
IsPaused-cases now p = go (last? p.date_times) refl (last? p.violations) refl
  where
    go :
        (d : Option ℤ)
        → last? p.date_times ≡ d
        → (v : Option Bool) → last? p.violations ≡ v
        → IsPaused now p
          ⊎ ((back : ℤ) × (last? p.date_times ≡ some back)
              × (last? p.violations ≡ some true)
              × (pos 0 <ℤ back +ℤ p.violation_pause -ℤ now))
    go none e v f = inl (λ b eb vb. cc)
    go (some back) e none f = inl (λ b eb vb. cc)
    go (some back) e (some false) f = inl (λ b eb vb. cc)
    go (some back) e (some true) f =
        elim (Bool-cases (ltb_ℤ (pos 0) (back +ℤ p.violation_pause -ℤ now))) [
          | inl late ↦ inr (back, e, f, ground arith)
          | inr over ↦ inl (λ b eb vb. let same : back ≡ b = cc in rw (← same) (ground arith))
        ]

-- With the two vectors in step, the instants in order, a limit of at least one request, and all numbers that
-- the code keeps in an int in its range: once the last request is min_pacing_time old, goodTime
-- allows a request exactly when countLeft counts at least one.
pub good_time-count_left :
    (now : ℤ) (p : PacingControl)
    → IsTimely now p
    → ((back : ℤ) → last? p.date_times ≡ some back → back +ℤ p.min_pacing_time -ℤ now ≤ℤ pos 0)
    → Returns
        (λ r. Returns (λ n. (r.0 ≤ℤ pos 0) ↔ (pos 0 <ℤ n)) (count_left now p))
        (good_time now p)
good_time-count_left now p ok spaced =
    Returns-map _ _
      (λ r h. elim (IsPaused-cases now p) [
        | inl paused ↦ rw (count_left_room now p ok paused) (
          (λ le. let m = h.0 le in let room = m.room in omega int_laws),
          (λ lt. h.1 (record { spaced = spaced; paused = paused; room = omega int_laws })),
        )
        | inr (back, e, v, late) ↦ rw (count_left_paused now p back ok e v late) (
          (λ le. let m = h.0 le in let over = m.paused back e v in absurd (omega arith)),
          (λ lt. absurd (omega arith)),
        )
      ])
      (good_time now p) (good_time_iff now p ok)
