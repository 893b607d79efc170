-- ===== src/Pacing/Control/Burst.antt =====
-- The check interval of class PacingControl (src/tws_meta.cpp): which requests lie in it, and the
-- part of goodTime that waits for the oldest of max_requests requests to leave it.
use twstools.Base.{
  ℕ, zero, suc, ◌+◌, ◌≤◌, ◌≡◌, inl, inr, ◌↔◌, Bool, true, false, some, List, [], ◌∷◌, arith, length,
  get_elem?, All, Bool-cases,
}
use twstools.Base.Int.{
  ℤ, pos, ◌+ℤ◌, ◌-ℤ◌, ◌≤ℤ◌, ◌<ℤ◌, ltb_ℤ, to_int, to_int-id, IsInt, int_laws, int_max, int_min,
  ℤ-cases, parts_of_eq,
}
use twstools.Base.Sorted.{
  Sorted, count_if, count_if-le, count_if-All, All-get_elem?, All-map, get_elem?-some,
}
use twstools.Pacing.Control.{PacingControl, burst_wait}

-- The request made at `t` still counts at `now`.
unfoldable pub in_interval : ℤ → ℤ → ℤ → Bool
in_interval now interval t = ltb_ℤ now (t +ℤ interval)

-- How many requests count at `now`.
unfoldable pub in_window : ℤ → PacingControl → ℕ
in_window now p = count_if (in_interval now p.check_interval) p.date_times

-- The differences that the code keeps in an int fit in one.
abbrev pub InRange : ℤ → PacingControl → ℤ → Type 0
InRange now p t =
    IsInt (t +ℤ p.check_interval -ℤ now)
    × IsInt (t +ℤ p.min_pacing_time -ℤ now)
    × IsInt (t +ℤ p.violation_pause -ℤ now)

-- A history as the program keeps it: the two vectors in step, the instants in order, a limit of at
-- least one request, and no int out of range.
pub record IsTimely (now : ℤ) (p : PacingControl) : Type 0 where
  pub in_step : length p.date_times ≡ length p.violations
  pub in_order : Sorted p.date_times
  pub in_range : All (InRange now p) p.date_times
  pub positive : pos 0 <ℤ p.max_requests
  pub limit_int : IsInt p.max_requests
  pub short : length p.date_times ≤ int_max

pub in_interval_iff : (now iv t : ℤ) → (in_interval now iv t ≡ false) ↔ (t +ℤ iv -ℤ now ≤ℤ pos 0)
unfolding in_interval
in_interval_iff now iv t = grind int_laws

-- The test that countLeft makes is the same.
pub in_interval_test : (now iv t : ℤ) → ltb_ℤ (pos 0) (t +ℤ iv -ℤ now) ≡ in_interval now iv t
unfolding in_interval
in_interval_test now iv t = grind int_laws

pub in_interval_mono :
    (now iv s t : ℤ) → s ≤ℤ t → in_interval now iv t ≡ false → in_interval now iv s ≡ false
unfolding in_interval
in_interval_mono now iv s t h e = grind int_laws

pub in_interval_up :
    (now iv s t : ℤ) → s ≤ℤ t → in_interval now iv s ≡ true → in_interval now iv t ≡ true
unfolding in_interval
in_interval_up now iv s t h e = grind int_laws

-- With an instant out of the interval, so are all before it.
window_below :
    (now iv : ℤ) (xs : List ℤ) (i : ℕ) (t : ℤ)
    → Sorted xs
    → get_elem? xs i ≡ some t
    → in_interval now iv t ≡ false
    → count_if (in_interval now iv) xs + i + 1 ≤ length xs
window_below now iv [] i t s e h = cc
window_below now iv (x ∷ xs) zero t s e h =
    let same : x ≡ t = cc in
    let out : in_interval now iv x ≡ false = rw same h in
    rw out (omega (arith, count_if-le (in_interval now iv) xs))
window_below now iv (x ∷ xs) (suc i) t s e h =
    let out : in_interval now iv x ≡ false =
      in_interval_mono now iv x t (All-get_elem? (λ y. x ≤ℤ y) xs i t s.0 e) h in
    rw out (omega (arith, window_below now iv xs i t s.1 e h))

-- With an instant in the interval, so are all behind it.
window_above :
    (now iv : ℤ) (xs : List ℤ) (i : ℕ) (t : ℤ)
    → Sorted xs
    → get_elem? xs i ≡ some t
    → in_interval now iv t ≡ true
    → length xs ≤ count_if (in_interval now iv) xs + i
window_above now iv [] i t s e h = cc
window_above now iv (x ∷ xs) zero t s e h =
    let same : x ≡ t = cc in
    let inside : in_interval now iv x ≡ true = rw same h in
    rw inside (
      omega (
        arith,
        count_if-All (in_interval now iv) xs
            (All-map (λ y le. in_interval_up now iv x y le inside) xs s.0),
      ))
window_above now iv (x ∷ xs) (suc i) t s e h = ground (arith, window_above now iv xs i t s.1 e h)

-- p_index is no negative int: the request at p_index leaves the interval first.
burst_wait_index :
    (now : ℤ) (p : PacingControl)
    → IsTimely now p
    → to_int (pos (length p.date_times) -ℤ p.max_requests)
      ≡ pos (length p.date_times) -ℤ p.max_requests
burst_wait_index now p ok = to_int-id _ (omega int_laws)

burst_wait_far :
    (now : ℤ) (p : PacingControl)
    → IsTimely now p
    → (i : ℕ) (t : ℤ) → pos (length p.date_times) -ℤ p.max_requests ≡ pos i
    → get_elem? p.date_times i ≡ some t
    → (t +ℤ p.check_interval -ℤ now ≤ℤ pos 0) ↔ (pos (in_window now p) <ℤ p.max_requests)
unfolding in_window
burst_wait_far now p ok i t e at = elim (Bool-cases (in_interval now p.check_interval t)) [
  | inl inside ↦
      let above = window_above now p.check_interval p.date_times i t ok.in_order at inside in
      ((λ gone. absurd (late gone inside)), (λ room. absurd (omega (int_laws, parts_of_eq e))))
  | inr out ↦
      let below = window_below now p.check_interval p.date_times i t ok.in_order at out in
      let gone = (in_interval_iff now p.check_interval t).0 out in
      ((λ _. omega (int_laws, parts_of_eq e)), (λ _. gone))
]
  where
    late : t +ℤ p.check_interval -ℤ now ≤ℤ pos 0 → in_interval now p.check_interval t ≡ true → ⊥
    late gone inside = let out = (in_interval_iff now p.check_interval t).1 gone in cc (out, inside)

-- The burst limit is met exactly when there is room in the window.
pub burst_wait_lem :
    (now : ℤ) (p : PacingControl)
    → IsTimely now p
    → (w : ℤ) × (burst_wait now p ≡ some w)
      × ((w ≤ℤ pos 0) ↔ (pos (in_window now p) <ℤ p.max_requests))
unfolding burst_wait in_window
burst_wait_lem now p ok = elim (ℤ-cases (pos (length p.date_times) -ℤ p.max_requests)) [
  | inl (i, e) ↦
      let (t, at) = get_elem?-some p.date_times i (omega (int_laws, parts_of_eq e)) in
      let fits = All-get_elem? (InRange now p) p.date_times i t ok.in_range at in
      (
        t +ℤ p.check_interval -ℤ now,
        rw (burst_wait_index now p ok, e, at, to_int-id _ fits.0, burst_wait),
        burst_wait_far now p ok i t e at,
      )
  | inr (n, e) ↦
      let few = count_if-le (in_interval now p.check_interval) p.date_times in
      (
        int_min,
        rw (burst_wait_index now p ok, e, burst_wait),
        ((λ _. omega (int_laws, parts_of_eq e)), (λ _. omega int_laws)),
      )
]
