-- ===== src/Gen/Dates/Steps.antt =====
-- The dates of src/twsgen.cpp: jumping over weeks is going back day by day.
use twstools.Base.{
  ℕ, zero, suc, ◌+◌, ◌-◌, ◌*◌, ◌/◌, ◌%◌, ◌≤◌, ◌==◌, ◌≡◌, refl, sym, ap, ◌∙◌, ◌⊎◌, inl, inr, false,
  if◌then◌else◌, arith, Bool-cases,
}
use twstools.Base.Int.{ℤ, pos, ◌-ℤ◌, int_laws}
use twstools.Gen.Dates.{
  Tm, quotient, remainder, leave_weekend, day_back, days_back, weeks_back, rounds, busy_days_back,
}

-- The business day before a day.
unfoldable pub business_day_before : Tm → Tm
business_day_before tm =
    if tm.wday == 0
    then record tm { mday = tm.mday -ℤ pos 2; wday = 5 }
    else (if tm.wday == 1
        then record tm { mday = tm.mday -ℤ pos 3; wday = 5 }
        else record tm { mday = tm.mday -ℤ pos 1; wday = tm.wday - 1 })

unfoldable pub business_days_before : ℕ → Tm → Tm
unfolding business_day_before
business_days_before zero tm = tm
business_days_before (suc n) tm = business_days_before n (business_day_before tm)

abbrev pub IsWeekday : Tm → Type 0
IsWeekday tm = (1 ≤ tm.wday) × (tm.wday ≤ 5)

day_back-before : (tm : Tm) → IsWeekday tm → day_back tm ≡ business_day_before tm
unfolding day_back business_day_before
day_back-before tm w = ground arith

before-IsWeekday : (tm : Tm) → IsWeekday tm → IsWeekday (business_day_before tm)
unfolding business_day_before
before-IsWeekday tm w = ground arith

days_back-before : (n : ℕ) (tm : Tm) → IsWeekday tm → days_back n tm ≡ business_days_before n tm
unfolding days_back business_days_before
days_back-before zero tm w = refl
days_back-before (suc n) tm w =
    ap (days_back n) (day_back-before tm w)
    ∙ days_back-before n (business_day_before tm) (before-IsWeekday tm w)

before-add :
    (a b : ℕ) (tm : Tm)
    → business_days_before (a + b) tm ≡ business_days_before b (business_days_before a tm)
unfolding business_days_before
before-add zero b tm = let e : 0 + b ≡ b = omega arith in rw e refl
before-add (suc a) b tm =
    let e : suc a + b ≡ suc (a + b) = omega arith in rw e (before-add a b (business_day_before tm))

-- Five business days are a week.
abbrev week_before : Tm → Tm
week_before tm = record tm { mday = tm.mday -ℤ pos 7 }

abbrev at : Tm → ℤ → ℕ → Tm
at tm m w = record tm { mday = m; wday = w }

five_from :
    (tm : Tm) (m : ℤ) (w : ℕ)
    → 1 ≤ w
    → w ≤ 5
    → business_days_before 5 (at tm m w) ≡ at tm (m -ℤ pos 7) w
unfolding business_days_before business_day_before
five_from tm m zero h k = absurd (omega (arith, h))
five_from tm m (suc zero) h k = ap (λ x. at tm x 1) (omega int_laws)
five_from tm m (suc (suc zero)) h k = ap (λ x. at tm x 2) (omega int_laws)
five_from tm m (suc (suc (suc zero))) h k = ap (λ x. at tm x 3) (omega int_laws)
five_from tm m (suc (suc (suc (suc zero)))) h k = ap (λ x. at tm x 4) (omega int_laws)
five_from tm m (suc (suc (suc (suc (suc zero))))) h k = ap (λ x. at tm x 5) (omega int_laws)
five_from tm m (suc (suc (suc (suc (suc (suc w)))))) h k = absurd (omega (arith, k))

five_before : (tm : Tm) → IsWeekday tm → business_days_before 5 tm ≡ week_before tm
five_before tm w = five_from tm tm.mday tm.wday w.0 w.1

unchanged : (m : ℤ) → m ≡ m -ℤ pos 0
unchanged m = omega int_laws

weeks_before :
    (k : ℕ) (tm : Tm)
    → IsWeekday tm
    → business_days_before (5 * k) tm ≡ record tm { mday = tm.mday -ℤ pos (7 * k) }
unfolding business_days_before
weeks_before zero tm w = ap (λ m. record tm { mday = m }) (unchanged tm.mday)
weeks_before (suc k) tm w =
    let e : 5 * suc k ≡ 5 + 5 * k = omega arith in
    let sum : (tm.mday -ℤ pos 7) -ℤ pos (7 * k) ≡ tm.mday -ℤ pos (7 * suc k) = omega int_laws in
    ap (λ n. business_days_before n tm) e
    ∙ before-add 5 (5 * k) tm
    ∙ ap (business_days_before (5 * k)) (five_before tm w)
    ∙ weeks_before k (week_before tm) w
    ∙ ap (λ m. record tm { mday = m }) sum

-- From a weekday.
weekday_back :
    (n : ℕ) (tm : Tm)
    → IsWeekday tm
    → days_back (rounds (remainder (pos n) 5)) (weeks_back (quotient (pos n) 5) tm)
      ≡ business_days_before n tm
unfolding quotient remainder weeks_back
weekday_back n tm w =
    let e : 5 * (n / 5) + n % 5 ≡ n = omega arith in
    days_back-before (n % 5) (record tm { mday = tm.mday -ℤ pos (7 * (n / 5)) }) w
    ∙ ap (business_days_before (n % 5)) (sym (weeks_before (n / 5) tm w))
    ∙ sym (before-add (5 * (n / 5)) (n % 5) tm)
    ∙ ap (λ k. business_days_before k tm) e

less_one : (m : ℕ) → pos (suc m) -ℤ pos 1 ≡ pos m
less_one m = omega int_laws

leave_weekday : (tm : Tm) (days : ℤ) → IsWeekday tm → leave_weekend tm days ≡ (tm, days)
unfolding leave_weekend
leave_weekday tm days w =
    let not_sunday : (tm.wday == 0) ≡ false = ground arith in
    let not_saturday : (tm.wday == 6) ≡ false = ground arith in rw (not_sunday, not_saturday) refl

-- Sunday and Saturday.
IsFree : Tm → Type 0
IsFree tm = (tm.wday ≡ 0) ⊎ (tm.wday ≡ 6)

leave_free :
    (tm : Tm) (m : ℕ) → IsFree tm → leave_weekend tm (pos (suc m)) ≡ (business_day_before tm, pos m)
unfolding leave_weekend business_day_before IsFree
leave_free tm m (inl e) = let one = less_one m in simp (e, one) refl
leave_free tm m (inr e) = let one = less_one m in simp (e, one) refl

before-free : (tm : Tm) → IsFree tm → IsWeekday (business_day_before tm)
unfolding business_day_before IsFree
before-free tm (inl e) = simp e (omega arith)
before-free tm (inr e) = simp e (omega arith)

day-cases : (tm : Tm) → tm.wday ≤ 6 → IsFree tm ⊎ IsWeekday tm
unfolding IsFree
day-cases tm h = elim (Bool-cases (tm.wday == 0)) [
  | inl sunday ↦ inl (inl (ground (arith, sunday)))
  | inr other ↦ elim (Bool-cases (tm.wday == 6)) [
    | inl saturday ↦ inl (inr (ground (arith, saturday)))
    | inr weekday ↦ inr (ground (arith, other, h), ground (arith, weekday, h))
  ]
]

-- What busy_days_back does with the result of leave_weekend.
abbrev jumped : Tm × ℤ → Tm
jumped r = days_back (rounds (remainder r.1 5)) (weeks_back (quotient r.1 5) r.0)

free_back :
    (n : ℕ) (tm : Tm) → 1 ≤ n → IsFree tm → busy_days_back tm (pos n) ≡ business_days_before n tm
unfolding busy_days_back business_days_before
free_back zero tm h free = absurd (omega (arith, h))
free_back (suc m) tm h free =
    ap jumped (leave_free tm m free) ∙ weekday_back m (business_day_before tm) (before-free tm free)

-- From any day of the week, one business day at least goes back to the same day as taking the business
-- day before so many times, where the one before a Saturday or a Sunday is the Friday. From a weekday
-- no business day changes nothing.
pub busy_days_back-steps :
    (n : ℕ) (tm : Tm)
    → tm.wday ≤ 6
    → (1 ≤ n) ⊎ IsWeekday tm
    → busy_days_back tm (pos n) ≡ business_days_before n tm
unfolding busy_days_back
busy_days_back-steps n tm h (inr w) = ap jumped (leave_weekday tm (pos n) w) ∙ weekday_back n tm w
busy_days_back-steps n tm h (inl some_day) = elim (day-cases tm h) [
  | inl free ↦ free_back n tm some_day free
  | inr w ↦ ap jumped (leave_weekday tm (pos n) w) ∙ weekday_back n tm w
]
