-- ===== src/Pacing/God/Queries.antt =====
-- PacingGod::goodTime and countLeft (src/tws_meta.cpp): they always return, whatever the clock does.
use twstools.Base.{
  ℕ, ◌≤◌, ◌<◌, ◌≡◌, sym, ap, subst, ◌∙◌, inl, inr, Option, some, arith, ◌>>=◌, Returns,
  Returns-bind, Returns-map, Bool-cases, Option-cases, length, last?, ◌&&◌,
}
use twstools.Base.Int.{
  ℤ, pos, negsuc, ◌<ℤ◌, ◌-ℤ◌, ◌+ℤ◌, ltb_ℤ, to_int, to_int-id, IsInt, int_laws, parts_of_eq, ℤ-cases,
}
use twstools.Base.Sorted.{get_elem?-some, last?-paired}
use twstools.Requests.{Contract}
use twstools.Farms.{DataFarmStates}
use twstools.Pacing.Control.{PacingControl, burst_wait, new_control}
use twstools.Pacing.Control
use twstools.Pacing.Control.Merge.{IsKept, merge_lem}
use twstools.Pacing.God.{PacingGod, fresh_control, check_add, asked, good_time, count_left}
use twstools.Pacing.God.Sound.{IsSound}
use twstools.Pacing.God.Rounds.{Added, check_add_lem}
use twstools.Pacing.God.Calls.{asked_lem}

-- A control that the queries can work on: its vectors are in step and its limit is positive.
pub record IsReady (p : PacingControl) : Type 0 where
  pub kept : IsKept p
  pub positive : pos 0 <ℤ p.max_requests
  pub limit_int : IsInt p.max_requests

-- The int of a number is at most the number.
to_int_le : (n i : ℕ) → to_int (pos n) ≡ pos i → i ≤ n
unfolding to_int
to_int_le n i e = ground (arith, parts_of_eq e)

index_lem : (n i : ℕ) (m : ℤ) → pos 0 <ℤ m → IsInt m → to_int (pos n -ℤ m) ≡ pos i → i < n
index_lem n i (negsuc j) h k e = absurd (omega arith)
index_lem n i (pos j) h k e = elim (ℤ-cases (pos n -ℤ pos j)) [
  | inl (a, f) ↦
      let small = to_int_le a i (ap to_int (sym f) ∙ e) in omega (int_laws, parts_of_eq f)
  | inr (a, f) ↦
      let fits : IsInt (pos n -ℤ pos j) =
        (omega (int_laws, parts_of_eq f), omega (int_laws, parts_of_eq f)) in
      let same = sym (to_int-id (pos n -ℤ pos j) fits) ∙ e in
      absurd (omega (int_laws, parts_of_eq same, parts_of_eq f))
]

burst_wait-Returns :
    (now : ℤ) (p : PacingControl) → IsReady p → Returns (λ _. Unit {0}) (burst_wait now p)
unfolding burst_wait
burst_wait-Returns now p ok =
    elim (ℤ-cases (to_int (pos (length p.date_times) -ℤ p.max_requests))) [
      | inr (n, e) ↦ rw (e, burst_wait) tt
      | inl (i, e) ↦
          let (t, f) =
            get_elem?-some p.date_times i
              (index_lem (length p.date_times) i p.max_requests ok.positive ok.limit_int e) in
          rw (e, burst_wait, f) tt
    ]

control_good_time-Returns :
    (now : ℤ) (p : PacingControl) → IsReady p → Returns (λ _. Unit {0}) (Control.good_time now p)
unfolding Control.good_time
control_good_time-Returns now p ok = elim (Option-cases (last? p.date_times)) [
  | inl e ↦ rw (e, Control.good_time) tt
  | inr (back, e) ↦
      let (v, f) = last?-paired p.date_times p.violations back ok.kept.in_step e in
      rw (e, f, Control.good_time)
        (Returns-bind _ _ (burst_wait now p) _ (burst_wait-Returns now p ok) (λ b _. tt))
]

control_count_left-Returns :
    (now : ℤ) (p : PacingControl) → IsReady p → Returns (λ _. Unit {0}) (Control.count_left now p)
unfolding Control.count_left
control_count_left-Returns now p ok = elim (Option-cases (last? p.date_times)) [
  | inl e ↦ rw (e, Control.count_left) tt
  | inr (back, e) ↦
      let (v, f) = last?-paired p.date_times p.violations back ok.kept.in_step e in
      elim (Bool-cases (v && ltb_ℤ (pos 0) (to_int (back +ℤ p.violation_pause -ℤ now)))) [
        | inl b ↦ rw (e, f, b, Control.count_left) tt
        | inr b ↦ rw (e, f, b, Control.count_left) tt
      ]
]

merges-IsReady : (p q : PacingControl) → IsReady p → IsReady q → Returns IsReady (Control.merge p q)
merges-IsReady p q k l =
    Returns-map _ IsReady
      (λ r h.
        let (kept, _, limit, _, _, _) = h in
        record {
          kept = kept;
          positive = subst (λ m. pos 0 <ℤ m) (sym limit) k.positive;
          limit_int = subst IsInt (sym limit) k.limit_int;
        })
      (Control.merge p q) (merge_lem p q k.kept l.kept)

module _ {A : Type 0} (give : A → ℤ) (ask : PacingControl → Option A)
    (answers : (p : PacingControl) → IsReady p → Returns (λ _. Unit {0}) (ask p)) where
  query_lem :
      (d : DataFarmStates) (c : Contract) (g : PacingGod)
      → IsReady (fresh_control g)
      → IsSound IsReady g
      → Returns
          (λ (r : ℤ × PacingGod). IsSound IsReady r.1 × IsReady (fresh_control r.1))
          (check_add d c g >>= λ g'. asked d c g' >>= λ p. ask p >>= λ a. some (give a, g'))
  query_lem d c g h ok =
      Returns-bind (Added IsReady merges-IsReady d c g) _ (check_add d c g) _
        (check_add_lem IsReady merges-IsReady d c g h ok)
        λ g' a.
          Returns-bind IsReady _ (asked d c g') _ (asked_lem IsReady d c g' a.sound a.settled)
            λ p k.
              Returns-bind (λ _. Unit {0}) _ (ask p) _ (answers p k)
                λ r _. (a.sound, subst IsReady (sym a.fresh) h)

-- With sound controls of a positive limit, PacingGod::goodTime always returns, with every control as sound as before: no assert fails and no
-- vector is read out of range.
pub good_time-Returns :
    (now : ℤ) (d : DataFarmStates) (c : Contract) (g : PacingGod)
    → IsReady (fresh_control g)
    → IsSound IsReady g
    → Returns
        (λ (r : ℤ × PacingGod). IsSound IsReady r.1 × IsReady (fresh_control r.1))
        (good_time now d c g)
unfolding good_time
good_time-Returns now d c g h ok =
    query_lem (λ (r : ℤ × Control.Limit). r.0) (Control.good_time now)
      (control_good_time-Returns now) d c g h ok

-- With sound controls of a positive limit, PacingGod::countLeft always returns, with every control as sound as before.
pub count_left-Returns :
    (now : ℤ) (d : DataFarmStates) (c : Contract) (g : PacingGod)
    → IsReady (fresh_control g)
    → IsSound IsReady g
    → Returns
        (λ (r : ℤ × PacingGod). IsSound IsReady r.1 × IsReady (fresh_control r.1))
        (count_left now d c g)
unfolding count_left
count_left-Returns now d c g h ok =
    query_lem (λ n. n) (Control.count_left now) (control_count_left-Returns now) d c g h ok
