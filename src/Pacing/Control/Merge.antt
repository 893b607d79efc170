-- ===== src/Pacing/Control/Merge.antt =====
-- PacingControl::merge (src/tws_meta.cpp): two histories become one, in order and with nothing lost.
use mathlib.Core.List.{Perm, perm_middle, append-nil}
use mathlib.Core.List.Perm
use twstools.Base.{
  suc, ◌≡◌, refl, inl, inr, ap, Bool, some, List, [], ◌∷◌, ◌++◌, arith, length, All, Returns,
  Bool-cases,
}
use twstools.Base.Int.{ℤ, ◌≤ℤ◌, ◌<ℤ◌, ltb_ℤ}
use twstools.Base.Sorted.{Sorted, All-map}
use twstools.Pacing.Control.{PacingControl, merge_loop, merge}

-- The requests of a history, each with its violation.
abbrev pub entries : List ℤ → List Bool → List (ℤ × Bool)
entries [] vs = []
entries (t ∷ ts) [] = []
entries (t ∷ ts) (v ∷ vs) = (t, v) ∷ entries ts vs

-- The two vectors in step, and the instants in order.
pub record IsKept (p : PacingControl) : Type 0 where
  pub in_step : length p.date_times ≡ length p.violations
  pub in_order : Sorted p.date_times

trans_le : (a b c : ℤ) → a ≤ℤ b → b ≤ℤ c → a ≤ℤ c
trans_le a b c h k = omega arith

-- What merging the entries of two histories gives.
record Merged (td od : List ℤ) (es : List (ℤ × Bool)) (r : List ℤ × List Bool) : Type 1 where
  in_step : length r.0 ≡ length r.1
  bounded : (P : ℤ → Type 0) → All P td → All P od → All P r.0
  in_order : Sorted r.0
  all_kept : Perm (entries r.0 r.1) es

merge_loop-Merged :
    (td : List ℤ) (tv : List Bool) (od : List ℤ) (ov : List Bool)
    → length td ≡ length tv
    → length od ≡ length ov
    → Sorted td
    → Sorted od
    → (r : List ℤ × List Bool) × (merge_loop td tv od ov ≡ some r)
      × Merged td od (entries td tv ++ entries od ov) r
unfolding merge_loop
merge_loop-Merged td tv [] ov e f s u = (
  (td, tv),
  refl,
  record {
    in_step = e;
    bounded = λ P h k. h;
    in_order = s;
    all_kept = rw append-nil (Perm.refl (entries td tv));
  },
)
merge_loop-Merged td tv (o ∷ od) [] e f s u = absurd (omega arith)
merge_loop-Merged [] tv (o ∷ od) (v ∷ ov) e f s u =
    let (r, eq, m) = merge_loop-Merged [] tv od ov e (omega arith) tt u.1 in
    (
      (o ∷ r.0, v ∷ r.1),
      rw eq,
      record {
        in_step = ap suc m.in_step;
        bounded = λ P h k. (k.0, m.bounded P tt k.1);
        in_order = (m.bounded (λ x. o ≤ℤ x) tt u.0, m.in_order);
        all_kept = Perm.cons (o, v) m.all_kept;
      },
    )
merge_loop-Merged (t ∷ td) [] (o ∷ od) (v ∷ ov) e f s u = absurd (omega arith)
merge_loop-Merged (t ∷ td) (w ∷ tv) (o ∷ od) (v ∷ ov) e f s u = elim (Bool-cases (ltb_ℤ o t)) [
  | inl before ↦
      let lt : o <ℤ t = ground arith in
      let (r, eq, m) =
        merge_loop-Merged (o ∷ t ∷ td) (v ∷ w ∷ tv) od ov (ap suc e) (omega arith)
          ((omega arith, All-map (λ x (le : t ≤ℤ x). trans_le o t x (omega arith) le) td s.0), s)
          u.1 in
      (
        r,
        rw before eq,
        record {
          in_step = m.in_step;
          bounded = λ P h k. m.bounded P (k.0, h) k.1;
          in_order = m.in_order;
          all_kept =
              Perm.trans m.all_kept
                (Perm.symm (perm_middle (entries (t ∷ td) (w ∷ tv)) (entries od ov)));
        },
      )
  | inr behind ↦
      let le : t ≤ℤ o = ground arith in
      let (r, eq, m) = merge_loop-Merged td tv (o ∷ od) (v ∷ ov) (omega arith) f s.1 u in
      (
        (t ∷ r.0, w ∷ r.1),
        rw (behind, eq),
        record {
          in_step = ap suc m.in_step;
          bounded = λ P h k. (h.0, m.bounded P h.1 k);
          in_order = (
            m.bounded (λ x. t ≤ℤ x) s.0
                (le, All-map (λ x (ge : o ≤ℤ x). trans_le t o x le ge) od u.0),
            m.in_order,
          );
          all_kept = Perm.cons (t, w) m.all_kept;
        },
      )
]

-- Merging two histories that the program keeps returns one that it could have kept: the instants in
-- order, each with its violation, every request of both exactly once; the limits are the first's.
pub merge_lem :
    (p q : PacingControl)
    → IsKept p
    → IsKept q
    → Returns
        (λ r.
          IsKept r
          × Perm
              (entries r.date_times r.violations)
              (entries p.date_times p.violations ++ entries q.date_times q.violations)
          × (r.max_requests ≡ p.max_requests)
          × (r.check_interval ≡ p.check_interval)
          × (r.min_pacing_time ≡ p.min_pacing_time)
          × (r.violation_pause ≡ p.violation_pause))
        (merge p q)
unfolding merge
merge_lem p q k l =
    let (r, eq, m) =
      merge_loop-Merged p.date_times p.violations q.date_times q.violations k.in_step l.in_step
        k.in_order l.in_order in
    rw eq
      (record { in_step = m.in_step; in_order = m.in_order }, m.all_kept, refl, refl, refl, refl)

-- What holds of every instant of both histories holds of every instant of the merged one.
pub merge-All :
    (P : ℤ → Type 0) (p q : PacingControl)
    → IsKept p
    → IsKept q
    → All P p.date_times
    → All P q.date_times
    → Returns (λ r. IsKept r × All P r.date_times) (merge p q)
unfolding merge
merge-All P p q k l a b =
    let (r, eq, m) =
      merge_loop-Merged p.date_times p.violations q.date_times q.violations k.in_step l.in_step
        k.in_order l.in_order in
    rw eq (record { in_step = m.in_step; in_order = m.in_order }, m.bounded P a b)
