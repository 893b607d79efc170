-- ===== src/Pacing/God/Calls.antt =====
-- The public methods of PacingGod (src/tws_meta.cpp): on a sound state each returns, none of its
-- asserts fails, and the state is sound again.
use twstools.Base.{
  inl, inr, ◌≢◌, ◌≡◌, refl, ap, ◌∙◌, Bool, true, false, Option, some, [], ◌∷◌, arith, if◌then◌else◌,
  ◌>>◌, assert, is_none, not, ◌&&◌, ◌||◌, Returns, Returns-bind, Returns-map, Option-cases,
}
use twstools.Base.Int.{ℤ, ◌≤ℤ◌}
use twstools.Base.Text.{Text, empty}
use twstools.Base.Map.{
  Map, find, insert, text_key, Values, Values-find, Values-insert, find-insert_ne,
}
use twstools.Base.Sorted.{All-append}
use twstools.Requests.{Contract}
use twstools.Farms.{DataFarmStates, lazy_contract_str}
use twstools.Pacing.Control.{PacingControl, new_control}
use twstools.Pacing.Control.Merge.{IsKept, merge_lem, merge-All}
use twstools.Pacing.Control.History.{
  Past, add_request-IsKept, remove_last_request-IsKept, notify_violation_lem,
}
use twstools.Pacing.Control
use twstools.Pacing.God.{
  PacingGod, fresh_control, check_add, farm_of, at_entry, on_own, on_controls, add_request,
  remove_last_request, notify_violation, lazies_are_cleared, asked,
}
use twstools.Pacing.God.Sound.{IsSound, Settled}
use twstools.Pacing.God.Rounds.{Added, check_add_lem}

-- What every control satisfies between calls.
abbrev pub IsKeptBy : ℤ → PacingControl → Type 0
IsKeptBy now p = IsKept p × Past now p

pub fresh-IsKept : (g : PacingGod) → IsKept (fresh_control g)
unfolding fresh_control new_control
fresh-IsKept g = record { in_step = refl; in_order = tt }

fresh-IsKeptBy : (now : ℤ) (g : PacingGod) → IsKeptBy now (fresh_control g)
unfolding fresh_control new_control
fresh-IsKeptBy now g = (record { in_step = refl; in_order = tt }, tt)

merges-IsKept : (p q : PacingControl) → IsKept p → IsKept q → Returns IsKept (Control.merge p q)
merges-IsKept p q k l = Returns-map _ IsKept (λ r h. h.0) (Control.merge p q) (merge_lem p q k l)

merges_past :
    (now : ℤ) (p q : PacingControl)
    → IsKeptBy now p
    → IsKeptBy now q
    → Returns (IsKeptBy now) (Control.merge p q)
merges_past now p q k l = merge-All (λ t. t ≤ℤ now) p q k.0 l.0 k.1 l.1

added-Past : (now : ℤ) (p : PacingControl) → Past now p → Past now (Control.add_request now p)
unfolding Control.add_request
added-Past now p h = All-append (λ t. t ≤ℤ now) p.date_times (now ∷ []) h (omega arith, tt)

Settled-anyway :
    (farm lazy : Text) (g : PacingGod) (p : PacingControl)
    → Settled farm lazy g
    → Settled farm lazy (record g { control_global = p })
Settled-anyway [] lazy g p s = s
Settled-anyway (c ∷ cs) lazy g p s = s

module _ (P : PacingControl → Type 0)
    (merges : (p q : PacingControl) → P p → P q → Returns P (Control.merge p q))
    (f : PacingControl → Option PacingControl)
    (f-P : (p : PacingControl) → P p → Returns P (f p)) where
  -- The entry of a key after a call, the other keys as before.
  at_entry_lem :
      (k : Text) (p : PacingControl) (m : Map Text PacingControl)
      → Values P m
      → find k m ≡ some p
      → Returns (λ m'. Values P m' × ((j : Text) → k ≢ j → find j m' ≡ find j m)) (at_entry k f m)
  unfolding at_entry
  at_entry_lem k p m ok e =
      rw (e, at_entry)
        (Returns-bind P _ (f p) (λ q. some (insert k q m)) (f-P p (Values-find P k p m ok e))
          (λ q good. (Values-insert P k q m good ok, λ j ne. find-insert_ne k j q m ne)))

  on_own_lem :
      (farm lazy : Text) (g : PacingGod)
      → IsSound P g
      → Settled farm lazy g
      → Returns (IsSound P) (on_own f lazy farm g)
  unfolding on_own
  on_own_lem [] lazy g ok s = elim (Option-cases (find lazy g.control_lazy)) [
    | inl e ↦ absurd (cc (s, ap is_none e))
    | inr (p, e) ↦
        rw (e, ok.named, on_own)
          (Returns-bind _ (IsSound P) (at_entry lazy f g.control_lazy) _
            (at_entry_lem lazy p g.control_lazy ok.lazy e)
            (λ m r. record { global = ok.global; hmds = ok.hmds; lazy = r.0; named = ok.named }))
  ]
  on_own_lem (c ∷ cs) lazy g ok s = elim (Option-cases (find (c ∷ cs) g.control_hmds)) [
    | inl e ↦ absurd (cc (s.1, ap is_none e))
    | inr (p, e) ↦
        rw (e, s.0, on_own)
          (Returns-bind _ (IsSound P) (at_entry (c ∷ cs) f g.control_hmds) _
            (at_entry_lem (c ∷ cs) p g.control_hmds ok.hmds e)
            (λ m r. record {
              global = ok.global;
              hmds = r.0;
              lazy = ok.lazy;
              named = r.1 [] (λ same. cc) ∙ ok.named;
            }))
  ]

  on_controls_lem :
      (d : DataFarmStates) (c : Contract) (g : PacingGod)
      → P (fresh_control g)
      → IsSound P g
      → Returns (IsSound P) (on_controls f d c g)
  unfolding on_controls
  on_controls_lem d c g new ok =
      Returns-bind (Added P merges d c g) (IsSound P) (check_add d c g) _
        (check_add_lem P merges d c g new ok)
        λ g' a.
          Returns-bind P (IsSound P) (f g'.control_global) _ (f-P g'.control_global a.sound.global)
            λ global good.
              on_own_lem (farm_of d c) (lazy_contract_str c) (record g' { control_global = global })
                (record {
                  global = good;
                  hmds = a.sound.hmds;
                  lazy = a.sound.lazy;
                  named = a.sound.named;
                })
                (Settled-anyway (farm_of d c) (lazy_contract_str c) g' global a.settled)

-- On sound controls, at an instant that no recorded request is later than, PacingGod::addRequest
-- always returns: none of its asserts fails, and all controls again have their requests in order,
-- each with its violation, none later than `now`.
pub add_request-IsSound :
    (now : ℤ) (d : DataFarmStates) (c : Contract) (g : PacingGod)
    → IsSound (IsKeptBy now) g
    → Returns (IsSound (IsKeptBy now)) (add_request now d c g)
unfolding add_request
add_request-IsSound now d c g ok =
    on_controls_lem (IsKeptBy now) (merges_past now) (λ p. some (Control.add_request now p))
      (λ p k. (add_request-IsKept now p k.0 k.1, added-Past now p k.1)) d c g (fresh-IsKeptBy now g)
      ok

-- On sound controls PacingGod::remove_last_request always returns, with the controls sound again.
pub remove_last_request-IsSound :
    (d : DataFarmStates) (c : Contract) (g : PacingGod)
    → IsSound IsKept g
    → Returns (IsSound IsKept) (remove_last_request d c g)
unfolding remove_last_request
remove_last_request-IsSound d c g ok =
    on_controls_lem IsKept merges-IsKept Control.remove_last_request
      (λ p k.
        Returns-map _ IsKept (λ q r. r.0) (Control.remove_last_request p)
          (remove_last_request-IsKept p k))
      d c g (fresh-IsKept g) ok

-- On sound controls PacingGod::notifyViolation always returns, with the controls sound again.
pub notify_violation-IsSound :
    (now : ℤ) (d : DataFarmStates) (c : Contract) (g : PacingGod)
    → IsSound IsKept g
    → Returns (IsSound IsKept) (notify_violation now d c g)
unfolding notify_violation
notify_violation-IsSound now d c g ok =
    on_controls_lem IsKept merges-IsKept (Control.notify_violation now)
      (λ p k.
        Returns-map _ IsKept (λ q r. r.0) (Control.notify_violation now p)
          (notify_violation_lem now p k))
      d c g (fresh-IsKept g) ok

-- Once the exchange is settled, the assert of goodTime and countLeft holds and the control that they
-- ask is there.
pub asked_lem :
    (P : PacingControl → Type 0) (d : DataFarmStates) (c : Contract) (g : PacingGod)
    → IsSound P g
    → Settled (farm_of d c) (lazy_contract_str c) g
    → Returns P (asked d c g)
unfolding asked
asked_lem P d c g ok s = go (farm_of d c) (lazies_are_cleared g.control_lazy) s
  where
    go :
        (farm : Text) (cleared : Bool)
        → Settled farm (lazy_contract_str c) g
        → Returns P (
            if empty farm || not cleared
            then assert (
                (not (is_none (find (lazy_contract_str c) g.control_lazy))
                  && is_none (find farm g.control_hmds))
                || not cleared)
              >> some g.control_global
            else find farm g.control_hmds)
    go [] true s = rw (s, ok.named) ok.global
    go [] false s = rw (s, ok.named) ok.global
    go (k ∷ ks) false s = rw s.0 ok.global
    go (k ∷ ks) true s = elim (Option-cases (find (k ∷ ks) g.control_hmds)) [
      | inl e ↦ absurd (cc (s.1, ap is_none e))
      | inr (p, e) ↦ rw e (Values-find P (k ∷ ks) p g.control_hmds ok.hmds e)
    ]
