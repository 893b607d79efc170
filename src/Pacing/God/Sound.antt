-- ===== src/Pacing/God/Sound.antt =====
-- One round of the loop of PacingGod::checkAdd (src/tws_meta.cpp): it returns, and behind it the
-- exchange has a control where the other methods look for it.
use twstools.Base.{
  ℕ, ◌≡◌, refl, ap, ◌∙◌, inl, inr, ◌≢◌, false, Option, none, some, [], ◌∷◌, if◌then◌else◌, is_none,
  Returns, Returns-bind, Option-cases,
}
use twstools.Base.Text.{Text, empty}
use twstools.Base.Map.{
  find, insert, erase, text_key, Values, Values-find, Values-insert, Values-erase, find-insert_self,
  find-erase_self, find-insert_ne, find-erase_ne, present-insert,
}
use twstools.Farms.{DataFarmStates, get_hmds_farm}
use twstools.Pacing.Control.{PacingControl, new_control}
use twstools.Pacing.Control
use twstools.Pacing.God.{
  PacingGod, fresh_control, check_known, check_known_farm, check_unknown_farm, check_lazy,
}

-- Every control satisfies P, and no farm has the empty name.
pub record IsSound (P : PacingControl → Type 0) (g : PacingGod) : Type 0 where
  pub global : P g.control_global
  pub hmds : Values P g.control_hmds
  pub lazy : Values P g.control_lazy
  pub named : find [] g.control_hmds ≡ none

-- The control of an exchange is where its farm says.
abbrev pub Settled : Text → Text → PacingGod → Type 0
Settled [] lazy g = is_none (find lazy g.control_lazy) ≡ false
Settled (c ∷ s) lazy g =
    (find lazy g.control_lazy ≡ none) × (is_none (find (c ∷ s) g.control_hmds) ≡ false)

-- What a round of checkAdd for the exchange `lazy` leaves alone.
pub record Keeps (lazy : Text) (g g' : PacingGod) : Type 0 where
  pub others : (j : Text) → lazy ≢ j → find j g'.control_lazy ≡ find j g.control_lazy
  pub grows :
      (j : Text)
      → is_none (find j g.control_hmds) ≡ false
      → is_none (find j g'.control_hmds) ≡ false
  pub global : g'.control_global ≡ g.control_global
  pub fresh : fresh_control g' ≡ fresh_control g

Keeps-all : (lazy : Text) (g : PacingGod) → Keeps lazy g g
Keeps-all lazy g = record { others = λ j ne. refl; grows = λ j h. h; global = refl; fresh = refl }

module _ (P : PacingControl → Type 0)
    (merges : (p q : PacingControl) → P p → P q → Returns P (Control.merge p q)) where
  -- The control p of a farm that becomes known, in place of a lazy one if there is one.
  moved :
      (lazy : Text) (c : ℕ) (s : Text) (p : PacingControl) (g : PacingGod)
      → P p
      → IsSound P g
      → let g' = record g {
        control_lazy = erase lazy g.control_lazy;
        control_hmds = insert (c ∷ s) p g.control_hmds;
      } in
        IsSound P g' × Settled (c ∷ s) lazy g' × Keeps lazy g g'
  unfolding fresh_control
  moved lazy c s p g hp ok = (
    record {
      global = ok.global;
      hmds = Values-insert P (c ∷ s) p g.control_hmds hp ok.hmds;
      lazy = Values-erase P lazy g.control_lazy ok.lazy;
      named = find-insert_ne (c ∷ s) [] p g.control_hmds (λ e. cc) ∙ ok.named;
    },
    (find-erase_self lazy g.control_lazy, ap is_none (find-insert_self (c ∷ s) p g.control_hmds)),
    record {
      others = λ j ne. find-erase_ne lazy j g.control_lazy ne;
      grows = λ j h. present-insert (c ∷ s) j p g.control_hmds h;
      global = refl;
      fresh = refl;
    },
  )

  -- The same where there is no lazy control.
  made :
      (lazy : Text) (c : ℕ) (s : Text) (p : PacingControl) (g : PacingGod)
      → P p
      → find lazy g.control_lazy ≡ none
      → IsSound P g
      → let g' = record g { control_hmds = insert (c ∷ s) p g.control_hmds } in
        IsSound P g' × Settled (c ∷ s) lazy g' × Keeps lazy g g'
  unfolding fresh_control
  made lazy c s p g hp e ok = (
    record {
      global = ok.global;
      hmds = Values-insert P (c ∷ s) p g.control_hmds hp ok.hmds;
      lazy = ok.lazy;
      named = find-insert_ne (c ∷ s) [] p g.control_hmds (λ e. cc) ∙ ok.named;
    },
    (e, ap is_none (find-insert_self (c ∷ s) p g.control_hmds)),
    record {
      others = λ j ne. refl;
      grows = λ j h. present-insert (c ∷ s) j p g.control_hmds h;
      global = refl;
      fresh = refl;
    },
  )

  -- The asserts at the end of a round hold once the exchange is settled.
  check_known_lem :
      (lazy : Text) (c : ℕ) (s : Text) (g g' : PacingGod)
      → IsSound P g' × Settled (c ∷ s) lazy g' × Keeps lazy g g'
      → Returns
          (λ g'. IsSound P g' × Settled (c ∷ s) lazy g' × Keeps lazy g g')
          (check_known lazy (c ∷ s) g')
  check_known_lem lazy c s g g' h = rw (h.1.1, h.1.0) h

  check_known_farm_lem :
      (lazy : Text) (c : ℕ) (s : Text) (g : PacingGod)
      → P (fresh_control g)
      → IsSound P g
      → Returns
          (λ g'. IsSound P g' × Settled (c ∷ s) lazy g' × Keeps lazy g g')
          (check_known_farm lazy (c ∷ s) g)
  unfolding check_known_farm
  check_known_farm_lem lazy c s g new ok =
      go (find (c ∷ s) g.control_hmds) refl (find lazy g.control_lazy) refl
    where
      go :
          (h : Option PacingControl)
          → find (c ∷ s) g.control_hmds ≡ h
          → (l : Option PacingControl) → find lazy g.control_lazy ≡ l
          → Returns
              (λ g'. IsSound P g' × Settled (c ∷ s) lazy g' × Keeps lazy g g')
              (check_known_farm lazy (c ∷ s) g)
      go none e none f =
          rw (e, f, check_known_farm)
            (check_known_lem lazy c s g _ (made lazy c s (fresh_control g) g new f ok))
      go none e (some p) f =
          rw (e, f, check_known_farm)
            (check_known_lem lazy c s g _
              (moved lazy c s p g (Values-find P lazy p g.control_lazy ok.lazy f) ok))
      go (some h) e none f =
          rw (e, f, check_known_farm)
            (check_known_lem lazy c s g g (ok, (f, ap is_none e), Keeps-all lazy g))
      go (some h) e (some p) f =
          rw (e, f, check_known_farm)
            (Returns-bind P _ (Control.merge h p) _
              (merges h p (Values-find P (c ∷ s) h g.control_hmds ok.hmds e)
                (Values-find P lazy p g.control_lazy ok.lazy f))
              (λ merged good. check_known_lem lazy c s g _ (moved lazy c s merged g good ok)))

  check_unknown_farm_lem :
      (lazy : Text) (g : PacingGod)
      → P (fresh_control g)
      → IsSound P g
      → Returns
          (λ g'. IsSound P g' × Settled [] lazy g' × Keeps lazy g g')
          (check_unknown_farm lazy [] g)
  unfolding check_unknown_farm fresh_control
  check_unknown_farm_lem lazy g new ok = elim (Option-cases (find lazy g.control_lazy)) [
    | inr (p, e) ↦ rw (e, check_unknown_farm) (ok, ap is_none e, Keeps-all lazy g)
    | inl e ↦
        rw (e, check_unknown_farm, ok.named, find-insert_self lazy (fresh_control g) g.control_lazy)
          (
            record {
              global = ok.global;
              hmds = ok.hmds;
              lazy = Values-insert P lazy (fresh_control g) g.control_lazy new ok.lazy;
              named = ok.named;
            },
            ap is_none (find-insert_self lazy (fresh_control g) g.control_lazy),
            record {
              others = λ j ne. find-insert_ne lazy j (fresh_control g) g.control_lazy ne;
              grows = λ j h. h;
              global = refl;
              fresh = refl;
            },
          )
  ]

  -- What a round gives.
  abbrev Round : DataFarmStates → Text → PacingGod → PacingGod → Type 0
  Round d lazy g g' = IsSound P g' × Settled (get_hmds_farm d lazy) lazy g' × Keeps lazy g g'

  pub check_lazy_lem :
      (d : DataFarmStates) (lazy : Text) (g : PacingGod)
      → P (fresh_control g)
      → IsSound P g
      → Returns (Round d lazy g) (check_lazy d lazy g)
  unfolding check_lazy
  check_lazy_lem d lazy g new ok = go (get_hmds_farm d lazy)
    where
      go :
          (farm : Text)
          → Returns
              (λ g'. IsSound P g' × Settled farm lazy g' × Keeps lazy g g')
              (if empty farm then check_unknown_farm lazy farm g else check_known_farm lazy farm g)
      go [] = check_unknown_farm_lem lazy g new ok
      go (c ∷ s) = check_known_farm_lem lazy c s g new ok
