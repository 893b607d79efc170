-- ===== src/Pacing/God/Rounds.antt =====
-- PacingGod::checkAdd (src/tws_meta.cpp): it returns, none of its asserts fails, and behind it every
-- exchange has a control where the other methods look for it.
use twstools.Base.{
  ◌≡◌, refl, sym, ap, subst, ◌∙◌, inl, inr, ◌≢◌, true, false, none, List, [], ◌∷◌, ◌++◌, is_none,
  arith, Returns, Returns-bind, Returns-map, Bool-cases, ◌||◌,
}
use twstools.Base.Text.{Text, empty, text_eq, text_eq_iff, text_eq_refl}
use twstools.Base.Map.{Map, find, keys, text_key}
use twstools.Requests.{Contract}
use twstools.Farms.{DataFarmStates, get_hmds_farm, lazy_contract_str, member}
use twstools.Pacing.Control.{PacingControl, new_control}
use twstools.Pacing.Control
use twstools.Pacing.God.{
  PacingGod, fresh_control, check_lazy, check_lazies, lazies_of, check_add, farm_of,
}
use twstools.Pacing.God.Sound.{IsSound, Settled, Keeps, check_lazy_lem}

member-append : (j : Text) (xs ys : List Text) → member j (xs ++ ys) ≡ (member j xs || member j ys)
unfolding member
member-append j [] ys = refl
member-append j (x ∷ xs) ys = ground (arith, member-append j xs ys)

-- The loop of checkAdd comes to the contract's exchange.
member-lazies_of : (lazy : Text) (g : PacingGod) → member lazy (lazies_of lazy g) ≡ true
unfolding member lazies_of
member-lazies_of lazy g =
    ground (arith, member-append lazy (keys g.control_lazy) (lazy ∷ []), text_eq_refl lazy)

member-keys : (j : Text) (m : Map Text PacingControl) → member j (keys m) ≡ false → find j m ≡ none
unfolding member find
member-keys j [] h = refl
member-keys j ((k, p) ∷ m) h = ground (arith, member-keys j m)

-- An exchange that the loop does not come to has no control.
unlisted_none :
    (j lazy : Text) (g : PacingGod)
    → member j (lazies_of lazy g) ≡ false
    → find j g.control_lazy ≡ none
unfolding lazies_of
unlisted_none j lazy g h =
    let keyless = member-keys j g.control_lazy in
    ground (arith, keyless, member-append j (keys g.control_lazy) (lazy ∷ []))

module _ (P : PacingControl → Type 0)
    (merges : (p q : PacingControl) → P p → P q → Returns P (Control.merge p q)) where
  -- What a round gives.
  abbrev Round : DataFarmStates → Text → PacingGod → PacingGod → Type 0
  Round d lazy g g' = IsSound P g' × Settled (get_hmds_farm d lazy) lazy g' × Keeps lazy g g'

  Settled-kept :
      (farm j lazy : Text) (g g' : PacingGod)
      → Keeps lazy g g'
      → lazy ≢ j
      → Settled farm j g
      → Settled farm j g'
  Settled-kept [] j lazy g g' k ne h = ap is_none (k.others j ne) ∙ h
  Settled-kept (c ∷ s) j lazy g g' k ne h = (k.others j ne ∙ h.0, k.grows (c ∷ s) h.1)

  Round-settles :
      (d : DataFarmStates) (j lazy : Text) (g g' : PacingGod)
      → Round d lazy g g'
      → Settled (get_hmds_farm d j) j g
      → Settled (get_hmds_farm d j) j g'
  Round-settles d j lazy g g' r h = elim (Bool-cases (text_eq lazy j)) [
    | inl same ↦ subst (λ k. Settled (get_hmds_farm d k) k g') ((text_eq_iff lazy j).0 same) r.1
    | inr other ↦
        Settled-kept (get_hmds_farm d j) j lazy g g' r.2
          (λ e. let hit = (text_eq_iff lazy j).1 e in cc (hit, other)) h
  ]

  -- What the loop over some exchanges gives.
  record Rounds (d : DataFarmStates) (lazies : List Text) (g g' : PacingGod) : Type 0 where
    sound : IsSound P g'
    settled : (j : Text) → member j lazies ≡ true → Settled (get_hmds_farm d j) j g'
    kept : (j : Text) → Settled (get_hmds_farm d j) j g → Settled (get_hmds_farm d j) j g'
    others : (j : Text) → member j lazies ≡ false → find j g'.control_lazy ≡ find j g.control_lazy
    global : g'.control_global ≡ g.control_global
    fresh : fresh_control g' ≡ fresh_control g

  Rounds-cons :
      (d : DataFarmStates) (lazy : Text) (lazies : List Text) (g g₁ g' : PacingGod)
      → Round d lazy g g₁
      → Rounds d lazies g₁ g'
      → Rounds d (lazy ∷ lazies) g g'
  unfolding member
  Rounds-cons d lazy lazies g g₁ g' r rs = record {
    sound = rs.sound;
    settled = λ j h. elim (Bool-cases (text_eq lazy j)) [
      | inl same ↦
          rs.kept j
            (subst (λ k. Settled (get_hmds_farm d k) k g₁) ((text_eq_iff lazy j).0 same) r.1)
      | inr other ↦ rs.settled j (subst (λ b. (b || member j lazies) ≡ true) other h)
    ];
    kept = λ j h. rs.kept j (Round-settles d j lazy g g₁ r h);
    others = λ j h. elim (Bool-cases (text_eq lazy j)) [
      | inl same ↦ absurd (cc (h, same, subst (λ b. (b || member j lazies) ≡ false) same h))
      | inr other ↦
          rs.others j (subst (λ b. (b || member j lazies) ≡ false) other h)
          ∙ r.2.others j (λ e. let hit = (text_eq_iff lazy j).1 e in cc (hit, other))
    ];
    global = rs.global ∙ r.2.global;
    fresh = rs.fresh ∙ r.2.fresh;
  }

  check_lazies_lem :
      (d : DataFarmStates) (lazies : List Text) (g : PacingGod)
      → P (fresh_control g)
      → IsSound P g
      → Returns (Rounds d lazies g) (check_lazies d lazies g)
  unfolding check_lazies member
  check_lazies_lem d [] g new ok = record {
    sound = ok;
    settled = λ j h. cc;
    kept = λ j h. h;
    others = λ j h. refl;
    global = refl;
    fresh = refl;
  }
  check_lazies_lem d (lazy ∷ lazies) g new ok =
      Returns-bind (Round d lazy g) (Rounds d (lazy ∷ lazies) g) (check_lazy d lazy g)
        (check_lazies d lazies) (check_lazy_lem P merges d lazy g new ok)
        λ g₁ r.
          Returns-map (Rounds d lazies g₁) (Rounds d (lazy ∷ lazies) g)
            (λ g' rs. Rounds-cons d lazy lazies g g₁ g' r rs) (check_lazies d lazies g₁)
            (check_lazies_lem d lazies g₁ (subst P (sym r.2.fresh) new) r.0)

  -- After checkAdd for a contract: every control satisfies P, its exchange is settled, no lazy
  -- control is left whose farm is known, the global control and the limits of
  -- new controls are untouched.
  pub record Added (d : DataFarmStates) (c : Contract) (g g' : PacingGod) : Type 0 where
    pub sound : IsSound P g'
    pub settled : Settled (farm_of d c) (lazy_contract_str c) g'
    pub all_lazy :
        (j : Text) → is_none (find j g'.control_lazy) ≡ false → empty (get_hmds_farm d j) ≡ true
    pub global : g'.control_global ≡ g.control_global
    pub fresh : fresh_control g' ≡ fresh_control g

  lazy_unknown :
      (farm j : Text) (g : PacingGod)
      → Settled farm j g
      → is_none (find j g.control_lazy) ≡ false
      → empty farm ≡ true
  lazy_unknown [] j g s h = refl
  lazy_unknown (c ∷ cs) j g s h = absurd (cc (s.0, h, ap is_none s.0))

  pub check_add_lem :
      (d : DataFarmStates) (c : Contract) (g : PacingGod)
      → P (fresh_control g)
      → IsSound P g
      → Returns (Added d c g) (check_add d c g)
  unfolding check_add farm_of
  check_add_lem d c g new ok =
      let lazy = lazy_contract_str c in
      let lazies = lazies_of lazy g in
      Returns-map (Rounds d lazies g) (Added d c g)
        (λ g' rs. record {
          sound = rs.sound;
          settled = rs.settled lazy (member-lazies_of lazy g);
          all_lazy = λ j h. elim (Bool-cases (member j lazies)) [
            | inl listed ↦ lazy_unknown (get_hmds_farm d j) j g' (rs.settled j listed) h
            | inr unlisted ↦ absurd (
                let gone = rs.others j unlisted ∙ unlisted_none j lazy g unlisted in
                cc (h, gone, ap is_none gone))
          ];
          global = rs.global;
          fresh = rs.fresh;
        })
        (check_lazies d lazies g) (check_lazies_lem d lazies g new ok)
