-- ===== src/Farms/States.antt =====
-- How DataFarmStates (src/tws_meta.cpp) follows the messages about data farms.
use mathlib.Core.List.{Perm, perm_middle}
use mathlib.Core.List.Perm
use twstools.Base.{
  ◌≡◌, refl, ap, ◌∙◌, inl, inr, ◌≢◌, Bool, true, false, Option, none, some, [], ◌∷◌, ◌++◌,
  if◌then◌else◌, arith, Returns, Option-cases,
}
use twstools.Base.Int.{ℤ, pos}
use twstools.Base.Text.{Text, bytes, text_eq, strip, strip-append, append-strip}
use twstools.Base.Map.{Map, find, find-insert, text_key, keys}
use twstools.Farms.{
  DataFarmStates, State, broken, inactive, ok, Kind, market, hmds, Event, farm_event, set_state,
  notify, get_farm, check_edemo_hack, farms_in, is_ok, is_down, get_actives, get_inactives,
  break_all, set_all_broken,
}

-- Every historical data farm that is known is listed once, as active or as inactive.
pub actives-inactives-perm :
    (d : DataFarmStates) → Perm (get_actives d ++ get_inactives d) (keys d.h_states)
unfolding get_actives get_inactives farms_in
actives-inactives-perm d = go d.h_states
  where
    go : (m : Map Text State) → Perm (farms_in is_ok m ++ farms_in is_down m) (keys m)
    go [] = Perm.refl []
    go ((farm, ok) ∷ m) = Perm.cons farm (go m)
    go ((farm, broken) ∷ m) =
        Perm.trans (perm_middle (farms_in is_ok m) (farms_in is_down m)) (Perm.cons farm (go m))
    go ((farm, inactive) ∷ m) =
        Perm.trans (perm_middle (farms_in is_ok m) (farms_in is_down m)) (Perm.cons farm (go m))

none_ok : (m : Map Text State) → farms_in is_ok (break_all m) ≡ []
unfolding farms_in break_all
none_ok [] = refl
none_ok ((farm, s) ∷ m) = none_ok m

all_down : (m : Map Text State) → farms_in is_down (break_all m) ≡ keys m
unfolding farms_in break_all
all_down [] = refl
all_down ((farm, s) ∷ m) = ap (◌∷◌ farm) (all_down m)

-- After a lost connection no farm is active, each one known is inactive, and what was learned about
-- exchanges stays.
pub set_all_broken_lem :
    (d : DataFarmStates)
    → (get_actives (set_all_broken d) ≡ [])
      × (get_inactives (set_all_broken d) ≡ keys d.h_states)
      × ((set_all_broken d).h_learn ≡ d.h_learn)
unfolding set_all_broken get_actives get_inactives
set_all_broken_lem d = (none_ok d.h_states, all_down d.h_states, refl)

check_edemo_hack_lem :
    (farm : Text) (d : DataFarmStates)
    → let d' = check_edemo_hack farm d in
      (d'.h_states ≡ d.h_states)
      × (d'.m_states ≡ d.m_states)
      × (d'.last_msg_number ≡ d.last_msg_number)
      × (d'.edemo_checked ≡ true)
      × (d.edemo_checked ≡ true → d'.h_learn ≡ d.h_learn)
unfolding check_edemo_hack
check_edemo_hack_lem farm d = (ground arith, ground arith, ground arith, ground arith, ground arith)

-- The state of farm j before and behind a message about `farm`.
abbrev pub after : Bool → Text → State → Text → Option State → Option State
after concerned farm s j old = if concerned then (if text_eq farm j then some s else old) else old

abbrev pub is_hmds : Kind → Bool
is_hmds hmds = true
is_hmds market = false

abbrev pub is_market : Kind → Bool
is_market hmds = false
is_market market = true

set_state_lem :
    (k : Kind) (farm : Text) (s : State) (d : DataFarmStates) (j : Text)
    → let d' = set_state k farm s d in
      (find j d'.h_states ≡ after (is_hmds k) farm s j (find j d.h_states))
      × (find j d'.m_states ≡ after (is_market k) farm s j (find j d.m_states))
      × (d'.last_changed ≡ d.last_changed)
      × (d'.last_msg_number ≡ d.last_msg_number)
      × (d'.edemo_checked ≡ d.edemo_checked)
      × (d'.h_learn ≡ d.h_learn)
unfolding set_state
set_state_lem market farm s d j = (refl, find-insert farm j s d.m_states, refl, refl, refl, refl)
set_state_lem hmds farm s d j = (find-insert farm j s d.h_states, refl, refl, refl, refl, refl)

-- What the messages of TWS about data farms say, by their code, and how they begin.
pub data Says : ℤ → Text → Kind → State → Type 0 where
  market_broken : Says (pos 2103) (bytes "Market data farm connection is broken:") market broken
  market_ok : Says (pos 2104) (bytes "Market data farm connection is OK:") market ok
  hmds_broken : Says (pos 2105) (bytes "HMDS data farm connection is broken:") hmds broken
  hmds_ok : Says (pos 2106) (bytes "HMDS data farm connection is OK:") hmds ok
  hmds_inactive :
      Says
        (pos 2107)
        (bytes "HMDS data farm connection is inactive but should be available upon demand.")
        hmds
        inactive
  market_inactive :
      Says
        (pos 2108)
        (bytes "Market data farm connection is inactive but should be available upon demand.")
        market
        inactive

-- The states behind the message of number n that `farm`, of this kind, is in state s now.
pub record Told (n : ℤ) (k : Kind) (s : State) (farm : Text) (d d' : DataFarmStates) : Type 0 where
  pub h_states : (j : Text) → find j d'.h_states ≡ after (is_hmds k) farm s j (find j d.h_states)
  pub m_states : (j : Text) → find j d'.m_states ≡ after (is_market k) farm s j (find j d.m_states)
  pub changed : d'.last_changed ≡ farm
  pub number : d'.last_msg_number ≡ n
  pub contract : d'.last_learned_lazy_contract ≡ []
  pub checked : d'.edemo_checked ≡ true
  pub learned : d.edemo_checked ≡ true → d'.h_learn ≡ d.h_learn

-- A message of a code, its prefix followed by the name of a farm.
notify_event :
    (n code : ℤ) (farm : Text) (d : DataFarmStates) (e : Event)
    → farm_event code ≡ some e
    → Returns (Told n e.kind e.state farm d) (notify n code (e.prefix ++ farm) d)
unfolding notify get_farm
notify_event n code farm d e h =
    let q = check_edemo_hack farm (record d { last_msg_number = n }) in
    let k = check_edemo_hack_lem farm (record d { last_msg_number = n }) in
    let s = set_state_lem e.kind farm e.state (record q { last_changed = farm }) in
    rw (h, strip-append e.prefix farm, notify, get_farm)
      (record {
        h_states = λ j. (s j).0 ∙ ap (λ m. after (is_hmds e.kind) farm e.state j (find j m)) k.0;
        m_states = λ j. (s j).1 ∙ ap (λ m. after (is_market e.kind) farm e.state j (find j m)) k.1;
        changed = (s []).2;
        number = (s []).3 ∙ k.2;
        contract = refl;
        checked = (s []).4 ∙ k.3;
        learned = λ c. (s []).5 ∙ k.4 c;
      })

Says-event :
    {code : ℤ} {prefix : Text} {k : Kind} {s : State}
    → Says code prefix k s
    → farm_event code ≡ some (record { kind = k; state = s; prefix = prefix })
unfolding farm_event
Says-event market_broken = refl
Says-event market_ok = refl
Says-event hmds_broken = refl
Says-event hmds_ok = refl
Says-event hmds_inactive = refl
Says-event market_inactive = refl

-- The messages 2103, 2104 and 2108 are about market data farms and say broken, ok and inactive, 2105, 2106
-- and 2107 about historical data farms and say broken, ok and inactive, each with a text of its own. Such a
-- text followed by a farm's name sets that farm's state and no other, in the map of that kind alone.
-- The farm and the number of the message are remembered, and what was learned about exchanges stays,
-- unless this is the first message.
pub notify_lem :
    (n code : ℤ) (prefix farm : Text) (k : Kind) (s : State) (d : DataFarmStates)
    → Says code prefix k s
    → Returns (Told n k s farm d) (notify n code (prefix ++ farm) d)
notify_lem n code prefix farm k s d says =
    notify_event n code farm d (record { kind = k; state = s; prefix = prefix }) (Says-event says)

-- A message whose text does not begin with the prefix of its code stops the program.
pub notify_aborts :
    (n code : ℤ) (msg : Text) (d : DataFarmStates) (e : Event)
    → farm_event code ≡ some e
    → ((farm : Text) → msg ≢ e.prefix ++ farm)
    → notify n code msg d ≡ none
unfolding notify get_farm
notify_aborts n code msg d e h other = elim (Option-cases (strip e.prefix msg)) [
  | inl bad ↦ rw (h, bad, notify, get_farm)
  | inr (farm, good) ↦ absurd (other farm (append-strip e.prefix msg farm good))
]
