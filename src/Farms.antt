-- ===== src/Farms.antt =====
-- class DataFarmStates of src/tws_meta.cpp: which data farms are up, and which farm serves an
-- exchange. The log lines of the code are left out.
pub mod HardCoded
pub mod Learning
pub mod States
mod Tests
use twstools.Base.{
  ℕ, ◌≡◌, refl, Bool, true, false, Option, none, some, List, [], ◌∷◌, ◌++◌, if◌then◌else◌, ◌>>=◌,
  ◌>>◌, assert, ◌||◌,
}
use twstools.Base.Int.{ℤ, pos, ◌+ℤ◌, eqb_ℤ, int_min}
use twstools.Base.Text.{Text, bytes, empty, text_eq, strip}
use twstools.Base.Map.{Map, find, insert, text_key}
use twstools.Requests.{Contract}
use HardCoded.{init_hard_coded_farms}

pub data State : Type 0 where
  broken inactive ok : State

pub record DataFarmStates : Type 0 where
  pub m_states : Map Text State
  pub h_states : Map Text State
  pub m_learn : Map Text Text
  pub h_learn : Map Text Text
  pub last_msg_number : ℤ
  pub last_changed : Text
  pub last_learned_lazy_contract : Text
  pub edemo_checked : Bool

-- DataFarmStates()
unfoldable pub new_states : DataFarmStates
unfolding init_hard_coded_farms
new_states = record {
  m_states = [];
  h_states = [];
  m_learn = [];
  h_learn = init_hard_coded_farms [];
  last_msg_number = int_min;
  last_changed = [];
  last_learned_lazy_contract = [];
  edemo_checked = false;
}

-- LAZY_CONTRACT_STR
unfoldable pub lazy_contract_str : Contract → Text
lazy_contract_str c = c.exchange

abbrev found_or_empty : Option Text → Text
found_or_empty none = []
found_or_empty (some farm) = farm

-- getHmdsFarm( const std::string& )
unfoldable pub get_hmds_farm : DataFarmStates → Text → Text
get_hmds_farm d lazy = found_or_empty (find lazy d.h_learn)

unfoldable pub get_market_farm : DataFarmStates → Contract → Text
unfolding lazy_contract_str
get_market_farm d c = found_or_empty (find (lazy_contract_str c) d.m_learn)

abbrev pub is_ok : State → Bool
is_ok ok = true
is_ok _ = false

abbrev pub is_down : State → Bool
is_down inactive = true
is_down broken = true
is_down ok = false

unfoldable pub farms_in : (State → Bool) → Map Text State → List Text
farms_in test [] = []
farms_in test ((farm, s) ∷ m) = let rest = farms_in test m in if test s then farm ∷ rest else rest

unfoldable pub get_actives : DataFarmStates → List Text
get_actives d = farms_in is_ok d.h_states

unfoldable pub get_inactives : DataFarmStates → List Text
get_inactives d = farms_in is_down d.h_states

unfoldable pub break_all : Map Text State → Map Text State
break_all [] = []
break_all ((farm, s) ∷ m) = (farm, broken) ∷ break_all m

unfoldable pub set_all_broken : DataFarmStates → DataFarmStates
set_all_broken d = record d {
  m_states = break_all d.m_states;
  h_states = break_all d.h_states;
  last_learned_lazy_contract = [];
}

unfoldable pub check_edemo_hack : Text → DataFarmStates → DataFarmStates
check_edemo_hack farm d =
    if d.edemo_checked
    then d
    else (if text_eq farm (bytes "ibdemo") || text_eq farm (bytes "demohmds")
        then record d { h_learn = []; edemo_checked = true }
        else record d { edemo_checked = true })

pub data Kind : Type 0 where
  market hmds : Kind

-- What the switch of notify assigns: the map, the state and the prefix of the message.
pub record Event : Type 0 where
  pub kind : Kind
  pub state : State
  pub prefix : Text

abbrev event : Kind → State → Text → Option Event
event k s p = some (record { kind = k; state = s; prefix = p })

-- The switch of notify; `none` is the default, an assertion.
unfoldable pub farm_event : ℤ → Option Event
farm_event code =
    if eqb_ℤ code (pos 2103)
    then event market broken (bytes "Market data farm connection is broken:")
    else (if eqb_ℤ code (pos 2104)
        then event market ok (bytes "Market data farm connection is OK:")
        else (if eqb_ℤ code (pos 2105)
            then event hmds broken (bytes "HMDS data farm connection is broken:")
            else (if eqb_ℤ code (pos 2106)
                then event hmds ok (bytes "HMDS data farm connection is OK:")
                else (if eqb_ℤ code (pos 2107)
                    then event hmds inactive (
                        bytes
                          "HMDS data farm connection is inactive but should be available upon demand.")
                    else (if eqb_ℤ code (pos 2108)
                        then event market inactive (
                            bytes
                              "Market data farm connection is inactive but should be available upon demand.")
                        else none)))))

-- (*pHash)[farm] = state
unfoldable pub set_state : Kind → Text → State → DataFarmStates → DataFarmStates
set_state market farm s d = record d { m_states = insert farm s d.m_states }
set_state hmds farm s d = record d { h_states = insert farm s d.h_states }

-- getFarm, which asserts the prefix
unfoldable pub get_farm : Text → Text → Option Text
unfolding strip
get_farm prefix msg = strip prefix msg

unfoldable pub notify : ℤ → ℤ → Text → DataFarmStates → Option DataFarmStates
notify msg_number code msg d = do
  e ← farm_event code
  farm ← get_farm e.prefix msg
  let d' = check_edemo_hack farm (record d { last_msg_number = msg_number })
  some (record (set_state e.kind farm e.state (record d' { last_changed = farm })) {
    last_learned_lazy_contract = [];
  })

unfoldable pub member : Text → List Text → Bool
member s [] = false
member s (t ∷ ts) = text_eq t s || member s ts

-- The end of learnHmds: with the active farms, for a contract whose farm is not known.
unfoldable pub learn_unique : Text → List Text → DataFarmStates → DataFarmStates
learn_unique lazy (farm ∷ []) d = record d { h_learn = insert lazy farm d.h_learn }
learn_unique lazy farms d = d

unfoldable pub learn_hmds : Contract → DataFarmStates → DataFarmStates
unfolding lazy_contract_str
learn_hmds c d =
    let lazy = lazy_contract_str c in
    let d' = record d { last_learned_lazy_contract = lazy } in
    let known_farm = get_hmds_farm d lazy in
    if text_eq d.last_learned_lazy_contract lazy
    then d
    else (if member known_farm (get_actives d)
        then d'
        else (if empty known_farm then learn_unique lazy (get_actives d) d' else d'))

-- The end of learnHmdsLastOk: what is known already must be the same.
unfoldable pub learn_last_changed : Text → DataFarmStates → Option DataFarmStates
learn_last_changed lazy d = elim (find lazy d.h_learn) [
  | none ↦ some (record d { h_learn = insert lazy d.last_changed d.h_learn })
  | some farm ↦ assert (text_eq farm d.last_changed) >> some d
]

unfoldable pub learn_hmds_last_ok : ℤ → Contract → DataFarmStates → Option DataFarmStates
unfolding lazy_contract_str
learn_hmds_last_ok msg_number c d =
    if eqb_ℤ msg_number (d.last_msg_number +ℤ pos 1)
    then elim (find d.last_changed d.h_states) [
      | none ↦ some d
      | some s ↦ if is_ok s then learn_last_changed (lazy_contract_str c) d else some d
    ]
    else some d
