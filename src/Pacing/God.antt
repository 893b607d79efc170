-- ===== src/Pacing/God.antt =====
-- class PacingGod of src/tws_meta.cpp: one pacing control for each data farm, one for each exchange
-- whose farm is not known yet (a lazy contract), and a global one. `d` is the DataFarmStates that the
-- object refers to, `now` what nowInMsecs() returns to the call.
pub mod Sound
pub mod Rounds
pub mod Calls
pub mod Queries
use twstools.Base.{
  ℕ, ◌≡◌, refl, Bool, true, false, Option, none, some, List, [], ◌∷◌, ◌++◌, if◌then◌else◌, ◌>>=◌,
  ◌>>◌, assert, is_none, not, ◌&&◌, ◌||◌,
}
use twstools.Base.Int.{ℤ, pos}
use twstools.Base.Text.{Text, empty, text_eq}
use twstools.Base.Map.{Map, find, insert, erase, keys, text_key}
use twstools.Requests.{Contract}
use twstools.Farms.{
  DataFarmStates, get_hmds_farm, lazy_contract_str, get_actives, get_inactives, member,
}
use twstools.Pacing.Control.{PacingControl, new_control, Limit}
use twstools.Pacing.Control

pub record PacingGod : Type 0 where
  pub max_requests : ℤ
  pub check_interval : ℤ
  pub min_pacing_time : ℤ
  pub violation_pause : ℤ
  pub control_global : PacingControl
  pub control_hmds : Map Text PacingControl
  pub control_lazy : Map Text PacingControl

-- PacingGod( dfs )
unfoldable pub new_god : PacingGod
new_god = record {
  max_requests = pos 60;
  check_interval = pos 601000;
  min_pacing_time = pos 1500;
  violation_pause = pos 60000;
  control_global = new_control (pos 60) (pos 601000) (pos 1500) (pos 60000);
  control_hmds = [];
  control_lazy = [];
}

unfoldable pub each :
    (PacingControl → PacingControl) → Map Text PacingControl → Map Text PacingControl
each f [] = []
each f ((k, p) ∷ m) = (k, f p) ∷ each f m

unfoldable pub set_pacing_time : ℤ → ℤ → ℤ → PacingGod → PacingGod
set_pacing_time r i m g = record g {
  max_requests = r;
  check_interval = i;
  min_pacing_time = m;
  control_global = Control.set_pacing_time r i m g.control_global;
  control_hmds = each (Control.set_pacing_time r i m) g.control_hmds;
  control_lazy = each (Control.set_pacing_time r i m) g.control_lazy;
}

unfoldable pub set_violation_pause : ℤ → PacingGod → PacingGod
set_violation_pause v g = record g {
  violation_pause = v;
  control_global = Control.set_violation_pause v g.control_global;
  control_hmds = each (Control.set_violation_pause v) g.control_hmds;
  control_lazy = each (Control.set_violation_pause v) g.control_lazy;
}

unfoldable pub clear_each : ℤ → Map Text PacingControl → Option (Map Text PacingControl)
clear_each now [] = some []
clear_each now ((k, p) ∷ m) = do
  q ← Control.clear now p
  rest ← clear_each now m
  some ((k, q) ∷ rest)

unfoldable pub clear_farms :
    ℤ → List Text → Map Text PacingControl → Option (Map Text PacingControl)
clear_farms now [] m = some m
clear_farms now (farm ∷ farms) m = elim (find farm m) [
  | none ↦ clear_farms now farms m
  | some p ↦ Control.clear now p >>= λ q. clear_farms now farms (insert farm q m)
]

-- PacingGod::clear: everything when no farm is active, else the inactive farms.
unfoldable pub clear : ℤ → DataFarmStates → PacingGod → Option PacingGod
unfolding clear_each clear_farms
clear now d g = elim (get_actives d) [
  | [] ↦ do
    global ← Control.clear now g.control_global
    hmds ← clear_each now g.control_hmds
    lazy ← clear_each now g.control_lazy
    some (record g { control_global = global; control_hmds = hmds; control_lazy = lazy })
  | _ ∷ _ ↦ do
    hmds ← clear_farms now (get_inactives d) g.control_hmds
    some (record g { control_hmds = hmds })
]

-- new PacingControl( maxRequests, … )
unfoldable pub fresh_control : PacingGod → PacingControl
fresh_control g = new_control g.max_requests g.check_interval g.min_pacing_time g.violation_pause

-- The asserts at the end of the branch for a known farm.
abbrev check_known : Text → Text → PacingGod → Option PacingGod
check_known lazy farm g =
    assert (not (is_none (find farm g.control_hmds)))
    >> (assert (is_none (find lazy g.control_lazy)) >> some g)

-- A farm becomes known: its lazy control moves to the farm, or into the control that is there.
unfoldable pub check_known_farm : Text → Text → PacingGod → Option PacingGod
check_known_farm lazy farm g = elim (find farm g.control_hmds) [
  | none ↦ elim (find lazy g.control_lazy) [
    | some p ↦ check_known lazy farm (record g {
      control_lazy = erase lazy g.control_lazy;
      control_hmds = insert farm p g.control_hmds;
    })
    | none ↦
        check_known lazy farm
          (record g { control_hmds = insert farm (fresh_control g) g.control_hmds })
  ]
  | some h ↦ elim (find lazy g.control_lazy) [
    | none ↦ check_known lazy farm g
    | some p ↦ Control.merge h p >>= λ merged. check_known lazy farm (record g {
      control_lazy = erase lazy g.control_lazy;
      control_hmds = insert farm merged g.control_hmds;
    })
  ]
]

-- An exchange whose farm is not known gets a lazy control.
unfoldable pub check_unknown_farm : Text → Text → PacingGod → Option PacingGod
check_unknown_farm lazy farm g = elim (find lazy g.control_lazy) [
  | some _ ↦ some g
  | none ↦
      let g' = record g { control_lazy = insert lazy (fresh_control g) g.control_lazy } in
      assert (is_none (find farm g'.control_hmds))
      >> (assert (not (is_none (find lazy g'.control_lazy))) >> some g')
]

-- One round of the loop of checkAdd.
unfoldable pub check_lazy : DataFarmStates → Text → PacingGod → Option PacingGod
check_lazy d lazy g =
    if empty (get_hmds_farm d lazy)
    then check_unknown_farm lazy (get_hmds_farm d lazy) g
    else check_known_farm lazy (get_hmds_farm d lazy) g

unfoldable pub check_lazies : DataFarmStates → List Text → PacingGod → Option PacingGod
check_lazies d [] g = some g
check_lazies d (lazy ∷ lazies) g = check_lazy d lazy g >>= check_lazies d lazies

-- The exchanges that checkAdd looks at: those with a lazy control, and the contract's own.
unfoldable pub lazies_of : Text → PacingGod → List Text
lazies_of lazy g =
    if member lazy (keys g.control_lazy)
    then keys g.control_lazy
    else keys g.control_lazy ++ lazy ∷ []

unfoldable pub check_add : DataFarmStates → Contract → PacingGod → Option PacingGod
check_add d c g = check_lazies d (lazies_of (lazy_contract_str c) g) g

-- getHmdsFarm( c ), which checkAdd stores in *farm_
unfoldable pub farm_of : DataFarmStates → Contract → Text
farm_of d c = get_hmds_farm d (lazy_contract_str c)

-- Apply a call of PacingControl to the entry of a map, which the code asserts to be there.
unfoldable pub at_entry :
    Text
    → (PacingControl → Option PacingControl)
    → Map Text PacingControl
    → Option (Map Text PacingControl)
at_entry k f m = elim (find k m) [ none ↦ none | some p ↦ f p >>= λ q. some (insert k q m) ]

-- The branches of addRequest, remove_last_request and notifyViolation: `f` is applied to the control
-- of the contract's exchange or of its farm, with the asserts of the branch.
unfoldable pub on_own :
    (PacingControl → Option PacingControl) → Text → Text → PacingGod → Option PacingGod
unfolding at_entry
on_own f lazy farm g =
    if empty farm
    then assert (not (is_none (find lazy g.control_lazy)) && is_none (find farm g.control_hmds))
      >> (at_entry lazy f g.control_lazy >>= λ m. some (record g { control_lazy = m }))
    else assert (not (is_none (find farm g.control_hmds)) && is_none (find lazy g.control_lazy))
      >> (at_entry farm f g.control_hmds >>= λ m. some (record g { control_hmds = m }))

-- The three methods: `f` is applied to the global control and to the contract's own.
unfoldable pub on_controls :
    (PacingControl → Option PacingControl)
    → DataFarmStates
    → Contract
    → PacingGod
    → Option PacingGod
unfolding on_own
on_controls f d c g = do
  g' ← check_add d c g
  global ← f g'.control_global
  on_own f (lazy_contract_str c) (farm_of d c) (record g' { control_global = global })

unfoldable pub add_request : ℤ → DataFarmStates → Contract → PacingGod → Option PacingGod
unfolding on_controls
add_request now = on_controls (λ p. some (Control.add_request now p))

unfoldable pub remove_last_request : DataFarmStates → Contract → PacingGod → Option PacingGod
unfolding on_controls
remove_last_request = on_controls Control.remove_last_request

unfoldable pub notify_violation : ℤ → DataFarmStates → Contract → PacingGod → Option PacingGod
unfolding on_controls
notify_violation now = on_controls (Control.notify_violation now)

unfoldable pub lazies_are_cleared : Map Text PacingControl → Bool
lazies_are_cleared [] = true
lazies_are_cleared ((k, p) ∷ m) = Control.is_empty p && lazies_are_cleared m

-- The control that goodTime and countLeft ask: the global one while a contract's farm is ambiguous.
unfoldable pub asked : DataFarmStates → Contract → PacingGod → Option PacingControl
asked d c g =
    let lazy = lazy_contract_str c in
    let farm = farm_of d c in
    let cleared = lazies_are_cleared g.control_lazy in
    if empty farm || not cleared
    then assert (
        (not (is_none (find lazy g.control_lazy)) && is_none (find farm g.control_hmds))
        || not cleared)
      >> some g.control_global
    else find farm g.control_hmds

unfoldable pub good_time : ℤ → DataFarmStates → Contract → PacingGod → Option (ℤ × PacingGod)
good_time now d c g = do
  g' ← check_add d c g
  p ← asked d c g'
  r ← Control.good_time now p
  some (r.0, g')

unfoldable pub count_left : ℤ → DataFarmStates → Contract → PacingGod → Option (ℤ × PacingGod)
count_left now d c g = do
  g' ← check_add d c g
  p ← asked d c g'
  n ← Control.count_left now p
  some (n, g')
