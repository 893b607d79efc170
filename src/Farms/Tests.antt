-- ===== src/Farms/Tests.antt =====
-- Examples for DataFarmStates of src/tws_meta.cpp.
use twstools.Base.{◌≡◌, refl, true, some, [], ◌∷◌, ◌++◌, Returns, if◌then◌else◌}
use twstools.Base.Int.{pos}
use twstools.Base.Text.{Text, bytes, text_eq}
use twstools.Base.Map.{find, text_key}
use twstools.Samples.{contract_a, contract_b}
use twstools.Farms.{
  DataFarmStates, ok, inactive, get_actives, notify, learn_hmds, get_hmds_farm, lazy_contract_str,
  farms_in, hmds,
}
use twstools.Farms.States.{Told, hmds_ok, notify_lem}
use twstools.Farms.Learning.{learn_hmds_keeps, learn_hmds_teaches}

-- One farm is up and one is not, and the first serves the exchange of one of the contracts.
abbrev one_up : DataFarmStates
one_up = record {
  m_states = [];
  h_states = (bytes "euhmds", ok) ∷ (bytes "ushmds", inactive) ∷ [];
  m_learn = [];
  h_learn = (contract_a.exchange, bytes "euhmds") ∷ [];
  last_msg_number = pos 5;
  last_changed = bytes "euhmds";
  last_learned_lazy_contract = [];
  edemo_checked = true;
}

abbrev none_up : DataFarmStates
none_up = record one_up { h_states = [] }

notify_lem_example :
    Returns (Told (pos 6) hmds ok (bytes "ushmds") one_up) (
      notify (pos 6) (pos 2106) (bytes "HMDS data farm connection is OK:" ++ bytes "ushmds") one_up)
notify_lem_example =
    notify_lem (pos 6) (pos 2106) (bytes "HMDS data farm connection is OK:") (bytes "ushmds") hmds
      ok one_up hmds_ok

learn_hmds_keeps_example :
    find contract_a.exchange (learn_hmds contract_b one_up).h_learn ≡ some (bytes "euhmds")
unfolding find bytes text_eq
learn_hmds_keeps_example =
    learn_hmds_keeps contract_b one_up contract_a.exchange (bytes "euhmds") refl (λ e. cc)

learn_hmds_teaches_example : get_hmds_farm (learn_hmds contract_b one_up) contract_b.exchange ≡ (
    if text_eq (lazy_contract_str contract_b) contract_b.exchange
    then bytes "euhmds"
    else get_hmds_farm one_up contract_b.exchange)
unfolding find bytes text_eq get_actives farms_in get_hmds_farm lazy_contract_str
learn_hmds_teaches_example =
    learn_hmds_teaches contract_b one_up (bytes "euhmds") refl (λ e. cc) refl (λ e. cc)
      contract_b.exchange
