-- ===== src/Farms/Learning.antt =====
-- What DataFarmStates (src/tws_meta.cpp) learns about the data farm of an exchange.
use Prim.Native.String.{String}
use twstools.Base.{◌≡◌, refl, ◌≢◌, true, false, some, List, [], ◌∷◌, if◌then◌else◌, arith}
use twstools.Base.Text.{empty_iff, Text, bytes, empty, text_eq, text_eq_iff, text_ne}
use twstools.Base.Map.{Map, find, insert, find-insert, text_key, Values, Values-insert, Values-find}
use twstools.Requests.{Contract}
use twstools.Farms.{
  DataFarmStates, new_states, get_hmds_farm, lazy_contract_str, get_actives, member, learn_unique,
  learn_hmds,
}
use twstools.Farms.HardCoded.{
  init_hard_coded_farms, learn_each, eu_exchanges, il_exchanges, us_exchanges, hk_exchanges,
  cash_exchanges,
}

-- The farms that the program knows without being told.
abbrev five_farms : List Text
five_farms =
    bytes "euhmds" ∷ bytes "ilhmds" ∷ bytes "ushmds.us" ∷ bytes "hkhmds" ∷ bytes "cashhmds" ∷ []

abbrev pub IsKnown : Text → Type 0
IsKnown farm = member farm five_farms ≡ true

learn_each-Values :
    (farm : Text) (xs : List String) (m : Map Text Text)
    → IsKnown farm
    → Values IsKnown m
    → Values IsKnown (learn_each farm xs m)
unfolding learn_each
learn_each-Values farm [] m k h = h
learn_each-Values farm (x ∷ xs) m k h =
    learn_each-Values farm xs (insert (bytes x) farm m) k
      (Values-insert IsKnown (bytes x) farm m k h)

-- At the start every exchange with a farm has one of the five hard-coded ones.
pub new_states-IsKnown :
    (exchange farm : Text) → find exchange new_states.h_learn ≡ some farm → IsKnown farm
unfolding new_states init_hard_coded_farms member bytes text_eq
new_states-IsKnown exchange farm e = Values-find IsKnown exchange farm _ table e
  where
    table : Values IsKnown new_states.h_learn
    table = learn_each-Values _ cash_exchanges _ refl (
        learn_each-Values _ hk_exchanges _ refl (
          learn_each-Values _ us_exchanges _ refl (
            learn_each-Values _ il_exchanges _ refl (learn_each-Values _ eu_exchanges [] refl tt))))

learn_unique_keeps :
    (lazy : Text) (farms : List Text) (d : DataFarmStates) (exchange farm : Text)
    → find exchange d.h_learn ≡ some farm
    → lazy ≢ exchange
    → find exchange (learn_unique lazy farms d).h_learn ≡ some farm
unfolding learn_unique
learn_unique_keeps lazy [] d exchange farm e ne = e
learn_unique_keeps lazy (f ∷ g ∷ fs) d exchange farm e ne = e
learn_unique_keeps lazy (f ∷ []) d exchange farm e ne =
    ground (arith, find-insert lazy exchange f d.h_learn, text_eq_iff lazy exchange)

learn_unique_ambiguous :
    (lazy : Text) (farms : List Text) (d : DataFarmStates)
    → ((farm : Text) → farms ≢ farm ∷ [])
    → (learn_unique lazy farms d).h_learn ≡ d.h_learn
unfolding learn_unique
learn_unique_ambiguous lazy [] d many = refl
learn_unique_ambiguous lazy (f ∷ g ∷ fs) d many = refl
learn_unique_ambiguous lazy (f ∷ []) d many = absurd (many f refl)

-- A farm that was learned stays: no data for a contract changes what is known about an exchange.
pub learn_hmds_keeps :
    (c : Contract) (d : DataFarmStates) (exchange farm : Text)
    → find exchange d.h_learn ≡ some farm
    → farm ≢ []
    → find exchange (learn_hmds c d).h_learn ≡ some farm
unfolding learn_hmds get_hmds_farm
learn_hmds_keeps c d exchange farm e ne = ground (
  arith,
  learn_unique_keeps (lazy_contract_str c) (get_actives d)
      (record d { last_learned_lazy_contract = lazy_contract_str c }) exchange farm e,
  empty_iff (get_hmds_farm d (lazy_contract_str c)),
)

-- With a single active farm that has a name, data for a contract of an exchange whose farm is not known, and
-- that is not the exchange of the contract before, teaches the farm of that exchange and of no other.
pub learn_hmds_teaches :
    (c : Contract) (d : DataFarmStates) (farm : Text)
    → get_actives d ≡ farm ∷ []
    → farm ≢ []
    → get_hmds_farm d (lazy_contract_str c) ≡ []
    → d.last_learned_lazy_contract ≢ lazy_contract_str c
    → (exchange : Text)
    → get_hmds_farm (learn_hmds c d) exchange
      ≡ (if text_eq (lazy_contract_str c) exchange then farm else get_hmds_farm d exchange)
unfolding learn_hmds learn_unique member get_hmds_farm
learn_hmds_teaches c d farm e ne unknown fresh exchange =
    let other = text_ne _ _ fresh in
    let down : member (get_hmds_farm d (lazy_contract_str c)) (get_actives d) ≡ false =
      rw (unknown, e) (rw (text_ne farm [] ne)) in
    let none_known : empty (get_hmds_farm d (lazy_contract_str c)) ≡ true = rw unknown in
    ground (arith, e, other, down, none_known, find-insert c.exchange exchange farm d.h_learn)

-- With no active farm or with several, nothing is learned.
pub learn_hmds_ambiguous :
    (c : Contract) (d : DataFarmStates)
    → ((farm : Text) → get_actives d ≢ farm ∷ [])
    → (learn_hmds c d).h_learn ≡ d.h_learn
unfolding learn_hmds
learn_hmds_ambiguous c d many = ground (
  arith,
  learn_unique_ambiguous (lazy_contract_str c) (get_actives d)
      (record d { last_learned_lazy_contract = lazy_contract_str c }) many,
)
