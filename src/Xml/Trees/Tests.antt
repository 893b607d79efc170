-- ===== src/Xml/Trees/Tests.antt =====
-- Examples for the child elements of src/tws_xml.cpp: libxml2 as trees.
use mathlib.Core.Option
use twstools.Base.{
  ℕ, ◌≡◌, refl, Bool, true, false, Option, none, some, List, [], ◌∷◌, ◌++◌, if◌then◌else◌, All,
  arith, leb,
}
use twstools.Base.Int.{pos, IsInt}
use twstools.Base.Text.{Text, bytes, text_eq}
use twstools.Xml.{
  Kind, int_attr, long_attr, long_long_attr, double_attr, bool_attr, string_attr, Value, number,
  real, flag, text, Field, Struct, IsLong,
}
use twstools.Requests.{Double}
use twstools.Xml.Contracts.{
  combo_leg_writer, delta_neutral_contract_writer, contract_writer, contract_details_writer,
}
use twstools.Xml.Orders.{tag_value_writer, order_writer}
use twstools.Xml.Rows.{place_order_writer}
use twstools.Xml.Writing.{IsFor, for_int, for_long, for_long_long, for_double, for_bool, for_string}
use twstools.Xml.RoundTrip.{
  Table, combo_leg, delta_neutral_contract, contract, contract_details, tag_value, order,
  place_order, writer,
}
use twstools.Xml.Tests.{Attrs, prop_of, plain_lib, plain_laws, prop_new, prop_other}
use twstools.Xml.Trees.{TreeLib, DetailsTree, write_details, read_details}
use twstools.Xml.Trees.Nodes.{TreeLaws, IsGood}
use twstools.Xml.Trees.Details.{SameDetails, fresh_details, IsGoodDetails, read_details_back}
use twstools.Xml.Trees.Requests.{PlaceOrderTree, write_place_order, read_place_order}
use twstools.Xml.Trees.Requests.Back.{
  SamePlaceOrder, fresh_place_order, IsGoodPlaceOrder, read_place_order_back,
}

mutual
  data Tree : Type 0 where
    element : Text → Attrs → Forest → Tree

  data Forest : Type 0 where
    leaf : Forest
    behind : Forest → Tree → Forest

unfoldable trees : Forest → List Tree
trees leaf = []
trees (behind f t) = trees f ++ t ∷ []

abbrev tree_name : Tree → Text
tree_name (element n a f) = n

abbrev tree_attrs : Tree → Attrs
tree_attrs (element n a f) = a

abbrev tree_forest : Tree → Forest
tree_forest (element n a f) = f

abbrev with_prop : Text → Text → Tree → Tree
with_prop n v t = element (tree_name t) (tree_attrs t ++ (n, v) ∷ []) (tree_forest t)

abbrev with_child : Tree → Tree → Tree
with_child t c = element (tree_name t) (tree_attrs t) (behind (tree_forest t) c)

abbrev tree_lib : TreeLib
tree_lib = record {
  attrs = record plain_lib {
    Node = Tree;
    get_prop = λ n t. prop_of n (tree_attrs t);
    new_prop = with_prop;
  };
  new_element = λ n. element n [] leaf;
  add_child = with_child;
  is_element = λ t. true;
  name = tree_name;
  children = λ t. trees (tree_forest t);
}

tree_laws : TreeLaws tree_lib
unfolding trees prop_of
tree_laws = record {
  attrs = record {
    get_new = λ n v x h. prop_new n v (tree_attrs x) h;
    get_other = λ n m v x h. prop_other n m v (tree_attrs x) h;
    atoi_print = plain_laws.atoi_print;
    atol_print = plain_laws.atol_print;
    atoll_print = plain_laws.atoll_print;
    atoi_one = plain_laws.atoi_one;
    atoi_zero = plain_laws.atoi_zero;
  };
  new_bare = λ b n. refl;
  new_children = λ n. refl;
  new_named = λ n. refl;
  new_is = λ n. refl;
  add_props = λ b p c. refl;
  add_children = λ p c. refl;
  add_named = λ p c. refl;
  add_is = λ p c. refl;
  prop_children = λ n v x. refl;
  prop_named = λ n v x. refl;
  prop_is = λ n v x. refl;
}

same_real : (a d : Double) → tree_lib.attrs.same_double a d ≡ true → a ≡ d
same_real a d e = ground (arith, e)

abbrev guarded {ℓ} : {A : Type ℓ} (b : Bool) → (b ≡ true → A) → Option A
guarded true f = some (f refl)
guarded false f = none

small-IsInt : (a : ℕ) → leb a 1000 ≡ true → IsInt (pos a)
small-IsInt a h = (omega arith, ground (arith, h))

small-IsInt-IsLong : (a : ℕ) → leb a 1000 ≡ true → IsLong (pos a)
small-IsInt-IsLong a h = (omega arith, ground (arith, h))

-- Values that the parameters of these examples give back.
abbrev plain : (k : Kind) (v d : Value) → Option (IsFor tree_lib.attrs k v d)
plain int_attr (number (pos a)) (number d) =
    guarded (leb a 1000) (λ h. for_int (pos a) d (small-IsInt a h))
plain long_attr (number (pos a)) (number d) =
    guarded (leb a 1000) (λ h. for_long (pos a) d (small-IsInt-IsLong a h))
plain long_long_attr (number (pos a)) (number d) =
    guarded (leb a 1000) (λ h. for_long_long (pos a) d (small-IsInt-IsLong a h))
plain double_attr (real a) (real d) = some (for_double a d refl (same_real a d))
plain bool_attr (flag b) (flag d) = some (for_bool b d)
plain string_attr (text t) (text d) = some (for_string t d)
plain k v d = none

abbrev all_plain :
    (ws : List Field) (s d : Struct)
    → Option (All (λ w. IsFor tree_lib.attrs w.kind (s w.member) (d w.member)) ws)
all_plain [] s d = some tt
all_plain (w ∷ ws) s d = elim (plain w.kind (s w.member) (d w.member)) [
  | none ↦ none
  | some p ↦ Option.map (λ ps. (p, ps)) (all_plain ws s d)
]

abbrev zero_of : Kind → Value
zero_of int_attr = number (pos 0)
zero_of long_attr = number (pos 0)
zero_of long_long_attr = number (pos 0)
zero_of double_attr = real 0
zero_of bool_attr = flag false
zero_of string_attr = text []

-- The members of a table, without values.
abbrev blank : List Field → Struct
blank [] m = text []
blank (w ∷ ws) m = if text_eq w.member m then zero_of w.kind else blank ws m

abbrev zeros : Table → Struct
zeros t = blank (writer t)

abbrev set_member : Text → Value → Struct → Struct
set_member n v s m = if text_eq n m then v else s m

abbrev is_there {ℓ} : {A : Type ℓ} → Option A → Bool
is_there none = false
is_there (some a) = true

from_there {ℓ} : {A : Type ℓ} (o : Option A) → is_there o ≡ true → A
from_there none h = ground (arith, h)
from_there (some a) h = a

abbrev tag : Struct
tag = set_member (bytes "tag") (text (bytes "strategy")) (zeros tag_value)

abbrev leg : Struct
leg = set_member (bytes "ratio") (number (pos 2)) (zeros combo_leg)

abbrev sample : PlaceOrderTree
sample = record {
  attrs = set_member (bytes "orderId") (number (pos 7)) (zeros place_order);
  contract = record {
    attrs = set_member (bytes "symbol") (text (bytes "DAX")) (zeros contract);
    combo_legs = some (leg ∷ leg ∷ []);
    delta_neutral = some (zeros delta_neutral_contract);
  };
  order = record {
    attrs = set_member (bytes "action") (text (bytes "BUY")) (zeros order);
    algo_params = some (tag ∷ []);
    smart_combo_routing_params = none;
    combo_legs = some [];
    misc_options = some (tag ∷ tag ∷ []);
  };
}

good :
    (t : Table) (s : Struct)
    → is_there (all_plain (writer t) s (zeros t)) ≡ true
    → IsGood tree_lib tree_laws zeros true t s
good t s h = from_there (all_plain (writer t) s (zeros t)) h

sample-IsGood : IsGoodPlaceOrder tree_lib tree_laws zeros true sample
unfolding writer order_writer contract_writer combo_leg_writer delta_neutral_contract_writer
    tag_value_writer place_order_writer bytes text_eq
sample-IsGood =
    let good_tag = good tag_value tag refl in
    let good_leg = good combo_leg leg refl in
    record {
      attrs = good place_order sample.attrs refl;
      contract = record {
        attrs = good contract sample.contract.attrs refl;
        combo_legs = (good_leg, (good_leg, tt));
        delta_neutral = good delta_neutral_contract (zeros delta_neutral_contract) refl;
      };
      order = record {
        attrs = good order sample.order.attrs refl;
        algo_params = (good_tag, tt);
        smart_combo_routing_params = tt;
        combo_legs = tt;
        misc_options = (good_tag, (good_tag, tt));
      };
    }

abbrev sample_details : DetailsTree
sample_details = record {
  attrs = set_member (bytes "marketName") (text (bytes "FDAX")) (zeros contract_details);
  summary = sample.contract;
  sec_id_list = some (tag ∷ []);
}

sample_details-IsGood : IsGoodDetails tree_lib tree_laws zeros true sample_details
unfolding writer contract_details_writer tag_value_writer bytes text_eq
sample_details-IsGood = record {
  attrs = good contract_details sample_details.attrs refl;
  summary = sample-IsGood.contract;
  sec_id_list = (good tag_value tag refl, tt);
}

read_details_back_example : SameDetails sample_details (
    read_details tree_lib zeros true
      (write_details tree_lib zeros true (bytes "ContractDetails") sample_details)
      (fresh_details tree_lib tree_laws zeros true))
read_details_back_example =
    read_details_back tree_lib tree_laws zeros true (bytes "ContractDetails") sample_details
      sample_details-IsGood

read_place_order_back_example : SamePlaceOrder sample (
    read_place_order tree_lib zeros true
      (write_place_order tree_lib zeros true sample)
      (fresh_place_order tree_lib tree_laws zeros true))
read_place_order_back_example =
    read_place_order_back tree_lib tree_laws zeros true sample sample-IsGood
