-- ===== src/Xml/Trees/Contracts.antt =====
-- conv_ib2xml and conv_xml2ib of a Contract of src/tws_xml.cpp.
use twstools.Base.{
  ◌≡◌, refl, sym, ap, ◌∙◌, Bool, true, false, Option, none, some, List, [], ◌∷◌, ◌++◌,
}
use mathlib.Core.List.{append-nil}
use twstools.Base.Text.{Text, bytes, text_eq}
use twstools.Xml.{Struct, read}
use twstools.Xml.RoundTrip.{Table, combo_leg, delta_neutral_contract, contract, reader}
use twstools.Xml.Trees.{
  TreeLib, ContractTree, write_leaf, read_leaf, is_named, add_delta, write_contract,
  read_contract_child, over, read_contract,
}
use twstools.Xml.Trees.Nodes.{
  TreeLaws, over-concat, SameOn, IsElement, IsGood, is_named_lem, add-IsElement, leaf-IsElement,
  leaf-children, read_like_leaf, read_leaf_back,
}
use twstools.Xml.Trees.Lists.{
  SameLists, AreGood, list_node, list_nodes, lists_back, list-IsElement, lists_back-same,
  add_list-children, add_list-props, add_list-IsElement,
}

abbrev pub SameDelta : Option Struct → Option Struct → Type 0
SameDelta none none = Unit
SameDelta none (some u) = ⊥
SameDelta (some s) none = ⊥
SameDelta (some s) (some u) = SameOn delta_neutral_contract s u

-- The same attributes, legs and delta neutral contract.
pub record SameContract (c d : ContractTree) : Type 0 where
  pub attrs : SameOn contract c.attrs d.attrs
  pub combo_legs : SameLists combo_leg c.combo_legs d.combo_legs
  pub delta_neutral : SameDelta c.delta_neutral d.delta_neutral

module _ (lib : TreeLib) (laws : TreeLaws lib) (dflt : Table → Struct) (skip : Bool) where
  -- A Contract as its constructor makes it.
  abbrev pub fresh_contract : ContractTree
  fresh_contract = record { attrs = dflt contract; combo_legs = none; delta_neutral = none }

  abbrev pub IsGoodDelta : Option Struct → Type 0
  IsGoodDelta none = Unit
  IsGoodDelta (some s) = IsGood lib laws dflt skip delta_neutral_contract s

  -- Values that survive being written and read, in all parts.
  pub record IsGoodContract (c : ContractTree) : Type 0 where
    pub attrs : IsGood lib laws dflt skip contract c.attrs
    pub combo_legs : AreGood lib laws dflt skip combo_leg c.combo_legs
    pub delta_neutral : IsGoodDelta c.delta_neutral

  abbrev delta_node : Struct → lib.attrs.Node
  delta_node s = write_leaf lib dflt skip delta_neutral_contract (bytes "deltaNeutralContract") s

  abbrev delta_nodes : Option Struct → List lib.attrs.Node
  delta_nodes none = []
  delta_nodes (some s) = delta_node s ∷ []

  abbrev delta_back : Option Struct → Option Struct
  delta_back none = none
  delta_back (some s) = some (read_leaf lib dflt skip delta_neutral_contract (delta_node s))

  abbrev leg_nodes : Option (List Struct) → List lib.attrs.Node
  leg_nodes o = list_nodes lib laws dflt skip combo_leg (bytes "comboLegs") (bytes "comboLeg") o

  abbrev legs_back : Option (List Struct) → Option (List Struct)
  legs_back o = lists_back lib laws dflt skip combo_leg (bytes "comboLegs") (bytes "comboLeg") o

  delta_back-same : (o : Option Struct) → IsGoodDelta o → SameDelta o (delta_back o)
  delta_back-same none good = tt
  delta_back-same (some s) good =
      read_leaf_back lib laws dflt skip delta_neutral_contract (bytes "deltaNeutralContract") s good

  add_delta-children :
      (o : Option Struct) (ne : lib.attrs.Node)
      → lib.children (add_delta lib dflt skip o ne) ≡ lib.children ne ++ delta_nodes o
  unfolding add_delta
  add_delta-children none ne = sym (append-nil (lib.children ne))
  add_delta-children (some s) ne = laws.add_children ne _

  add_delta-props :
      (o : Option Struct) (ne : lib.attrs.Node) (b : Text)
      → lib.attrs.get_prop b (add_delta lib dflt skip o ne) ≡ lib.attrs.get_prop b ne
  unfolding add_delta
  add_delta-props none ne b = refl
  add_delta-props (some s) ne b = laws.add_props b ne _

  add_delta-IsElement :
      (n : Text) (o : Option Struct) (ne : lib.attrs.Node)
      → IsElement lib laws n ne
      → IsElement lib laws n (add_delta lib dflt skip o ne)
  unfolding add_delta
  add_delta-IsElement n none ne e = e
  add_delta-IsElement n (some s) ne e = add-IsElement lib laws dflt skip n ne _ e

  pub contract-IsElement :
      (n : Text) (c : ContractTree) → IsElement lib laws n (write_contract lib dflt skip n c)
  unfolding write_contract
  contract-IsElement n c = add_delta-IsElement n c.delta_neutral _ (
      add_list-IsElement lib laws dflt skip n combo_leg _ _ c.combo_legs _
        (leaf-IsElement lib laws dflt skip contract n c.attrs))

  contract-children :
      (n : Text) (c : ContractTree)
      → lib.children (write_contract lib dflt skip n c)
        ≡ leg_nodes c.combo_legs ++ delta_nodes c.delta_neutral
  unfolding write_contract
  contract-children n c =
      add_delta-children c.delta_neutral _
      ∙ ap (λ cs. cs ++ delta_nodes c.delta_neutral)
          (add_list-children lib laws dflt skip combo_leg _ _ c.combo_legs _
            ∙ ap (λ cs. cs ++ leg_nodes c.combo_legs)
                (leaf-children lib laws dflt skip contract n c.attrs))

  contract-props :
      (n : Text) (c : ContractTree) (b : Text)
      → lib.attrs.get_prop b (write_contract lib dflt skip n c)
        ≡ lib.attrs.get_prop b (write_leaf lib dflt skip contract n c.attrs)
  unfolding write_contract
  contract-props n c b =
      add_delta-props c.delta_neutral _ b
      ∙ add_list-props lib laws dflt skip combo_leg _ _ c.combo_legs _ b

  over_legs :
      (o : Option (List Struct)) (a : Struct)
      → over
          (read_contract_child lib dflt skip)
          (leg_nodes o)
          (record { attrs = a; combo_legs = none; delta_neutral = none })
        ≡ record { attrs = a; combo_legs = legs_back o; delta_neutral = none }
  unfolding read_contract_child bytes text_eq
  over_legs none a = refl
  over_legs (some ss) a =
      let named : is_named lib dflt skip (bytes "comboLegs")
            (list_node lib laws dflt skip combo_leg (bytes "comboLegs") (bytes "comboLeg") ss)
          ≡ true =
        is_named_lem lib laws dflt skip (bytes "comboLegs") (bytes "comboLegs") _
          (list-IsElement lib laws dflt skip combo_leg (bytes "comboLegs") (bytes "comboLeg") ss) in
      rw named refl

  over_delta :
      (o : Option Struct) (a : Struct) (ls : Option (List Struct))
      → over
          (read_contract_child lib dflt skip)
          (delta_nodes o)
          (record { attrs = a; combo_legs = ls; delta_neutral = none })
        ≡ record { attrs = a; combo_legs = ls; delta_neutral = delta_back o }
  unfolding read_contract_child bytes text_eq
  over_delta none a ls = refl
  over_delta (some s) a ls =
      let element =
        leaf-IsElement lib laws dflt skip delta_neutral_contract (bytes "deltaNeutralContract") s in
      let other : is_named lib dflt skip (bytes "comboLegs") (delta_node s) ≡ false =
        is_named_lem lib laws dflt skip (bytes "deltaNeutralContract") (bytes "comboLegs") _
          element in
      let named : is_named lib dflt skip (bytes "deltaNeutralContract") (delta_node s) ≡ true =
        is_named_lem lib laws dflt skip (bytes "deltaNeutralContract")
          (bytes "deltaNeutralContract") _ element in
      rw (other, named) refl

  -- A new Contract that reads the node written for a Contract has the same attributes, legs and delta neutral
  -- contract, when the values survive being written and read.
  pub read_contract_back :
      (n : Text) (c : ContractTree)
      → IsGoodContract c
      → SameContract c
          (read_contract lib dflt skip (write_contract lib dflt skip n c) fresh_contract)
  unfolding read_contract
  read_contract_back n c good =
      let a = read lib.attrs (reader contract) (write_contract lib dflt skip n c) (dflt contract) in
      let start : ContractTree = record { attrs = a; combo_legs = none; delta_neutral = none } in
      let back : over (read_contract_child lib dflt skip)
            (lib.children (write_contract lib dflt skip n c)) start
          ≡ record {
            attrs = a;
            combo_legs = legs_back c.combo_legs;
            delta_neutral = delta_back c.delta_neutral;
          } =
        ap (λ cs. over (read_contract_child lib dflt skip) cs start) (contract-children n c)
        ∙ over-concat (read_contract_child lib dflt skip) (leg_nodes c.combo_legs)
            (delta_nodes c.delta_neutral) start
        ∙ ap (over (read_contract_child lib dflt skip) (delta_nodes c.delta_neutral))
            (over_legs c.combo_legs a)
        ∙ over_delta c.delta_neutral a _ in
      rw back (record {
        attrs =
            read_like_leaf lib laws dflt skip contract n c.attrs _ (contract-props n c) good.attrs;
        combo_legs = lists_back-same lib laws dflt skip combo_leg _ _ c.combo_legs good.combo_legs;
        delta_neutral = delta_back-same c.delta_neutral good.delta_neutral;
      })
