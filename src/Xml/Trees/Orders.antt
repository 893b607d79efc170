-- ===== src/Xml/Trees/Orders.antt =====
-- conv_ib2xml and conv_xml2ib of an Order of src/tws_xml.cpp.
use twstools.Base.{◌≡◌, refl, ap, ◌∙◌, Bool, Option, none, some, List, ◌++◌}
use twstools.Base.Text.{Text, bytes, text_eq}
use twstools.Xml.{Struct, read}
use twstools.Xml.RoundTrip.{Table, tag_value, order_combo_leg, order, reader}
use twstools.Xml.Trees.{
  TreeLib, OrderTree, write_leaf, is_named, write_order, read_order_child, over, read_order,
}
use twstools.Xml.Trees.Nodes.{
  TreeLaws, over-concat, SameOn, IsElement, IsGood, is_named_lem, leaf-IsElement, leaf-children,
  read_like_leaf,
}
use twstools.Xml.Trees.Lists.{
  SameLists, AreGood, list_node, list_nodes, lists_back, list-IsElement, lists_back-same,
  add_list-children, add_list-props, add_list-IsElement,
}

-- The same attributes, tag values and legs.
pub record SameOrder (o u : OrderTree) : Type 0 where
  pub attrs : SameOn order o.attrs u.attrs
  pub algo_params : SameLists tag_value o.algo_params u.algo_params
  pub smart_combo_routing_params :
      SameLists tag_value o.smart_combo_routing_params u.smart_combo_routing_params
  pub combo_legs : SameLists order_combo_leg o.combo_legs u.combo_legs
  pub misc_options : SameLists tag_value o.misc_options u.misc_options

module _ (lib : TreeLib) (laws : TreeLaws lib) (dflt : Table → Struct) (skip : Bool) where
  -- An Order as its constructor makes it.
  abbrev pub fresh_order : OrderTree
  fresh_order = record {
    attrs = dflt order;
    algo_params = none;
    smart_combo_routing_params = none;
    combo_legs = none;
    misc_options = none;
  }

  -- Values that survive being written and read, in all parts.
  pub record IsGoodOrder (o : OrderTree) : Type 0 where
    pub attrs : IsGood lib laws dflt skip order o.attrs
    pub algo_params : AreGood lib laws dflt skip tag_value o.algo_params
    pub smart_combo_routing_params :
        AreGood lib laws dflt skip tag_value o.smart_combo_routing_params
    pub combo_legs : AreGood lib laws dflt skip order_combo_leg o.combo_legs
    pub misc_options : AreGood lib laws dflt skip tag_value o.misc_options

  abbrev tag_nodes : Text → Option (List Struct) → List lib.attrs.Node
  tag_nodes n o = list_nodes lib laws dflt skip tag_value n (bytes "tagValue") o

  abbrev tags_back : Text → Option (List Struct) → Option (List Struct)
  tags_back n o = lists_back lib laws dflt skip tag_value n (bytes "tagValue") o

  abbrev leg_nodes : Option (List Struct) → List lib.attrs.Node
  leg_nodes o =
      list_nodes lib laws dflt skip order_combo_leg (bytes "orderComboLegs") (bytes "orderComboLeg")
        o

  abbrev legs_back : Option (List Struct) → Option (List Struct)
  legs_back o =
      lists_back lib laws dflt skip order_combo_leg (bytes "orderComboLegs") (bytes "orderComboLeg")
        o

  abbrev child : lib.attrs.Node → OrderTree → OrderTree
  child = read_order_child lib dflt skip

  is_tags :
      (n m : Text) (ss : List Struct)
      → is_named lib dflt skip m (list_node lib laws dflt skip tag_value n (bytes "tagValue") ss)
        ≡ text_eq n m
  is_tags n m ss =
      is_named_lem lib laws dflt skip n m _
        (list-IsElement lib laws dflt skip tag_value n (bytes "tagValue") ss)

  is_legs :
      (m : Text) (ss : List Struct)
      → is_named lib dflt skip m (
          list_node lib laws dflt skip order_combo_leg
            (bytes "orderComboLegs")
            (bytes "orderComboLeg")
            ss)
        ≡ text_eq (bytes "orderComboLegs") m
  is_legs m ss = is_named_lem lib laws dflt skip (bytes "orderComboLegs") m _ (
      list-IsElement lib laws dflt skip order_combo_leg (bytes "orderComboLegs")
        (bytes "orderComboLeg") ss)

  pub order-IsElement :
      (n : Text) (o : OrderTree) → IsElement lib laws n (write_order lib dflt skip n o)
  unfolding write_order
  order-IsElement n o = add_list-IsElement lib laws dflt skip n tag_value _ _ o.misc_options _ (
      add_list-IsElement lib laws dflt skip n order_combo_leg _ _ o.combo_legs _ (
        add_list-IsElement lib laws dflt skip n tag_value _ _ o.smart_combo_routing_params _ (
          add_list-IsElement lib laws dflt skip n tag_value _ _ o.algo_params _
            (leaf-IsElement lib laws dflt skip order n o.attrs))))

  -- The children, in the order in which they were written.
  abbrev order_nodes : OrderTree → List lib.attrs.Node
  order_nodes o =
      ((tag_nodes (bytes "algoParams") o.algo_params
          ++ tag_nodes (bytes "smartComboRoutingParams") o.smart_combo_routing_params)
        ++ leg_nodes o.combo_legs)
      ++ tag_nodes (bytes "orderMiscOptions") o.misc_options

  order-children :
      (n : Text) (o : OrderTree) → lib.children (write_order lib dflt skip n o) ≡ order_nodes o
  unfolding write_order
  order-children n o =
      add_list-children lib laws dflt skip tag_value _ _ o.misc_options _
      ∙ ap (λ cs. cs ++ tag_nodes (bytes "orderMiscOptions") o.misc_options)
          (add_list-children lib laws dflt skip order_combo_leg _ _ o.combo_legs _
            ∙ ap (λ cs. cs ++ leg_nodes o.combo_legs)
                (add_list-children lib laws dflt skip tag_value _ _ o.smart_combo_routing_params _
                  ∙ ap
                      (λ cs.
                        cs
                        ++ tag_nodes (bytes "smartComboRoutingParams") o.smart_combo_routing_params)
                      (add_list-children lib laws dflt skip tag_value _ _ o.algo_params _
                        ∙ ap (λ cs. cs ++ tag_nodes (bytes "algoParams") o.algo_params)
                            (leaf-children lib laws dflt skip order n o.attrs))))

  order-props :
      (n : Text) (o : OrderTree) (b : Text)
      → lib.attrs.get_prop b (write_order lib dflt skip n o)
        ≡ lib.attrs.get_prop b (write_leaf lib dflt skip order n o.attrs)
  unfolding write_order
  order-props n o b =
      add_list-props lib laws dflt skip tag_value _ _ o.misc_options _ b
      ∙ add_list-props lib laws dflt skip order_combo_leg _ _ o.combo_legs _ b
      ∙ add_list-props lib laws dflt skip tag_value _ _ o.smart_combo_routing_params _ b
      ∙ add_list-props lib laws dflt skip tag_value _ _ o.algo_params _ b

  over_algo :
      (l : Option (List Struct)) (o : OrderTree)
      → o.algo_params ≡ none
      → over child (tag_nodes (bytes "algoParams") l) o
        ≡ record o { algo_params = tags_back (bytes "algoParams") l }
  unfolding read_order_child bytes text_eq
  over_algo none o h = ap (λ l. record o { algo_params = l }) h
  over_algo (some ss) o h = rw (is_tags (bytes "algoParams") (bytes "algoParams") ss) refl

  over_smart :
      (l : Option (List Struct)) (o : OrderTree)
      → o.smart_combo_routing_params ≡ none
      → over child (tag_nodes (bytes "smartComboRoutingParams") l) o
        ≡ record o { smart_combo_routing_params = tags_back (bytes "smartComboRoutingParams") l }
  unfolding read_order_child bytes text_eq
  over_smart none o h = ap (λ l. record o { smart_combo_routing_params = l }) h
  over_smart (some ss) o h =
      rw
        (
          is_tags (bytes "smartComboRoutingParams") (bytes "algoParams") ss,
          is_tags (bytes "smartComboRoutingParams") (bytes "smartComboRoutingParams") ss,
        )
        refl

  over_legs :
      (l : Option (List Struct)) (o : OrderTree)
      → o.combo_legs ≡ none
      → over child (leg_nodes l) o ≡ record o { combo_legs = legs_back l }
  unfolding read_order_child bytes text_eq
  over_legs none o h = ap (λ l. record o { combo_legs = l }) h
  over_legs (some ss) o h =
      rw
        (
          is_legs (bytes "algoParams") ss,
          is_legs (bytes "smartComboRoutingParams") ss,
          is_legs (bytes "orderMiscOptions") ss,
          is_legs (bytes "orderComboLegs") ss,
        )
        refl

  over_misc :
      (l : Option (List Struct)) (o : OrderTree)
      → o.misc_options ≡ none
      → over child (tag_nodes (bytes "orderMiscOptions") l) o
        ≡ record o { misc_options = tags_back (bytes "orderMiscOptions") l }
  unfolding read_order_child bytes text_eq
  over_misc none o h = ap (λ l. record o { misc_options = l }) h
  over_misc (some ss) o h =
      rw
        (
          is_tags (bytes "orderMiscOptions") (bytes "algoParams") ss,
          is_tags (bytes "orderMiscOptions") (bytes "smartComboRoutingParams") ss,
          is_tags (bytes "orderMiscOptions") (bytes "orderMiscOptions") ss,
        )
        refl

  -- A new Order that reads the node written for an Order has the same attributes, tag values and legs, when the
  -- values survive being written and read.
  pub read_order_back :
      (n : Text) (o : OrderTree)
      → IsGoodOrder o
      → SameOrder o (read_order lib dflt skip (write_order lib dflt skip n o) fresh_order)
  unfolding read_order
  read_order_back n o good =
      let a = read lib.attrs (reader order) (write_order lib dflt skip n o) (dflt order) in
      let o0 : OrderTree = record fresh_order { attrs = a } in
      let o1 : OrderTree = record o0 {
        algo_params = tags_back (bytes "algoParams") o.algo_params;
      } in
      let o2 : OrderTree = record o1 {
        smart_combo_routing_params =
            tags_back (bytes "smartComboRoutingParams") o.smart_combo_routing_params;
      } in
      let o3 : OrderTree = record o2 { combo_legs = legs_back o.combo_legs } in
      let o4 : OrderTree = record o3 {
        misc_options = tags_back (bytes "orderMiscOptions") o.misc_options;
      } in
      let two =
        tag_nodes (bytes "algoParams") o.algo_params
        ++ tag_nodes (bytes "smartComboRoutingParams") o.smart_combo_routing_params in
      let three = two ++ leg_nodes o.combo_legs in
      let back : over child (lib.children (write_order lib dflt skip n o)) o0 ≡ o4 =
        ap (λ cs. over child cs o0) (order-children n o)
        ∙ over-concat child three (tag_nodes (bytes "orderMiscOptions") o.misc_options) o0
        ∙ ap (over child (tag_nodes (bytes "orderMiscOptions") o.misc_options)) (
            over-concat child two (leg_nodes o.combo_legs) o0
            ∙ ap (over child (leg_nodes o.combo_legs)) (
                over-concat child (tag_nodes (bytes "algoParams") o.algo_params)
                  (tag_nodes (bytes "smartComboRoutingParams") o.smart_combo_routing_params) o0
                ∙ ap
                    (over child
                      (tag_nodes (bytes "smartComboRoutingParams") o.smart_combo_routing_params))
                    (over_algo o.algo_params o0 refl)
                ∙ over_smart o.smart_combo_routing_params o1 refl)
            ∙ over_legs o.combo_legs o2 refl)
        ∙ over_misc o.misc_options o3 refl in
      rw back (record {
        attrs = read_like_leaf lib laws dflt skip order n o.attrs _ (order-props n o) good.attrs;
        algo_params =
            lists_back-same lib laws dflt skip tag_value _ _ o.algo_params good.algo_params;
        smart_combo_routing_params =
            lists_back-same lib laws dflt skip tag_value _ _ o.smart_combo_routing_params
              good.smart_combo_routing_params;
        combo_legs =
            lists_back-same lib laws dflt skip order_combo_leg _ _ o.combo_legs good.combo_legs;
        misc_options =
            lists_back-same lib laws dflt skip tag_value _ _ o.misc_options good.misc_options;
      })
