-- ===== src/Xml/Trees/Details.antt =====
-- conv_ib2xml and conv_xml2ib of a ContractDetails of src/tws_xml.cpp.
use twstools.Base.{◌≡◌, refl, ap, ◌∙◌, Bool, true, Option, none, some, List, [], ◌∷◌, ◌++◌}
use twstools.Base.Text.{Text, bytes, text_eq}
use twstools.Xml.{Struct, field, string_attr, read, get_attr}
use twstools.Xml.Agree.{has_attr, distinct}
use twstools.Xml.Contracts.{contract_details_writer}
use twstools.Xml.Writing.{get-write}
use twstools.Xml.RoundTrip.{Table, tag_value, contract_details, reader, writer}
use twstools.Xml.Trees.{
  TreeLib, ContractTree, DetailsTree, write_leaf, is_named, write_contract, read_contract,
  write_details, read_details_child, over, read_details,
}
use twstools.Xml.Trees.Nodes.{TreeLaws, SameOn, IsGood, is_named_lem, leaf-children, read_like_leaf}
use twstools.Xml.Trees.Lists.{
  SameLists, AreGood, list_node, list_nodes, lists_back, list-IsElement, lists_back-same,
  add_list-children, add_list-props,
}
use twstools.Xml.Trees.Contracts.{
  SameContract, IsGoodContract, fresh_contract, contract-IsElement, read_contract_back,
}

-- The same attributes, contract and list of ids.
pub record SameDetails (d e : DetailsTree) : Type 0 where
  pub attrs : SameOn contract_details d.attrs e.attrs
  pub summary : SameContract d.summary e.summary
  pub sec_id_list : SameLists tag_value d.sec_id_list e.sec_id_list

module _ (lib : TreeLib) (laws : TreeLaws lib) (dflt : Table → Struct) (skip : Bool) where
  -- A ContractDetails as its constructor makes it.
  abbrev pub fresh_details : DetailsTree
  fresh_details = record {
    attrs = dflt contract_details;
    summary = fresh_contract lib laws dflt skip;
    sec_id_list = none;
  }

  -- Values that survive being written and read, in all parts.
  pub record IsGoodDetails (d : DetailsTree) : Type 0 where
    pub attrs : IsGood lib laws dflt skip contract_details d.attrs
    pub summary : IsGoodContract lib laws dflt skip d.summary
    pub sec_id_list : AreGood lib laws dflt skip tag_value d.sec_id_list

  abbrev id_nodes : Option (List Struct) → List lib.attrs.Node
  id_nodes o = list_nodes lib laws dflt skip tag_value (bytes "secIdList") (bytes "tagValue") o

  abbrev ids_back : Option (List Struct) → Option (List Struct)
  ids_back o = lists_back lib laws dflt skip tag_value (bytes "secIdList") (bytes "tagValue") o

  abbrev summary_node : ContractTree → lib.attrs.Node
  summary_node c = write_contract lib dflt skip (bytes "summary") c

  details-children :
      (n : Text) (d : DetailsTree)
      → lib.children (write_details lib dflt skip n d)
        ≡ summary_node d.summary ∷ id_nodes d.sec_id_list
  unfolding write_details
  details-children n d =
      add_list-children lib laws dflt skip tag_value _ _ d.sec_id_list _
      ∙ ap (λ cs. cs ++ id_nodes d.sec_id_list)
          (laws.add_children _ _
            ∙ ap (λ cs. cs ++ summary_node d.summary ∷ [])
                (leaf-children lib laws dflt skip contract_details n d.attrs))

  details-props :
      (n : Text) (d : DetailsTree) (b : Text)
      → lib.attrs.get_prop b (write_details lib dflt skip n d)
        ≡ lib.attrs.get_prop b (write_leaf lib dflt skip contract_details n d.attrs)
  unfolding write_details
  details-props n d b =
      add_list-props lib laws dflt skip tag_value _ _ d.sec_id_list _ b ∙ laws.add_props b _ _

  -- The attribute tradingClass is the contract's.
  details_class :
      (n : Text) (s : Struct)
      → lib.attrs.get_prop (bytes "tradingClass") (write_leaf lib dflt skip contract_details n s)
        ≡ none
  unfolding write_leaf writer contract_details_writer has_attr distinct bytes text_eq
  details_class n s =
      get-write lib.attrs laws.attrs skip (dflt contract_details) s (writer contract_details)
        (lib.new_element n) refl (λ b _. laws.new_bare b n) (bytes "tradingClass")
      ∙ laws.new_bare (bytes "tradingClass") n

  over_summary :
      (c : ContractTree) (d : DetailsTree)
      → read_details_child lib dflt skip (summary_node c) d
        ≡ record d { summary = read_contract lib dflt skip (summary_node c) d.summary }
  unfolding read_details_child bytes text_eq
  over_summary c d =
      let named : is_named lib dflt skip (bytes "summary") (summary_node c) ≡ true =
        is_named_lem lib laws dflt skip (bytes "summary") (bytes "summary") _
          (contract-IsElement lib laws dflt skip (bytes "summary") c) in
      rw named refl

  over_ids :
      (l : Option (List Struct)) (d : DetailsTree)
      → d.sec_id_list ≡ none
      → over (read_details_child lib dflt skip) (id_nodes l) d
        ≡ record d { sec_id_list = ids_back l }
  unfolding read_details_child bytes text_eq
  over_ids none d h = ap (λ l. record d { sec_id_list = l }) h
  over_ids (some ss) d h =
      let named : (m : Text)
          → is_named lib dflt skip m
              (list_node lib laws dflt skip tag_value (bytes "secIdList") (bytes "tagValue") ss)
            ≡ text_eq (bytes "secIdList") m =
        λ m.
          is_named_lem lib laws dflt skip (bytes "secIdList") m _ (
            list-IsElement lib laws dflt skip tag_value (bytes "secIdList") (bytes "tagValue")
              ss) in
      rw (named (bytes "summary"), named (bytes "secIdList")) refl

  -- With the laws of libxml2, whatever the default objects are and whether defaults are skipped or not: a
  -- new ContractDetails that reads the node written for one has the same attributes, contract and ids,
  -- when the values survive being written and read. That reading gives the contract an old attribute
  -- tradingClass does not disturb this.
  pub read_details_back :
      (n : Text) (d : DetailsTree)
      → IsGoodDetails d
      → SameDetails d (read_details lib dflt skip (write_details lib dflt skip n d) fresh_details)
  unfolding read_details get_attr
  read_details_back n d good =
      let node = write_details lib dflt skip n d in
      let d0 : DetailsTree = record fresh_details {
        attrs = read lib.attrs (reader contract_details) node (dflt contract_details);
      } in
      let no_class : lib.attrs.get_prop (bytes "tradingClass") node ≡ none =
        details-props n d _ ∙ details_class n d.attrs in
      let c0 : ContractTree = fresh_contract lib laws dflt skip in
      let same_class : get_attr lib.attrs node (field "tradingClass" string_attr) c0.attrs
          ≡ c0.attrs =
        rw (get_attr, no_class) refl in
      let back : over (read_details_child lib dflt skip) (lib.children node) d0 ≡ record d0 {
        summary =
            read_contract lib dflt skip (summary_node d.summary)
              (fresh_contract lib laws dflt skip);
        sec_id_list = ids_back d.sec_id_list;
      } =
        ap (λ cs. over (read_details_child lib dflt skip) cs d0) (details-children n d)
        ∙ ap (over (read_details_child lib dflt skip) (id_nodes d.sec_id_list))
            (over_summary d.summary d0)
        ∙ over_ids d.sec_id_list _ refl in
      rw (same_class, back)
        (record {
          attrs =
              read_like_leaf lib laws dflt skip contract_details n d.attrs _ (details-props n d)
                good.attrs;
          summary = read_contract_back lib laws dflt skip (bytes "summary") d.summary good.summary;
          sec_id_list =
              lists_back-same lib laws dflt skip tag_value _ _ d.sec_id_list good.sec_id_list;
        })
