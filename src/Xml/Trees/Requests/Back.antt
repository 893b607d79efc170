-- ===== src/Xml/Trees/Requests/Back.antt =====
-- Requests that src/tws_xml.cpp writes and reads back.
use twstools.Base.{◌≡◌, ap, ◌∙◌, Bool, none, [], ◌∷◌, ◌++◌}
use twstools.Base.Text.{Text, bytes, text_eq}
use twstools.Xml.{Struct, write}
use twstools.Xml.RoundTrip.{Table, hist_request, place_order, writer, read-write}
use twstools.Xml.Trees.{TreeLib, ContractTree, OrderTree, is_named, write_contract, write_order}
use twstools.Xml.Trees.Nodes.{TreeLaws, SameOn, IsGood, write-children, is_named_lem}
use twstools.Xml.Trees.Contracts.{
  SameContract, IsGoodContract, fresh_contract, contract-IsElement, read_contract_back,
}
use twstools.Xml.Trees.Orders.{
  SameOrder, IsGoodOrder, fresh_order, order-IsElement, read_order_back,
}
use twstools.Xml.Trees.Requests.{
  RequestTree, PlaceOrderTree, write_details_request, read_details_request, write_hist_request,
  read_hist_child, read_hist_request, write_place_order, read_place_child, read_place_order,
}

-- The same attributes and contract, and order.
pub record SameRequest (r u : RequestTree) : Type 0 where
  pub attrs : SameOn hist_request r.attrs u.attrs
  pub ib_contract : SameContract r.ib_contract u.ib_contract

pub record SamePlaceOrder (r u : PlaceOrderTree) : Type 0 where
  pub attrs : SameOn place_order r.attrs u.attrs
  pub contract : SameContract r.contract u.contract
  pub order : SameOrder r.order u.order

module _ (lib : TreeLib) (laws : TreeLaws lib) (dflt : Table → Struct) (skip : Bool) where
  -- The requests as their constructors make them.
  abbrev pub fresh_request : RequestTree
  fresh_request = record {
    attrs = dflt hist_request;
    ib_contract = fresh_contract lib laws dflt skip;
  }

  abbrev pub fresh_place_order : PlaceOrderTree
  fresh_place_order = record {
    attrs = dflt place_order;
    contract = fresh_contract lib laws dflt skip;
    order = fresh_order lib laws dflt skip;
  }

  -- Values that survive being written and read, in all parts.
  pub record IsGoodRequest (r : RequestTree) : Type 0 where
    pub attrs : IsGood lib laws dflt skip hist_request r.attrs
    pub ib_contract : IsGoodContract lib laws dflt skip r.ib_contract

  pub record IsGoodPlaceOrder (r : PlaceOrderTree) : Type 0 where
    pub attrs : IsGood lib laws dflt skip place_order r.attrs
    pub contract : IsGoodContract lib laws dflt skip r.contract
    pub order : IsGoodOrder lib laws dflt skip r.order

  abbrev contract_node : Text → ContractTree → lib.attrs.Node
  contract_node n c = write_contract lib dflt skip n c

  is_contract :
      (n m : Text) (c : ContractTree) → is_named lib dflt skip m (contract_node n c) ≡ text_eq n m
  is_contract n m c =
      is_named_lem lib laws dflt skip n m _ (contract-IsElement lib laws dflt skip n c)

  is_order :
      (n m : Text) (o : OrderTree)
      → is_named lib dflt skip m (write_order lib dflt skip n o) ≡ text_eq n m
  is_order n m o = is_named_lem lib laws dflt skip n m _ (order-IsElement lib laws dflt skip n o)

  -- The child of a new node.
  one_child :
      (n : Text) (c : lib.attrs.Node) → lib.children (lib.add_child (lib.new_element n) c) ≡ c ∷ []
  one_child n c = laws.add_children _ c ∙ ap (λ cs. cs ++ c ∷ []) (laws.new_children n)

  bare_child :
      (n : Text) (c : lib.attrs.Node) (b : Text)
      → lib.attrs.get_prop b (lib.add_child (lib.new_element n) c) ≡ none
  bare_child n c b = laws.add_props b _ c ∙ laws.new_bare b n

  -- A new ContractDetailsRequest that reads the node of one has the same contract, when its values survive
  -- being written and read.
  pub read_details_request_back :
      (c : ContractTree)
      → IsGoodContract lib laws dflt skip c
      → SameContract c (
          read_details_request lib dflt skip
            (fresh_contract lib laws dflt skip)
            (write_details_request lib dflt skip c)
            (fresh_contract lib laws dflt skip))
  unfolding read_details_request write_details_request bytes text_eq
  read_details_request_back c good =
      rw
        (
          one_child (bytes "query") (contract_node (bytes "reqContract") c),
          is_contract (bytes "reqContract") (bytes "reqContract") c,
        )
        (read_contract_back lib laws dflt skip (bytes "reqContract") c good)

  -- A new HistRequest that reads the node written for one has the same attributes and contract, when the values
  -- survive being written and read.
  pub read_hist_request_back :
      (r : RequestTree)
      → IsGoodRequest r
      → SameRequest r
          (read_hist_request lib dflt skip (write_hist_request lib dflt skip r) fresh_request)
  unfolding read_hist_request write_hist_request read_hist_child bytes text_eq
  read_hist_request_back r good =
      let c = contract_node (bytes "reqContract") r.ib_contract in
      let bare = lib.add_child (lib.new_element (bytes "query")) c in
      let kids : lib.children
            (write lib.attrs skip (dflt hist_request) (writer hist_request) r.attrs bare)
          ≡ c ∷ [] =
        write-children lib laws skip (dflt hist_request) r.attrs (writer hist_request) bare
        ∙ one_child (bytes "query") c in
      rw (kids, is_contract (bytes "reqContract") (bytes "reqContract") r.ib_contract)
        (record {
          attrs =
              read-write lib.attrs laws.attrs hist_request skip (dflt hist_request) r.attrs bare
                (bare_child (bytes "query") c) good.attrs;
          ib_contract =
              read_contract_back lib laws dflt skip (bytes "reqContract") r.ib_contract
                good.ib_contract;
        })

  -- With the laws of libxml2, whatever the default objects are and whether defaults are skipped or not: a
  -- new PlaceOrder that reads the node written for one has the same attributes, the same contract with
  -- its legs and delta neutral contract, and the same order with all its legs and tag values, a missing
  -- list staying missing, when the values survive being written and read.
  pub read_place_order_back :
      (r : PlaceOrderTree)
      → IsGoodPlaceOrder r
      → SamePlaceOrder r
          (read_place_order lib dflt skip (write_place_order lib dflt skip r) fresh_place_order)
  unfolding read_place_order write_place_order read_place_child bytes text_eq
  read_place_order_back r good =
      let c = contract_node (bytes "contract") r.contract in
      let o = write_order lib dflt skip (bytes "order") r.order in
      let one = lib.add_child (lib.new_element (bytes "query")) c in
      let bare = lib.add_child one o in
      let kids : lib.children
            (write lib.attrs skip (dflt place_order) (writer place_order) r.attrs bare)
          ≡ c ∷ o ∷ [] =
        write-children lib laws skip (dflt place_order) r.attrs (writer place_order) bare
        ∙ laws.add_children one o
        ∙ ap (λ cs. cs ++ o ∷ []) (one_child (bytes "query") c) in
      rw
        (
          kids,
          is_contract (bytes "contract") (bytes "contract") r.contract,
          is_order (bytes "order") (bytes "contract") r.order,
          is_order (bytes "order") (bytes "order") r.order,
        )
        (record {
          attrs =
              read-write lib.attrs laws.attrs place_order skip (dflt place_order) r.attrs bare
                (λ b. laws.add_props b one o ∙ bare_child (bytes "query") c b) good.attrs;
          contract =
              read_contract_back lib laws dflt skip (bytes "contract") r.contract good.contract;
          order = read_order_back lib laws dflt skip (bytes "order") r.order good.order;
        })
