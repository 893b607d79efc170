-- ===== src/Xml/Trees/Requests.antt =====
-- The requests of src/tws_xml.cpp, written (to_xml) and read (from_xml).
pub mod Back
use twstools.Base.{Bool, true, Option, List, [], ◌∷◌, if◌then◌else◌}
use twstools.Base.Text.{Text, bytes}
use twstools.Xml.{Struct, write, read}
use twstools.Xml.RoundTrip.{Table, execution_filter, hist_request, place_order, writer, reader}
use twstools.Xml.Rows.{mkt_data_request_reader}
use twstools.Xml.Trees.{
  TreeLib, ContractTree, OrderTree, over, write_leaf, is_named, write_contract, read_contract,
  write_order, read_order,
}

-- HistRequest and MktDataRequest, and PlaceOrder.
pub record RequestTree : Type 0 where
  pub attrs : Struct
  pub ib_contract : ContractTree

pub record PlaceOrderTree : Type 0 where
  pub attrs : Struct
  pub contract : ContractTree
  pub order : OrderTree

module _ (lib : TreeLib) (dflt : Table → Struct) (skip : Bool) where
  -- to_xml of a ContractDetailsRequest, an ExecutionsRequest and an OrdersRequest
  unfoldable pub write_details_request : ContractTree → lib.attrs.Node
  unfolding write_contract bytes
  write_details_request c =
      lib.add_child (lib.new_element (bytes "query"))
        (write_contract lib dflt skip (bytes "reqContract") c)

  unfoldable pub write_executions_request : Struct → lib.attrs.Node
  unfolding write_leaf bytes
  write_executions_request e =
      lib.add_child (lib.new_element (bytes "query"))
        (write_leaf lib dflt skip execution_filter (bytes "executionFilter") e)

  unfoldable pub write_orders_request : lib.attrs.Node
  unfolding bytes
  write_orders_request = lib.new_element (bytes "query")

  -- to_xml of a HistRequest and of a PlaceOrder: here the attributes come last.
  unfoldable pub write_hist_request : RequestTree → lib.attrs.Node
  unfolding write_contract bytes
  write_hist_request r = write lib.attrs skip (dflt hist_request) (writer hist_request) r.attrs (
      lib.add_child (lib.new_element (bytes "query"))
        (write_contract lib dflt skip (bytes "reqContract") r.ib_contract))

  unfoldable pub write_place_order : PlaceOrderTree → lib.attrs.Node
  unfolding write_contract write_order bytes
  write_place_order r = write lib.attrs skip (dflt place_order) (writer place_order) r.attrs (
      lib.add_child
        (lib.add_child (lib.new_element (bytes "query"))
          (write_contract lib dflt skip (bytes "contract") r.contract))
        (write_order lib dflt skip (bytes "order") r.order))

  -- from_xml of these requests. Each contract of a ContractDetailsRequest is read into a new one, `c0`.
  unfoldable pub read_details_request : ContractTree → lib.attrs.Node → ContractTree → ContractTree
  unfolding is_named read_contract bytes
  read_details_request c0 node c =
      over
        (λ p c'.
          if is_named lib dflt skip (bytes "reqContract") p
          then read_contract lib dflt skip p c0
          else c')
        (lib.children node) c

  unfoldable pub read_executions_request : lib.attrs.Node → Struct → Struct
  unfolding is_named bytes
  read_executions_request node e =
      over
        (λ p e'.
          if is_named lib dflt skip (bytes "executionFilter") p
          then read lib.attrs (reader execution_filter) p e'
          else e')
        (lib.children node) e

  unfoldable pub read_hist_child : lib.attrs.Node → RequestTree → RequestTree
  unfolding is_named read_contract bytes
  read_hist_child p r =
      if is_named lib dflt skip (bytes "reqContract") p
      then record r { ib_contract = read_contract lib dflt skip p r.ib_contract }
      else r

  unfoldable pub read_hist_request : lib.attrs.Node → RequestTree → RequestTree
  unfolding read_hist_child
  read_hist_request node r =
      let r' = over read_hist_child (lib.children node) r in
      record r' { attrs = read lib.attrs (reader hist_request) node r'.attrs }

  unfoldable pub read_place_child : lib.attrs.Node → PlaceOrderTree → PlaceOrderTree
  unfolding is_named read_contract read_order bytes
  read_place_child p r =
      if is_named lib dflt skip (bytes "contract") p
      then record r { contract = read_contract lib dflt skip p r.contract }
      else (if is_named lib dflt skip (bytes "order") p
          then record r { order = read_order lib dflt skip p r.order }
          else r)

  unfoldable pub read_place_order : lib.attrs.Node → PlaceOrderTree → PlaceOrderTree
  unfolding read_place_child
  read_place_order node r =
      let r' = over read_place_child (lib.children node) r in
      record r' { attrs = read lib.attrs (reader place_order) node r'.attrs }

  -- from_xml of a MktDataRequest, which is never written
  unfoldable pub read_mkt_request : lib.attrs.Node → RequestTree → RequestTree
  unfolding read_hist_child
  read_mkt_request node r =
      let r' = over read_hist_child (lib.children node) r in
      record r' { attrs = read lib.attrs mkt_data_request_reader node r'.attrs }

  -- from_xml of an OptParamsRequest
  unfoldable pub read_opt_params_request : lib.attrs.Node → ContractTree → ContractTree
  unfolding is_named read_contract bytes
  read_opt_params_request node c =
      over
        (λ p c'.
          if is_named lib dflt skip (bytes "reqContract") p
          then read_contract lib dflt skip p c'
          else c')
        (lib.children node) c
