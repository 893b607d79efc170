-- ===== src/Xml/Trees.antt =====
-- The child elements that src/tws_xml.cpp writes and reads. A node is made, filled and then hung into its
-- parent; the code hangs it in first, which gives the same tree, since the next child comes behind it.
-- The attributes of a node are written before its children.
pub mod Nodes
pub mod Lists
pub mod Contracts
pub mod Orders
pub mod Details
pub mod Requests
mod Tests
use twstools.Base.{
  ◌≡◌, Bool, true, false, ◌&&◌, Option, none, some, List, [], ◌∷◌, ◌++◌, if◌then◌else◌,
}
use twstools.Base.Text.{Text, bytes, text_eq}
use twstools.Xml.{Struct, XmlLib, field, string_attr, write, get_attr, read}
use twstools.Xml.RoundTrip.{
  Table, combo_leg, delta_neutral_contract, contract, contract_details, execution_filter, tag_value,
  order_combo_leg, order, hist_request, place_order, writer, reader,
}

-- xmlNewChild, and the members type, name and children of a node.
pub record TreeLib : Type 1 where
  pub attrs : XmlLib
  pub new_element : Text → attrs.Node
  pub add_child : attrs.Node → attrs.Node → attrs.Node
  pub is_element : attrs.Node → Bool
  pub name : attrs.Node → Text
  pub children : attrs.Node → List attrs.Node

-- The structs, of which the members that are attributes stand in `attrs`.
pub record ContractTree : Type 0 where
  pub attrs : Struct
  pub combo_legs : Option (List Struct)
  pub delta_neutral : Option Struct

pub record DetailsTree : Type 0 where
  pub attrs : Struct
  pub summary : ContractTree
  pub sec_id_list : Option (List Struct)

pub record OrderTree : Type 0 where
  pub attrs : Struct
  pub algo_params : Option (List Struct)
  pub smart_combo_routing_params : Option (List Struct)
  pub combo_legs : Option (List Struct)
  pub misc_options : Option (List Struct)

-- The loop over the children of a node.
abbrev pub over {ℓ ℓ'} : {N : Type ℓ} {A : Type ℓ'} → (N → A → A) → List N → A → A
over f [] a = a
over f (p ∷ ps) a = over f ps (f p a)

-- `dflt` holds the static default objects, and `skip` is skip_defaults.
module _ (lib : TreeLib) (dflt : Table → Struct) (skip : Bool) where
  open lib use {new_element, add_child, is_element, name, children}

  -- A struct without children.
  unfoldable pub write_leaf : Table → Text → Struct → lib.attrs.Node
  write_leaf t n s = write lib.attrs skip (dflt t) (writer t) s (new_element n)

  unfoldable pub read_leaf : Table → lib.attrs.Node → Struct
  read_leaf t node = read lib.attrs (reader t) node (dflt t)

  unfoldable pub add_items : Table → Text → List Struct → lib.attrs.Node → lib.attrs.Node
  unfolding write_leaf
  add_items t item [] np = np
  add_items t item (x ∷ xs) np = add_items t item xs (add_child np (write_leaf t item x))

  -- ADD_CHILD_TAGVALUELIST, and the loops over legs: of a pointer that is not NULL.
  unfoldable pub add_list :
      Table → Text → Text → Option (List Struct) → lib.attrs.Node → lib.attrs.Node
  unfolding add_items
  add_list t n item none ne = ne
  add_list t n item (some xs) ne = add_child ne (add_items t item xs (new_element n))

  unfoldable pub is_named : Text → lib.attrs.Node → Bool
  is_named n p = is_element p && text_eq (name p) n

  -- GET_CHILD_TAGVALUELIST, and the loops over legs.
  unfoldable pub read_items : Table → Text → List lib.attrs.Node → List Struct
  unfolding read_leaf is_named
  read_items t item [] = []
  read_items t item (q ∷ qs) =
      let rest = read_items t item qs in if is_named item q then read_leaf t q ∷ rest else rest

  unfoldable pub read_list : Table → Text → lib.attrs.Node → Option (List Struct)
  unfolding read_items
  read_list t item p = some (read_items t item (children p))

  unfoldable pub add_delta : Option Struct → lib.attrs.Node → lib.attrs.Node
  unfolding write_leaf bytes
  add_delta none ne = ne
  add_delta (some s) ne =
      add_child ne (write_leaf delta_neutral_contract (bytes "deltaNeutralContract") s)

  -- conv_ib2xml of a Contract
  unfoldable pub write_contract : Text → ContractTree → lib.attrs.Node
  unfolding write_leaf add_list add_delta bytes
  write_contract n c = add_delta c.delta_neutral (
      add_list combo_leg (bytes "comboLegs") (bytes "comboLeg") c.combo_legs
        (write_leaf contract n c.attrs))

  -- The body of the loop over the children.
  unfoldable pub read_contract_child : lib.attrs.Node → ContractTree → ContractTree
  unfolding is_named read_list read_leaf bytes
  read_contract_child p c =
      if is_named (bytes "comboLegs") p
      then record c { combo_legs = read_list combo_leg (bytes "comboLeg") p }
      else (if is_named (bytes "deltaNeutralContract") p
          then record c { delta_neutral = some (read_leaf delta_neutral_contract p) }
          else c)

  -- conv_xml2ib of a Contract
  unfoldable pub read_contract : lib.attrs.Node → ContractTree → ContractTree
  unfolding read_contract_child
  read_contract node c =
      over read_contract_child (children node)
        (record c { attrs = read lib.attrs (reader contract) node c.attrs })

  -- conv_ib2xml and conv_xml2ib of ContractDetails
  unfoldable pub write_details : Text → DetailsTree → lib.attrs.Node
  unfolding write_leaf add_list write_contract bytes
  write_details n d = add_list tag_value (bytes "secIdList") (bytes "tagValue") d.sec_id_list (
      add_child (write_leaf contract_details n d.attrs)
        (write_contract (bytes "summary") d.summary))

  unfoldable pub read_details_child : lib.attrs.Node → DetailsTree → DetailsTree
  unfolding is_named read_list read_contract bytes
  read_details_child p d =
      if is_named (bytes "summary") p
      then record d { summary = read_contract p d.summary }
      else (if is_named (bytes "secIdList") p
          then record d { sec_id_list = read_list tag_value (bytes "tagValue") p }
          else d)

  -- For compatibility the summary takes an attribute tradingClass.
  unfoldable pub read_details : lib.attrs.Node → DetailsTree → DetailsTree
  unfolding read_details_child bytes
  read_details node d =
      let summary = record d.summary {
        attrs = get_attr lib.attrs node (field "tradingClass" string_attr) d.summary.attrs;
      } in
      over read_details_child (children node) (record d {
        attrs = read lib.attrs (reader contract_details) node d.attrs;
        summary = summary;
      })

  -- conv_ib2xml and conv_xml2ib of an Order
  unfoldable pub write_order : Text → OrderTree → lib.attrs.Node
  unfolding write_leaf add_list bytes
  write_order n o =
      add_list tag_value (bytes "orderMiscOptions") (bytes "tagValue") o.misc_options (
        add_list order_combo_leg (bytes "orderComboLegs") (bytes "orderComboLeg") o.combo_legs (
          add_list tag_value (bytes "smartComboRoutingParams") (bytes "tagValue")
            o.smart_combo_routing_params
            (add_list tag_value (bytes "algoParams") (bytes "tagValue") o.algo_params
              (write_leaf order n o.attrs))))

  unfoldable pub read_order_child : lib.attrs.Node → OrderTree → OrderTree
  unfolding is_named read_list bytes
  read_order_child p o =
      if is_named (bytes "algoParams") p
      then record o { algo_params = read_list tag_value (bytes "tagValue") p }
      else (if is_named (bytes "smartComboRoutingParams") p
          then record o { smart_combo_routing_params = read_list tag_value (bytes "tagValue") p }
          else (if is_named (bytes "orderMiscOptions") p
              then record o { misc_options = read_list tag_value (bytes "tagValue") p }
              else (if is_named (bytes "orderComboLegs") p
                  then record o { combo_legs = read_list order_combo_leg (bytes "orderComboLeg") p }
                  else o)))

  unfoldable pub read_order : lib.attrs.Node → OrderTree → OrderTree
  unfolding read_order_child
  read_order node o =
      over read_order_child (children node)
        (record o { attrs = read lib.attrs (reader order) node o.attrs })
