-- ===== src/Xml/Trees/Lists.antt =====
-- The lists of legs and tag values of src/tws_xml.cpp, written and read.
use twstools.Base.{
  ◌≡◌, refl, sym, ap, ◌∙◌, Bool, true, Option, none, some, List, [], ◌∷◌, ◌++◌, map, All,
}
use mathlib.Core.List.{append_assoc, append-nil}
use twstools.Base.Text.{Text, text_eq_refl}
use twstools.Xml.{Struct}
use twstools.Xml.RoundTrip.{Table}
use twstools.Xml.Trees.{TreeLib, write_leaf, is_named, add_items, add_list, read_items, read_list}
use twstools.Xml.Trees.Nodes.{
  TreeLaws, SameOn, IsElement, IsGood, is_named_lem, new-IsElement, add-IsElement, leaf-IsElement,
  read_leaf_back,
}

-- As many structs, each with the same attributes.
abbrev pub SameList : Table → List Struct → List Struct → Type 0
SameList t [] [] = Unit
SameList t [] (u ∷ us) = ⊥
SameList t (s ∷ ss) [] = ⊥
SameList t (s ∷ ss) (u ∷ us) = SameOn t s u × SameList t ss us

-- Both NULL, or such lists.
abbrev pub SameLists : Table → Option (List Struct) → Option (List Struct) → Type 0
SameLists t none none = Unit
SameLists t none (some us) = ⊥
SameLists t (some ss) none = ⊥
SameLists t (some ss) (some us) = SameList t ss us

module _ (lib : TreeLib) (laws : TreeLaws lib) (dflt : Table → Struct) (skip : Bool) where
  abbrev pub AreGood : Table → Option (List Struct) → Type 0
  AreGood t none = Unit
  AreGood t (some ss) = All (IsGood lib laws dflt skip t) ss

  add_items-children :
      (t : Table) (item : Text) (ss : List Struct) (np : lib.attrs.Node)
      → lib.children (add_items lib dflt skip t item ss np)
        ≡ lib.children np ++ map (write_leaf lib dflt skip t item) ss
  unfolding add_items
  add_items-children t item [] np = sym (append-nil (lib.children np))
  add_items-children t item (s ∷ ss) np =
      add_items-children t item ss (lib.add_child np (write_leaf lib dflt skip t item s))
      ∙ ap (λ cs. cs ++ map (write_leaf lib dflt skip t item) ss)
          (laws.add_children np (write_leaf lib dflt skip t item s))
      ∙ append_assoc (lib.children np) (write_leaf lib dflt skip t item s ∷ [])
          (map (write_leaf lib dflt skip t item) ss)

  add_items-IsElement :
      (n : Text) (t : Table) (item : Text) (ss : List Struct) (np : lib.attrs.Node)
      → IsElement lib laws n np
      → IsElement lib laws n (add_items lib dflt skip t item ss np)
  unfolding add_items
  add_items-IsElement n t item [] np e = e
  add_items-IsElement n t item (s ∷ ss) np e =
      add_items-IsElement n t item ss (lib.add_child np (write_leaf lib dflt skip t item s))
        (add-IsElement lib laws dflt skip n np _ e)

  read_items_back :
      (t : Table) (item : Text) (ss : List Struct)
      → All (IsGood lib laws dflt skip t) ss
      → SameList t ss (read_items lib dflt skip t item (map (write_leaf lib dflt skip t item) ss))
  unfolding read_items
  read_items_back t item [] good = tt
  read_items_back t item (s ∷ ss) good =
      let named : is_named lib dflt skip item (write_leaf lib dflt skip t item s) ≡ true =
        is_named_lem lib laws dflt skip item item _ (leaf-IsElement lib laws dflt skip t item s)
        ∙ text_eq_refl item in
      rw named (read_leaf_back lib laws dflt skip t item s good.0, read_items_back t item ss good.1)

  -- The node of a list.
  abbrev pub list_node : Table → Text → Text → List Struct → lib.attrs.Node
  list_node t n item ss = add_items lib dflt skip t item ss (lib.new_element n)

  abbrev pub list_nodes : Table → Text → Text → Option (List Struct) → List lib.attrs.Node
  list_nodes t n item none = []
  list_nodes t n item (some ss) = list_node t n item ss ∷ []

  -- What reading gives for a list.
  abbrev pub lists_back : Table → Text → Text → Option (List Struct) → Option (List Struct)
  lists_back t n item none = none
  lists_back t n item (some ss) = read_list lib dflt skip t item (list_node t n item ss)

  pub list-IsElement :
      (t : Table) (n item : Text) (ss : List Struct) → IsElement lib laws n (list_node t n item ss)
  list-IsElement t n item ss =
      add_items-IsElement n t item ss (lib.new_element n) (new-IsElement lib laws dflt skip n)

  -- Its node gives a list back.
  pub read_list_back :
      (t : Table) (n item : Text) (ss : List Struct)
      → All (IsGood lib laws dflt skip t) ss
      → SameLists t (some ss) (read_list lib dflt skip t item (list_node t n item ss))
  unfolding read_list
  read_list_back t n item ss good =
      rw (add_items-children t item ss (lib.new_element n), laws.new_children n)
        (read_items_back t item ss good)

  pub lists_back-same :
      (t : Table) (n item : Text) (o : Option (List Struct))
      → AreGood t o
      → SameLists t o (lists_back t n item o)
  lists_back-same t n item none good = tt
  lists_back-same t n item (some ss) good = read_list_back t n item ss good

  pub add_list-children :
      (t : Table) (n item : Text) (o : Option (List Struct)) (ne : lib.attrs.Node)
      → lib.children (add_list lib dflt skip t n item o ne)
        ≡ lib.children ne ++ list_nodes t n item o
  unfolding add_list
  add_list-children t n item none ne = sym (append-nil (lib.children ne))
  add_list-children t n item (some ss) ne = laws.add_children ne _

  pub add_list-props :
      (t : Table) (n item : Text) (o : Option (List Struct)) (ne : lib.attrs.Node) (b : Text)
      → lib.attrs.get_prop b (add_list lib dflt skip t n item o ne) ≡ lib.attrs.get_prop b ne
  unfolding add_list
  add_list-props t n item none ne b = refl
  add_list-props t n item (some ss) ne b = laws.add_props b ne _

  pub add_list-IsElement :
      (m : Text) (t : Table) (n item : Text) (o : Option (List Struct)) (ne : lib.attrs.Node)
      → IsElement lib laws m ne
      → IsElement lib laws m (add_list lib dflt skip t n item o ne)
  unfolding add_list
  add_list-IsElement m t n item none ne e = e
  add_list-IsElement m t n item (some ss) ne e = add-IsElement lib laws dflt skip m ne _ e
