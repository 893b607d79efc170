-- ===== src/Xml/Trees/Nodes.antt =====
-- The nodes that src/tws_xml.cpp writes: their names, children and attributes.
use twstools.Base.{◌≡◌, refl, ◌∙◌, inl, inr, Bool, true, none, List, [], ◌∷◌, ◌++◌, All, Bool-cases}
use twstools.Base.Text.{Text, text_eq}
use twstools.Xml.{Field, Struct, XmlLib, XmlLaws, add_attr, write, get_attr, read, is_skipped}
use twstools.Xml.Writing.{IsFor}
use twstools.Xml.RoundTrip.{Table, writer, reader, read-write}
use twstools.Xml.Trees.{TreeLib, over, write_leaf, read_leaf, is_named}

-- What the code relies on, as libxml2 documents it.
pub record TreeLaws (lib : TreeLib) : Type 0 where
  pub attrs : XmlLaws lib.attrs
  pub new_bare : (b n : Text) → lib.attrs.get_prop b (lib.new_element n) ≡ none
  pub new_children : (n : Text) → lib.children (lib.new_element n) ≡ []
  pub new_named : (n : Text) → lib.name (lib.new_element n) ≡ n
  pub new_is : (n : Text) → lib.is_element (lib.new_element n) ≡ true
  pub add_props :
      (b : Text) (p c : lib.attrs.Node)
      → lib.attrs.get_prop b (lib.add_child p c) ≡ lib.attrs.get_prop b p
  pub add_children :
      (p c : lib.attrs.Node) → lib.children (lib.add_child p c) ≡ lib.children p ++ c ∷ []
  pub add_named : (p c : lib.attrs.Node) → lib.name (lib.add_child p c) ≡ lib.name p
  pub add_is : (p c : lib.attrs.Node) → lib.is_element (lib.add_child p c) ≡ lib.is_element p
  pub prop_children :
      (n v : Text) (x : lib.attrs.Node) → lib.children (lib.attrs.new_prop n v x) ≡ lib.children x
  pub prop_named :
      (n v : Text) (x : lib.attrs.Node) → lib.name (lib.attrs.new_prop n v x) ≡ lib.name x
  pub prop_is :
      (n v : Text) (x : lib.attrs.Node)
      → lib.is_element (lib.attrs.new_prop n v x) ≡ lib.is_element x

-- Reading sees the attributes only.
pub read-props :
    (lib : XmlLib) (fs : List Field) (x y : lib.Node) (s : Struct)
    → ((b : Text) → lib.get_prop b x ≡ lib.get_prop b y)
    → read lib fs x s ≡ read lib fs y s
unfolding read get_attr
read-props lib [] x y s same = refl
read-props lib (f ∷ fs) x y s same =
    let first : get_attr lib x f s ≡ get_attr lib y f s = rw (get_attr, same f.attr) refl in
    rw first (read-props lib fs x y (get_attr lib y f s) same)

pub over-concat {ℓ ℓ'} :
    {N : Type ℓ} {A : Type ℓ'} (f : N → A → A) (xs ys : List N) (a : A)
    → over f (xs ++ ys) a ≡ over f ys (over f xs a)
over-concat f [] ys a = refl
over-concat f (x ∷ xs) ys a = over-concat f xs ys (f x a)

-- The members that are attributes are the same.
abbrev pub SameOn : Table → Struct → Struct → Type 0
SameOn t s u = All (λ w. u w.member ≡ s w.member) (writer t)

module _ (lib : TreeLib) (laws : TreeLaws lib) where
  -- An element of this name.
  pub record IsElement (n : Text) (x : lib.attrs.Node) : Type 0 where
    pub named : lib.name x ≡ n
    pub is_element : lib.is_element x ≡ true

  pub write-IsElement :
      (skip : Bool) (dflt s : Struct) (fs : List Field) (n : Text) (x : lib.attrs.Node)
      → IsElement n x
      → IsElement n (write lib.attrs skip dflt fs s x)
  unfolding write add_attr
  write-IsElement skip dflt s [] n x e = e
  write-IsElement skip dflt s (f ∷ fs) n x e =
      write-IsElement skip dflt s fs n (add_attr lib.attrs skip dflt s f x)
        (elim (Bool-cases (is_skipped lib.attrs skip dflt s f)) [
          | inl h ↦ rw (add_attr, h) e
          | inr h ↦
              rw (add_attr, h)
                (record {
                  named = laws.prop_named _ _ x ∙ e.named;
                  is_element = laws.prop_is _ _ x ∙ e.is_element;
                })
        ])

  pub write-children :
      (skip : Bool) (dflt s : Struct) (fs : List Field) (x : lib.attrs.Node)
      → lib.children (write lib.attrs skip dflt fs s x) ≡ lib.children x
  unfolding write add_attr
  write-children skip dflt s [] x = refl
  write-children skip dflt s (f ∷ fs) x =
      write-children skip dflt s fs (add_attr lib.attrs skip dflt s f x)
      ∙ (elim (Bool-cases (is_skipped lib.attrs skip dflt s f)) [
        | inl h ↦ rw (add_attr, h) refl
        | inr h ↦ rw (add_attr, h) (laws.prop_children _ _ x)
      ])

module _ (lib : TreeLib) (laws : TreeLaws lib) (dflt : Table → Struct) (skip : Bool) where
  pub is_named_lem :
      (n m : Text) (x : lib.attrs.Node)
      → IsElement lib laws n x
      → is_named lib dflt skip m x ≡ text_eq n m
  unfolding is_named
  is_named_lem n m x e = rw (e.named, e.is_element) refl

  pub new-IsElement : (n : Text) → IsElement lib laws n (lib.new_element n)
  new-IsElement n = record { named = laws.new_named n; is_element = laws.new_is n }

  pub add-IsElement :
      (n : Text) (p c : lib.attrs.Node)
      → IsElement lib laws n p
      → IsElement lib laws n (lib.add_child p c)
  add-IsElement n p c e = record {
    named = laws.add_named p c ∙ e.named;
    is_element = laws.add_is p c ∙ e.is_element;
  }

  pub leaf-IsElement :
      (t : Table) (n : Text) (s : Struct) → IsElement lib laws n (write_leaf lib dflt skip t n s)
  unfolding write_leaf
  leaf-IsElement t n s =
      write-IsElement lib laws skip (dflt t) s (writer t) n (lib.new_element n) (new-IsElement n)

  pub leaf-children :
      (t : Table) (n : Text) (s : Struct) → lib.children (write_leaf lib dflt skip t n s) ≡ []
  unfolding write_leaf
  leaf-children t n s =
      write-children lib laws skip (dflt t) s (writer t) (lib.new_element n) ∙ laws.new_children n

  -- Values that survive being written and read.
  abbrev pub IsGood : Table → Struct → Type 0
  IsGood t s = All (λ w. IsFor lib.attrs w.kind (s w.member) (dflt t w.member)) (writer t)

  -- A node with the attributes of a struct gives it back.
  pub read_like_leaf :
      (t : Table) (n : Text) (s : Struct) (x : lib.attrs.Node)
      → ((b : Text)
          → lib.attrs.get_prop b x ≡ lib.attrs.get_prop b (write_leaf lib dflt skip t n s))
      → IsGood t s
      → SameOn t s (read lib.attrs (reader t) x (dflt t))
  unfolding write_leaf
  read_like_leaf t n s x same good =
      rw (read-props lib.attrs (reader t) x (write_leaf lib dflt skip t n s) (dflt t) same) (
        read-write lib.attrs laws.attrs t skip (dflt t) s (lib.new_element n)
          (λ b. laws.new_bare b n) good)

  pub read_leaf_back :
      (t : Table) (n : Text) (s : Struct)
      → IsGood t s
      → SameOn t s (read_leaf lib dflt skip t (write_leaf lib dflt skip t n s))
  unfolding read_leaf
  read_leaf_back t n s good = read_like_leaf t n s (write_leaf lib dflt skip t n s) (λ b. refl) good
