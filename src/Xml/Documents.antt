-- ===== src/Xml/Documents.antt =====
-- class TwsXml of src/tws_xml.cpp: the elements of all documents of a file, one after the other.
pub mod Roots
pub mod Nodes
use twstools.Base.{
  ℕ, zero, suc, ◌≡◌, Bool, true, false, Option, none, some, List, [], ◌∷◌, ◌++◌, if◌then◌else◌,
  ◌>>=◌, ◌>>◌, assert, keep_if,
}
use twstools.Base.Text.{Text, bytes, text_eq}
use twstools.Xml.Stream.{Input, new_input, next_xml_doc}

-- What the code uses of libxml2: xmlReadMemory, xmlDocGetRootElement, and the members type, name and
-- children of a node, the last with those that `next` leads to.
pub record DocLib : Type 1 where
  pub Doc : Type 0
  pub Node : Type 0
  pub read_memory : Text → Option Doc
  pub root_element : Doc → Option Node
  pub is_element : Node → Bool
  pub name : Node → Text
  pub children : Node → List Node

-- An empty text is no document, and the root of a document is an element.
pub record DocLaws (lib : DocLib) : Type 0 where
  pub read_empty : lib.read_memory [] ≡ none
  pub root_is_element :
      (d : lib.Doc) (n : lib.Node) → lib.root_element d ≡ some n → lib.is_element n ≡ true

module _ (lib : DocLib) where
  -- The members: whether file is open, the buffer with what is left of the file, curDoc, and curNode
  -- with the nodes behind it.
  pub record TwsXml : Type 0 where
    pub has_file : Bool
    pub input : Input
    pub cur_doc : Option lib.Doc
    pub cur_node : List lib.Node

  unfoldable pub new_xml : TwsXml
  new_xml = record { has_file = false; input = new_input []; cur_doc = none; cur_node = [] }

  -- openFile, of a file that can be opened: the reads are what it will deliver.
  unfoldable pub open_file : Option (List Text) → TwsXml → Bool × TwsXml
  open_file none t = (false, t)
  open_file (some reads) t =
      (true, record t { has_file = true; input = record (t.input) { reads = reads } })

  unfoldable pub next_doc : TwsXml → Option (Option lib.Doc × TwsXml)
  next_doc t =
      if t.has_file
      then (next_xml_doc lib.read_memory t.input >>= λ r. some (r.0, record t { input = r.1 }))
      else some (none, t)

  -- nextXmlRoot; the fuel counts the documents.
  unfoldable pub next_xml_root : ℕ → TwsXml → Option (Option lib.Node × TwsXml)
  unfolding next_doc
  next_xml_root zero t = none
  next_xml_root (suc fuel) t = next_doc t >>= λ r. elim (r.0) [
    | none ↦ some (none, record (r.1) { cur_doc = none })
    | some d ↦ elim (lib.root_element d) [
      | none ↦ next_xml_root fuel r.1
      | some root ↦
          assert (lib.is_element root) >> elim (text_eq (lib.name root) (bytes "TWSXML")) [
            | true ↦ some (some root, record (r.1) { cur_doc = some d })
            | false ↦ next_xml_root fuel r.1
          ]
    ]
  ]

  -- for( ; p != NULL; p = p->next ), up to an element
  unfoldable pub skip_to_element : List lib.Node → List lib.Node
  skip_to_element [] = []
  skip_to_element (n ∷ ns) =
      let rest = skip_to_element ns in if lib.is_element n then n ∷ ns else rest

  abbrev pub behind : List lib.Node → List lib.Node
  behind [] = []
  behind (n ∷ ns) = ns

  -- The second loop of nextXmlNode, over the roots.
  unfoldable pub next_in_roots : ℕ → ℕ → TwsXml → Option (Option lib.Node × TwsXml)
  next_in_roots docs zero t = none
  next_in_roots docs (suc fuel) t = next_xml_root docs t >>= λ r. elim (r.0) [
    | none ↦ some (none, record (r.1) { cur_node = [] })
    | some root ↦ elim (skip_to_element (lib.children root)) [
      | [] ↦ next_in_roots docs fuel r.1
      | n ∷ ns ↦ some (some n, record (r.1) { cur_node = n ∷ ns })
    ]
  ]

  unfoldable pub next_xml_node : ℕ → TwsXml → Option (Option lib.Node × TwsXml)
  unfolding next_in_roots skip_to_element
  next_xml_node fuel t = elim (skip_to_element (behind t.cur_node)) [
    | n ∷ ns ↦ some (some n, record t { cur_node = n ∷ ns })
    | [] ↦ next_in_roots fuel fuel (record t { cur_node = [] })
  ]

  -- while( (xn = file.nextXmlNode()) != NULL ): the nodes that a caller sees.
  unfoldable pub all_nodes : ℕ → ℕ → TwsXml → Option (List lib.Node × TwsXml)
  all_nodes fuel zero t = none
  all_nodes fuel (suc rounds) t = next_xml_node fuel t >>= λ r. elim (r.0) [
    | none ↦ some ([], r.1)
    | some n ↦ all_nodes fuel rounds r.1 >>= λ s. some (n ∷ s.0, s.1)
  ]
