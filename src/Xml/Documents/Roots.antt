-- ===== src/Xml/Documents/Roots.antt =====
-- TwsXml::nextXmlRoot of src/tws_xml.cpp, against the list of the elements that a file holds.
use twstools.Base.{
  ℕ, zero, suc, ◌≤◌, ◌<◌, ◌≡◌, refl, sym, ap, ◌∙◌, inl, inr, ◌==◌, true, Option, none, some, List,
  [], ◌∷◌, ◌++◌, if◌then◌else◌, length, keep_if, Returns, Returns-bind, Returns-map, Bool-cases,
  Option-cases, arith,
}
use twstools.Base.Text.{Text, bytes, text_eq}
use twstools.Xml.Stream.{form_feed, next_xml_doc}
use twstools.Xml.Stream.Split.{before_ff, after_ff, content, IsSound, next_xml_doc_lem}
use twstools.Xml.Documents.{DocLib, DocLaws, TwsXml, next_doc, next_xml_root, behind}

-- A text cut at its form feeds.
unfoldable pub pieces : Text → List Text
pieces [] = [] ∷ []
pieces (c ∷ s) =
    let rest = pieces s in
    if c == form_feed then [] ∷ rest else elim rest [ [] ↦ [] | p ∷ ps ↦ (c ∷ p) ∷ ps ]

after_ff-shorter : (c : ℕ) (s : Text) → length (after_ff (c ∷ s)) ≤ length s
unfolding after_ff
after_ff-shorter c [] = ground arith
after_ff-shorter c (d ∷ s) = ground (arith, after_ff-shorter d s)

after_ff-le : (s : Text) → length (after_ff s) ≤ length s
unfolding after_ff
after_ff-le [] = omega arith
after_ff-le (c ∷ s) = omega (arith, after_ff-shorter c s)

module _ (lib : DocLib) where
  -- The elements of a document: those below its root, if that is a TWSXML.
  unfoldable pub doc_nodes : lib.Doc → List lib.Node
  doc_nodes d = elim (lib.root_element d) [
    | none ↦ []
    | some root ↦
        if text_eq (lib.name root) (bytes "TWSXML")
        then keep_if lib.is_element (lib.children root)
        else []
  ]

  -- The elements of the documents, up to the first text that is none.
  unfoldable pub nodes_of : List Text → List lib.Node
  nodes_of [] = []
  nodes_of (p ∷ ps) = elim (lib.read_memory p) [ none ↦ [] | some d ↦ doc_nodes d ++ nodes_of ps ]

  -- The elements that nextXmlNode has not given yet.
  abbrev pub pending : TwsXml lib → List lib.Node
  pending t = keep_if lib.is_element (behind lib t.cur_node) ++ nodes_of (pieces (content t.input))

  -- The file is open, and its buffer is sound.
  abbrev pub IsOpen : TwsXml lib → Type 0
  IsOpen t = (t.has_file ≡ true) × IsSound t.input

  -- Taking the first of a list.
  abbrev pub Pops : List lib.Node → Option lib.Node → List lib.Node → Type 0
  Pops [] r rest = r ≡ none
  Pops (n ∷ ns) r rest = (r ≡ some n) × (rest ≡ ns)

module _ (lib : DocLib) (laws : DocLaws lib) where
  nothing : nodes_of lib (pieces []) ≡ []
  unfolding nodes_of pieces
  nothing = rw laws.read_empty refl

  -- The first piece, and those behind it.
  pieces-split :
      (s : Text)
      → (ps : List Text) × (pieces s ≡ before_ff s ∷ ps)
        × (nodes_of lib ps ≡ nodes_of lib (pieces (after_ff s)))
  unfolding pieces before_ff after_ff nodes_of
  pieces-split [] = ([], refl, sym nothing)
  pieces-split (c ∷ s) = elim (Bool-cases (c == form_feed)) [
    | inl hit ↦ rw hit (pieces s, refl, refl)
    | inr miss ↦ let (ps, cut, rest) = pieces-split s in rw (miss, cut) (ps, refl, rest)
  ]

  nodes_none : (s : Text) → lib.read_memory (before_ff s) ≡ none → nodes_of lib (pieces s) ≡ []
  unfolding nodes_of
  nodes_none s e = let (ps, cut, rest) = pieces-split s in rw (cut, nodes_of, e) refl

  nodes_some :
      (s : Text) (d : lib.Doc)
      → lib.read_memory (before_ff s) ≡ some d
      → nodes_of lib (pieces s) ≡ doc_nodes lib d ++ nodes_of lib (pieces (after_ff s))
  unfolding nodes_of
  nodes_some s d e =
      let (ps, cut, rest) = pieces-split s in
      rw (cut, nodes_of, e) (ap (λ ns. doc_nodes lib d ++ ns) rest)

  -- What reading a document leaves, of a file of which the text is still to be read.
  record DocFrom (whole : Text) (r : Option lib.Doc × TwsXml lib) : Type 0 where
    doc : r.0 ≡ lib.read_memory (before_ff whole)
    left : content r.1.input ≡ after_ff whole
    is_open : IsOpen lib r.1

  next_doc_lem :
      (t : TwsXml lib) → IsOpen lib t → Returns (DocFrom (content t.input)) (next_doc lib t)
  unfolding next_doc
  next_doc_lem t (has, sound) = rw has (
      Returns-bind _ (DocFrom (content t.input)) (next_xml_doc lib.read_memory t.input) _
        (next_xml_doc_lem lib.read_memory t.input sound)
        λ r c. record { doc = c.0; left = c.1; is_open = (refl, c.2) })

  -- A root that was found, with all elements that come behind it; without one nothing is left.
  pub record RootFrom (whole : Text) (r : Option lib.Node × TwsXml lib) : Type 0 where
    pub none_left : r.0 ≡ none → nodes_of lib (pieces whole) ≡ []
    pub some_left :
        (root : lib.Node)
        → r.0 ≡ some root
        → (nodes_of lib (pieces whole)
            ≡ keep_if lib.is_element (lib.children root)
              ++ nodes_of lib (pieces (content r.1.input)))
          × (length (content r.1.input) < length whole)
    pub is_open : IsOpen lib r.1
    pub less : length (content r.1.input) ≤ length whole

  -- A text that is a document is not empty, and what is behind it is shorter.
  shorter :
      (whole : Text) (d : lib.Doc)
      → lib.read_memory (before_ff whole) ≡ some d
      → length (after_ff whole) < length whole
  unfolding before_ff
  shorter [] d e = absurd (ground (arith, e, laws.read_empty))
  shorter (c ∷ s) d e = omega (arith, after_ff-shorter c s)

  -- Past a document that has no elements.
  skip_doc :
      (whole : Text) (u : TwsXml lib) (r : Option lib.Node × TwsXml lib)
      → nodes_of lib (pieces whole) ≡ nodes_of lib (pieces (content u.input))
      → length (content u.input) < length whole
      → RootFrom (content u.input) r
      → RootFrom whole r
  skip_doc whole u r same less f = record {
    none_left = λ e. same ∙ f.none_left e;
    some_left = λ root e.
        let (split, less') = f.some_left root e in (same ∙ split, omega (arith, less, less'));
    is_open = f.is_open;
    less = omega (arith, less, f.less);
  }

  pub next_xml_root_lem :
      (fuel : ℕ) (t : TwsXml lib)
      → IsOpen lib t
      → length (content t.input) < fuel
      → Returns (RootFrom (content t.input)) (next_xml_root lib fuel t)
  unfolding next_xml_root doc_nodes
  next_xml_root_lem zero t open_t enough = absurd (omega arith)
  next_xml_root_lem (suc fuel) t open_t enough =
      Returns-bind (DocFrom (content t.input)) _ (next_doc lib t) _ (next_doc_lem t open_t) λ r c.
        let whole = content t.input in
        elim (Option-cases (r.0)) [
          | inl e ↦ rw e (record {
            none_left = λ _. nodes_none whole (sym c.doc ∙ e);
            some_left = λ root h. absurd (ground (arith, h));
            is_open = c.is_open;
            less = rw c.left (after_ff-le whole);
          })
          | inr (d, e) ↦
              let split : nodes_of lib (pieces whole)
                  ≡ doc_nodes lib d ++ nodes_of lib (pieces (content r.1.input)) =
                rw c.left (nodes_some whole d (sym c.doc ∙ e)) in
              let less : length (content r.1.input) < length whole =
                rw c.left (shorter whole d (sym c.doc ∙ e)) in
              let again = next_xml_root_lem fuel r.1 c.is_open (omega (arith, less)) in
              elim (Option-cases (lib.root_element d)) [
                | inl no_root ↦
                    rw (e, no_root)
                      (Returns-map (RootFrom (content r.1.input)) (RootFrom whole)
                        (λ s. skip_doc whole r.1 s (split ∙ rw (doc_nodes, no_root) refl) less)
                        (next_xml_root lib fuel r.1) again)
                | inr (root, is_root) ↦
                    elim (Bool-cases (text_eq (lib.name root) (bytes "TWSXML"))) [
                      | inl ours ↦
                          rw (e, is_root, laws.root_is_element d root is_root, ours)
                            (record {
                              none_left = λ h. absurd (ground (arith, h));
                              some_left = λ n h.
                                  let same : root ≡ n = cc in
                                  let elems : doc_nodes lib d
                                      ≡ keep_if lib.is_element (lib.children root) =
                                    rw (doc_nodes, is_root, ours) refl in
                                  (
                                    split
                                        ∙ ap (λ ns. ns ++ nodes_of lib (pieces (content r.1.input)))
                                            (elems
                                              ∙ ap (λ x. keep_if lib.is_element (lib.children x))
                                                  same),
                                    less,
                                  );
                              is_open = c.is_open;
                              less = omega (arith, less);
                            })
                      | inr other ↦
                          rw (e, is_root, laws.root_is_element d root is_root, other)
                            (Returns-map (RootFrom (content r.1.input)) (RootFrom whole)
                              (λ s.
                                skip_doc whole r.1 s (split ∙ rw (doc_nodes, is_root, other) refl)
                                  less)
                              (next_xml_root lib fuel r.1) again)
                    ]
              ]
        ]
