-- ===== src/Xml/Documents/Nodes.antt =====
-- TwsXml::nextXmlNode of src/tws_xml.cpp, against the list of the elements that a file holds.
use twstools.Base.{
  ℕ, zero, suc, ◌≤◌, ◌<◌, ◌≡◌, refl, sym, ap, ◌∙◌, subst, ◌⊎◌, inl, inr, Option, none, some, List,
  [], ◌∷◌, ◌++◌, length, keep_if, Returns, Returns-bind, Returns-map, Bool-cases, Option-cases,
  arith,
}
use twstools.Xml.Stream.Split.{content}
use twstools.Xml.Documents.{
  DocLib, DocLaws, TwsXml, next_xml_root, skip_to_element, behind, next_in_roots, next_xml_node,
  all_nodes,
}
use twstools.Xml.Documents.Roots.{
  pieces, nodes_of, pending, IsOpen, Pops, RootFrom, next_xml_root_lem,
}

module _ (lib : DocLib) where
  -- The first of the elements is given, and the others remain.
  pub record Given (whole : List lib.Node) (size : ℕ) (r : Option lib.Node × TwsXml lib)
      : Type 0 where
    pub first : Pops lib whole r.0 (pending lib r.1)
    pub is_open : IsOpen lib r.1
    pub less : length (content r.1.input) ≤ size

module _ (lib : DocLib) (laws : DocLaws lib) where
  skip-none : (ns : List lib.Node) → skip_to_element lib ns ≡ [] → keep_if lib.is_element ns ≡ []
  unfolding skip_to_element keep_if
  skip-none [] e = refl
  skip-none (n ∷ ns) e = elim (Bool-cases (lib.is_element n)) [
    | inl h ↦ absurd (ground (arith, e, h))
    | inr h ↦ rw h (skip-none ns (ground (arith, e, h)))
  ]

  skip-some :
      (ns : List lib.Node) (m : lib.Node) (ms : List lib.Node)
      → skip_to_element lib ns ≡ m ∷ ms
      → keep_if lib.is_element ns ≡ m ∷ keep_if lib.is_element ms
  unfolding skip_to_element keep_if
  skip-some [] m ms e = absurd (ground (arith, e))
  skip-some (n ∷ ns) m ms e = elim (Bool-cases (lib.is_element n)) [
    | inl h ↦ let e' : n ∷ ns ≡ m ∷ ms = rw h at e in rw h (cc)
    | inr h ↦ rw h (skip-some ns m ms (ground (arith, e, h)))
  ]

  List-cases :
      (ns : List lib.Node) → (ns ≡ []) ⊎ ((m : lib.Node) × (ms : List lib.Node) × (ns ≡ m ∷ ms))
  List-cases [] = inl refl
  List-cases (n ∷ ns) = inr (n, ns, refl)

  Pops-nil :
      (whole : List lib.Node) (r : Option lib.Node) (rest : List lib.Node)
      → whole ≡ []
      → r ≡ none
      → Pops lib whole r rest
  Pops-nil [] r rest e h = h
  Pops-nil (n ∷ ns) r rest e h = absurd (ground (arith, e))

  Pops-cons :
      (whole : List lib.Node) (r : Option lib.Node) (rest : List lib.Node) (m : lib.Node)
      (ms : List lib.Node)
      → whole ≡ m ∷ ms
      → r ≡ some m
      → rest ≡ ms
      → Pops lib whole r rest
  Pops-cons [] r rest m ms e h k = absurd (ground (arith, e))
  Pops-cons (n ∷ ns) r rest m ms e h k = (cc, cc)

  next_in_roots_lem :
      (docs fuel : ℕ) (t : TwsXml lib)
      → IsOpen lib t
      → length (content t.input) < docs
      → length (content t.input) < fuel
      → Returns
          (Given lib (nodes_of lib (pieces (content t.input))) (length (content t.input)))
          (next_in_roots lib docs fuel t)
  unfolding next_in_roots
  next_in_roots_lem docs zero t open_t enough more = absurd (omega arith)
  next_in_roots_lem docs (suc fuel) t open_t enough more =
      Returns-bind (RootFrom lib laws (content t.input)) _ (next_xml_root lib docs t) _
        (next_xml_root_lem lib laws docs t open_t enough)
        λ r c.
          let whole = content t.input in
          elim (Option-cases (r.0)) [
            | inl e ↦ rw e (record {
              first = Pops-nil _ _ _ (c.none_left e) refl;
              is_open = c.is_open;
              less = c.less;
            })
            | inr (root, e) ↦
                let (split, less) = c.some_left root e in
                elim (List-cases (skip_to_element lib (lib.children root))) [
                  | inl none_there ↦
                      let same : nodes_of lib (pieces whole)
                          ≡ nodes_of lib (pieces (content r.1.input)) =
                        split
                        ∙ ap (λ ns. ns ++ nodes_of lib (pieces (content r.1.input)))
                            (skip-none (lib.children root) none_there) in
                      rw (e, none_there)
                        (Returns-map
                          (Given lib (nodes_of lib (pieces (content r.1.input)))
                            (length (content r.1.input)))
                          (Given lib (nodes_of lib (pieces whole)) (length whole))
                          (λ s g. record {
                            first = rw same g.first;
                            is_open = g.is_open;
                            less = omega (arith, less, g.less);
                          })
                          (next_in_roots lib docs fuel r.1)
                          (next_in_roots_lem docs fuel r.1 c.is_open (omega (arith, less))
                            (omega (arith, less))))
                  | inr (m, ms, there) ↦
                      rw (e, there)
                        (record {
                          first =
                              Pops-cons _ _ _ _ _
                                (split
                                  ∙ ap (λ ns. ns ++ nodes_of lib (pieces (content r.1.input)))
                                      (skip-some (lib.children root) m ms there))
                                refl refl;
                          is_open = c.is_open;
                          less = omega (arith, less);
                        })
                ]
          ]

  -- With the file open, its buffer sound, and fuel for its bytes, nextXmlNode returns. It gives the next
  -- of the elements below the TWSXML roots of the documents, up to the first text that is none, and the
  -- others are still to come; if there is none it gives NULL.
  pub next_xml_node_lem :
      (fuel : ℕ) (t : TwsXml lib)
      → IsOpen lib t
      → length (content t.input) < fuel
      → Returns (Given lib (pending lib t) (length (content t.input))) (next_xml_node lib fuel t)
  unfolding next_xml_node
  next_xml_node_lem fuel t open_t enough = go (skip_to_element lib (behind lib t.cur_node)) refl
    where
      texts : List lib.Node
      texts = nodes_of lib (pieces (content t.input))

      go :
          (found : List lib.Node)
          → skip_to_element lib (behind lib t.cur_node) ≡ found
          → Returns (Given lib (pending lib t) (length (content t.input))) (elim found [
            | n ∷ ns ↦ some (some n, record t { cur_node = n ∷ ns })
            | [] ↦ next_in_roots lib fuel fuel (record t { cur_node = [] })
          ])
      go [] e =
          let same : pending lib t ≡ texts = ap (λ ns. ns ++ texts) (skip-none _ e) in
          subst
            (λ w.
              Returns (Given lib w (length (content t.input)))
                (next_in_roots lib fuel fuel (record t { cur_node = [] })))
            (sym same)
            (next_in_roots_lem fuel fuel (record t { cur_node = [] }) open_t enough enough)
      go (m ∷ ms) e = record {
        first = Pops-cons _ _ _ _ _ (ap (λ ns. ns ++ texts) (skip-some _ m ms e)) refl refl;
        is_open = open_t;
        less = omega arith;
      }

  -- With an open file, and rounds for one node more than there are, the callers' loop over nextXmlNode ends.
  -- It has seen, in order, what was left of the current document and the elements of the documents that
  -- follow, up to the first piece between form feeds that is no document; what stands behind such a
  -- piece it does not see.
  pub all_nodes_lem :
      (fuel rounds : ℕ) (t : TwsXml lib)
      → IsOpen lib t
      → length (content t.input) < fuel
      → length (pending lib t) < rounds
      → Returns (λ r. r.0 ≡ pending lib t) (all_nodes lib fuel rounds t)
  unfolding all_nodes
  all_nodes_lem fuel zero t open_t enough more = absurd (omega arith)
  all_nodes_lem fuel (suc rounds) t open_t enough more =
      Returns-bind (Given lib (pending lib t) (length (content t.input))) _
        (next_xml_node lib fuel t) _ (next_xml_node_lem fuel t open_t enough)
        λ r g. elim (List-cases (pending lib t)) [
          | inl over ↦
              let ended : r.0 ≡ none = subst (λ w. Pops lib w r.0 (pending lib r.1)) over g.first in
              rw ended (sym over)
          | inr (n, ns, e) ↦
              let popped : (r.0 ≡ some n) × (pending lib r.1 ≡ ns) =
                subst (λ w. Pops lib w r.0 (pending lib r.1)) e g.first in
              let (given, rest) = popped in
              rw given (
                Returns-bind (λ s. s.0 ≡ pending lib r.1) (λ s. s.0 ≡ pending lib t)
                  (all_nodes lib fuel rounds r.1) (λ s. some (n ∷ s.0, s.1))
                  (all_nodes_lem fuel rounds r.1 g.is_open (omega (arith, g.less))
                    (omega (arith, ap (length {A = lib.Node}) rest, ap (length {A = lib.Node}) e)))
                  λ s h. ap (λ l. n ∷ l) (h ∙ rest) ∙ sym e)
        ]
