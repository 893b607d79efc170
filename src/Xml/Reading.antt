-- ===== src/Xml/Reading.antt =====
-- What a reader of src/tws_xml.cpp makes of the attributes of a node.
use twstools.Base.{
  ◌≡◌, refl, ap, ◌∙◌, ◌⊎◌, inl, inr, true, false, none, some, List, [], ◌∷◌, All, arith, Bool-cases,
  Option-cases,
}
use twstools.Base.Text.{Text, text_eq, text_eq_iff}
use twstools.Xml.{Field, Struct, XmlLib, parse, set, get_attr, read}
use twstools.Xml.Agree.{same_field, listed, has_attr, distinct, all_fit, same_member}

module _ (lib : XmlLib) where
  -- What reads the member of a field is that field, or reads nothing.
  abbrev pub Ok : lib.Node → Field → Field → Type 0
  Ok node w r =
      text_eq r.member w.member ≡ true
      → (lib.get_prop r.attr node ≡ none) ⊎ ((r.attr ≡ w.attr) × (r.kind ≡ w.kind))

  get_hit :
      (node : lib.Node) (w r : Field) (t : Text) (s : Struct)
      → r.attr ≡ w.attr
      → r.kind ≡ w.kind
      → text_eq r.member w.member ≡ true
      → lib.get_prop w.attr node ≡ some t
      → get_attr lib node r s w.member ≡ parse lib w.kind t
  unfolding get_attr set
  get_hit node w r t s attr kind member got =
      rw (ap (λ a. lib.get_prop a node) attr ∙ got, member, get_attr) (ap (λ k. parse lib k t) kind)

  get_none :
      (node : lib.Node) (r : Field) (s : Struct) (m : Text)
      → lib.get_prop r.attr node ≡ none
      → get_attr lib node r s m ≡ s m
  unfolding get_attr set
  get_none node r s m e = rw (e, get_attr) refl

  get_miss :
      (node : lib.Node) (r : Field) (s : Struct) (m : Text)
      → text_eq r.member m ≡ false
      → get_attr lib node r s m ≡ s m
  unfolding get_attr set
  get_miss node r s m miss = elim (Option-cases (lib.get_prop r.attr node)) [
    | inl e ↦ rw (e, get_attr) refl
    | inr (t, e) ↦ rw (e, miss, get_attr) refl
  ]

  pub read_nothing :
      (node : lib.Node) (w : Field) (rs : List Field) (s : Struct)
      → All (Ok node w) rs
      → lib.get_prop w.attr node ≡ none
      → read lib rs node s w.member ≡ s w.member
  unfolding read
  read_nothing node w [] s ok left_out = refl
  read_nothing node w (r ∷ rs) s ok left_out =
      read_nothing node w rs (get_attr lib node r s) ok.1 left_out
      ∙ elim (Bool-cases (text_eq r.member w.member)) [
        | inl hit ↦ elim (ok.0 hit) [
          | inl e ↦ get_none node r s w.member e
          | inr same ↦ get_none node r s w.member (ap (λ a. lib.get_prop a node) same.0 ∙ left_out)
        ]
        | inr miss ↦ get_miss node r s w.member miss
      ]

  pub read_text :
      (node : lib.Node) (w : Field) (t : Text) (rs : List Field) (s : Struct)
      → All (Ok node w) rs
      → lib.get_prop w.attr node ≡ some t
      → (listed w rs ≡ true) ⊎ (s w.member ≡ parse lib w.kind t)
      → read lib rs node s w.member ≡ parse lib w.kind t
  unfolding read listed same_field
  read_text node w t [] s ok got from = elim from [ inl l ↦ absurd (ground (arith, l)) | inr e ↦ e ]
  read_text node w t (r ∷ rs) s ok got from =
      read_text node w t rs (get_attr lib node r s) ok.1 got
        (elim (Bool-cases (text_eq r.member w.member)) [
          | inr miss ↦ elim from [
            | inl l ↦ inl (other miss l)
            | inr e ↦ inr (get_miss node r s w.member miss ∙ e)
          ]
          | inl hit ↦ elim (ok.0 hit) [
            | inr same ↦ inr (get_hit node w r t s same.0 same.1 hit got)
            | inl e ↦ elim from [
              | inl l ↦ inl (unread e l)
              | inr f ↦ inr (get_none node r s w.member e ∙ f)
            ]
          ]
        ])
    where
      other : text_eq r.member w.member ≡ false → listed w (r ∷ rs) ≡ true → listed w rs ≡ true
      other miss l =
          ground (arith, miss, l, text_eq_iff r.member w.member, text_eq_iff w.member r.member)

      unread : lib.get_prop r.attr node ≡ none → listed w (r ∷ rs) ≡ true → listed w rs ≡ true
      unread e l = elim (Bool-cases (text_eq w.attr r.attr)) [
        | inl hit ↦ absurd (
            ground
              (arith, got, e, ap (λ a. lib.get_prop a node) ((text_eq_iff w.attr r.attr).0 hit)))
        | inr miss ↦ ground (arith, miss, l)
      ]

  pub reader-Ok :
      (node : lib.Node) (w : Field) (fs gs : List Field)
      → distinct fs ≡ true
      → listed w fs ≡ true
      → ((b : Text) → has_attr b fs ≡ false → lib.get_prop b node ≡ none)
      → all_fit gs fs ≡ true
      → All (Ok node w) gs
  unfolding all_fit
  reader-Ok node w fs [] one l bare fit = tt
  reader-Ok node w fs (g ∷ gs) one l bare fit = (
    (λ same. elim (Bool-cases (listed g fs)) [
      | inl m ↦ inr (same_member w g fs one l m ((text_eq_iff g.member w.member).0 same))
      | inr no_m ↦ inl (bare g.attr (ground (arith, fit, no_m)))
    ]),
    reader-Ok node w fs gs one l bare (ground (arith, fit)),
  )
