-- ===== src/Xml/Writing.antt =====
-- What the attributes of a node are behind a writer of src/tws_xml.cpp.
use twstools.Base.{
  ◌≡◌, ◌≢◌, refl, sym, ap, ◌∙◌, subst, inl, inr, Bool, true, false, not, ◌&&◌, Option, none, some,
  List, [], ◌∷◌, if◌then◌else◌, arith, Bool-cases,
}
use twstools.Base.Int.{ℤ, pos, IsInt, eqb_ℤ, eqb_ℤ_iff}
use twstools.Base.Text.{Text, text_eq, text_eq_iff, text_ne, text_eq_refl}
use twstools.Requests.{Double}
use twstools.Xml.{
  Kind, int_attr, long_attr, long_long_attr, double_attr, bool_attr, string_attr, Value, number,
  real, flag, text, Field, Struct, XmlLib, XmlLaws, IsLong, same_value, print, parse, is_skipped,
  add_attr, write,
}
use twstools.Xml.Agree.{same_field, listed, has_attr, distinct, same_field_lem}

-- The values that survive: the type of the macro, in the range of its C type. A double must be one that
-- its text gives back, and not look like the default unless it is.
pub data IsFor (lib : XmlLib) : Kind → Value → Value → Type 0 where
  for_int : (a d : ℤ) → IsInt a → IsFor lib int_attr (number a) (number d)
  for_long : (a d : ℤ) → IsLong a → IsFor lib long_attr (number a) (number d)
  for_long_long : (a d : ℤ) → IsLong a → IsFor lib long_long_attr (number a) (number d)
  for_double :
      (a d : Double)
      → lib.atof (lib.print_double a) ≡ a
      → (lib.same_double a d ≡ true → a ≡ d)
      → IsFor lib double_attr (real a) (real d)
  for_bool : (b d : Bool) → IsFor lib bool_attr (flag b) (flag d)
  for_string : (s d : Text) → IsFor lib string_attr (text s) (text d)

module _ (lib : XmlLib) (laws : XmlLaws lib) where
  parse_flag : (b : Bool) → parse lib bool_attr (print lib bool_attr (flag b)) ≡ flag b
  unfolding parse print
  parse_flag true = ap (λ n. flag (not (eqb_ℤ n (pos 0)))) laws.atoi_one
  parse_flag false = ap (λ n. flag (not (eqb_ℤ n (pos 0)))) laws.atoi_zero

  pub parse-print : (k : Kind) (v d : Value) → IsFor lib k v d → parse lib k (print lib k v) ≡ v
  unfolding parse print
  parse-print k v d (for_int a e h) = ap number (laws.atoi_print a h)
  parse-print k v d (for_long a e h) = ap number (laws.atol_print a h)
  parse-print k v d (for_long_long a e h) = ap number (laws.atoll_print a h)
  parse-print k v d (for_double a e h j) = ap real h
  parse-print k v d (for_bool b e) = parse_flag b
  parse-print k v d (for_string s e) = refl

  same_flag : (b d : Bool) → same_value lib (flag b) (flag d) ≡ true → b ≡ d
  unfolding same_value
  same_flag true d e = sym e
  same_flag false d e = ground (arith, e)

  pub same_value-eq : (k : Kind) (v d : Value) → IsFor lib k v d → same_value lib v d ≡ true → v ≡ d
  unfolding same_value
  same_value-eq k v d (for_int a c h) e = ap number ((eqb_ℤ_iff a c).0 e)
  same_value-eq k v d (for_long a c h) e = ap number ((eqb_ℤ_iff a c).0 e)
  same_value-eq k v d (for_long_long a c h) e = ap number ((eqb_ℤ_iff a c).0 e)
  same_value-eq k v d (for_double a c h j) e = ap real (j e)
  same_value-eq k v d (for_bool b c) e = ap flag (same_flag b c e)
  same_value-eq k v d (for_string s c) e = ap text ((text_eq_iff s c).0 e)

  -- The text of an attribute behind the writer, if there is one.
  unfoldable pub written : Bool → Struct → Struct → List Field → Text → Option Text
  written skip dflt s [] a = none
  written skip dflt s (f ∷ fs) a =
      let rest = written skip dflt s fs a in
      if text_eq f.attr a
      then (if is_skipped lib skip dflt s f then none else some (print lib f.kind (s f.member)))
      else rest

  add_attr_lem :
      (skip : Bool) (dflt s : Struct) (f : Field) (x : lib.Node) (a : Text)
      → lib.get_prop f.attr x ≡ none
      → lib.get_prop a (add_attr lib skip dflt s f x) ≡ (
          if text_eq f.attr a
          then (if is_skipped lib skip dflt s f then none else some (print lib f.kind (s f.member)))
          else lib.get_prop a x)
  unfolding add_attr
  add_attr_lem skip dflt s f x a fresh = elim (Bool-cases (text_eq f.attr a)) [
    | inl hit ↦
        let same = (text_eq_iff f.attr a).0 hit in
        subst
          (λ b.
            lib.get_prop b (
              if is_skipped lib skip dflt s f
              then x
              else lib.new_prop f.attr (print lib f.kind (s f.member)) x)
            ≡ (if text_eq f.attr b
                then (if is_skipped lib skip dflt s f
                    then none
                    else some (print lib f.kind (s f.member)))
                else lib.get_prop b x))
          same
          (ground (
            arith,
            fresh,
            text_eq_refl f.attr,
            laws.get_new f.attr (print lib f.kind (s f.member)) x fresh,
          ))
    | inr miss ↦
        let other : f.attr ≢ a = λ e. ground (arith, miss, (text_eq_iff f.attr a).1 e) in
        ground (arith, miss, laws.get_other f.attr a (print lib f.kind (s f.member)) x other)
  ]

  pub get-write :
      (skip : Bool) (dflt s : Struct) (fs : List Field) (x : lib.Node)
      → distinct fs ≡ true
      → ((b : Text) → has_attr b fs ≡ true → lib.get_prop b x ≡ none)
      → (a : Text)
      → lib.get_prop a (write lib skip dflt fs s x)
        ≡ (if has_attr a fs then written skip dflt s fs a else lib.get_prop a x)
  unfolding write written distinct has_attr
  get-write skip dflt s [] x one fresh a = refl
  get-write skip dflt s (f ∷ fs) x one fresh a =
      let here = fresh f.attr (ground (arith, text_eq_refl f.attr)) in
      let x' = add_attr lib skip dflt s f x in
      let alone : has_attr f.attr fs ≡ false = ground (arith, one) in
      let still : (b : Text) → has_attr b fs ≡ true → lib.get_prop b x' ≡ none = λ b h.
        elim (Bool-cases (text_eq f.attr b)) [
          | inl hit ↦
              absurd
                (ground (arith, h, alone, ap (λ c. has_attr c fs) ((text_eq_iff f.attr b).0 hit)))
          | inr miss ↦
              ground (arith, miss, fresh b (ground (arith, h)), add_attr_lem skip dflt s f x b here)
        ] in
      let rest = get-write skip dflt s fs x' (ground (arith, one)) still a in
      elim (Bool-cases (text_eq f.attr a)) [
        | inl hit ↦
            let gone : has_attr a fs ≡ false =
              sym (ap (λ c. has_attr c fs) ((text_eq_iff f.attr a).0 hit)) ∙ alone in
            ground (arith, hit, gone, rest, add_attr_lem skip dflt s f x a here)
        | inr miss ↦ ground (arith, miss, rest, add_attr_lem skip dflt s f x a here)
      ]

  pub has_attr-listed :
      (w : Field) (fs : List Field) → listed w fs ≡ true → has_attr w.attr fs ≡ true
  unfolding listed has_attr
  has_attr-listed w [] h = absurd (ground (arith, h))
  has_attr-listed w (f ∷ fs) h = elim (Bool-cases (same_field w f)) [
    | inl hit ↦
        let same = (text_eq_iff f.attr w.attr).1 (sym (same_field_lem w f hit).0) in
        ground (arith, same)
    | inr miss ↦ ground (arith, has_attr-listed w fs (ground (arith, h, miss)))
  ]

  -- The text for a field of the writer.
  abbrev pub text_for : Bool → Struct → Struct → Field → Option Text
  text_for skip dflt s f =
      if is_skipped lib skip dflt s f then none else some (print lib f.kind (s f.member))

  text_for-same :
      (skip : Bool) (dflt s : Struct) (f w : Field)
      → f.member ≡ w.member
      → f.kind ≡ w.kind
      → text_for skip dflt s f ≡ text_for skip dflt s w
  unfolding is_skipped
  text_for-same skip dflt s f w member kind =
      ap
        (λ m. if skip && same_value lib (s m) (dflt m) then none else some (print lib f.kind (s m)))
        member
      ∙ ap
          (λ k.
            if skip && same_value lib (s w.member) (dflt w.member)
            then none
            else some (print lib k (s w.member)))
          kind

  pub written-listed :
      (skip : Bool) (dflt s : Struct) (w : Field) (fs : List Field)
      → distinct fs ≡ true
      → listed w fs ≡ true
      → written skip dflt s fs w.attr ≡ text_for skip dflt s w
  unfolding written distinct listed
  written-listed skip dflt s w [] one l = absurd (ground (arith, l))
  written-listed skip dflt s w (f ∷ fs) one l = elim (Bool-cases (same_field w f)) [
    | inl hit ↦
        let a = same_field_lem w f hit in
        let here : text_eq f.attr w.attr ≡ true = (text_eq_iff f.attr w.attr).1 (sym a.0) in
        rw here (text_for-same skip dflt s f w (sym a.1) (sym a.2))
    | inr miss ↦
        let behind : listed w fs ≡ true = ground (arith, l, miss) in
        let there = has_attr-listed w fs behind in
        let other : text_eq f.attr w.attr ≡ false =
          text_ne f.attr w.attr (λ e. ground (arith, one, there, ap (λ a. has_attr a fs) e)) in
        rw other (written-listed skip dflt s w fs (ground (arith, one)) behind)
  ]
