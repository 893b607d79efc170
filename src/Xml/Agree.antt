-- ===== src/Xml/Agree.antt =====
-- When a reader of src/tws_xml.cpp agrees with a writer, which is checked on their tables.
use twstools.Base.{
  ℕ, ◌==◌, ◌≡◌, refl, sym, ap, ◌∙◌, inl, inr, Bool, true, false, not, ◌&&◌, ◌||◌, List, [], ◌∷◌,
  if◌then◌else◌, arith, Bool-cases,
}
use twstools.Base.Text.{Text, text_eq, text_eq_iff}
use twstools.Xml.{
  Kind, int_attr, long_attr, long_long_attr, double_attr, bool_attr, string_attr, Field,
}

abbrev kind_code : Kind → ℕ
kind_code int_attr = 0
kind_code long_attr = 1
kind_code long_long_attr = 2
kind_code double_attr = 3
kind_code bool_attr = 4
kind_code string_attr = 5

abbrev kind_at : ℕ → Kind
kind_at n =
    if n == 0
    then int_attr
    else (if n == 1
        then long_attr
        else (if n == 2
            then long_long_attr
            else (if n == 3 then double_attr else (if n == 4 then bool_attr else string_attr))))

kind_at-code : (k : Kind) → kind_at (kind_code k) ≡ k
kind_at-code int_attr = refl
kind_at-code long_attr = refl
kind_at-code long_long_attr = refl
kind_at-code double_attr = refl
kind_at-code bool_attr = refl
kind_at-code string_attr = refl

kind_code-inj : (k l : Kind) → kind_code k ≡ kind_code l → k ≡ l
kind_code-inj k l h = sym (kind_at-code k) ∙ ap kind_at h ∙ kind_at-code l

-- The same macro on the same member and attribute.
unfoldable pub same_field : Field → Field → Bool
same_field f g =
    text_eq f.attr g.attr && (text_eq f.member g.member && (kind_code f.kind == kind_code g.kind))

unfoldable pub listed : Field → List Field → Bool
listed f [] = false
listed f (g ∷ gs) = same_field f g || listed f gs

unfoldable pub has_attr : Text → List Field → Bool
has_attr a [] = false
has_attr a (f ∷ fs) = text_eq f.attr a || has_attr a fs

unfoldable pub has_member : Text → List Field → Bool
has_member m [] = false
has_member m (f ∷ fs) = text_eq f.member m || has_member m fs

-- No attribute and no member stands twice.
unfoldable pub distinct : List Field → Bool
unfolding has_attr has_member
distinct [] = true
distinct (f ∷ fs) = not (has_attr f.attr fs) && (not (has_member f.member fs) && distinct fs)

unfoldable pub all_listed : List Field → List Field → Bool
unfolding listed
all_listed [] gs = true
all_listed (f ∷ fs) gs = listed f gs && all_listed fs gs

-- What is read is written the same way, or is not written.
unfoldable pub all_fit : List Field → List Field → Bool
unfolding listed has_attr
all_fit [] fs = true
all_fit (g ∷ gs) fs = (listed g fs || not (has_attr g.attr fs)) && all_fit gs fs

-- A reader agrees with a writer.
unfoldable pub agrees : List Field → List Field → Bool
unfolding distinct all_listed all_fit
agrees writer reader = distinct writer && (all_listed writer reader && all_fit reader writer)

pub same_field_lem :
    (f g : Field)
    → same_field f g ≡ true
    → (f.attr ≡ g.attr) × (f.member ≡ g.member) × (f.kind ≡ g.kind)
unfolding same_field
same_field_lem f g h = (
  (text_eq_iff f.attr g.attr).0 (ground (arith, h)),
  (text_eq_iff f.member g.member).0 (ground (arith, h)),
  kind_code-inj f.kind g.kind (ground (arith, h)),
)

pub listed-has_member :
    (w : Field) (fs : List Field) → listed w fs ≡ true → has_member w.member fs ≡ true
unfolding listed has_member
listed-has_member w [] h = absurd (ground (arith, h))
listed-has_member w (f ∷ fs) h = elim (Bool-cases (same_field w f)) [
  | inl hit ↦
      let same = (text_eq_iff f.member w.member).1 (sym (same_field_lem w f hit).1) in
      ground (arith, same)
  | inr miss ↦ ground (arith, listed-has_member w fs (ground (arith, h, miss)))
]

-- Two fields of a writer on the same member are one.
pub same_member :
    (w r : Field) (fs : List Field)
    → distinct fs ≡ true
    → listed w fs ≡ true
    → listed r fs ≡ true
    → r.member ≡ w.member
    → (r.attr ≡ w.attr) × (r.kind ≡ w.kind)
unfolding distinct listed
same_member w r [] one l m same = absurd (ground (arith, l))
same_member w r (f ∷ fs) one l m same = elim (Bool-cases (same_field w f)) [
  | inl wf ↦ elim (Bool-cases (same_field r f)) [
    | inl rf ↦
        let a = same_field_lem w f wf in
        let b = same_field_lem r f rf in (b.0 ∙ sym a.0, b.2 ∙ sym a.2)
    | inr no_rf ↦ absurd (
        twice (f.member) r.member (sym (same_field_lem w f wf).1 ∙ sym same)
          (listed-has_member r fs (ground (arith, m, no_rf))) (ground (arith, one)))
  ]
  | inr no_wf ↦ elim (Bool-cases (same_field r f)) [
    | inl rf ↦ absurd (
        twice (f.member) w.member (sym (same_field_lem r f rf).1 ∙ same)
          (listed-has_member w fs (ground (arith, l, no_wf))) (ground (arith, one)))
    | inr no_rf ↦
        same_member w r fs (ground (arith, one)) (ground (arith, l, no_wf))
          (ground (arith, m, no_rf)) same
  ]
]
  where
    twice : (a b : Text) → a ≡ b → has_member b fs ≡ true → has_member a fs ≡ false → ⊥
    twice a b e h k = ground (arith, h, k, ap (λ c. has_member c fs) e)
