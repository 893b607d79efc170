-- ===== src/Gen/Words.antt =====
-- split_whatToShow of src/twsgen.cpp: the argument of --whatToShow as a list of words. The array that
-- holds them is as long as the code makes it; a write behind its end is `none`.
use twstools.Base.{
  ℕ, zero, suc, ◌+◌, ◌*◌, ◌/◌, ◌-◌, ◌≤◌, ◌<◌, ◌==◌, ◌≡◌, refl, sym, ap, subst, ◌∙◌, inl, inr, Bool,
  false, ◌||◌, Option, none, some, List, [], ◌∷◌, if◌then◌else◌, ◌>>=◌, length, drop_if, arith,
  Bool-cases,
}
use twstools.Base.Text.{Text, empty}

-- A byte of ", \t".
abbrev pub is_delim : ℕ → Bool
is_delim c = (c == b',') || ((c == b' ') || (c == 9))

unfoldable pub skip_delims : Text → Text
skip_delims [] = []
skip_delims (c ∷ s) = let rest = skip_delims s in if is_delim c then rest else c ∷ s

unfoldable pub take_word : Text → Text
take_word [] = []
take_word (c ∷ s) = let rest = c ∷ take_word s in if is_delim c then [] else rest

unfoldable pub behind_word : Text → Text
behind_word [] = []
behind_word (c ∷ s) = let rest = behind_word s in if is_delim c then s else rest

-- strtok: the next word, and where the next call goes on.
abbrev word_at : Text → Option (Text × Text)
word_at [] = none
word_at (c ∷ s) = some (c ∷ take_word s, behind_word s)

unfoldable pub strtok : Text → Option (Text × Text)
unfolding skip_delims take_word behind_word
strtok s = word_at (skip_delims s)

-- The loop, with so many places left in the array; the fuel counts the calls of strtok.
unfoldable pub split_loop : ℕ → ℕ → Text → Option (List Text)
unfolding strtok
split_loop zero places s = none
split_loop (suc fuel) zero s = none
split_loop (suc fuel) (suc places) s = elim (strtok s) [
  | none ↦ some []
  | some (word, rest) ↦ split_loop fuel places rest >>= λ words. some (word ∷ words)
]

unfoldable pub split_what_to_show : Text → Option (List Text)
unfolding split_loop
split_what_to_show s = let len = length s + 1 in split_loop (suc len) (len / 2 + 1) s

-- What stands between the delimiters, empty or not, and the words.
unfoldable pub fields : Text → List Text
fields [] = [] ∷ []
fields (c ∷ s) =
    let rest = fields s in
    if is_delim c then [] ∷ rest else elim rest [ [] ↦ [] | f ∷ fs ↦ (c ∷ f) ∷ fs ]

unfoldable pub words : Text → List Text
unfolding fields drop_if
words s = drop_if empty (fields s)

fields-split :
    (s : Text)
    → (fs : List Text) × (fields s ≡ take_word s ∷ fs) × (drop_if empty fs ≡ words (behind_word s))
unfolding fields take_word behind_word words drop_if
fields-split [] = ([], refl, refl)
fields-split (c ∷ s) = elim (Bool-cases (is_delim c)) [
  | inl hit ↦ rw hit (fields s, refl, refl)
  | inr miss ↦ let (fs, cut, rest) = fields-split s in rw (miss, cut) (fs, refl, rest)
]

words_nil : words [] ≡ []
unfolding words fields drop_if
words_nil = refl

words-skip : (s : Text) → words (skip_delims s) ≡ words s
unfolding words skip_delims fields drop_if
words-skip [] = refl
words-skip (c ∷ s) = elim (Bool-cases (is_delim c)) [
  | inl hit ↦ rw hit (words-skip s)
  | inr miss ↦ let same : skip_delims (c ∷ s) ≡ c ∷ s = rw miss refl in ap words same
]

skip_delims-head : (s : Text) (c : ℕ) (r : Text) → skip_delims s ≡ c ∷ r → is_delim c ≡ false
unfolding skip_delims
skip_delims-head [] c r e = absurd (ground (arith, e))
skip_delims-head (d ∷ s) c r e = elim (Bool-cases (is_delim d)) [
  | inl hit ↦ skip_delims-head s c r (rw hit at e)
  | inr miss ↦
      let same : d ∷ s ≡ c ∷ r = rw miss at e in
      let first : d ≡ c = cc in subst (λ x. is_delim x ≡ false) first miss
]

words-cons :
    (c : ℕ) (s : Text)
    → is_delim c ≡ false
    → words (c ∷ s) ≡ (c ∷ take_word s) ∷ words (behind_word s)
unfolding words fields drop_if
words-cons c s h =
    let (fs, cut, rest) = fields-split s in rw (h, cut) (ap (λ ws. (c ∷ take_word s) ∷ ws) rest)

length-skip_delims : (s : Text) → length (skip_delims s) ≤ length s
unfolding skip_delims
length-skip_delims [] = omega arith
length-skip_delims (c ∷ s) = ground (arith, length-skip_delims s)

length-behind_word : (s : Text) → length (behind_word s) ≤ length s - 1
unfolding behind_word
length-behind_word [] = omega arith
length-behind_word (c ∷ s) = ground (arith, length-behind_word s)

-- With fuel for the bytes, and half as many places, the loop gives the words.
split_loop_lem :
    (fuel places : ℕ) (s : Text)
    → length s < fuel
    → length s + 1 < 2 * places
    → split_loop fuel places s ≡ some (words s)
unfolding split_loop strtok
split_loop_lem zero places s h k = absurd (omega arith)
split_loop_lem (suc fuel) zero s h k = absurd (omega arith)
split_loop_lem (suc fuel) (suc places) s h k =
    go (skip_delims s) refl (λ r. split_loop_lem fuel places (behind_word r))
  where
    go :
        (t : Text)
        → skip_delims s ≡ t
        → ((r : Text)
            → length (behind_word r) < fuel
            → length (behind_word r) + 1 < 2 * places
            → split_loop fuel places (behind_word r) ≡ some (words (behind_word r)))
        → ◌≡◌ {A = Option (List Text)}
            (elim (word_at t) [
              | none ↦ some []
              | some (word, rest) ↦ split_loop fuel places rest >>= λ ws. some (word ∷ ws)
            ])
            (some (words s))
    go [] e ih = ap some (sym (words_nil) ∙ ap words (sym e) ∙ words-skip s)
    go (c ∷ r) e ih =
        let short : suc (length r) ≤ length s =
          omega (arith, length-skip_delims s, ap (length {A = ℕ}) e) in
        let behind = length-behind_word r in
        let words_eq : words s ≡ (c ∷ take_word r) ∷ words (behind_word r) =
          sym (words-skip s) ∙ ap words e ∙ words-cons c r (skip_delims-head s c r e) in
        rw (ih r (omega (arith, short, behind)) (omega (arith, short, behind)))
          (ap some (sym words_eq))

-- Whatever the argument, the list of pointers is never written behind its end, and holds the words
-- between the delimiters in order.
pub split_what_to_show_lem : (s : Text) → split_what_to_show s ≡ some (words s)
unfolding split_what_to_show
split_what_to_show_lem s =
    split_loop_lem (suc (length s + 1)) ((length s + 1) / 2 + 1) s (omega arith) (omega arith)
