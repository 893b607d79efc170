-- ===== src/Util/Duration.antt =====
-- ib_duration2secs of src/tws_util.cpp: which durations it reads, and as what.
use twstools.Base.{
  ℕ, suc, ◌+◌, ◌-◌, ◌*◌, ◌/◌, ◌≤◌, ◌<◌, ◌≡◌, refl, ap, inl, inr, ltb, leb, ◌==◌, true, false,
  Option, none, some, [], ◌∷◌, ◌++◌, if◌then◌else◌, length, length-append, get_elem?, All,
  Bool-cases, Option-cases, Returns, ◌⊎◌, arith,
}
use twstools.Base.Int.{ℤ, pos, negsuc, int_max}
use twstools.Base.Text.{Text}
use twstools.Base.Sorted.{get_elem?-some}
use twstools.Util.{
  long_max, is_space, is_digit, count_spaces, skip_spaces, read_digits, signed_number, strtol,
  unit_secs, scaled, ib_duration2secs,
}

-- The number that decimal digits stand for.
unfoldable pub value : ℕ → Text → ℕ
value acc [] = acc
value acc (c ∷ s) = value (acc * 10 + (c - b'0')) s

abbrev pub IsDigit : ℕ → Type 0
IsDigit c = is_digit c ≡ true

read_digits_lem :
    (acc : ℕ) (ds rest : Text) (u : ℕ)
    → All IsDigit ds
    → is_digit u ≡ false
    → read_digits acc (ds ++ u ∷ rest) ≡ (value acc ds, length ds)
unfolding read_digits value
read_digits_lem acc [] rest u h k = rw k refl
read_digits_lem acc (d ∷ ds) rest u (h, hs) k =
    rw (h, read_digits_lem (acc * 10 + (d - b'0')) ds rest u hs k) refl

-- strtol of digits, cut off at LONG_MAX.
abbrev cut_off : ℕ → ℕ
cut_off v = if ltb long_max v then long_max else v

count_no_spaces : (d : ℕ) (s : Text) → is_digit d ≡ true → count_spaces (d ∷ s) ≡ 0
unfolding count_spaces
count_no_spaces d s h = ground arith

skip_no_spaces : (d : ℕ) (s : Text) → is_digit d ≡ true → skip_spaces (d ∷ s) ≡ d ∷ s
unfolding skip_spaces
skip_no_spaces d s h = ground arith

no_minus : (d : ℕ) → is_digit d ≡ true → (d == b'-') ≡ false
no_minus d h = ground arith

no_plus : (d : ℕ) → is_digit d ≡ true → (d == b'+') ≡ false
no_plus d h = ground arith

same_number : (n : ℕ) → (n == n) ≡ true
same_number n = ground arith

not_zero : (n : ℕ) → (suc n == 0) ≡ false
not_zero n = ground arith

strtol_digits :
    (d : ℕ) (ds rest : Text)
    → All IsDigit (d ∷ ds)
    → strtol (d ∷ (ds ++ b' ' ∷ rest)) ≡ (pos (cut_off (value 0 (d ∷ ds))), suc (length ds))
unfolding strtol signed_number
strtol_digits d ds rest h =
    let s = ds ++ b' ' ∷ rest in
    let e : 0 + suc (length ds) ≡ suc (length ds) = omega arith in
    rw
      (
        count_no_spaces d s h.0,
        skip_no_spaces d s h.0,
        no_minus d h.0,
        no_plus d h.0,
        read_digits_lem 0 (d ∷ ds) rest b' ' h refl,
        e,
        not_zero (length ds),
      )
      refl

unit_bounds : (c u : ℕ) → unit_secs c ≡ some u → (1 ≤ u) × (u ≤ 31536000)
unfolding unit_secs
unit_bounds c u e = ground arith

quotient-le : (u : ℕ) → 1 ≤ u → int_max / u ≤ int_max
quotient-le u h = grind arith

-- Cutting off at LONG_MAX makes no difference, since that is too large for every unit.
scaled_cut :
    (u v : ℕ)
    → 1 ≤ u
    → scaled u (pos (cut_off v)) ≡ (if leb v (int_max / u) then pos (v * u) else negsuc 0)
unfolding scaled
scaled_cut u v h = let small = quotient-le u h in ground (arith, small)

get_second_last : (xs : Text) (a b : ℕ) → get_elem? (xs ++ a ∷ b ∷ []) (length xs) ≡ some a
get_second_last [] a b = refl
get_second_last (x ∷ xs) a b = get_second_last xs a b

get_last : (xs : Text) (a b : ℕ) → get_elem? (xs ++ a ∷ b ∷ []) (suc (length xs)) ≡ some b
get_last [] a b = refl
get_last (x ∷ xs) a b = get_last xs a b

-- Digits, a space and a character are read as that many units, if the character names one and the
-- seconds fit into an int; else the answer is -1.
pub ib_duration2secs_lem :
    (d : ℕ) (ds : Text) (c : ℕ)
    → All IsDigit (d ∷ ds)
    → ib_duration2secs (d ∷ (ds ++ b' ' ∷ c ∷ []))
      ≡ some (elim (unit_secs c) [
        | none ↦ negsuc 0
        | some u ↦
            if leb (value 0 (d ∷ ds)) (int_max / u) then pos (value 0 (d ∷ ds) * u) else negsuc 0
      ])
unfolding ib_duration2secs
ib_duration2secs_lem d ds c h =
    let n = length ds in
    let s = d ∷ (ds ++ b' ' ∷ c ∷ []) in
    let whole : length s ≡ suc n + 2 = omega (arith, length-append ds (b' ' ∷ c ∷ [])) in
    let long_enough : ltb (suc n + 2) 2 ≡ false = ground arith in
    let second_last : (suc n + 2) - 2 ≡ suc n = omega arith in
    let last : (suc n + 2) - 1 ≡ suc (suc n) = omega arith in
    let here = get_second_last ds b' ' c in
    let unit = get_last ds b' ' c in
    elim (Option-cases (unit_secs c)) [
      | inl e ↦ rw (whole, long_enough, second_last, last, here, unit, e) refl
      | inr (u, e) ↦
          rw
            (
              whole,
              long_enough,
              second_last,
              last,
              here,
              unit,
              e,
              strtol_digits d ds (c ∷ []) h,
              whole,
              second_last,
              same_number (suc n),
            )
            (ap some (scaled_cut u (value 0 (d ∷ ds)) (unit_bounds c u e).0))
    ]

-- -1, or a number of seconds that fits into an int.
abbrev pub IsSeconds : ℤ → Type 0
IsSeconds r = (r ≡ negsuc 0) ⊎ ((n : ℕ) × (r ≡ pos n) × (n ≤ int_max))

product-le : (u v : ℕ) → v ≤ int_max / u → v * u ≤ int_max
product-le u v h = grind arith

scaled-IsSeconds : (u : ℕ) (v : ℤ) → IsSeconds (scaled u v)
unfolding scaled
scaled-IsSeconds u (negsuc n) = inl refl
scaled-IsSeconds u (pos v) = elim (Bool-cases (ltb (int_max / u) v)) [
  | inl large ↦ rw large (inl refl)
  | inr fits ↦ rw fits (inr (v * u, refl, product-le u v (ground (arith, fits))))
]

read-IsSeconds :
    (unit : Option ℕ) (r : ℤ × ℕ) (n : ℕ)
    → IsSeconds
        (elim unit [ none ↦ negsuc 0 | some u ↦ if r.1 == n then scaled u r.0 else negsuc 0 ])
read-IsSeconds none r n = inl refl
read-IsSeconds (some u) r n = elim (Bool-cases (r.1 == n)) [
  | inl all ↦ rw all (scaled-IsSeconds u r.0)
  | inr part ↦ rw part (inl refl)
]

-- Of a text of two characters at least the answer is -1 or a number of seconds that an int holds. Of
-- a shorter one the code reads a byte in front of the text, for which the model has no result.
pub ib_duration2secs-IsSeconds :
    (dur : Text)
    → (2 ≤ length dur → Returns IsSeconds (ib_duration2secs dur))
      × (length dur < 2 → ib_duration2secs dur ≡ none)
unfolding ib_duration2secs
ib_duration2secs-IsSeconds dur = (enough, λ h. ground arith)
  where
    enough : 2 ≤ length dur → Returns IsSeconds (ib_duration2secs dur)
    enough h =
        let long_enough : ltb (length dur) 2 ≡ false = ground arith in
        let (space, is_space) = get_elem?-some dur (length dur - 2) (omega arith) in
        let (last, is_last) = get_elem?-some dur (length dur - 1) (omega arith) in
        elim (Bool-cases (space == b' ')) [
          | inl spaced ↦
              rw (long_enough, is_space, is_last, spaced)
                (read-IsSeconds (unit_secs last) (strtol dur) (length dur - 2))
          | inr other ↦ rw (long_enough, is_space, is_last, other) (inl refl)
        ]
