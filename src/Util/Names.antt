-- ===== src/Util/Names.antt =====
-- short_string of src/tws_util.cpp, with the tables for whatToShow and barSizeSetting.
use twstools.Base.{
  ◌≡◌, refl, sym, ap, subst, ◌∙◌, inl, inr, Bool, true, false, not, ◌&&◌, ◌||◌, List, [], ◌∷◌,
  if◌then◌else◌, map, arith, Bool-cases,
}
use twstools.Base.Text.{Text, bytes, text_eq, text_eq_iff, text_eq_refl}

-- A row up to the one with NULL, and the short name of that.
unfoldable pub short_string : List (Text × Text) → Text → Text → Text
short_string [] missing s = missing
short_string ((long, short) ∷ pairs) missing s =
    let rest = short_string pairs missing s in if text_eq long s then short else rest

unfoldable pub wts_pairs : List (Text × Text)
unfolding bytes
wts_pairs =
    (bytes "TRADES", bytes "T")
    ∷ (bytes "MIDPOINT", bytes "M")
    ∷ (bytes "BID", bytes "B")
    ∷ (bytes "ASK", bytes "A")
    ∷ (bytes "BID_ASK", bytes "BA")
    ∷ (bytes "HISTORICAL_VOLATILITY", bytes "HV")
    ∷ (bytes "OPTION_IMPLIED_VOLATILITY", bytes "OIV")
    ∷ (bytes "OPTION_VOLUME", bytes "OV")
    ∷ []

unfoldable pub bar_size_pairs : List (Text × Text)
unfolding bytes
bar_size_pairs =
    (bytes "1 secs", bytes "s01")
    ∷ (bytes "5 secs", bytes "s05")
    ∷ (bytes "15 secs", bytes "s15")
    ∷ (bytes "30 secs", bytes "s30")
    ∷ (bytes "1 min", bytes "m01")
    ∷ (bytes "2 mins", bytes "m02")
    ∷ (bytes "3 mins", bytes "m03")
    ∷ (bytes "5 mins", bytes "m05")
    ∷ (bytes "15 mins", bytes "m15")
    ∷ (bytes "30 mins", bytes "m30")
    ∷ (bytes "1 hour", bytes "h01")
    ∷ (bytes "4 hour", bytes "h04")
    ∷ (bytes "1 day", bytes "eod")
    ∷ (bytes "1 week", bytes "w01")
    ∷ (bytes "1 month", bytes "x01")
    ∷ (bytes "3 months", bytes "x03")
    ∷ (bytes "1 year", bytes "y01")
    ∷ []

unfoldable pub short_wts : Text → Text
unfolding short_string wts_pairs bytes
short_wts wts = short_string wts_pairs (bytes "NNN") wts

unfoldable pub short_bar_size : Text → Text
unfolding short_string bar_size_pairs bytes
short_bar_size bar_size = short_string bar_size_pairs (bytes "00N") bar_size

unfoldable pub listed : Text → List Text → Bool
listed s [] = false
listed s (t ∷ ts) = text_eq t s || listed s ts

unfoldable pub no_repeats : List Text → Bool
unfolding listed
no_repeats [] = true
no_repeats (t ∷ ts) = not (listed t ts) && no_repeats ts

-- The first column, and the short names with that of NULL.
abbrev pub longs : List (Text × Text) → List Text
longs pairs = map (λ p. p.0) pairs

abbrev pub shorts : List (Text × Text) → List Text
shorts pairs = map (λ p. p.1) pairs

short_string-listed :
    (pairs : List (Text × Text)) (missing s : Text)
    → listed s (longs pairs) ≡ true
    → listed (short_string pairs missing s) (shorts pairs) ≡ true
unfolding short_string listed
short_string-listed [] missing s h = absurd (ground (arith, h))
short_string-listed ((long, short) ∷ pairs) missing s h = elim (Bool-cases (text_eq long s)) [
  | inl hit ↦ rw hit (ground (arith, text_eq_refl short))
  | inr miss ↦
      let rest = short_string-listed pairs missing s (ground (arith, h, miss)) in
      let step : short_string ((long, short) ∷ pairs) missing s ≡ short_string pairs missing s =
        rw miss refl in
      subst (λ u. (text_eq short u || listed u (shorts pairs)) ≡ true) (sym step)
        (ground (arith, rest))
]

-- In a table without repeats, different long names have different short ones.
short_string-inj :
    (pairs : List (Text × Text)) (missing s t : Text)
    → no_repeats (shorts pairs) ≡ true
    → listed s (longs pairs) ≡ true
    → listed t (longs pairs) ≡ true
    → short_string pairs missing s ≡ short_string pairs missing t
    → s ≡ t
unfolding short_string no_repeats listed
short_string-inj [] missing s t one hs ht e = absurd (ground (arith, hs))
short_string-inj ((long, short) ∷ pairs) missing s t one hs ht e =
    elim (Bool-cases (text_eq long s)) [
      | inl hit ↦ elim (Bool-cases (text_eq long t)) [
        | inl hit' ↦ sym ((text_eq_iff long s).0 hit) ∙ (text_eq_iff long t).0 hit'
        | inr miss' ↦ absurd (
            twice (ground (arith, one)) (short_string pairs missing t) (rw (hit, miss') at e)
              (short_string-listed pairs missing t (ground (arith, ht, miss'))))
      ]
      | inr miss ↦ elim (Bool-cases (text_eq long t)) [
        | inl hit' ↦ absurd (
            twice (ground (arith, one)) (short_string pairs missing s) (sym (rw (miss, hit') at e))
              (short_string-listed pairs missing s (ground (arith, hs, miss))))
        | inr miss' ↦
            short_string-inj pairs missing s t (ground (arith, one)) (ground (arith, hs, miss))
              (ground (arith, ht, miss')) (rw (miss, miss') at e)
      ]
    ]
  where
    twice :
        listed short (shorts pairs) ≡ false
        → (other : Text) → short ≡ other
        → listed other (shorts pairs) ≡ true
        → ⊥
    twice absent other same there =
        ground (arith, absent, there, ap (λ u. listed u (shorts pairs)) same)

wts-no_repeats : no_repeats (shorts wts_pairs) ≡ true
unfolding no_repeats listed wts_pairs bytes text_eq
wts-no_repeats = refl

bar_size-no_repeats : no_repeats (shorts bar_size_pairs) ≡ true
unfolding no_repeats listed bar_size_pairs bytes text_eq
bar_size-no_repeats = refl

-- Two settings that the tables know have the same short name only if they are the same.
pub short_names-inj :
    (s t : Text)
    → (listed s (longs wts_pairs) ≡ true
        → listed t (longs wts_pairs) ≡ true
        → short_wts s ≡ short_wts t
        → s ≡ t)
      × (listed s (longs bar_size_pairs) ≡ true
          → listed t (longs bar_size_pairs) ≡ true
          → short_bar_size s ≡ short_bar_size t
          → s ≡ t)
unfolding short_wts short_bar_size
short_names-inj s t = (
  short_string-inj wts_pairs (bytes "NNN") s t wts-no_repeats,
  short_string-inj bar_size_pairs (bytes "00N") s t bar_size-no_repeats,
)
