-- ===== src/Gen/Durations.antt =====
-- max_durationStr of src/twsgen.cpp: the duration for a bar size, if none is given.
use twstools.Base.{
  ℕ, ◌<◌, ◌≡◌, refl, Bool, true, false, Option, none, some, List, [], ◌∷◌, if◌then◌else◌, All,
  arith,
}
use twstools.Base.Int.{pos}
use twstools.Base.Text.{Text, bytes, text_eq, same_case}
use twstools.Util.{ib_duration2secs, strtol, unit_secs, scaled}

-- The branches that compare without case, in order.
unfoldable pub max_durations : List (Text × Text)
unfolding bytes
max_durations =
    (bytes "5 secs", bytes "10000 S")
    ∷ (bytes "15 secs", bytes "30000 S")
    ∷ (bytes "30 secs", bytes "86400 S")
    ∷ (bytes "1 min", bytes "6 D")
    ∷ (bytes "2 mins", bytes "6 D")
    ∷ (bytes "3 mins", bytes "6 D")
    ∷ (bytes "5 mins", bytes "6 D")
    ∷ (bytes "15 mins", bytes "20 D")
    ∷ (bytes "30 mins", bytes "34 D")
    ∷ (bytes "1 hour", bytes "34 D")
    ∷ (bytes "4 hours", bytes "34 D")
    ∷ (bytes "1 day", bytes "1 Y")
    ∷ []

unfoldable pub find_duration : List (Text × Text) → Text → Option Text
find_duration [] bar = none
find_duration ((b, d) ∷ rows) bar =
    let rest = find_duration rows bar in if same_case bar b then some d else rest

unfoldable pub max_duration_str : Text → Option Text
unfolding bytes max_durations find_duration
max_duration_str bar =
    if text_eq bar (bytes "1 secs") then some (bytes "2000 S") else find_duration max_durations bar

-- A duration that ib_duration2secs reads, if there is one.
abbrev pub IsRead : Option Text → Type 0
IsRead none = Unit
IsRead (some d) = (n : ℕ) × (ib_duration2secs d ≡ some (pos n)) × (0 < n)

IsRead-if : (b : Bool) (x y : Option Text) → IsRead x → IsRead y → IsRead (if b then x else y)
IsRead-if true x y h k = h
IsRead-if false x y h k = k

find_duration-IsRead :
    (rows : List (Text × Text)) (bar : Text)
    → All (λ r. IsRead (some r.1)) rows
    → IsRead (find_duration rows bar)
unfolding find_duration
find_duration-IsRead [] bar h = tt
find_duration-IsRead ((b, d) ∷ rows) bar h =
    IsRead-if (same_case bar b) (some d) (find_duration rows bar) h.0
      (find_duration-IsRead rows bar h.1)

max_durations-IsRead : All (λ r. IsRead (some r.1)) max_durations
unfolding max_durations ib_duration2secs strtol unit_secs scaled
max_durations-IsRead = (
  (10000, refl, omega arith),
  (
    (30000, refl, omega arith),
    (
      (86400, refl, omega arith),
      (
        (518400, refl, omega arith),
        (
          (518400, refl, omega arith),
          (
            (518400, refl, omega arith),
            (
              (518400, refl, omega arith),
              (
                (1728000, refl, omega arith),
                (
                  (2937600, refl, omega arith),
                  (
                    (2937600, refl, omega arith),
                    ((2937600, refl, omega arith), ((31536000, refl, omega arith), tt)),
                  ),
                ),
              ),
            ),
          ),
        ),
      ),
    ),
  ),
)

-- The duration that is chosen for a bar size, if there is one, is one that ib_duration2secs reads, as a
-- positive number of seconds.
pub max_duration_str-IsRead : (bar : Text) → IsRead (max_duration_str bar)
unfolding max_duration_str ib_duration2secs strtol unit_secs scaled
max_duration_str-IsRead bar =
    IsRead-if (text_eq bar (bytes "1 secs")) (some (bytes "2000 S"))
      (find_duration max_durations bar) (2000, refl, omega arith)
      (find_duration-IsRead max_durations bar max_durations-IsRead)
