-- ===== src/Util/Tests.antt =====
-- Examples for src/tws_util.cpp.
use twstools.Base.{
  ◌≤◌, ◌<◌, ◌≡◌, refl, none, some, [], ◌∷◌, leb, ◌/◌, ◌*◌, if◌then◌else◌, length, Returns,
}
use twstools.Base.Int.{pos, negsuc, int_max}
use twstools.Base.Text.{bytes, text_eq}
use twstools.Util.{ib_duration2secs, unit_secs}
use twstools.Util.Duration.{value, IsSeconds, ib_duration2secs_lem, ib_duration2secs-IsSeconds}
use twstools.Util.Names.{short_bar_size}

-- 34 D
ib_duration2secs_lem_example :
    ib_duration2secs (b'3' ∷ b'4' ∷ b' ' ∷ b'D' ∷ [])
    ≡ some (elim (unit_secs b'D') [
      | none ↦ negsuc 0
      | some u ↦
          if leb (value 0 (b'3' ∷ b'4' ∷ [])) (int_max / u)
          then pos (value 0 (b'3' ∷ b'4' ∷ []) * u)
          else negsuc 0
    ])
ib_duration2secs_lem_example = ib_duration2secs_lem b'3' (b'4' ∷ []) b'D' (refl, (refl, tt))

ib_duration2secs-IsSeconds_example :
    (2 ≤ length (bytes "1 W") → Returns IsSeconds (ib_duration2secs (bytes "1 W")))
    × (length (bytes "1 W") < 2 → ib_duration2secs (bytes "1 W") ≡ none)
ib_duration2secs-IsSeconds_example = ib_duration2secs-IsSeconds (bytes "1 W")

-- twsgen knows this bar size, and there is no short name for it.
four_hours : short_bar_size (bytes "4 hours") ≡ bytes "00N"
unfolding short_bar_size text_eq
four_hours = refl
