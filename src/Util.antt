-- ===== src/Util.antt =====
-- src/tws_util.cpp: durations, short names of settings and names of ticks. A std::string holds no byte 0.
pub mod Duration
pub mod Names
pub mod Ticks
mod Tests
use twstools.Base.{
  ℕ, suc, ◌+◌, ◌-◌, ◌*◌, ◌/◌, ltb, leb, ◌==◌, Bool, true, false, ◌&&◌, ◌||◌, Option, none, some,
  List, [], ◌∷◌, if◌then◌else◌, ◌>>=◌, length, get_elem?,
}
use twstools.Base.Int.{ℤ, pos, negsuc, int_max, leb_ℤ}
use twstools.Base.Text.{Text}

abbrev pub long_max : ℕ
long_max = 9223372036854775807

-- isspace and isdigit in the C locale
abbrev pub is_space : ℕ → Bool
is_space c = (c == 32) || (leb 9 c && leb c 13)

abbrev pub is_digit : ℕ → Bool
is_digit c = leb b'0' c && leb c b'9'

unfoldable pub count_spaces : Text → ℕ
count_spaces [] = 0
count_spaces (c ∷ s) = let rest = suc (count_spaces s) in if is_space c then rest else 0

unfoldable pub skip_spaces : Text → Text
skip_spaces [] = []
skip_spaces (c ∷ s) = let rest = skip_spaces s in if is_space c then rest else c ∷ s

-- The value of the digits at the start, on top of what stands before them, and their number.
unfoldable pub read_digits : ℕ → Text → ℕ × ℕ
read_digits acc [] = (acc, 0)
read_digits acc (c ∷ s) =
    let r = read_digits (acc * 10 + (c - b'0')) s in if is_digit c then (r.0, suc r.1) else (acc, 0)

abbrev clamped : Bool → ℕ → ℤ
clamped false v = pos (if ltb long_max v then long_max else v)
clamped true v =
    if v == 0 then pos 0 else (if ltb (suc long_max) v then negsuc long_max else negsuc (v - 1))

-- strtol( s, &tmp, 10 ): the value, and how far tmp stands behind s.
abbrev number_behind : Bool → ℕ → ℕ × ℕ → ℤ × ℕ
number_behind minus before (v, n) = if n == 0 then (pos 0, 0) else (clamped minus v, before + n)

unfoldable pub signed_number : ℕ → Text → ℤ × ℕ
unfolding read_digits
signed_number spaces [] = (pos 0, 0)
signed_number spaces (c ∷ s) =
    if c == b'-'
    then number_behind true (suc spaces) (read_digits 0 s)
    else (if c == b'+'
        then number_behind false (suc spaces) (read_digits 0 s)
        else number_behind false spaces (read_digits 0 (c ∷ s)))

unfoldable pub strtol : Text → ℤ × ℕ
unfolding signed_number count_spaces skip_spaces
strtol s = signed_number (count_spaces s) (skip_spaces s)

-- The switch over the last character.
unfoldable pub unit_secs : ℕ → Option ℕ
unit_secs c =
    if c == b'S'
    then some 1
    else (if c == b'D'
        then some 86400
        else (if c == b'W'
            then some (86400 * 7)
            else (if c == b'M'
                then some (86400 * 30)
                else (if c == b'Y' then some (86400 * 365) else none))))

unfoldable pub scaled : ℕ → ℤ → ℤ
scaled unit (negsuc n) = negsuc 0
scaled unit (pos v) = if ltb (int_max / unit) v then negsuc 0 else pos (v * unit)

-- Of a text without two characters it reads a byte before the first one, which `none` stands for.
unfoldable pub ib_duration2secs : Text → Option ℤ
ib_duration2secs dur =
    let len = length dur in
    if ltb len 2
    then none
    else (get_elem? dur (len - 2) >>= λ space. get_elem? dur (len - 1) >>= λ last.
        if space == b' '
        then some (elim (unit_secs last) [
          | none ↦ negsuc 0
          | some unit ↦ let r = strtol dur in if r.1 == (len - 2) then scaled unit r.0 else negsuc 0
        ])
        else some (negsuc 0))
