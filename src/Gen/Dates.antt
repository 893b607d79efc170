-- ===== src/Gen/Dates.antt =====
-- min_begin_date and skip_expiry of src/twsgen.cpp, with ib_strptime of src/tws_util.cpp. The C library's
-- calls are parameters.
pub mod Steps
use twstools.Base.{
  ℕ, zero, suc, ◌+◌, ◌-◌, ◌*◌, ◌/◌, ◌%◌, ◌≤◌, ◌<◌, ◌==◌, ◌≡◌, refl, sym, ap, ◌∙◌, inl, inr, Bool,
  true, false, not, ◌||◌, Option, none, some, List, [], ◌∷◌, if◌then◌else◌, ◌>>=◌, ◌>>◌, assert,
  arith, Bool-cases,
}
use twstools.Base.Int.{ℤ, pos, negsuc, ◌+ℤ◌, ◌-ℤ◌, ◌<ℤ◌, ltb_ℤ, eqb_ℤ, eq_of_parts, int_laws, ℤ_ext}
use twstools.Base.Text.{Text, bytes, empty}
use twstools.Util.{ib_duration2secs}

-- struct tm; tm_wday is 0 on a Sunday.
pub record Tm : Type 0 where
  pub year : ℤ
  pub mon : ℤ
  pub mday : ℤ
  pub hour : ℤ
  pub minute : ℤ
  pub sec : ℤ
  pub wday : ℕ
  pub isdst : ℤ

-- strptime of a text and a format into a struct tm of zeros: what it stores, and the text that is left;
-- and mktime.
pub record TimeLib : Type 0 where
  pub strptime : Text → Text → Option (Tm × Text)
  pub mktime : Tm → ℤ

-- *tmp == '\0', of a result that is not NULL
abbrev pub parsed_all : Option (Tm × Text) → Option Tm
parsed_all none = none
parsed_all (some (tm, rest)) = if empty rest then some tm else none

module _ (lib : TimeLib) where
  -- `none` is the result -1.
  unfoldable pub ib_strptime : Text → Option Tm
  unfolding bytes
  ib_strptime s = elim (parsed_all (lib.strptime s (bytes "%Y%m%d"))) [
    | some tm ↦ some tm
    | none ↦ parsed_all (lib.strptime s (bytes "%Y%m%d%t%H:%M:%S"))
  ]

-- The quotient and the remainder of ints by a positive number, which C rounds towards 0.
unfoldable pub quotient : ℤ → ℕ → ℤ
quotient (pos n) k = pos (n / k)
quotient (negsuc n) k = pos 0 -ℤ pos (suc n / k)

unfoldable pub remainder : ℤ → ℕ → ℤ
remainder (pos n) k = pos (n % k)
remainder (negsuc n) k = pos 0 -ℤ pos (suc n % k)

-- Saturday and Sunday: the day, and minus_busy_days.
unfoldable pub leave_weekend : Tm → ℤ → Tm × ℤ
leave_weekend tm days =
    if tm.wday == 0
    then (record tm { mday = tm.mday -ℤ pos 2; wday = 5 }, days -ℤ pos 1)
    else (if tm.wday == 6
        then (record tm { mday = tm.mday -ℤ pos 1; wday = 5 }, days -ℤ pos 1)
        else (tm, days))

-- The body of the loop.
unfoldable pub day_back : Tm → Tm
day_back tm =
    if tm.wday == 1
    then record tm { mday = tm.mday -ℤ pos 3; wday = 5 }
    else record tm { mday = tm.mday -ℤ pos 1; wday = tm.wday - 1 }

unfoldable pub days_back : ℕ → Tm → Tm
unfolding day_back
days_back zero tm = tm
days_back (suc n) tm = days_back n (day_back tm)

-- 7 * weeks
unfoldable pub weeks_back : ℤ → Tm → Tm
weeks_back (pos n) tm = record tm { mday = tm.mday -ℤ pos (7 * n) }
weeks_back (negsuc n) tm = record tm { mday = tm.mday +ℤ pos (7 * suc n) }

-- while( minus_busy_days > 0 )
abbrev pub rounds : ℤ → ℕ
rounds (pos n) = n
rounds (negsuc n) = 0

unfoldable pub busy_days_back : Tm → ℤ → Tm
unfolding weeks_back days_back quotient remainder
busy_days_back tm days =
    let r = leave_weekend tm days in
    days_back (rounds (remainder r.1 5)) (weeks_back (quotient r.1 5) r.0)

module _ (lib : TimeLib) where
  unfoldable pub min_begin_date : Text → Text → Option ℤ
  unfolding ib_strptime
  min_begin_date end dur = elim (ib_strptime lib end) [
    | none ↦ some (pos 0)
    | some tm ↦ ib_duration2secs dur >>= λ secs.
        if eqb_ℤ secs (negsuc 0)
        then some (pos 0)
        else (let t =
              lib.mktime (busy_days_back (record tm { isdst = negsuc 0 }) (quotient secs 86400)) in
            assert (not (eqb_ℤ t (negsuc 0))) >> some t)
  ]

  unfoldable pub skip_expiry : Text → ℤ → Option Bool
  unfolding ib_strptime
  skip_expiry expiry t_before =
      if empty expiry
      then some false
      else (ib_strptime lib expiry >>= λ tm.
          let t = lib.mktime (record tm { isdst = negsuc 0 }) in
          assert (not (eqb_ℤ t (negsuc 0))) >> some (ltb_ℤ t t_before))
