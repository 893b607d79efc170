-- ===== src/Gen.antt =====
-- src/twsgen.cpp: the jobs that are made out of contracts, and the rows out of historical data. `none` is
-- an exit(2), or a failed assertion.
pub mod Durations
pub mod Words
pub mod Dates
pub mod Jobs
mod Tests
use twstools.Base.{
  ℕ, suc, zero, ◌+◌, ◌/◌, ◌==◌, Bool, true, false, not, ◌&&◌, ◌||◌, Option, none, some, List, [],
  ◌∷◌, ◌++◌, if◌then◌else◌, ◌>>=◌, ◌>>◌, assert, length,
}
use twstools.Base.Int.{ℤ, pos, negsuc, eqb_ℤ}
use twstools.Base.Text.{Text, bytes, text_eq, text_lt, same_case, empty}
use twstools.Requests.{Contract, HistRequest, initialize}

-- The members of args_info that are given.
pub record Args : Type 0 where
  pub inputs : List Text
  pub verbose_xml : Bool
  pub histjob : Bool
  pub end_date_time : Option Text
  pub duration_str : Option Text
  pub bar_size_setting : Option Text
  pub what_to_show : Option Text
  pub use_rth : Bool
  pub utc : Bool
  pub include_expired : Option Text
  pub to_csv : Bool
  pub no_conv : Bool
  pub max_expiry : Option Text

-- The static variables that end in p.
pub record Settings : Type 0 where
  pub file : Option Text
  pub skip_def : Bool
  pub hist_job : Bool
  pub end_date_time : Text
  pub duration_str : Option Text
  pub bar_size_setting : Text
  pub what_to_show : Text
  pub use_rth : Bool
  pub utc : Bool
  pub include_expired : Text
  pub to_csv : Bool
  pub no_conv : Bool
  pub max_expiry : Option Text

unfoldable pub given_or : Text → Option Text → Text
given_or dflt none = dflt
given_or dflt (some arg) = arg

unfoldable pub settings_for : Option Text → Args → Settings
unfolding given_or bytes
settings_for file a = record {
  file = file;
  skip_def = a.verbose_xml;
  hist_job = a.histjob;
  end_date_time = given_or (bytes "") a.end_date_time;
  duration_str = a.duration_str;
  bar_size_setting = given_or (bytes "1 hour") a.bar_size_setting;
  what_to_show = given_or (bytes "TRADES") a.what_to_show;
  use_rth = a.use_rth;
  utc = a.utc;
  include_expired = given_or (bytes "auto") a.include_expired;
  to_csv = a.to_csv;
  no_conv = a.no_conv;
  max_expiry = a.max_expiry;
}

unfoldable pub gengetopt_check_opts : Args → Option Settings
unfolding settings_for
gengetopt_check_opts a = elim (a.inputs) [
  | [] ↦ some (settings_for none a)
  | file ∷ more ↦ elim more [ [] ↦ some (settings_for (some file) a) | _ ∷ _ ↦ none ]
]

unfoldable pub format_date : Settings → ℤ
format_date s = if s.utc then pos 2 else pos 1

-- expiry_mode
pub data ExpiryMode : Type 0 where
  exp_auto exp_always exp_never exp_keep : ExpiryMode

unfoldable pub set_include_expired : Text → Option ExpiryMode
unfolding bytes
set_include_expired s =
    if text_eq s (bytes "auto")
    then some exp_auto
    else (if text_eq s (bytes "always")
        then some exp_always
        else (if text_eq s (bytes "never")
            then some exp_never
            else (if text_eq s (bytes "keep") then some exp_keep else none)))

unfoldable pub get_inc_exp : ExpiryMode → Text → Option Bool
unfolding bytes
get_inc_exp exp_auto sec_type = some (
    same_case sec_type (bytes "OPT")
    || (same_case sec_type (bytes "FUT")
        || (same_case sec_type (bytes "FOP") || same_case sec_type (bytes "WAR"))))
get_inc_exp exp_always sec_type = some true
get_inc_exp exp_never sec_type = some false
get_inc_exp exp_keep sec_type = none
