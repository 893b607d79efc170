-- ===== src/Gen/Tests.antt =====
-- Examples for src/twsgen.cpp.
use twstools.Base.{◌≡◌, refl, inl, true, false, none, some, List, [], ◌∷◌, arith}
use twstools.Base.Cuts.{concat}
use twstools.Base.Int.{pos, ◌-ℤ◌}
use twstools.Base.Text.{Text, bytes}
use twstools.Requests.{Contract}
use twstools.Samples.{contract_a, contract_b}
use twstools.Util.{ib_duration2secs, unit_secs, strtol, scaled}
use twstools.Gen.{Settings, exp_auto}
use twstools.Gen.Durations.{IsRead, max_duration_str, max_duration_str-IsRead}
use twstools.Gen.Words.{split_what_to_show, words, split_what_to_show_lem}
use twstools.Gen.Dates.{Tm, TimeLib, busy_days_back, leave_weekend, min_begin_date}
use twstools.Gen.Dates.Steps.{business_days_before, busy_days_back-steps}
use twstools.Gen.Jobs.{gen_hist_job}
use twstools.Gen.Jobs.Laws.{requests_of, gen_hist_job_lem}

split_what_to_show_lem_example :
    split_what_to_show (bytes "BID, ASK") ≡ some (words (bytes "BID, ASK"))
split_what_to_show_lem_example = split_what_to_show_lem (bytes "BID, ASK")

two_words : words (bytes ",BID, \tASK ") ≡ bytes "BID" ∷ bytes "ASK" ∷ []
unfolding words bytes
two_words = refl

max_duration_str-IsRead_example : IsRead (max_duration_str (bytes "1 hour"))
max_duration_str-IsRead_example = max_duration_str-IsRead (bytes "1 hour")

-- A Sunday.
abbrev a_sunday : Tm
a_sunday = record {
  year = pos 118;
  mon = pos 1;
  mday = pos 18;
  hour = pos 0;
  minute = pos 0;
  sec = pos 0;
  wday = 0;
  isdst = pos 0;
}

busy_days_back-steps_example : busy_days_back a_sunday (pos 7) ≡ business_days_before 7 a_sunday
busy_days_back-steps_example = busy_days_back-steps 7 a_sunday (omega arith) (inl (omega arith))

-- A calendar in which every text is that Sunday.
abbrev one_day : TimeLib
one_day = record { strptime = λ s f. some (a_sunday, []); mktime = λ tm. tm.mday }

abbrev plain_settings : Settings
plain_settings = record {
  file = none;
  skip_def = false;
  hist_job = true;
  end_date_time = bytes "20180218";
  duration_str = none;
  bar_size_setting = bytes "1 hour";
  what_to_show = bytes "BID ASK";
  use_rth = false;
  utc = false;
  include_expired = bytes "auto";
  to_csv = false;
  no_conv = false;
  max_expiry = some (bytes "20180301");
}

abbrev bid_ask : List Text
bid_ask = bytes "BID" ∷ bytes "ASK" ∷ []

abbrev two_packets : List (List Contract)
two_packets = (contract_a ∷ []) ∷ (contract_b ∷ []) ∷ []

gen_hist_job_lem_example :
    gen_hist_job one_day plain_settings (bytes "2 D") exp_auto bid_ask (some two_packets)
    ≡ some (
      true,
      requests_of one_day plain_settings
          (bytes "2 D")
          exp_auto
          bid_ask
          (pos 15)
          (concat two_packets),
    )
unfolding min_begin_date ib_duration2secs unit_secs strtol scaled busy_days_back leave_weekend ◌-ℤ◌
gen_hist_job_lem_example =
    gen_hist_job_lem one_day plain_settings (bytes "2 D") exp_auto bid_ask two_packets (pos 15) refl
      ((refl, tt), ((refl, tt), tt))
