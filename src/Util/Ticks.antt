-- ===== src/Util/Ticks.antt =====
-- ibToString( int tickType ) of src/tws_util.cpp: the names of the ticks. The enumerators of TickType are
-- the API's; `unknown_tick` is any value that the switch does not name.
use twstools.Base.{◌≡◌, refl, sym, ap, ◌∙◌, List, [], ◌∷◌, if◌then◌else◌}
use twstools.Base.Text.{Text, bytes, text_eq}

pub data TickType : Type 0 where
  bid_size bid ask ask_size last last_size high low volume close bid_option_computation
        ask_option_computation last_option_computation model_option open_tick low_13_week
        high_13_week low_26_week high_26_week low_52_week high_52_week avg_volume open_interest
        option_historical_vol option_implied_vol option_bid_exch option_ask_exch
        option_call_open_interest option_put_open_interest option_call_volume option_put_volume
        index_future_premium bid_exch ask_exch auction_volume auction_price auction_imbalance
        mark_price bid_efp_computation ask_efp_computation last_efp_computation open_efp_computation
        high_efp_computation low_efp_computation close_efp_computation last_timestamp shortable
        fundamental_ratios rt_volume halted bid_yield ask_yield last_yield cust_option_computation
        trade_count trade_rate volume_rate last_rth_trade rt_historical_vol ib_dividends
        bond_factor_multiplier regulatory_imbalance news_tick short_term_volume_3_min
        short_term_volume_5_min short_term_volume_10_min delayed_bid delayed_ask delayed_last
        delayed_bid_size delayed_ask_size delayed_last_size delayed_high delayed_low delayed_volume
        delayed_close delayed_open rt_trd_volume creditman_mark_price creditman_slow_mark_price
        delayed_bid_option_computation delayed_ask_option_computation
        delayed_last_option_computation delayed_model_option_computation last_exch last_reg_time
        futures_open_interest avg_opt_volume delayed_last_timestamp unknown_tick :
      TickType

unfoldable pub ib_to_string : TickType → Text
unfolding bytes
ib_to_string bid_size = bytes "bidSize"
ib_to_string bid = bytes "bidPrice"
ib_to_string ask = bytes "askPrice"
ib_to_string ask_size = bytes "askSize"
ib_to_string last = bytes "lastPrice"
ib_to_string last_size = bytes "lastSize"
ib_to_string high = bytes "high"
ib_to_string low = bytes "low"
ib_to_string volume = bytes "volume"
ib_to_string close = bytes "close"
ib_to_string bid_option_computation = bytes "bidOptComp"
ib_to_string ask_option_computation = bytes "askOptComp"
ib_to_string last_option_computation = bytes "lastOptComp"
ib_to_string model_option = bytes "modelOptComp"
ib_to_string open_tick = bytes "open"
ib_to_string low_13_week = bytes "13WeekLow"
ib_to_string high_13_week = bytes "13WeekHigh"
ib_to_string low_26_week = bytes "26WeekLow"
ib_to_string high_26_week = bytes "26WeekHigh"
ib_to_string low_52_week = bytes "52WeekLow"
ib_to_string high_52_week = bytes "52WeekHigh"
ib_to_string avg_volume = bytes "AvgVolume"
ib_to_string open_interest = bytes "OpenInterest"
ib_to_string option_historical_vol = bytes "OptionHistoricalVolatility"
ib_to_string option_implied_vol = bytes "OptionImpliedVolatility"
ib_to_string option_bid_exch = bytes "OptionBidExchStr"
ib_to_string option_ask_exch = bytes "OptionAskExchStr"
ib_to_string option_call_open_interest = bytes "OptionCallOpenInterest"
ib_to_string option_put_open_interest = bytes "OptionPutOpenInterest"
ib_to_string option_call_volume = bytes "OptionCallVolume"
ib_to_string option_put_volume = bytes "OptionPutVolume"
ib_to_string index_future_premium = bytes "IndexFuturePremium"
ib_to_string bid_exch = bytes "bidExch"
ib_to_string ask_exch = bytes "askExch"
ib_to_string auction_volume = bytes "auctionVolume"
ib_to_string auction_price = bytes "auctionPrice"
ib_to_string auction_imbalance = bytes "auctionImbalance"
ib_to_string mark_price = bytes "markPrice"
ib_to_string bid_efp_computation = bytes "bidEFP"
ib_to_string ask_efp_computation = bytes "askEFP"
ib_to_string last_efp_computation = bytes "lastEFP"
ib_to_string open_efp_computation = bytes "openEFP"
ib_to_string high_efp_computation = bytes "highEFP"
ib_to_string low_efp_computation = bytes "lowEFP"
ib_to_string close_efp_computation = bytes "closeEFP"
ib_to_string last_timestamp = bytes "lastTimestamp"
ib_to_string shortable = bytes "shortable"
ib_to_string fundamental_ratios = bytes "fundamentals"
ib_to_string rt_volume = bytes "RTVolume"
ib_to_string halted = bytes "halted"
ib_to_string bid_yield = bytes "bidYield"
ib_to_string ask_yield = bytes "askYield"
ib_to_string last_yield = bytes "lastYield"
ib_to_string cust_option_computation = bytes "custOptComp"
ib_to_string trade_count = bytes "trades"
ib_to_string trade_rate = bytes "trades/min"
ib_to_string volume_rate = bytes "volume/min"
ib_to_string last_rth_trade = bytes "lastRTHTrade"
ib_to_string rt_historical_vol = bytes "RTHistoricalVol"
ib_to_string ib_dividends = bytes "IBDividends"
ib_to_string bond_factor_multiplier = bytes "bondFactorMultiplier"
ib_to_string regulatory_imbalance = bytes "regulatoryImbalance"
ib_to_string news_tick = bytes "newsTick"
ib_to_string short_term_volume_3_min = bytes "shortTermVolume3Min"
ib_to_string short_term_volume_5_min = bytes "shortTermVolume5Min"
ib_to_string short_term_volume_10_min = bytes "shortTermVolume10Min"
ib_to_string delayed_bid = bytes "delayedBid"
ib_to_string delayed_ask = bytes "delayedAsk"
ib_to_string delayed_last = bytes "delayedLast"
ib_to_string delayed_bid_size = bytes "delayedBidSize"
ib_to_string delayed_ask_size = bytes "delayedAskSize"
ib_to_string delayed_last_size = bytes "delayedLastSize"
ib_to_string delayed_high = bytes "delayedHigh"
ib_to_string delayed_low = bytes "delayedLow"
ib_to_string delayed_volume = bytes "delayedVolume"
ib_to_string delayed_close = bytes "delayedClose"
ib_to_string delayed_open = bytes "delayedOpen"
ib_to_string rt_trd_volume = bytes "rtTrdVolume"
ib_to_string creditman_mark_price = bytes "creditmanMarkPrice"
ib_to_string creditman_slow_mark_price = bytes "creditmanSlowMarkPrice"
ib_to_string delayed_bid_option_computation = bytes "delayedBidOptComp"
ib_to_string delayed_ask_option_computation = bytes "delayedAskOptComp"
ib_to_string delayed_last_option_computation = bytes "delayedLastOptComp"
ib_to_string delayed_model_option_computation = bytes "delayedModelOptComp"
ib_to_string last_exch = bytes "lastExchange"
ib_to_string last_reg_time = bytes "lastRegTime"
ib_to_string futures_open_interest = bytes "futuresOpenInterest"
ib_to_string avg_opt_volume = bytes "avgOptVolume"
ib_to_string delayed_last_timestamp = bytes "delayedLastTimestamp"
ib_to_string unknown_tick = bytes "unknown"

abbrev known_ticks : List TickType
known_ticks =
    bid_size ∷ bid ∷ ask ∷ ask_size ∷ last ∷ last_size ∷ high ∷ low ∷ volume ∷ close
    ∷ bid_option_computation ∷ ask_option_computation ∷ last_option_computation ∷ model_option
    ∷ open_tick ∷ low_13_week ∷ high_13_week ∷ low_26_week ∷ high_26_week ∷ low_52_week
    ∷ high_52_week ∷ avg_volume ∷ open_interest ∷ option_historical_vol ∷ option_implied_vol
    ∷ option_bid_exch ∷ option_ask_exch ∷ option_call_open_interest ∷ option_put_open_interest
    ∷ option_call_volume ∷ option_put_volume ∷ index_future_premium ∷ bid_exch ∷ ask_exch
    ∷ auction_volume ∷ auction_price ∷ auction_imbalance ∷ mark_price ∷ bid_efp_computation
    ∷ ask_efp_computation ∷ last_efp_computation ∷ open_efp_computation ∷ high_efp_computation
    ∷ low_efp_computation ∷ close_efp_computation ∷ last_timestamp ∷ shortable ∷ fundamental_ratios
    ∷ rt_volume ∷ halted ∷ bid_yield ∷ ask_yield ∷ last_yield ∷ cust_option_computation
    ∷ trade_count ∷ trade_rate ∷ volume_rate ∷ last_rth_trade ∷ rt_historical_vol ∷ ib_dividends
    ∷ bond_factor_multiplier ∷ regulatory_imbalance ∷ news_tick ∷ short_term_volume_3_min
    ∷ short_term_volume_5_min ∷ short_term_volume_10_min ∷ delayed_bid ∷ delayed_ask ∷ delayed_last
    ∷ delayed_bid_size ∷ delayed_ask_size ∷ delayed_last_size ∷ delayed_high ∷ delayed_low
    ∷ delayed_volume ∷ delayed_close ∷ delayed_open ∷ rt_trd_volume ∷ creditman_mark_price
    ∷ creditman_slow_mark_price ∷ delayed_bid_option_computation ∷ delayed_ask_option_computation
    ∷ delayed_last_option_computation ∷ delayed_model_option_computation ∷ last_exch ∷ last_reg_time
    ∷ futures_open_interest ∷ avg_opt_volume ∷ delayed_last_timestamp ∷ []

find_tick : List TickType → Text → TickType
unfolding ib_to_string text_eq
find_tick [] s = unknown_tick
find_tick (t ∷ ts) s = let rest = find_tick ts s in if text_eq (ib_to_string t) s then t else rest

tick_named : Text → TickType
unfolding find_tick
tick_named s = find_tick known_ticks s

tick_named-to_string : (t : TickType) → tick_named (ib_to_string t) ≡ t
unfolding tick_named
tick_named-to_string bid_size = refl
tick_named-to_string bid = refl
tick_named-to_string ask = refl
tick_named-to_string ask_size = refl
tick_named-to_string last = refl
tick_named-to_string last_size = refl
tick_named-to_string high = refl
tick_named-to_string low = refl
tick_named-to_string volume = refl
tick_named-to_string close = refl
tick_named-to_string bid_option_computation = refl
tick_named-to_string ask_option_computation = refl
tick_named-to_string last_option_computation = refl
tick_named-to_string model_option = refl
tick_named-to_string open_tick = refl
tick_named-to_string low_13_week = refl
tick_named-to_string high_13_week = refl
tick_named-to_string low_26_week = refl
tick_named-to_string high_26_week = refl
tick_named-to_string low_52_week = refl
tick_named-to_string high_52_week = refl
tick_named-to_string avg_volume = refl
tick_named-to_string open_interest = refl
tick_named-to_string option_historical_vol = refl
tick_named-to_string option_implied_vol = refl
tick_named-to_string option_bid_exch = refl
tick_named-to_string option_ask_exch = refl
tick_named-to_string option_call_open_interest = refl
tick_named-to_string option_put_open_interest = refl
tick_named-to_string option_call_volume = refl
tick_named-to_string option_put_volume = refl
tick_named-to_string index_future_premium = refl
tick_named-to_string bid_exch = refl
tick_named-to_string ask_exch = refl
tick_named-to_string auction_volume = refl
tick_named-to_string auction_price = refl
tick_named-to_string auction_imbalance = refl
tick_named-to_string mark_price = refl
tick_named-to_string bid_efp_computation = refl
tick_named-to_string ask_efp_computation = refl
tick_named-to_string last_efp_computation = refl
tick_named-to_string open_efp_computation = refl
tick_named-to_string high_efp_computation = refl
tick_named-to_string low_efp_computation = refl
tick_named-to_string close_efp_computation = refl
tick_named-to_string last_timestamp = refl
tick_named-to_string shortable = refl
tick_named-to_string fundamental_ratios = refl
tick_named-to_string rt_volume = refl
tick_named-to_string halted = refl
tick_named-to_string bid_yield = refl
tick_named-to_string ask_yield = refl
tick_named-to_string last_yield = refl
tick_named-to_string cust_option_computation = refl
tick_named-to_string trade_count = refl
tick_named-to_string trade_rate = refl
tick_named-to_string volume_rate = refl
tick_named-to_string last_rth_trade = refl
tick_named-to_string rt_historical_vol = refl
tick_named-to_string ib_dividends = refl
tick_named-to_string bond_factor_multiplier = refl
tick_named-to_string regulatory_imbalance = refl
tick_named-to_string news_tick = refl
tick_named-to_string short_term_volume_3_min = refl
tick_named-to_string short_term_volume_5_min = refl
tick_named-to_string short_term_volume_10_min = refl
tick_named-to_string delayed_bid = refl
tick_named-to_string delayed_ask = refl
tick_named-to_string delayed_last = refl
tick_named-to_string delayed_bid_size = refl
tick_named-to_string delayed_ask_size = refl
tick_named-to_string delayed_last_size = refl
tick_named-to_string delayed_high = refl
tick_named-to_string delayed_low = refl
tick_named-to_string delayed_volume = refl
tick_named-to_string delayed_close = refl
tick_named-to_string delayed_open = refl
tick_named-to_string rt_trd_volume = refl
tick_named-to_string creditman_mark_price = refl
tick_named-to_string creditman_slow_mark_price = refl
tick_named-to_string delayed_bid_option_computation = refl
tick_named-to_string delayed_ask_option_computation = refl
tick_named-to_string delayed_last_option_computation = refl
tick_named-to_string delayed_model_option_computation = refl
tick_named-to_string last_exch = refl
tick_named-to_string last_reg_time = refl
tick_named-to_string futures_open_interest = refl
tick_named-to_string avg_opt_volume = refl
tick_named-to_string delayed_last_timestamp = refl
tick_named-to_string unknown_tick = refl

-- No two ticks have the same name.
pub ib_to_string-inj : (s t : TickType) → ib_to_string s ≡ ib_to_string t → s ≡ t
ib_to_string-inj s t e = sym (tick_named-to_string s) ∙ ap tick_named e ∙ tick_named-to_string t
