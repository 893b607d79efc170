-- ===== src/Twsdo/Config.antt =====
-- struct ConfigTwsdo of src/twsdo.cpp.
use twstools.Base.{Bool, false, Option, none, some, [], if◌then◌else◌, ◌>>=◌, ◌&&◌, not}
use twstools.Base.Int.{ℤ, pos}
use twstools.Base.Text.{Text, bytes, same_case}

-- The values of the C library's address families that the code names.
pub data AiFamily : Type 0 where
  af_unspec af_inet af_inet6 : AiFamily

pub record ConfigTwsdo : Type 0 where
  pub workfile : Option Text
  pub skipdef : ℤ
  pub tws_host : Text
  pub tws_port : ℤ
  pub tws_client_id : ℤ
  pub ai_family : AiFamily
  pub get_account : Bool
  pub tws_account_name : Text
  pub get_exec : Bool
  pub get_order : Bool
  pub mkt_data_type : ℤ
  pub tws_con_timeout : ℤ
  pub tws_req_timeout : ℤ
  pub tws_max_requests : ℤ
  pub tws_pacing_interval : ℤ
  pub tws_min_pacing_time : ℤ
  pub tws_violation_pause : ℤ
  pub strat_file : Option Text

-- ConfigTwsdo()
unfoldable pub new_config : ConfigTwsdo
new_config = record {
  workfile = none;
  skipdef = pos 0;
  tws_host = bytes "localhost";
  tws_port = pos 7474;
  tws_client_id = pos 123;
  ai_family = af_unspec;
  get_account = false;
  tws_account_name = [];
  get_exec = false;
  get_order = false;
  mkt_data_type = pos 3;
  tws_con_timeout = pos 30000;
  tws_req_timeout = pos 1200000;
  tws_max_requests = pos 60;
  tws_pacing_interval = pos 605000;
  tws_min_pacing_time = pos 1000;
  tws_violation_pause = pos 60000;
  strat_file = none;
}

-- init_ai_family
unfoldable pub init_ai_family : Bool → Bool → ConfigTwsdo → ConfigTwsdo
init_ai_family ipv4 ipv6 c =
    if not ipv4 && not ipv6
    then record c { ai_family = af_inet }
    else (if ipv4 && ipv6
        then record c { ai_family = af_unspec }
        else (if ipv4 then record c { ai_family = af_inet } else record c { ai_family = af_inet6 }))

-- init_mkt_data_type. `number` is what the C library's strtol makes of the whole string, if it is a
-- number that an int holds; `none` is the exit of the program with an error. The test for "none" has
-- no else behind it.
unfoldable pub init_mkt_data_type : (Text → Option ℤ) → Text → ConfigTwsdo → Option ConfigTwsdo
init_mkt_data_type number str c =
    let c' = if same_case str (bytes "none") then record c { mkt_data_type = pos 0 } else c in
    if same_case str (bytes "real-time")
    then some (record c' { mkt_data_type = pos 1 })
    else (if same_case str (bytes "frozen")
        then some (record c' { mkt_data_type = pos 2 })
        else (if same_case str (bytes "delayed")
            then some (record c' { mkt_data_type = pos 3 })
            else (if same_case str (bytes "delayed-frozen")
                then some (record c' { mkt_data_type = pos 4 })
                else (number str >>= λ val. some (record c' { mkt_data_type = val })))))
