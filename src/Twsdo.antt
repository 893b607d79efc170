-- ===== src/Twsdo.antt =====
-- class TwsDL of src/twsdo.cpp: the program that works off the requests. What the object refers to is
-- part of its record; what it sends with twsClient is the list `sent`, the last message in front.
pub mod Config
pub mod Packets
pub mod Sending
pub mod Finish
pub mod Expiry
pub mod Errors
pub mod Callbacks
pub mod Loop
pub mod Same
pub mod Answers
pub mod Handlers
pub mod Working
pub mod Asking
pub mod Reach
pub mod Orders
pub mod Resent
pub mod Waiting
pub mod Quitting
mod Tests
use twstools.Base.{
  ℕ, Bool, true, false, Option, none, some, List, [], ◌∷◌, ◌>>=◌, ◌>>◌, assert, not,
}
use twstools.Base.Int.{ℤ, pos, ◌+ℤ◌, to_int}
use twstools.Base.Text.{Text}
use twstools.Base.Map.{Map}
use twstools.Requests.{Contract, Order, HistRequest}
use twstools.Rows.{ContractDetails}
use twstools.Account.{Account, new_account}
use twstools.Rate.{RateLimit, new_limit}
use twstools.Farms.{DataFarmStates, new_states}
use twstools.Pacing.God.{PacingGod, new_god}
use twstools.Todo.Work.{GenericRequest, new_request, WorkTodo, new_work_todo}
use Config.{ConfigTwsdo, new_config}
use Packets.{AnyPacket, OrderPacket}

-- TwsDL::State
pub data State : Type 0 where
  wait_tws_con idle : State

-- struct TwsHeartBeat
pub record TwsHeartBeat : Type 0 where
  pub cnt_sent : ℤ
  pub cnt_recv : ℤ
  pub time_sent : ℤ
  pub time_recv : ℤ
  pub tws_time : ℤ

-- TwsHeartBeat() and reset
unfoldable pub new_heart_beat : TwsHeartBeat
new_heart_beat = record {
  cnt_sent = pos 0;
  cnt_recv = pos 0;
  time_sent = pos 0;
  time_recv = pos 0;
  tws_time = pos 0;
}

-- A call of twsClient that sends something.
pub data Message : Type 0 where
  req_contract_details_msg : ℤ → Contract → Message
  req_historical_data_msg : ℤ → HistRequest → Message
  req_account_updates_msg : Bool → Text → Message
  req_executions_msg : ℤ → Message
  req_all_open_orders_msg : Message
  req_sec_def_opt_params_msg : ℤ → Contract → Message
  req_mkt_data_msg : ℤ → Contract → Text → Bool → Message
  req_market_data_type_msg : ℤ → Message
  req_current_time_msg : Message
  place_order_msg : ℤ → Contract → Order → Message
  cancel_order_msg : ℤ → Message
  start_api_msg : Message

-- class TwsDL. `strat` says whether a strategy is loaded, `quotes` is the size of the vector of quotes,
-- and `mkt_req_id` the static variable of idle.
pub record TwsDl : Type 0 where
  pub state : State
  pub quit : Bool
  pub error : ℤ
  pub last_error : Text
  pub last_connection_time : ℤ
  pub tws_hb : TwsHeartBeat
  pub tws_valid_order_id : ℤ
  pub connectivity_ib_tws : Bool
  pub cur_idle_time : ℤ
  pub cfg : ConfigTwsdo
  pub rate_limit : RateLimit
  pub msg_counter : ℤ
  pub current_request : GenericRequest
  pub work_todo : WorkTodo
  pub account : Account
  pub quotes : ℕ
  pub packet : Option AnyPacket
  pub p_orders : Map ℤ OrderPacket
  pub p_orders_old : Map ℤ OrderPacket
  pub con_details : Map ℤ ContractDetails
  pub data_farms : DataFarmStates
  pub pacing_control : PacingGod
  pub strat : Bool
  pub mkt_req_id : ℤ
  pub sent : List Message

-- TwsDL()
unfoldable pub new_tws_dl : TwsDl
new_tws_dl = record {
  state = idle;
  quit = false;
  error = pos 0;
  last_error = [];
  last_connection_time = pos 0;
  tws_hb = new_heart_beat;
  tws_valid_order_id = pos 0;
  connectivity_ib_tws = false;
  cur_idle_time = pos 0;
  cfg = new_config;
  rate_limit = new_limit;
  msg_counter = pos 0;
  current_request = new_request;
  work_todo = new_work_todo;
  account = new_account;
  quotes = 0;
  packet = none;
  p_orders = [];
  p_orders_old = [];
  con_details = [];
  data_farms = new_states;
  pacing_control = new_god;
  strat = false;
  mkt_req_id = pos 0;
  sent = [];
}

abbrev pub is_idle : State → Bool
is_idle idle = true
is_idle wait_tws_con = false

-- changeState, which asserts a change
unfoldable pub change_state : State → TwsDl → Option TwsDl
change_state idle t = assert (not (is_idle t.state)) >> some (record t { state = idle })
change_state wait_tws_con t = assert (is_idle t.state) >> some (record t { state = wait_tws_con })

-- A call of twsClient.
unfoldable pub send : Message → TwsDl → TwsDl
send m t = record t { sent = m ∷ t.sent }

-- A call on the packet, a null pointer being undefined behaviour.
unfoldable pub with_packet : (AnyPacket → Option AnyPacket) → TwsDl → Option TwsDl
with_packet f t = t.packet >>= λ p. f p >>= λ p'. some (record t { packet = some p' })
