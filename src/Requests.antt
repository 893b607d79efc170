-- ===== src/Requests.antt =====
-- The requests of src/tws_query.h, and of the API's structs the fields that the modelled code reads.
use twstools.Base.{ℕ, Bool}
use twstools.Base.Int.{ℤ}
use twstools.Base.Text.{Text}

-- class Contract of the API.
pub record Contract : Type 0 where
  pub con_id : ℤ
  pub symbol : Text
  pub sec_type : Text
  pub expiry : Text
  pub exchange : Text
  pub currency : Text
  pub multiplier : Text
  pub local_symbol : Text
  pub include_expired : Bool

-- class HistRequest
pub record HistRequest : Type 0 where
  pub ib_contract : Contract
  pub end_date_time : Text
  pub duration_str : Text
  pub bar_size_setting : Text
  pub what_to_show : Text
  pub use_rth : ℤ
  pub format_date : ℤ

-- HistRequest::initialize
unfoldable pub initialize : Contract → Text → Text → Text → Text → ℤ → ℤ → HistRequest
initialize c e d b w u f = record {
  ib_contract = c;
  end_date_time = e;
  duration_str = d;
  bar_size_setting = b;
  what_to_show = w;
  use_rth = u;
  format_date = f;
}

-- A double by the bits of its representation; it equals 0.0 if all bits but the sign are 0.
abbrev pub Double : Type 0
Double = ℕ

-- class Order of the API.
pub record Order : Type 0 where
  pub perm_id : ℤ
  pub action : Text
  pub total_quantity : Double
  pub transmit : Bool
  pub what_if : Bool

-- class PlaceOrder
pub record PlaceOrder : Type 0 where
  pub order_id : ℤ
  pub time_sent : ℤ
  pub contract : Contract
  pub order : Order

-- class MktDataRequest
pub record MktDataRequest : Type 0 where
  pub ib_contract : Contract
  pub generic_ticks : Text
  pub snapshot : Bool

-- class AccStatusRequest
pub record AccStatusRequest : Type 0 where
  pub subscribe : Bool
  pub acct_code : Text

-- class ContractDetailsRequest
pub record ContractDetailsRequest : Type 0 where
  pub contract : Contract

-- class OptParamsRequest
pub record OptParamsRequest : Type 0 where
  pub ib_contract : Contract
