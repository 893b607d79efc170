-- ===== src/Rows.antt =====
-- The rows of src/tws_meta.h that TWS sends, and of the structs of the API in them the fields that the
-- modelled code reads.
use twstools.Base.{List}
use twstools.Base.Int.{ℤ}
use twstools.Base.Text.{Text}
use twstools.Requests.{Contract, Double, Order}

-- class ContractDetails, class Execution and class OrderState of the API.
pub record ContractDetails : Type 0 where
  pub summary : Contract

pub record Execution : Type 0 where
  pub exec_id : Text

pub record OrderState : Type 0 where
  pub status : Text

pub record RowError : Type 0 where
  pub id : ℤ
  pub code : ℤ
  pub msg : Text

pub record RowAccVal : Type 0 where
  pub key : Text
  pub val : Text
  pub currency : Text
  pub account_name : Text

pub record RowPrtfl : Type 0 where
  pub contract : Contract
  pub position : Double
  pub market_price : Double
  pub market_value : Double
  pub average_cost : Double
  pub unrealized_pnl : Double
  pub realized_pnl : Double
  pub account_name : Text

pub record RowExecution : Type 0 where
  pub contract : Contract
  pub execution : Execution

pub record RowOrderStatus : Type 0 where
  pub id : ℤ
  pub status : Text
  pub filled : Double
  pub remaining : Double
  pub avg_fill_price : Double
  pub perm_id : ℤ
  pub parent_id : ℤ
  pub last_fill_price : Double
  pub client_id : ℤ
  pub why_held : Text

pub record RowOpenOrder : Type 0 where
  pub order_id : ℤ
  pub contract : Contract
  pub order : Order
  pub order_state : OrderState

pub record RowOptParams : Type 0 where
  pub exchange : Text
  pub underlying_con_id : ℤ
  pub trading_class : Text
  pub multiplier : Text
  pub expirations : List Text
  pub strikes : List Double
