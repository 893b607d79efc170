-- ===== src/Twsdo/Packets.antt =====
-- The packet of class TwsDL (src/twsdo.cpp): a Packet* to an object of one of the derived classes, and
-- the casts of it.
use twstools.Base.{Option, none, some, [], ◌>>=◌}
use twstools.Base.Int.{negsuc}
use twstools.Requests.{ContractDetailsRequest, OptParamsRequest}
use twstools.Rows.{
  ContractDetails, RowError, RowAccVal, RowPrtfl, RowExecution, RowOrderStatus, RowOpenOrder,
  RowOptParams,
}
use twstools.Packets.{Status, ReqErr, close_error, new_status}
use twstools.Packets.Lists.{PacketContractDetails}
use twstools.Packets.History.{PacketHistData, dflt_row}
use twstools.Packets.Placing.{PacketPlaceOrder}
use twstools.Packets.Streams.{PacketAccStatus, PacketExecutions, PacketOrders}

abbrev pub ContractsPacket : Type 0
ContractsPacket = PacketContractDetails ContractDetailsRequest ContractDetails

-- PacketOptParams, whose record, append, setFinished and clear are those of PacketContractDetails.
abbrev pub OptParamsPacket : Type 0
OptParamsPacket = PacketContractDetails OptParamsRequest RowOptParams

abbrev pub AccPacket : Type 0
AccPacket = PacketAccStatus RowAccVal RowPrtfl

-- ExecutionsRequest and OrdersRequest carry nothing that the code sets.
abbrev pub ExecutionsPacket : Type 0
ExecutionsPacket = PacketExecutions (Unit {0}) RowExecution

abbrev pub OrdersPacket : Type 0
OrdersPacket = PacketOrders (Unit {0}) RowError RowOrderStatus RowOpenOrder

abbrev pub OrderPacket : Type 0
OrderPacket = PacketPlaceOrder RowError RowOrderStatus RowOpenOrder

pub data AnyPacket : Type 0 where
  contracts_packet : ContractsPacket → AnyPacket
  hist_packet : PacketHistData → AnyPacket
  acc_packet : AccPacket → AnyPacket
  executions_packet : ExecutionsPacket → AnyPacket
  orders_packet : OrdersPacket → AnyPacket
  opt_params_packet : OptParamsPacket → AnyPacket

-- The part of the object that is a Packet.
unfoldable pub status_of : AnyPacket → Status
status_of (contracts_packet p) = p.status
status_of (hist_packet p) = p.status
status_of (acc_packet p) = p.status
status_of (executions_packet p) = p.status
status_of (orders_packet p) = p.status
status_of (opt_params_packet p) = p.status

unfoldable pub with_status : Status → AnyPacket → AnyPacket
with_status s (contracts_packet p) = contracts_packet (record p { status = s })
with_status s (hist_packet p) = hist_packet (record p { status = s })
with_status s (acc_packet p) = acc_packet (record p { status = s })
with_status s (executions_packet p) = executions_packet (record p { status = s })
with_status s (orders_packet p) = orders_packet (record p { status = s })
with_status s (opt_params_packet p) = opt_params_packet (record p { status = s })

-- packet->closeError( e )
unfoldable pub close_packet : ReqErr → AnyPacket → Option AnyPacket
close_packet e p = close_error e (status_of p) >>= λ s. some (with_status s p)

-- A call on (PacketContractDetails*)packet and the like.
unfoldable pub as_contracts :
    (ContractsPacket → Option ContractsPacket) → AnyPacket → Option AnyPacket
as_contracts f (contracts_packet p) = f p >>= λ q. some (contracts_packet q)
as_contracts f _ = none

unfoldable pub as_opt_params :
    (OptParamsPacket → Option OptParamsPacket) → AnyPacket → Option AnyPacket
as_opt_params f (opt_params_packet p) = f p >>= λ q. some (opt_params_packet q)
as_opt_params f _ = none

unfoldable pub as_hist : (PacketHistData → Option PacketHistData) → AnyPacket → Option AnyPacket
as_hist f (hist_packet p) = f p >>= λ q. some (hist_packet q)
as_hist f _ = none

unfoldable pub as_acc : (AccPacket → AccPacket) → AnyPacket → Option AnyPacket
as_acc f (acc_packet p) = some (acc_packet (f p))
as_acc f _ = none

unfoldable pub as_executions : (ExecutionsPacket → ExecutionsPacket) → AnyPacket → Option AnyPacket
as_executions f (executions_packet p) = some (executions_packet (f p))
as_executions f _ = none

unfoldable pub as_orders : (OrdersPacket → OrdersPacket) → AnyPacket → Option AnyPacket
as_orders f (orders_packet p) = some (orders_packet (f p))
as_orders f _ = none

-- PacketHistData(), PacketPlaceOrder() and PacketOrders()
unfoldable pub new_hist_packet : PacketHistData
new_hist_packet = record {
  status = new_status;
  req_id = negsuc 0;
  request = none;
  rows = [];
  finish_row = dflt_row;
}

unfoldable pub new_order_packet : OrderPacket
new_order_packet = record { status = new_status; request = none; rows = [] }

unfoldable pub new_orders_packet : OrdersPacket
new_orders_packet = record { status = new_status; request = none; rows = [] }
