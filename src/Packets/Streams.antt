-- ===== src/Packets/Streams.antt =====
-- class PacketAccStatus, PacketExecutions and PacketOrders of src/tws_meta.cpp: packets that TWS fills
-- until it says that all is told. The structs of the rows are parameters.
use twstools.Base.{Option, none, some, List, [], ◌∷◌, ◌++◌, ◌>>◌, assert}
use twstools.Base.Int.{ℤ, negsuc}
use twstools.Base.Text.{Text}
use twstools.Requests.{AccStatusRequest}
use twstools.Packets.{clean, recording, closed, Status, new_status, is_empty, finished}
use twstools.Packets.Placing.{TwsRow, row_order_status, row_open_order}

-- struct RowAcc: an account value, a position, a time stamp, or the end.
pub data RowAcc (V P : Type 0) : Type 0 where
  acc_val : V → RowAcc V P
  acc_prtfl : P → RowAcc V P
  acc_stamp : Text → RowAcc V P
  acc_end : Text → RowAcc V P

pub record PacketAccStatus (V P : Type 0) : Type 0 where
  pub status : Status
  pub request : Option AccStatusRequest
  pub rows : List (RowAcc V P)

module _ {V P : Type 0} where
  unfoldable pub new_acc : PacketAccStatus V P
  new_acc = record { status = new_status; request = none; rows = [] }

  unfoldable pub clear_acc : PacketAccStatus V P → Option (PacketAccStatus V P)
  clear_acc p =
      assert (finished p.status)
      >> some (record p { status = record p.status { mode = clean }; rows = []; request = none })

  unfoldable pub record_acc : AccStatusRequest → PacketAccStatus V P → Option (PacketAccStatus V P)
  record_acc r p =
      assert (is_empty p.status)
      >> some (record p { status = record p.status { mode = recording }; request = some r })

  unfoldable pub append_acc_val : V → PacketAccStatus V P → PacketAccStatus V P
  append_acc_val v p = record p { rows = p.rows ++ acc_val v ∷ [] }

  unfoldable pub append_prtfl : P → PacketAccStatus V P → PacketAccStatus V P
  append_prtfl q p = record p { rows = p.rows ++ acc_prtfl q ∷ [] }

  unfoldable pub append_update_account_time : Text → PacketAccStatus V P → PacketAccStatus V P
  append_update_account_time t p = record p { rows = p.rows ++ acc_stamp t ∷ [] }

  unfoldable pub append_account_download_end : Text → PacketAccStatus V P → PacketAccStatus V P
  append_account_download_end a p = record p {
    rows = p.rows ++ acc_end a ∷ [];
    status = record p.status { mode = closed };
  }

  -- The callback that a row comes from.
  unfoldable pub append_acc : RowAcc V P → PacketAccStatus V P → PacketAccStatus V P
  unfolding append_acc_val append_prtfl append_update_account_time append_account_download_end
  append_acc (acc_val v) p = append_acc_val v p
  append_acc (acc_prtfl q) p = append_prtfl q p
  append_acc (acc_stamp t) p = append_update_account_time t p
  append_acc (acc_end a) p = append_account_download_end a p

  unfoldable pub append_accs : List (RowAcc V P) → PacketAccStatus V P → PacketAccStatus V P
  append_accs [] p = p
  append_accs (row ∷ rows) p = append_accs rows (append_acc row p)

pub record PacketExecutions (Req Row : Type 0) : Type 0 where
  pub status : Status
  pub req_id : ℤ
  pub request : Option Req
  pub rows : List Row

module _ {Req Row : Type 0} where
  unfoldable pub new_executions : PacketExecutions Req Row
  new_executions = record { status = new_status; req_id = negsuc 0; request = none; rows = [] }

  -- The reqId stays.
  unfoldable pub clear_executions : PacketExecutions Req Row → Option (PacketExecutions Req Row)
  clear_executions p =
      assert (finished p.status)
      >> some (record p { status = record p.status { mode = clean }; rows = []; request = none })

  unfoldable pub record_executions :
      ℤ → Req → PacketExecutions Req Row → Option (PacketExecutions Req Row)
  record_executions id r p =
      assert (is_empty p.status)
      >> some (record p {
        status = record p.status { mode = recording };
        req_id = id;
        request = some r;
      })

  -- The reqId of the callback is not looked at.
  unfoldable pub append_execution : ℤ → Row → PacketExecutions Req Row → PacketExecutions Req Row
  append_execution id row p = record p { rows = p.rows ++ row ∷ [] }

  unfoldable pub append_executions_end : ℤ → PacketExecutions Req Row → PacketExecutions Req Row
  append_executions_end id p = record p { status = record p.status { mode = closed } }

pub record PacketOrders (Req E S O : Type 0) : Type 0 where
  pub status : Status
  pub request : Option Req
  pub rows : List (TwsRow E S O)

module _ {Req E S O : Type 0} where
  unfoldable pub clear_orders : PacketOrders Req E S O → Option (PacketOrders Req E S O)
  clear_orders p =
      assert (finished p.status)
      >> some (record p { status = record p.status { mode = clean }; rows = []; request = none })

  unfoldable pub record_orders : Req → PacketOrders Req E S O → Option (PacketOrders Req E S O)
  record_orders r p =
      assert (is_empty p.status)
      >> some (record p { status = record p.status { mode = recording }; request = some r })

  unfoldable pub append_status : S → PacketOrders Req E S O → PacketOrders Req E S O
  append_status s p = record p { rows = p.rows ++ row_order_status s ∷ [] }

  unfoldable pub append_open : O → PacketOrders Req E S O → PacketOrders Req E S O
  append_open o p = record p { rows = p.rows ++ row_open_order o ∷ [] }

  unfoldable pub append_open_order_end : PacketOrders Req E S O → PacketOrders Req E S O
  append_open_order_end p = record p { status = record p.status { mode = closed } }
