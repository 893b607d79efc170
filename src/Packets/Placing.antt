-- ===== src/Packets/Placing.antt =====
-- class PacketPlaceOrder of src/tws_meta.cpp: an order and what TWS says about it. A row of the list is
-- a RowError, a RowOrderStatus or a RowOpenOrder; `E`, `S` and `O` are these structs, and
-- `remaining` the one field of them that is read.
use twstools.Base.{
  ◌==◌, Bool, Option, none, some, List, [], ◌∷◌, ◌++◌, ◌>>=◌, ◌>>◌, assert, is_none, ◌&&◌, ◌||◌,
  if◌then◌else◌,
}
use twstools.Base.Int.{ℤ, eqb_ℤ}
use twstools.Requests.{Double, PlaceOrder}
use twstools.Packets.{clean, recording, closed, err_none, Status, is_clean, is_recording, no_error}

-- d == 0, of a double: the bits of 0.0 or of -0.0.
unfoldable pub is_zero : Double → Bool
is_zero d = (d == 0) || (d == 9223372036854775808)

-- struct TwsRow
pub data TwsRow (E S O : Type 0) : Type 0 where
  row_error : E → TwsRow E S O
  row_order_status : S → TwsRow E S O
  row_open_order : O → TwsRow E S O

pub record PacketPlaceOrder (E S O : Type 0) : Type 0 where
  pub status : Status
  pub request : Option PlaceOrder
  pub rows : List (TwsRow E S O)

module _ {E S O : Type 0} where
  unfoldable pub clear : PacketPlaceOrder E S O → PacketPlaceOrder E S O
  clear p = record { status = record { mode = clean; error = err_none }; request = none; rows = [] }

  unfoldable pub record_order :
      ℤ → ℤ → PlaceOrder → PacketPlaceOrder E S O → Option (PacketPlaceOrder E S O)
  record_order now id po p =
      assert (is_clean p.status.mode && (no_error p.status.error && is_none p.request))
      >> some (record p {
        status = record p.status { mode = recording };
        request = some (record po { order_id = id; time_sent = now });
      })

  unfoldable pub modify : ℤ → PlaceOrder → PacketPlaceOrder E S O → Option (PacketPlaceOrder E S O)
  modify now po p =
      assert (is_recording p.status.mode)
      >> (p.request >>= λ r.
          assert (eqb_ℤ r.order_id po.order_id)
          >> some (record p { request = some (record po { time_sent = now }) }))

  unfoldable pub append_error : E → PacketPlaceOrder E S O → PacketPlaceOrder E S O
  append_error err p = record p { rows = p.rows ++ row_error err ∷ [] }

  -- An order of which nothing remains is done.
  unfoldable pub append_order_status :
      (S → Double) → S → PacketPlaceOrder E S O → PacketPlaceOrder E S O
  append_order_status remaining row p =
      let p' = record p { rows = p.rows ++ row_order_status row ∷ [] } in
      if is_zero (remaining row)
      then record p' { status = record p.status { mode = closed } }
      else p'

  -- A whatIf order gets one OpenOrder callback only.
  unfoldable pub append_open_order : O → PacketPlaceOrder E S O → Option (PacketPlaceOrder E S O)
  append_open_order row p = p.request >>= λ r.
      let p' = record p { rows = p.rows ++ row_open_order row ∷ [] } in
      some
        (if r.order.what_if then record p' { status = record p.status { mode = closed } } else p')
