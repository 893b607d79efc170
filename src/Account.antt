-- ===== src/Account.antt =====
-- class Account of src/tws_account.cpp: the last row of each position and each order.
use twstools.Base.{Option, some, [], ◌>>◌, assert}
use twstools.Base.Int.{ℤ, pos, ltb_ℤ}
use twstools.Base.Map.{Map, insert, int_key}
use twstools.Rows.{RowPrtfl, RowOpenOrder, RowOrderStatus}

pub record Account : Type 0 where
  pub portfolio : Map ℤ RowPrtfl
  pub open_orders : Map ℤ RowOpenOrder
  pub order_status : Map ℤ RowOrderStatus

unfoldable pub new_account : Account
new_account = record { portfolio = []; open_orders = []; order_status = [] }

unfoldable pub update_portfolio : RowPrtfl → Account → Option Account
update_portfolio row a =
    assert (ltb_ℤ (pos 0) row.contract.con_id)
    >> some (record a { portfolio = insert row.contract.con_id row a.portfolio })

unfoldable pub update_oo : RowOpenOrder → Account → Option Account
update_oo row a =
    assert (ltb_ℤ (pos 0) row.order.perm_id)
    >> some (record a { open_orders = insert row.order.perm_id row a.open_orders })

unfoldable pub update_os : RowOrderStatus → Account → Option Account
update_os row a =
    assert (ltb_ℤ (pos 0) row.perm_id)
    >> some (record a { order_status = insert row.perm_id row a.order_status })
