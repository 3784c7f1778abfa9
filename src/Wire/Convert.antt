-- ===== src/Wire/Convert.antt =====
-- From wire requests to internal ones, and from confirmations and market data to wire bytes. The
-- clock is an argument.
use exchnage_simulator.Prelude.{ℕ, List, ◌++◌}
use exchnage_simulator.Core.{
  buy, OrderRequest, new_order, cancel, modify, OrderConfirm, MdUpdate, RejectReason, unknown_order,
  invalid_price, invalid_qty, unauthorized, unknown_symbol, self_trade, MdUpdateType, md_new,
  md_modify, md_cancel, md_trade,
}
use exchnage_simulator.Wire.Bytes.{to_bytes}
use exchnage_simulator.Wire.Messages.{
  MsgType, NewOrderRequestMsg, ModifyOrderRequestMsg, CancelOrderRequestMsg, header_bytes,
  new_order_confirm, modify_order_confirm, cancel_order_confirm, trade_confirm, reject_msg,
  market_update, byte_of_side,
}

unfoldable pub to_order_request_new : ℕ → NewOrderRequestMsg → ℕ → OrderRequest
to_order_request_new now msg trader = record {
  order_id = 0;
  client_order_id = msg.client_order_id;
  price = msg.price;
  timestamp = now;
  trader_id = trader;
  symbol_id = msg.symbol_id;
  quantity = msg.qty;
  side = msg.side;
  request_type = new_order;
}

unfoldable pub to_order_request_cancel : ℕ → CancelOrderRequestMsg → ℕ → OrderRequest
to_order_request_cancel now msg trader = record {
  order_id = msg.order_id;
  client_order_id = 0;
  price = 0;
  timestamp = now;
  trader_id = trader;
  symbol_id = msg.symbol_id;
  quantity = 0;
  side = buy;
  request_type = cancel;
}

unfoldable pub to_order_request_modify : ℕ → ModifyOrderRequestMsg → ℕ → OrderRequest
to_order_request_modify now msg trader = record {
  order_id = msg.order_id;
  client_order_id = 0;
  price = msg.price;
  timestamp = now;
  trader_id = trader;
  symbol_id = msg.symbol_id;
  quantity = msg.qty;
  side = buy;
  request_type = modify;
}

abbrev pub byte_of_reason : RejectReason → ℕ
byte_of_reason unknown_order = 0
byte_of_reason invalid_price = 1
byte_of_reason invalid_qty = 2
byte_of_reason unauthorized = 3
byte_of_reason unknown_symbol = 4
byte_of_reason self_trade = 5

abbrev pub byte_of_update : MdUpdateType → ℕ
byte_of_update md_new = 1
byte_of_update md_modify = 2
byte_of_update md_cancel = 3
byte_of_update md_trade = 4

abbrev header : ℕ → MsgType → List ℕ
header n t = header_bytes (record { length = n; type = t })

unfoldable pub to_new_order_confirm_msg : OrderConfirm → List ℕ
to_new_order_confirm_msg c =
    header 19 new_order_confirm ++ (to_bytes 8 c.client_order_id ++ to_bytes 8 c.order_id)

unfoldable pub to_modify_order_confirm_msg : OrderConfirm → List ℕ
to_modify_order_confirm_msg c = header 11 modify_order_confirm ++ to_bytes 8 c.order_id

unfoldable pub to_cancel_order_confirm_msg : OrderConfirm → List ℕ
to_cancel_order_confirm_msg c = header 11 cancel_order_confirm ++ to_bytes 8 c.order_id

unfoldable pub to_trade_confirm_msg : OrderConfirm → List ℕ
to_trade_confirm_msg c =
    header 19 trade_confirm ++ (to_bytes 8 c.order_id ++ (to_bytes 4 c.price ++ to_bytes 4 c.qty))

unfoldable pub to_reject_msg : OrderConfirm → List ℕ
to_reject_msg c =
    header 12 reject_msg ++ (to_bytes 8 c.order_id ++ to_bytes 1 (byte_of_reason c.reason))

unfoldable pub to_market_update_msg : MdUpdate → List ℕ
to_market_update_msg u =
    header 25 market_update
    ++ (to_bytes 4 u.symbol_id
        ++ (to_bytes 8 u.order_id
            ++ (to_bytes 1 (byte_of_side u.side)
                ++ (to_bytes 4 u.price
                    ++ (to_bytes 4 u.qty ++ to_bytes 1 (byte_of_update u.update_type))))))
