-- ===== src/Wire/Confirms.antt =====
-- What the exchange sends to a client, and reading its body, as `memcpy` behind the header of a packed
-- struct does.
use exchnage_simulator.Prelude.{ℕ, List}
use exchnage_simulator.Core.{Side}
use exchnage_simulator.Wire.Bytes.{read_bytes}
use exchnage_simulator.Wire.Messages.{MsgHeader, side_of_byte}

pub record NewOrderConfirmMsg : Type 0 where
  pub header : MsgHeader
  pub client_order_id : ℕ
  pub order_id : ℕ

pub record ModifyOrderConfirmMsg : Type 0 where
  pub header : MsgHeader
  pub order_id : ℕ

pub record CancelOrderConfirmMsg : Type 0 where
  pub header : MsgHeader
  pub order_id : ℕ

pub record TradeConfirmMsg : Type 0 where
  pub header : MsgHeader
  pub order_id : ℕ
  pub price : ℕ
  pub qty : ℕ

-- The reason is the byte of the enumeration.
pub record RejectMsg : Type 0 where
  pub header : MsgHeader
  pub order_id : ℕ
  pub reason : ℕ

-- `accepted` is the byte of a `bool`.
pub record LoginResponseMsg : Type 0 where
  pub header : MsgHeader
  pub accepted : ℕ

-- The type of the update is the byte of the enumeration.
pub record MarketUpdateMsg : Type 0 where
  pub header : MsgHeader
  pub symbol_id : ℕ
  pub order_id : ℕ
  pub side : Side
  pub price : ℕ
  pub qty : ℕ
  pub update_type : ℕ

unfoldable pub read_new_order_confirm : MsgHeader → List ℕ → NewOrderConfirmMsg
read_new_order_confirm h body =
    let c = read_bytes 8 body in
    let o = read_bytes 8 c.1 in record { header = h; client_order_id = c.0; order_id = o.0 }

unfoldable pub read_modify_order_confirm : MsgHeader → List ℕ → ModifyOrderConfirmMsg
read_modify_order_confirm h body = record { header = h; order_id = (read_bytes 8 body).0 }

unfoldable pub read_cancel_order_confirm : MsgHeader → List ℕ → CancelOrderConfirmMsg
read_cancel_order_confirm h body = record { header = h; order_id = (read_bytes 8 body).0 }

unfoldable pub read_trade_confirm : MsgHeader → List ℕ → TradeConfirmMsg
read_trade_confirm h body =
    let o = read_bytes 8 body in
    let p = read_bytes 4 o.1 in
    let q = read_bytes 4 p.1 in record { header = h; order_id = o.0; price = p.0; qty = q.0 }

unfoldable pub read_reject : MsgHeader → List ℕ → RejectMsg
read_reject h body =
    let o = read_bytes 8 body in
    let r = read_bytes 1 o.1 in record { header = h; order_id = o.0; reason = r.0 }

unfoldable pub read_market_update : MsgHeader → List ℕ → MarketUpdateMsg
read_market_update h body =
    let s = read_bytes 4 body in
    let o = read_bytes 8 s.1 in
    let d = read_bytes 1 o.1 in
    let p = read_bytes 4 d.1 in
    let q = read_bytes 4 p.1 in
    let u = read_bytes 1 q.1 in
    record {
      header = h;
      symbol_id = s.0;
      order_id = o.0;
      side = side_of_byte d.0;
      price = p.0;
      qty = q.0;
      update_type = u.0;
    }
