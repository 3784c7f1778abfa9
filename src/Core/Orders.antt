-- ===== src/Core/Orders.antt =====
-- core/include/order.hpp: requests, resting elements, confirmations and market data.
use exchnage_simulator.Prelude.{ℕ}
use exchnage_simulator.Core.Types.{Side, RequestType, RejectReason}

pub record OrderRequest : Type 0 where
  pub order_id : ℕ
  pub client_order_id : ℕ
  pub price : ℕ
  pub timestamp : ℕ
  pub trader_id : ℕ
  pub symbol_id : ℕ
  pub quantity : ℕ
  pub side : Side
  pub request_type : RequestType

pub record BookElement : Type 0 where
  pub id : ℕ
  pub trader_id : ℕ
  pub quantity : ℕ

pub data ConfirmType : Type 0 where
  new_ack modify_ack cancel_ack trade reject : ConfirmType

pub record OrderConfirm : Type 0 where
  pub type : ConfirmType
  pub order_id : ℕ
  pub client_order_id : ℕ
  pub trader_id : ℕ
  pub symbol_id : ℕ
  pub price : ℕ
  pub qty : ℕ
  pub reason : RejectReason

pub data MdUpdateType : Type 0 where
  md_new md_modify md_cancel md_trade : MdUpdateType

pub record MdUpdate : Type 0 where
  pub symbol_id : ℕ
  pub order_id : ℕ
  pub side : Side
  pub price : ℕ
  pub qty : ℕ
  pub update_type : MdUpdateType

-- The brace initialisers `OrderConfirm{...}` and `MdUpdate{...}`, fields in order.
abbrev pub confirm : ConfirmType → ℕ → ℕ → ℕ → ℕ → ℕ → ℕ → RejectReason → OrderConfirm
confirm t o c trader s p q r = record {
  type = t;
  order_id = o;
  client_order_id = c;
  trader_id = trader;
  symbol_id = s;
  price = p;
  qty = q;
  reason = r;
}

abbrev pub md_update : ℕ → ℕ → Side → ℕ → ℕ → MdUpdateType → MdUpdate
md_update s o d p q t = record {
  symbol_id = s;
  order_id = o;
  side = d;
  price = p;
  qty = q;
  update_type = t;
}
