-- ===== src/Wire/Messages.antt =====
-- The messages: their fields, their layout, and reading them back.
use exchnage_simulator.Prelude.{ℕ, List, ◌++◌, ◌==◌, if◌then◌else◌}
use exchnage_simulator.Core.{Side, buy, sell, other}
use exchnage_simulator.Wire.Bytes.{to_bytes, read_bytes}

pub data MsgType : Type 0 where
  new_order_request modify_order_request cancel_order_request login_request : MsgType
  new_order_confirm modify_order_confirm cancel_order_confirm trade_confirm : MsgType
  reject_msg login_response market_update : MsgType
  unknown_type : ℕ → MsgType

abbrev pub byte_of_type : MsgType → ℕ
byte_of_type new_order_request = 1
byte_of_type modify_order_request = 2
byte_of_type cancel_order_request = 3
byte_of_type login_request = 4
byte_of_type new_order_confirm = 10
byte_of_type modify_order_confirm = 11
byte_of_type cancel_order_confirm = 12
byte_of_type trade_confirm = 13
byte_of_type reject_msg = 14
byte_of_type login_response = 15
byte_of_type market_update = 20
byte_of_type (unknown_type n) = n

-- The enumerator that a byte is.
unfoldable pub type_of_byte : ℕ → MsgType
type_of_byte n =
    if n == 1
    then new_order_request
    else if n == 2
    then modify_order_request
    else if n == 3
    then cancel_order_request
    else if n == 4
    then login_request
    else if n == 10
    then new_order_confirm
    else if n == 11
    then modify_order_confirm
    else if n == 12
    then cancel_order_confirm
    else if n == 13
    then trade_confirm
    else if n == 14
    then reject_msg
    else if n == 15
    then login_response
    else if n == 20
    then market_update
    else unknown_type n

abbrev pub byte_of_side : Side → ℕ
byte_of_side buy = 0
byte_of_side sell = 1
byte_of_side (other n) = n

unfoldable pub side_of_byte : ℕ → Side
side_of_byte n = if n == 0 then buy else if n == 1 then sell else other n

pub record MsgHeader : Type 0 where
  pub length : ℕ
  pub type : MsgType

pub record NewOrderRequestMsg : Type 0 where
  pub header : MsgHeader
  pub client_order_id : ℕ
  pub symbol_id : ℕ
  pub side : Side
  pub price : ℕ
  pub qty : ℕ

pub record ModifyOrderRequestMsg : Type 0 where
  pub header : MsgHeader
  pub order_id : ℕ
  pub symbol_id : ℕ
  pub price : ℕ
  pub qty : ℕ

pub record CancelOrderRequestMsg : Type 0 where
  pub header : MsgHeader
  pub order_id : ℕ
  pub symbol_id : ℕ

-- `sizeof` of the packed structs.
abbrev pub header_size : ℕ
header_size = 3

abbrev pub new_order_request_size : ℕ
new_order_request_size = 24

abbrev pub modify_order_request_size : ℕ
modify_order_request_size = 23

abbrev pub cancel_order_request_size : ℕ
cancel_order_request_size = 15

unfoldable pub header_bytes : MsgHeader → List ℕ
header_bytes h = to_bytes 2 h.length ++ to_bytes 1 (byte_of_type h.type)

unfoldable pub new_order_request_bytes : NewOrderRequestMsg → List ℕ
new_order_request_bytes m =
    header_bytes m.header
    ++ (to_bytes 8 m.client_order_id
        ++ (to_bytes 4 m.symbol_id
            ++ (to_bytes 1 (byte_of_side m.side) ++ (to_bytes 4 m.price ++ to_bytes 4 m.qty))))

unfoldable pub modify_order_request_bytes : ModifyOrderRequestMsg → List ℕ
modify_order_request_bytes m =
    header_bytes m.header
    ++ (to_bytes 8 m.order_id
        ++ (to_bytes 4 m.symbol_id ++ (to_bytes 4 m.price ++ to_bytes 4 m.qty)))

unfoldable pub cancel_order_request_bytes : CancelOrderRequestMsg → List ℕ
cancel_order_request_bytes m =
    header_bytes m.header ++ (to_bytes 8 m.order_id ++ to_bytes 4 m.symbol_id)

-- `std::memcpy(&msg, raw.data, sizeof(...))`, field by field.
unfoldable pub read_header : List ℕ → MsgHeader × List ℕ
read_header bs =
    let l = read_bytes 2 bs in
    let t = read_bytes 1 l.1 in (record { length = l.0; type = type_of_byte t.0 }, t.1)

unfoldable pub read_new_order_request : List ℕ → NewOrderRequestMsg
read_new_order_request bs =
    let h = read_header bs in
    let c = read_bytes 8 h.1 in
    let s = read_bytes 4 c.1 in
    let d = read_bytes 1 s.1 in
    let p = read_bytes 4 d.1 in
    let q = read_bytes 4 p.1 in
    record {
      header = h.0;
      client_order_id = c.0;
      symbol_id = s.0;
      side = side_of_byte d.0;
      price = p.0;
      qty = q.0;
    }

unfoldable pub read_modify_order_request : List ℕ → ModifyOrderRequestMsg
read_modify_order_request bs =
    let h = read_header bs in
    let o = read_bytes 8 h.1 in
    let s = read_bytes 4 o.1 in
    let p = read_bytes 4 s.1 in
    let q = read_bytes 4 p.1 in
    record { header = h.0; order_id = o.0; symbol_id = s.0; price = p.0; qty = q.0 }

unfoldable pub read_cancel_order_request : List ℕ → CancelOrderRequestMsg
read_cancel_order_request bs =
    let h = read_header bs in
    let o = read_bytes 8 h.1 in
    let s = read_bytes 4 o.1 in record { header = h.0; order_id = o.0; symbol_id = s.0 }
