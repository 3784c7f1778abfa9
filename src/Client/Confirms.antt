-- ===== src/Client/Confirms.antt =====
-- What the client makes of a private confirmation.
use exchnage_simulator.Prelude.{
  ℕ, ◌≡◌, ◌<◌, ◌^◌, refl, List, [], ◌∷◌, ◌++◌, append_assoc, insert, arith,
}
use exchnage_simulator.Core.{
  OrderConfirm, new_ack, modify_ack, cancel_ack, trade, reject, ConfirmType, RejectReason,
  unknown_order, invalid_price, invalid_qty, unauthorized, unknown_symbol, self_trade,
}
use exchnage_simulator.Wire.{
  MsgType, MsgHeader, new_order_confirm, modify_order_confirm, cancel_order_confirm, trade_confirm,
  reject_msg, header_bytes, byte_of_reason, to_new_order_confirm_msg, to_modify_order_confirm_msg,
  to_cancel_order_confirm_msg, to_trade_confirm_msg, to_reject_msg, read_new_order_confirm,
  read_modify_order_confirm, read_cancel_order_confirm, read_trade_confirm, read_reject,
}
use exchnage_simulator.Wire.Bytes.{to_bytes, read_bytes-to_bytes}
use exchnage_simulator.Dispatch.{confirm_msg}
use exchnage_simulator.Client.Session.{
  Client, prints, shows_new, shows_modify, shows_cancel, shows_trade, shows_reject,
}
use exchnage_simulator.Client.Arrivals.{on_message}

abbrev pub header_of : ℕ → MsgType → MsgHeader
header_of n t = record { length = n; type = t }

-- What a confirmation tells the client.
unfoldable pub told : OrderConfirm → Client → Client
told k c = elim k.type [
  | new_ack ↦ record c {
    printed =
        c.printed
        ++ (shows_new (record {
          header = header_of 19 new_order_confirm;
          client_order_id = k.client_order_id;
          order_id = k.order_id;
        })
            ∷ []);
    internal_to_exchange = insert k.client_order_id k.order_id c.internal_to_exchange;
  }
  | modify_ack ↦
      prints
        (shows_modify
          (record { header = header_of 11 modify_order_confirm; order_id = k.order_id }))
        c
  | cancel_ack ↦
      prints
        (shows_cancel
          (record { header = header_of 11 cancel_order_confirm; order_id = k.order_id }))
        c
  | trade ↦
      prints
        (shows_trade (record {
          header = header_of 19 trade_confirm;
          order_id = k.order_id;
          price = k.price;
          qty = k.qty;
        }))
        c
  | reject ↦
      prints
        (shows_reject (record {
          header = header_of 12 reject_msg;
          order_id = k.order_id;
          reason = byte_of_reason k.reason;
        }))
        c
]

-- The fields fit their types.
pub record FitsWire (k : OrderConfirm) : Type 0 where
  pub client_order_id : k.client_order_id < 2 ^ 64
  pub order_id : k.order_id < 2 ^ 64
  pub price : k.price < 2 ^ 32
  pub qty : k.qty < 2 ^ 32

-- The bytes behind the header of a confirmation.
abbrev pub body_of : OrderConfirm → ConfirmType → List ℕ
body_of k new_ack = to_bytes 8 k.client_order_id ++ to_bytes 8 k.order_id
body_of k modify_ack = to_bytes 8 k.order_id
body_of k cancel_ack = to_bytes 8 k.order_id
body_of k trade = to_bytes 8 k.order_id ++ (to_bytes 4 k.price ++ to_bytes 4 k.qty)
body_of k reject = to_bytes 8 k.order_id ++ to_bytes 1 (byte_of_reason k.reason)

abbrev pub head_of : ConfirmType → MsgHeader
head_of new_ack = header_of 19 new_order_confirm
head_of modify_ack = header_of 11 modify_order_confirm
head_of cancel_ack = header_of 11 cancel_order_confirm
head_of trade = header_of 19 trade_confirm
head_of reject = header_of 12 reject_msg

byte_of_reason-bound : (r : RejectReason) → byte_of_reason r < 256
byte_of_reason-bound unknown_order = omega arith
byte_of_reason-bound invalid_price = omega arith
byte_of_reason-bound invalid_qty = omega arith
byte_of_reason-bound unauthorized = omega arith
byte_of_reason-bound unknown_symbol = omega arith
byte_of_reason-bound self_trade = omega arith

pub confirm_msg-body :
    (k : OrderConfirm) (t : ConfirmType)
    → k.type ≡ t
    → confirm_msg k ≡ header_bytes (head_of t) ++ body_of k t
unfolding confirm_msg to_new_order_confirm_msg to_modify_order_confirm_msg
    to_cancel_order_confirm_msg to_trade_confirm_msg to_reject_msg
confirm_msg-body k new_ack e = rw (confirm_msg, e) refl
confirm_msg-body k modify_ack e = rw (confirm_msg, e) refl
confirm_msg-body k cancel_ack e = rw (confirm_msg, e) refl
confirm_msg-body k trade e = rw (confirm_msg, e) refl
confirm_msg-body k reject e = rw (confirm_msg, e) refl

pub on_message-told :
    (k : OrderConfirm) (t : ConfirmType) (junk : List ℕ) (c : Client)
    → FitsWire k
    → k.type ≡ t
    → on_message (head_of t) (head_of t).type (body_of k t ++ junk) c ≡ told k c
unfolding on_message told read_new_order_confirm read_modify_order_confirm read_cancel_order_confirm
    read_trade_confirm read_reject
on_message-told k new_ack junk c f e =
    rw
      (
        told,
        e,
        read_new_order_confirm,
        append_assoc (to_bytes 8 k.client_order_id) (to_bytes 8 k.order_id) junk,
        read_bytes-to_bytes 8 k.client_order_id (to_bytes 8 k.order_id ++ junk) f.client_order_id,
        read_bytes-to_bytes 8 k.order_id junk f.order_id,
      )
      refl
on_message-told k modify_ack junk c f e =
    rw (told, e, read_modify_order_confirm, read_bytes-to_bytes 8 k.order_id junk f.order_id) refl
on_message-told k cancel_ack junk c f e =
    rw (told, e, read_cancel_order_confirm, read_bytes-to_bytes 8 k.order_id junk f.order_id) refl
on_message-told k trade junk c f e =
    rw
      (
        told,
        e,
        read_trade_confirm,
        append_assoc (to_bytes 8 k.order_id) (to_bytes 4 k.price ++ to_bytes 4 k.qty) junk,
        append_assoc (to_bytes 4 k.price) (to_bytes 4 k.qty) junk,
        read_bytes-to_bytes 8 k.order_id (to_bytes 4 k.price ++ (to_bytes 4 k.qty ++ junk))
            f.order_id,
        read_bytes-to_bytes 4 k.price (to_bytes 4 k.qty ++ junk) f.price,
        read_bytes-to_bytes 4 k.qty junk f.qty,
      )
      refl
on_message-told k reject junk c f e =
    rw
      (
        told,
        e,
        read_reject,
        append_assoc (to_bytes 8 k.order_id) (to_bytes 1 (byte_of_reason k.reason)) junk,
        read_bytes-to_bytes 8 k.order_id (to_bytes 1 (byte_of_reason k.reason) ++ junk) f.order_id,
        read_bytes-to_bytes 1 (byte_of_reason k.reason) junk (byte_of_reason-bound k.reason),
      )
      refl
