-- ===== src/Wire/Padded.antt =====
-- A request reads back from its bytes whatever stands behind them.
use exchnage_simulator.Prelude.{ℕ, ◌^◌, ◌<◌, ◌≡◌, refl, List, ◌++◌, append_assoc}
use exchnage_simulator.Wire.Bytes.{to_bytes, read_bytes-to_bytes}
use exchnage_simulator.Wire.Messages.{
  NewOrderRequestMsg, ModifyOrderRequestMsg, CancelOrderRequestMsg, byte_of_side, header_bytes,
  new_order_request_bytes, modify_order_request_bytes, cancel_order_request_bytes,
  read_new_order_request, read_modify_order_request, read_cancel_order_request,
}
use exchnage_simulator.Wire.Roundtrip.{
  IsHeader, IsSideByte, read_header-bytes, byte_of_side-bound, side_of_byte-byte_of_side,
}

pub read_new_order_request-append :
    (m : NewOrderRequestMsg) (rest : List ℕ)
    → IsHeader m.header
    → m.client_order_id < 2 ^ 64
    → m.symbol_id < 2 ^ 32
    → IsSideByte m.side
    → m.price < 2 ^ 32
    → m.qty < 2 ^ 32
    → read_new_order_request (new_order_request_bytes m ++ rest) ≡ m
unfolding read_new_order_request new_order_request_bytes
read_new_order_request-append m rest h c s d p q =
    let b5 = to_bytes 4 m.qty in
    let b4 = to_bytes 4 m.price in
    let b3 = to_bytes 1 (byte_of_side m.side) in
    let b2 = to_bytes 4 m.symbol_id in
    let b1 = to_bytes 8 m.client_order_id in
    rw
      (
        read_new_order_request,
        new_order_request_bytes,
        append_assoc (header_bytes m.header) (b1 ++ (b2 ++ (b3 ++ (b4 ++ b5)))) rest,
        append_assoc b1 (b2 ++ (b3 ++ (b4 ++ b5))) rest,
        append_assoc b2 (b3 ++ (b4 ++ b5)) rest,
        append_assoc b3 (b4 ++ b5) rest,
        append_assoc b4 b5 rest,
        read_header-bytes m.header _ h,
        read_bytes-to_bytes 8 m.client_order_id _ c,
        read_bytes-to_bytes 4 m.symbol_id _ s,
        read_bytes-to_bytes 1 (byte_of_side m.side) _ (byte_of_side-bound m.side d),
        read_bytes-to_bytes 4 m.price _ p,
        read_bytes-to_bytes 4 m.qty _ q,
        side_of_byte-byte_of_side m.side d,
      )
      refl

pub read_modify_order_request-append :
    (m : ModifyOrderRequestMsg) (rest : List ℕ)
    → IsHeader m.header
    → m.order_id < 2 ^ 64
    → m.symbol_id < 2 ^ 32
    → m.price < 2 ^ 32
    → m.qty < 2 ^ 32
    → read_modify_order_request (modify_order_request_bytes m ++ rest) ≡ m
unfolding read_modify_order_request modify_order_request_bytes
read_modify_order_request-append m rest h o s p q =
    let b4 = to_bytes 4 m.qty in
    let b3 = to_bytes 4 m.price in
    let b2 = to_bytes 4 m.symbol_id in
    let b1 = to_bytes 8 m.order_id in
    rw
      (
        read_modify_order_request,
        modify_order_request_bytes,
        append_assoc (header_bytes m.header) (b1 ++ (b2 ++ (b3 ++ b4))) rest,
        append_assoc b1 (b2 ++ (b3 ++ b4)) rest,
        append_assoc b2 (b3 ++ b4) rest,
        append_assoc b3 b4 rest,
        read_header-bytes m.header _ h,
        read_bytes-to_bytes 8 m.order_id _ o,
        read_bytes-to_bytes 4 m.symbol_id _ s,
        read_bytes-to_bytes 4 m.price _ p,
        read_bytes-to_bytes 4 m.qty _ q,
      )
      refl

pub read_cancel_order_request-append :
    (m : CancelOrderRequestMsg) (rest : List ℕ)
    → IsHeader m.header
    → m.order_id < 2 ^ 64
    → m.symbol_id < 2 ^ 32
    → read_cancel_order_request (cancel_order_request_bytes m ++ rest) ≡ m
unfolding read_cancel_order_request cancel_order_request_bytes
read_cancel_order_request-append m rest h o s =
    let b2 = to_bytes 4 m.symbol_id in
    let b1 = to_bytes 8 m.order_id in
    rw
      (
        read_cancel_order_request,
        cancel_order_request_bytes,
        append_assoc (header_bytes m.header) (b1 ++ b2) rest,
        append_assoc b1 b2 rest,
        read_header-bytes m.header _ h,
        read_bytes-to_bytes 8 m.order_id _ o,
        read_bytes-to_bytes 4 m.symbol_id _ s,
      )
      refl
