-- ===== src/Wire/Roundtrip.antt =====
-- A message that is laid out and read back is the same message.
use exchnage_simulator.Prelude.{
  ℕ, ◌^◌, ◌<◌, ◌≡◌, refl, sym, ap, ◌∙◌, List, [], ◌++◌, append_assoc, append-nil, length, arith,
}
use exchnage_simulator.Core.{Side, buy, sell, other}
use exchnage_simulator.Wire.Bytes.{to_bytes, read_bytes, read_bytes-to_bytes}
use exchnage_simulator.Wire.Messages.{
  MsgHeader, NewOrderRequestMsg, ModifyOrderRequestMsg, CancelOrderRequestMsg, byte_of_type,
  type_of_byte, byte_of_side, side_of_byte, header_bytes, new_order_request_bytes,
  modify_order_request_bytes, cancel_order_request_bytes, read_header, read_new_order_request,
  read_modify_order_request, read_cancel_order_request, new_order_request_size,
  modify_order_request_size, cancel_order_request_size,
}

-- The side is one that a byte can hold and that the two enumerators do not name twice.
abbrev pub IsSideByte : Side → Type 0
IsSideByte buy = Unit
IsSideByte sell = Unit
IsSideByte (other n) = (1 < n) × (n < 256)

pub side_of_byte-byte_of_side : (s : Side) → IsSideByte s → side_of_byte (byte_of_side s) ≡ s
unfolding side_of_byte
side_of_byte-byte_of_side buy h = refl
side_of_byte-byte_of_side sell h = refl
side_of_byte-byte_of_side (other n) h = ground (arith, h.0)

pub byte_of_side-bound : (s : Side) → IsSideByte s → byte_of_side s < 256
byte_of_side-bound buy h = omega arith
byte_of_side-bound sell h = omega arith
byte_of_side-bound (other n) h = h.1

-- The length and the type of a header are what two bytes and one byte hold.
abbrev pub IsHeader : MsgHeader → Type 0
IsHeader h =
    (h.length < 2 ^ 16)
    × (byte_of_type h.type < 256)
    × (type_of_byte (byte_of_type h.type) ≡ h.type)

pub read_header-bytes :
    (h : MsgHeader) (bs : List ℕ) → IsHeader h → read_header (header_bytes h ++ bs) ≡ (h, bs)
unfolding read_header header_bytes
read_header-bytes h bs (small, byte, back) =
    rw
      (
        read_header,
        header_bytes,
        append_assoc (to_bytes 2 h.length) (to_bytes 1 (byte_of_type h.type)) bs,
        read_bytes-to_bytes 2 h.length (to_bytes 1 (byte_of_type h.type) ++ bs) small,
        read_bytes-to_bytes 1 (byte_of_type h.type) bs byte,
        back,
      )
      refl

length-header_bytes : (h : MsgHeader) → length (header_bytes h) ≡ 3
unfolding header_bytes to_bytes
length-header_bytes h = refl

-- The last field, with nothing behind it.
read_bytes_last : (n x : ℕ) → x < 256 ^ n → read_bytes n (to_bytes n x) ≡ (x, [])
read_bytes_last n x lt =
    ap (read_bytes n) (sym (append-nil (to_bytes n x))) ∙ read_bytes-to_bytes n x [] lt

-- A new-order request whose fields fit their types is 24 bytes long and reads back from its bytes.
pub read_new_order_request-bytes :
    (m : NewOrderRequestMsg)
    → IsHeader m.header
    → m.client_order_id < 2 ^ 64
    → m.symbol_id < 2 ^ 32
    → IsSideByte m.side
    → m.price < 2 ^ 32
    → m.qty < 2 ^ 32
    → (read_new_order_request (new_order_request_bytes m) ≡ m)
      × (length (new_order_request_bytes m) ≡ new_order_request_size)
unfolding read_new_order_request new_order_request_bytes header_bytes to_bytes
read_new_order_request-bytes m h c s d p q = (
  rw
      (
        read_new_order_request,
        new_order_request_bytes,
        read_header-bytes m.header _ h,
        read_bytes-to_bytes 8 m.client_order_id _ c,
        read_bytes-to_bytes 4 m.symbol_id _ s,
        read_bytes-to_bytes 1 (byte_of_side m.side) _ (byte_of_side-bound m.side d),
        read_bytes-to_bytes 4 m.price _ p,
        read_bytes_last 4 m.qty q,
        side_of_byte-byte_of_side m.side d,
      )
      refl,
  refl,
)

-- A modification whose fields fit their types is 23 bytes long and reads back from its bytes.
pub read_modify_order_request-bytes :
    (m : ModifyOrderRequestMsg)
    → IsHeader m.header
    → m.order_id < 2 ^ 64
    → m.symbol_id < 2 ^ 32
    → m.price < 2 ^ 32
    → m.qty < 2 ^ 32
    → (read_modify_order_request (modify_order_request_bytes m) ≡ m)
      × (length (modify_order_request_bytes m) ≡ modify_order_request_size)
unfolding read_modify_order_request modify_order_request_bytes header_bytes to_bytes
read_modify_order_request-bytes m h o s p q = (
  rw
      (
        read_modify_order_request,
        modify_order_request_bytes,
        read_header-bytes m.header _ h,
        read_bytes-to_bytes 8 m.order_id _ o,
        read_bytes-to_bytes 4 m.symbol_id _ s,
        read_bytes-to_bytes 4 m.price _ p,
        read_bytes_last 4 m.qty q,
      )
      refl,
  refl,
)

-- A cancellation whose fields fit their types is 15 bytes long and reads back from its bytes.
pub read_cancel_order_request-bytes :
    (m : CancelOrderRequestMsg)
    → IsHeader m.header
    → m.order_id < 2 ^ 64
    → m.symbol_id < 2 ^ 32
    → (read_cancel_order_request (cancel_order_request_bytes m) ≡ m)
      × (length (cancel_order_request_bytes m) ≡ cancel_order_request_size)
unfolding read_cancel_order_request cancel_order_request_bytes header_bytes to_bytes
read_cancel_order_request-bytes m h o s = (
  rw
      (
        read_cancel_order_request,
        cancel_order_request_bytes,
        read_header-bytes m.header _ h,
        read_bytes-to_bytes 8 m.order_id _ o,
        read_bytes_last 4 m.symbol_id s,
      )
      refl,
  refl,
)
