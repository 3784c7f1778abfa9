-- ===== src/Client/Updates.antt =====
-- What the client makes of a market update.
use exchnage_simulator.Prelude.{ℕ, ◌≡◌, ◌<◌, ◌^◌, refl, List, ◌++◌, append_assoc, arith}
use exchnage_simulator.Core.{MdUpdate, MdUpdateType, md_new, md_modify, md_cancel, md_trade}
use exchnage_simulator.Wire.{market_update, byte_of_update, byte_of_side, read_market_update}
use exchnage_simulator.Wire.Bytes.{to_bytes, read_bytes-to_bytes}
use exchnage_simulator.Wire.Roundtrip.{IsSideByte, byte_of_side-bound, side_of_byte-byte_of_side}
use exchnage_simulator.Client.Session.{Client, prints, shows_market, market_line}
use exchnage_simulator.Client.Arrivals.{on_message}
use exchnage_simulator.Client.Confirms.{header_of}

-- What a market update tells the client.
unfoldable pub told_update : MdUpdate → Client → Client
told_update u c =
    prints
      (shows_market (
        market_line (record {
          header = header_of 25 market_update;
          symbol_id = u.symbol_id;
          order_id = u.order_id;
          side = u.side;
          price = u.price;
          qty = u.qty;
          update_type = byte_of_update u.update_type;
        })))
      c

pub record UpdateFitsWire (u : MdUpdate) : Type 0 where
  pub symbol_id : u.symbol_id < 2 ^ 32
  pub order_id : u.order_id < 2 ^ 64
  pub side : IsSideByte u.side
  pub price : u.price < 2 ^ 32
  pub qty : u.qty < 2 ^ 32

abbrev pub update_body : MdUpdate → List ℕ
update_body u =
    to_bytes 4 u.symbol_id
    ++ (to_bytes 8 u.order_id
        ++ (to_bytes 1 (byte_of_side u.side)
            ++ (to_bytes 4 u.price
                ++ (to_bytes 4 u.qty ++ to_bytes 1 (byte_of_update u.update_type)))))

byte_of_update-bound : (t : MdUpdateType) → byte_of_update t < 256
byte_of_update-bound md_new = omega arith
byte_of_update-bound md_modify = omega arith
byte_of_update-bound md_cancel = omega arith
byte_of_update-bound md_trade = omega arith

pub on_message-told_update :
    (u : MdUpdate) (junk : List ℕ) (c : Client)
    → UpdateFitsWire u
    → on_message (header_of 25 market_update) market_update (update_body u ++ junk) c
      ≡ told_update u c
unfolding on_message told_update read_market_update
on_message-told_update u junk c f =
    let last = to_bytes 1 (byte_of_update u.update_type) in
    let q = to_bytes 4 u.qty in
    let p = to_bytes 4 u.price in
    let d = to_bytes 1 (byte_of_side u.side) in
    let o = to_bytes 8 u.order_id in
    let y = to_bytes 4 u.symbol_id in
    rw
      (
        read_market_update,
        append_assoc y (o ++ (d ++ (p ++ (q ++ last)))) junk,
        append_assoc o (d ++ (p ++ (q ++ last))) junk,
        append_assoc d (p ++ (q ++ last)) junk,
        append_assoc p (q ++ last) junk,
        append_assoc q last junk,
        read_bytes-to_bytes 4 u.symbol_id (o ++ (d ++ (p ++ (q ++ (last ++ junk))))) f.symbol_id,
        read_bytes-to_bytes 8 u.order_id (d ++ (p ++ (q ++ (last ++ junk)))) f.order_id,
        read_bytes-to_bytes 1 (byte_of_side u.side) (p ++ (q ++ (last ++ junk)))
            (byte_of_side-bound u.side f.side),
        read_bytes-to_bytes 4 u.price (q ++ (last ++ junk)) f.price,
        read_bytes-to_bytes 4 u.qty (last ++ junk) f.qty,
        read_bytes-to_bytes 1 (byte_of_update u.update_type) junk
            (byte_of_update-bound u.update_type),
        side_of_byte-byte_of_side u.side f.side,
      )
      refl
