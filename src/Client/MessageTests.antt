-- ===== src/Client/MessageTests.antt =====
-- The client at concrete messages of the exchange.
use exchnage_simulator.Prelude.{◌≡◌, refl, false, [], ◌∷◌, ◌++◌, map, empty_map, insert, arith}
use exchnage_simulator.Core.{OrderConfirm, new_ack, unknown_order, MdUpdate, md_trade, sell}
use exchnage_simulator.Net.{end_of_stream, sent}
use exchnage_simulator.Wire.{header_bytes, to_market_update_msg, to_new_order_confirm_msg}
use exchnage_simulator.Wire.Bytes.{to_bytes}
use exchnage_simulator.Dispatch.{confirm_msg}
use exchnage_simulator.Framing.Messages.{joined}
use exchnage_simulator.Client.{Client, recv_thread, new_client}
use exchnage_simulator.Client.Hearing.{
  confirmation, market, Arrival, inbox_of, hears_all, recv_thread-hears,
}

-- Order 1 of the user is order 7 of the exchange.
abbrev one_order : Client
one_order = record (new_client (sent 24 ∷ sent 23 ∷ [])) {
  internal_to_exchange = insert 1 7 empty_map;
}

-- A new order is confirmed, in two pieces of the header and one of the rest, and traded.
abbrev ack : OrderConfirm
ack = record {
  type = new_ack;
  order_id = 300;
  client_order_id = 2;
  trader_id = 9;
  symbol_id = 1;
  price = 100;
  qty = 1;
  reason = unknown_order;
}

abbrev update : MdUpdate
update = record {
  symbol_id = 1;
  order_id = 300;
  side = sell;
  price = 100;
  qty = 1;
  update_type = md_trade;
}

ack-Arrival : Arrival (confirm_msg ack)
unfolding joined confirm_msg to_new_order_confirm_msg header_bytes to_bytes
ack-Arrival = record {
  head_chunks = (19 ∷ []) ∷ (0 ∷ 10 ∷ []) ∷ [];
  body_chunks = (to_bytes 8 2 ++ to_bytes 8 300) ∷ [];
  some_head = omega arith;
  some_body = omega arith;
  head_size = refl;
  whole = refl;
}

update-Arrival : Arrival (to_market_update_msg update)
unfolding joined to_market_update_msg header_bytes to_bytes
update-Arrival = record {
  head_chunks = (25 ∷ 0 ∷ 20 ∷ []) ∷ [];
  body_chunks =
      to_bytes 4 1
      ∷ (to_bytes 8 300 ++ (1 ∷ []))
      ∷ (to_bytes 4 100 ++ (to_bytes 4 1 ++ (4 ∷ [])))
      ∷ [];
  some_head = omega arith;
  some_body = omega arith;
  head_size = refl;
  whole = refl;
}

recv_thread-hears_example :
    recv_thread
      (map (λ s. record { stopped = false; stack = s }) ([] ∷ [] ∷ []) ++ [])
      (inbox_of
        (confirmation ack ∷ market update ∷ [])
        (ack-Arrival, (update-Arrival, tt))
        (end_of_stream ∷ []))
      one_order
    ≡ recv_thread []
        (end_of_stream ∷ [])
        (hears_all (confirmation ack ∷ market update ∷ []) one_order)
unfolding new_client
recv_thread-hears_example =
    recv_thread-hears (confirmation ack ∷ market update ∷ []) (ack-Arrival, (update-Arrival, tt))
      ([] ∷ [] ∷ []) [] (end_of_stream ∷ []) one_order
      (
        record {
          client_order_id = omega arith;
          order_id = omega arith;
          price = omega arith;
          qty = omega arith;
        },
        (
          record {
            symbol_id = omega arith;
            order_id = omega arith;
            side = tt;
            price = omega arith;
            qty = omega arith;
          },
          tt,
        ),
      )
      refl refl
