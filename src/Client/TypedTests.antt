-- ===== src/Client/TypedTests.antt =====
-- The client and the exchange at a concrete line.
use exchnage_simulator.Prelude.{
  refl, All, Outcome, codes, ℕ, suc, Bool, Option, if◌then◌else◌, ◌≡◌, ◌<◌, ◌^◌, true, false, some,
  none, List, [], ◌∷◌, ◌++◌, map, length, empty_map, insert, done, ◌==◌, arith,
}
use exchnage_simulator.Core.{buy}
use exchnage_simulator.Wire.{
  MsgHeader, new_order_confirm, new_order_request, modify_order_request, new_order_request_bytes,
  modify_order_request_bytes, read_new_order_confirm, header_bytes,
}
use exchnage_simulator.Wire.Bytes.{AreBytes, read_bytes, to_bytes}
use exchnage_simulator.Net.{sent}
use exchnage_simulator.Framing.{RawMessage, frame_all}
use exchnage_simulator.Framing.Messages.{joined}
use exchnage_simulator.Dispatch.{parse_request}
use exchnage_simulator.Dispatch.Parsed.{ClientRequest, request_bytes, request_of}
use exchnage_simulator.Client.Text.{
  read_uint, read_word, is_space, is_digit, skip_space, split_word, read_digits, read_sign,
  same_text,
}
use exchnage_simulator.Client.{
  hear_all, on_line, on_request, on_action, on_new, on_modify, is_quit, is_comment, clean_commas,
  read_new_fields, read_modify_fields, new_order_of, modify_order_of, exchange_id, send_for,
  send_or_stop, send_msg, all_sent, on_message, Client, Prompt, new_client, run_input,
}
use exchnage_simulator.Client.Sends.{FitsIds}
use exchnage_simulator.Client.Typed.{HearsBytes, end_of_input, run_input-parse_request}

-- The confirmation that order 2 of the user is order 9 of the exchange.
abbrev confirmed : MsgHeader × List ℕ
confirmed = (
  record { length = 19; type = new_order_confirm },
  2 ∷ 0 ∷ 0 ∷ 0 ∷ 0 ∷ 0 ∷ 0 ∷ 0 ∷ 9 ∷ 0 ∷ 0 ∷ 0 ∷ 0 ∷ 0 ∷ 0 ∷ 0 ∷ [],
)

-- A new order, and once it is confirmed, its modification.
abbrev typed : List Prompt
typed =
    record { heard = []; stopped = false; line = some (codes "N, 2, 1, BUY, 100, 1") }
    ∷ record { heard = confirmed ∷ []; stopped = false; line = some (codes "M, 2, 1, 101, 3") }
    ∷ []

typed-HearsBytes : All HearsBytes typed
typed-HearsBytes = (tt, ((small_bytes, tt), tt))
  where
    small_bytes : AreBytes confirmed.1
    small_bytes = (
      omega arith,
      (
        omega arith,
        (
          omega arith,
          (
            omega arith,
            (
              omega arith,
              (
                omega arith,
                (
                  omega arith,
                  (
                    omega arith,
                    (
                      omega arith,
                      (
                        omega arith,
                        (
                          omega arith,
                          (
                            omega arith,
                            (omega arith, (omega arith, (omega arith, (omega arith, tt)))),
                          ),
                        ),
                      ),
                    ),
                  ),
                ),
              ),
            ),
          ),
        ),
      ),
    )

-- Order 1 of the user is order 7 of the exchange.
abbrev logged_in : Client
logged_in = record (new_client (sent 24 ∷ sent 23 ∷ [])) {
  internal_to_exchange = insert 1 7 empty_map;
}

logged_in-FitsIds : FitsIds logged_in
unfolding insert empty_map new_client
logged_in-FitsIds id e at = by_id (1 == id) at
  where
    by_id : (b : Bool) → ◌≡◌ {A = Option ℕ} (if b then some 7 else none) (some e) → e < 2 ^ 64
    by_id true at = let seven : 7 ≡ e = cc in omega (arith, seven)
    by_id false at = cc

-- One message for each of the two requests.
run_input-parse_request_example :
    (c' : Client) × (rs : List ClientRequest) × (pushed : List RawMessage) × (run_input
        (typed ++ (end_of_input ∷ []))
        logged_in
      ≡ done c')
    × (c'.outbox ≡ logged_in.outbox ++ map request_bytes rs)
    × (frame_all (suc (length rs)) 9 (joined (map request_bytes rs) []) ≡ done (pushed, []))
    × (map (parse_request 5) pushed ≡ map (λ r. some (request_of 5 9 r)) rs)
unfolding new_client
run_input-parse_request_example =
    run_input-parse_request 5 9 typed logged_in logged_in-FitsIds typed-HearsBytes (omega arith)

abbrev outbox_of : Outcome Client → List (List ℕ)
outbox_of (done c) = c.outbox
outbox_of _ = []

-- The modification is sent for order 9.
modifies_nine :
    outbox_of (run_input (typed ++ (end_of_input ∷ [])) logged_in)
    ≡ new_order_request_bytes (record {
      header = record { length = 24; type = new_order_request };
      client_order_id = 2;
      symbol_id = 1;
      side = buy;
      price = 100;
      qty = 1;
    })
      ∷ modify_order_request_bytes (record {
        header = record { length = 23; type = modify_order_request };
        order_id = 9;
        symbol_id = 1;
        price = 101;
        qty = 3;
      })
      ∷ []
unfolding run_input hear_all on_line on_request on_action on_new on_modify is_quit is_comment
    clean_commas read_new_fields read_modify_fields read_uint read_word is_space is_digit skip_space
    split_word read_digits read_sign same_text new_order_of modify_order_of exchange_id send_for
    send_or_stop send_msg all_sent on_message read_new_order_confirm read_bytes insert empty_map
    new_client new_order_request_bytes modify_order_request_bytes header_bytes to_bytes
modifies_nine = refl
