-- ===== src/Dispatch/Tests.antt =====
-- The theorems on the matching thread at concrete messages.
use exchnage_simulator.Prelude.{
  ℕ, ◌≡◌, refl, inl, some, List, [], ◌∷◌, map, All, done, arith, empty_map,
}
use exchnage_simulator.Wire.{new_order_request, cancel_order_request}
use exchnage_simulator.Framing.{RawMessage, frame_all}
use exchnage_simulator.Framing.Messages.{joined}
use exchnage_simulator.Dispatch.Parsed.{
  ClientRequest, asks_new, asks_cancel, request_bytes, request_of,
}
use exchnage_simulator.Dispatch.Requests.{frame_all-parse_request}
use exchnage_simulator.Core.{buy, OrderConfirm, confirm, trade, cancel_ack, unknown_order}
use exchnage_simulator.Book.Volumes.{confirmed_qty}
use exchnage_simulator.Engine.{
  new_engine, best_bid_price, best_bid_qty, best_ask_price, best_ask_qty,
}
use exchnage_simulator.Engine.Valid.{IsEngine}
use exchnage_simulator.Market.{new_market, no_state, get}
use exchnage_simulator.Sessions.{SessionManager, new_sessions, add}
use exchnage_simulator.Sessions.Inverse.{IsPaired, new_sessions-IsPaired, add-IsPaired}
use exchnage_simulator.Dispatch.{
  MatchingThread, Input, Sent, run_thread, start_thread, deliver, publish, parse_request,
}
use exchnage_simulator.Dispatch.Total.{run_thread-IsEngine}
use exchnage_simulator.Dispatch.Private.{IsPrivate, deliver-IsPrivate}
use exchnage_simulator.Dispatch.Volume.{get-publish}

abbrev sessions : SessionManager
sessions = add 4 9 new_sessions

sessions-IsPaired : IsPaired sessions
unfolding new_sessions empty_map
sessions-IsPaired = add-IsPaired 4 9 new_sessions new_sessions-IsPaired refl refl

abbrev input : ℕ → List ℕ → Input
input l bytes = record {
  raw = record { trader_id = 9; length = l; bytes = bytes };
  now = 17;
  sessions = λ k. sessions;
  all_fds = λ k. 4 ∷ [];
}

-- A cancellation of order 1 of symbol 2, and a message of an unknown type.
abbrev inputs : List Input
inputs =
    input 15 (15 ∷ 0 ∷ 3 ∷ 1 ∷ 0 ∷ 0 ∷ 0 ∷ 0 ∷ 0 ∷ 0 ∷ 0 ∷ 2 ∷ 0 ∷ 0 ∷ 0 ∷ [])
    ∷ input 3 (3 ∷ 0 ∷ 99 ∷ [])
    ∷ []

run_thread-IsEngine_example :
    (t : MatchingThread) × (sent : List Sent) × (run_thread inputs start_thread ≡ done (t, sent))
    × IsEngine t.engine
run_thread-IsEngine_example =
    run_thread-IsEngine inputs
      (
        (
          omega arith,
          (
            omega arith,
            (
              omega arith,
              (
                omega arith,
                (
                  omega arith,
                  (
                    omega arith,
                    (
                      omega arith,
                      (
                        omega arith,
                        (
                          omega arith,
                          (
                            omega arith,
                            (
                              omega arith,
                              (omega arith, (omega arith, (omega arith, (omega arith, tt)))),
                            ),
                          ),
                        ),
                      ),
                    ),
                  ),
                ),
              ),
            ),
          ),
        ),
        ((omega arith, (omega arith, (omega arith, tt))), tt),
      )
      (omega arith)

abbrev confirms : List OrderConfirm
confirms =
    confirm trade 1 0 9 2 100 5 unknown_order
    ∷ confirm trade 2 0 8 2 100 5 unknown_order
    ∷ confirm cancel_ack 3 0 9 2 0 0 unknown_order
    ∷ []

deliver-IsPrivate_example :
    All (IsPrivate (λ k. sessions) confirms) (deliver (λ k. sessions) confirms)
deliver-IsPrivate_example = deliver-IsPrivate (λ k. sessions) confirms (λ k. sessions-IsPaired)

-- One trade of 5 units adds 10 to the volume.
get-publish_example :
    ((get 2 (publish 2 new_engine confirms new_market)).best_bid ≡ best_bid_price new_engine 2)
    × ((get 2 (publish 2 new_engine confirms new_market)).bid_volume ≡ best_bid_qty new_engine 2)
    × ((get 2 (publish 2 new_engine confirms new_market)).best_ask ≡ best_ask_price new_engine 2)
    × ((get 2 (publish 2 new_engine confirms new_market)).ask_volume ≡ best_ask_qty new_engine 2)
    × ((get 2 (publish 2 new_engine confirms new_market)).total_traded_volume ≡ 10)
unfolding confirmed_qty new_market no_state
get-publish_example = get-publish 2 new_engine confirms new_market (omega arith) (omega arith)

-- A new order and its cancellation, and one byte more.
abbrev two_requests : List ClientRequest
two_requests =
    asks_new (record {
      header = record { length = 24; type = new_order_request };
      client_order_id = 1;
      symbol_id = 2;
      side = buy;
      price = 100;
      qty = 5;
    })
    ∷ asks_cancel (record {
      header = record { length = 15; type = cancel_order_request };
      order_id = 1;
      symbol_id = 2;
    })
    ∷ []

frame_all-parse_request_example :
    (pushed : List RawMessage) × (frame_all 3 9 (joined (map request_bytes two_requests) (24 ∷ []))
      ≡ done (pushed, 24 ∷ []))
    × (map (parse_request 17) pushed ≡ map (λ r. some (request_of 17 9 r)) two_requests)
frame_all-parse_request_example =
    frame_all-parse_request 17 9 3 two_requests (24 ∷ [])
      (
        (refl, omega arith, omega arith, tt, omega arith, omega arith),
        ((refl, omega arith, omega arith), tt),
      )
      (inl refl) (omega arith)
