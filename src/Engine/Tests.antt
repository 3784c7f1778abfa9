-- ===== src/Engine/Tests.antt =====
-- The theorems on the matching engine at concrete calls.
use exchnage_simulator.Prelude.{ℕ, ◌≡◌, [], ◌∷◌, done, arith}
use exchnage_simulator.Core.{Side, buy, sell, OrderRequest, new_order}
use exchnage_simulator.Book.{Sink, empty_sink}
use exchnage_simulator.Engine.{MatchingEngine}
use exchnage_simulator.Engine.Valid.{IsEngine}
use exchnage_simulator.Engine.Run.{
  order, cancel_call, modify_call, serve_all, initialized, serve_all-IsEngine,
}

abbrev request : ℕ → ℕ → Side → ℕ → ℕ → OrderRequest
request symbol trader side price qty = record {
  order_id = 0;
  client_order_id = 0;
  price = price;
  timestamp = 0;
  trader_id = trader;
  symbol_id = symbol;
  quantity = qty;
  side = side;
  request_type = new_order;
}

serve_all-IsEngine_example :
    (e : MatchingEngine) × (s : Sink) × (serve_all
        (order (request 1 7 sell 100 5)
          ∷ order (request 9 7 sell 100 5)
          ∷ order (request 2 8 buy 50 5)
          ∷ modify_call 1 1 7 101 6
          ∷ order (request 1 8 buy 101 2)
          ∷ cancel_call 1 1 7
          ∷ [])
        (initialized (1 ∷ 2 ∷ []))
        empty_sink
      ≡ done (e, s))
    × IsEngine e
serve_all-IsEngine_example =
    serve_all-IsEngine (1 ∷ 2 ∷ [])
      (order (request 1 7 sell 100 5)
        ∷ order (request 9 7 sell 100 5)
        ∷ order (request 2 8 buy 50 5)
        ∷ modify_call 1 1 7 101 6
        ∷ order (request 1 8 buy 101 2)
        ∷ cancel_call 1 1 7
        ∷ [])
      empty_sink (omega arith, (omega arith, (omega arith, (omega arith, (omega arith, (tt, tt))))))
      (omega arith)
