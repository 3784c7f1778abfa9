-- ===== src/Engine.antt =====
-- matching/include/matching_engine.hpp and matching/src/matching_engine.cpp: one order book per
-- symbol, and the counter that issues the order ids.
pub mod Ids
pub mod Valid
pub mod Growth
pub mod Steps
pub mod Run
pub mod Tests
use exchnage_simulator.Prelude.{
  ℕ, Option, none, some, List, [], ◌∷◌, Map, empty_map, insert, Outcome, done, ◌>>=◌, add64,
}
use exchnage_simulator.Core.{OrderRequest}
use exchnage_simulator.Book.{OrderBook, Sink, init}
use exchnage_simulator.Book.{
  Reply, add_order, cancel_order, modify_order, get_best_bid_price, get_best_bid_qty,
  get_best_ask_price, get_best_ask_qty,
}

-- `books` owns each book, so a pointer into it is the book itself.
pub record MatchingEngine : Type 0 where
  pub books : Map OrderBook
  pub next_order_id : ℕ

unfoldable pub new_engine : MatchingEngine
new_engine = record { books = empty_map; next_order_id = 1 }

-- `books[sym] = std::make_unique<OrderBook>(sym)` for each symbol in turn.
unfoldable pub initialize : List ℕ → MatchingEngine → MatchingEngine
initialize [] e = e
initialize (s ∷ ss) e = initialize ss (record e { books = insert s (init s) e.books })

-- What the three handlers share: the book of the symbol, if there is one, takes the request.
abbrev pub on_book :
    ℕ → (OrderBook → Sink → Outcome Reply) → MatchingEngine → Sink → Outcome (MatchingEngine × Sink)
on_book symbol act e out = elim (e.books symbol) [
  | none ↦ done (e, out)
  | some b ↦ (act b out >>= λ r. done (record e { books = insert symbol r.0 e.books }, r.1))
]

-- `order.m_orderId = nextOrderId++`, whether or not there is a book.
unfoldable pub on_order : OrderRequest → MatchingEngine → Sink → Outcome (MatchingEngine × Sink)
on_order r e out = do
  let r' = record r { order_id = e.next_order_id }
  let e' = record e { next_order_id = add64 e.next_order_id 1 }
  on_book r.symbol_id (add_order r') e' out

unfoldable pub on_cancel : ℕ → ℕ → ℕ → MatchingEngine → Sink → Outcome (MatchingEngine × Sink)
on_cancel id symbol trader e out = on_book symbol (cancel_order id trader) e out

unfoldable pub on_modify :
    ℕ → ℕ → ℕ → ℕ → ℕ → MatchingEngine → Sink → Outcome (MatchingEngine × Sink)
on_modify id symbol trader price qty e out = on_book symbol (modify_order id trader price qty) e out

abbrev lookup : (OrderBook → ℕ) → MatchingEngine → ℕ → ℕ
lookup f e symbol = elim (e.books symbol) [ none ↦ 0 | some b ↦ f b ]

unfoldable pub best_bid_price : MatchingEngine → ℕ → ℕ
best_bid_price e symbol = lookup get_best_bid_price e symbol

unfoldable pub best_bid_qty : MatchingEngine → ℕ → ℕ
best_bid_qty e symbol = lookup get_best_bid_qty e symbol

unfoldable pub best_ask_price : MatchingEngine → ℕ → ℕ
best_ask_price e symbol = lookup get_best_ask_price e symbol

unfoldable pub best_ask_qty : MatchingEngine → ℕ → ℕ
best_ask_qty e symbol = lookup get_best_ask_qty e symbol
