-- ===== src/Book/State.antt =====
-- matching/include/order_book.hpp: the state of the order book of one symbol.
-- The elements made by `new` live in a heap; price levels and `orderMap` hold their addresses.
use exchnage_simulator.Prelude.{
  ℕ, Bool, List, [], ◌∷◌, ◌++◌, leb, if◌then◌else◌, Map, empty_map, erase,
}
use exchnage_simulator.Core.{Side, is_buy, OrderConfirm, MdUpdate}
use exchnage_simulator.Core.PriceLevel.{Heap}
use exchnage_simulator.Levels.{Levels}

pub record OrderDetails : Type 0 where
  pub side : Side
  pub price : ℕ
  pub quantity : ℕ

-- The heap of elements, with the next address that `new` returns, and the two lookup maps.
pub record Store : Type 0 where
  pub heap : Heap
  pub next_addr : ℕ
  pub order_map : Map ℕ
  pub order_details : Map OrderDetails

pub record OrderBook : Type 0 where
  pub symbol : ℕ
  pub bids : Levels
  pub asks : Levels
  pub store : Store
  pub open store use *

unfoldable pub init : ℕ → OrderBook
unfolding empty_map
init sym = record {
  symbol = sym;
  bids = [];
  asks = [];
  store = record {
    heap = empty_map;
    next_addr = 0;
    order_map = empty_map;
    order_details = empty_map;
  };
}

-- The two vectors that a call appends to.
pub record Sink : Type 0 where
  pub confirms : List OrderConfirm
  pub md : List MdUpdate

abbrev pub empty_sink : Sink
empty_sink = record { confirms = []; md = [] }

abbrev pub push_confirm : OrderConfirm → Sink → Sink
push_confirm c o = record o { confirms = o.confirms ++ (c ∷ []) }

abbrev pub push_md : MdUpdate → Sink → Sink
push_md u o = record o { md = o.md ++ (u ∷ []) }

-- `getBook<S>()`, read and written.
abbrev pub get_book : Side → OrderBook → Levels
get_book s b = if is_buy s then b.bids else b.asks

abbrev pub set_book : Side → Levels → OrderBook → OrderBook
set_book s ls b = if is_buy s then record b { bids = ls } else record b { asks = ls }

-- `delete` of the element at `a`, with its entries in the two maps.
abbrev pub drop_order : ℕ → ℕ → Store → Store
drop_order id a st = record st {
  heap = erase a st.heap;
  order_map = erase id st.order_map;
  order_details = erase id st.order_details;
}

-- `canTrade` of the template instance for the passive side.
abbrev pub can_trade : Side → ℕ → ℕ → Bool
can_trade passive level_price price =
    if is_buy passive then leb price level_price else leb level_price price
