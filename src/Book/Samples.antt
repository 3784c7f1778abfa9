-- ===== src/Book/Samples.antt =====
-- Concrete orders and books for the tests.
use exchnage_simulator.Prelude.{
  ℕ, ◌≡◌, ◌<◌, ◌^◌, ap, refl, sym, ◌∙◌, subst, none, [], ◌∷◌, insert, empty_map, Outcome, done,
  arith,
}
use exchnage_simulator.Core.{Side, buy, sell, OrderRequest, new_order}
use exchnage_simulator.Core.PriceLevel
use exchnage_simulator.Core.PriceLevel.{PriceLevel}
use exchnage_simulator.Levels
use exchnage_simulator.Book.State.{empty_sink, OrderBook, init}
use exchnage_simulator.Book.Matching
use exchnage_simulator.Book.Api
use exchnage_simulator.Book.Api.{
  Reply, acknowledge, add_order, cancel_order, modify_order, get_best_ask_qty, get_best_bid_price,
  get_best_ask_price,
}
use exchnage_simulator.Book.Valid.{IsValid, init-IsValid}
use exchnage_simulator.Book.AddOrder.{add_order-refines}
use exchnage_simulator.Book.Rules.{view}
use exchnage_simulator.Book.Uncrossed.{IsUncrossed}
use exchnage_simulator.Book.View.{view_levels, view_orders}

abbrev pub request : ℕ → ℕ → Side → ℕ → ℕ → OrderRequest
request id trader side price qty = record {
  order_id = id;
  client_order_id = 0;
  price = price;
  timestamp = 0;
  trader_id = trader;
  symbol_id = 1;
  quantity = qty;
  side = side;
  request_type = new_order;
}

abbrev offer_of_7 : OrderRequest
offer_of_7 = request 1 7 sell 100 5

abbrev offer_of_8 : OrderRequest
offer_of_8 = request 2 8 sell 101 3

-- A buy order that trades with the first offer and withdraws the second one, which is its trader's.
abbrev pub bid_of_8 : OrderRequest
bid_of_8 = request 3 8 buy 102 9

abbrev pub one_offer : OrderBook
one_offer = record {
  symbol = 1;
  bids = [];
  asks = (100, record { price = 100; total_qty = 5; orders = 0 ∷ [] }) ∷ [];
  store = record {
    heap = insert 0 (record { id = 1; trader_id = 7; quantity = 5 }) empty_map;
    next_addr = 1;
    order_map = insert 1 0 empty_map;
    order_details = insert 1 (record { side = sell; price = 100; quantity = 5 }) empty_map;
  };
}

abbrev pub two_offers : OrderBook
two_offers = record {
  symbol = 1;
  bids = [];
  asks =
      (100, record { price = 100; total_qty = 5; orders = 0 ∷ [] })
      ∷ (101, record { price = 101; total_qty = 3; orders = 1 ∷ [] })
      ∷ [];
  store = record {
    heap = insert 1 (record { id = 2; trader_id = 8; quantity = 3 }) one_offer.store.heap;
    next_addr = 2;
    order_map = insert 2 1 one_offer.store.order_map;
    order_details =
        insert 2 (record { side = sell; price = 101; quantity = 3 }) one_offer.store.order_details;
  };
}

abbrev pub book_of : Outcome Reply → OrderBook → OrderBook
book_of (done r) b = r.0
book_of _ b = b

module _ (r : OrderRequest) (b c : OrderBook) where
  -- A book that a valid book leads to is valid.
  leads-IsValid :
      IsValid b
      → b.store.order_map r.order_id ≡ none
      → r.quantity < 2 ^ 32
      → book_of (add_order r b empty_sink) b ≡ c
      → IsValid c
  leads-IsValid h new small e =
      let (b', runs, valid, _, _) = add_order-refines r b empty_sink h new small in
      subst IsValid (sym (ap (λ o. book_of o b) runs) ∙ e) valid

pub one_offer-IsValid : IsValid one_offer
unfolding add_order init Matching.match_against Matching.match_levels Api.rest_order
    Levels.insert_into_level Levels.find_level Levels.get_or_create_level Levels.emplace_level
    PriceLevel.add_order Levels.set_level PriceLevel.empty_level insert empty_map
one_offer-IsValid =
    leads-IsValid offer_of_7 (init 1) one_offer (init-IsValid 1) refl (omega arith) refl

pub two_offers-IsValid : IsValid two_offers
unfolding add_order Matching.match_against Matching.match_levels Api.rest_order
    Levels.insert_into_level Levels.find_level Levels.get_or_create_level Levels.emplace_level
    PriceLevel.add_order Levels.set_level PriceLevel.empty_level insert empty_map
two_offers-IsValid =
    leads-IsValid offer_of_8 one_offer two_offers one_offer-IsValid refl (omega arith) refl

abbrev pub bid_and_offer : OrderBook
bid_and_offer = record {
  symbol = 1;
  bids = (90, record { price = 90; total_qty = 3; orders = 1 ∷ [] }) ∷ [];
  asks = one_offer.asks;
  store = record {
    heap = insert 1 (record { id = 2; trader_id = 8; quantity = 3 }) one_offer.store.heap;
    next_addr = 2;
    order_map = insert 2 1 one_offer.store.order_map;
    order_details =
        insert 2 (record { side = buy; price = 90; quantity = 3 }) one_offer.store.order_details;
  };
}

pub bid_and_offer-IsValid : IsValid bid_and_offer
unfolding add_order Matching.match_against Matching.match_levels Api.rest_order
    Levels.insert_into_level Levels.find_level Levels.get_or_create_level Levels.emplace_level
    PriceLevel.add_order Levels.set_level PriceLevel.empty_level insert empty_map
bid_and_offer-IsValid =
    leads-IsValid (request 2 8 buy 90 3) one_offer bid_and_offer one_offer-IsValid refl
      (omega arith) refl

pub bid_and_offer-IsUncrossed : IsUncrossed (view bid_and_offer)
unfolding insert empty_map view_levels view_orders
bid_and_offer-IsUncrossed = ((omega arith, tt), tt)
