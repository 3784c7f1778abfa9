-- ===== src/Book/Runs.antt =====
-- The order book run at concrete orders.
use exchnage_simulator.Prelude.{◌≡◌, refl, [], ◌∷◌, insert, empty_map, erase, done}
use exchnage_simulator.Core.{buy, sell, confirm, reject, unknown_order}
use exchnage_simulator.Core.PriceLevel
use exchnage_simulator.Core.PriceLevel.{PriceLevel}
use exchnage_simulator.Levels
use exchnage_simulator.Book.State.{empty_sink, OrderBook, push_confirm}
use exchnage_simulator.Book.Matching
use exchnage_simulator.Book.Api
use exchnage_simulator.Book.Api.{
  Reply, acknowledge, add_order, cancel_order, modify_order, get_best_ask_qty, get_best_bid_price,
  get_best_ask_price,
}
use exchnage_simulator.Book.Rules.{view}
use exchnage_simulator.Book.View.{view_levels, view_orders}
use exchnage_simulator.Book.Samples.{request, bid_of_8, one_offer, two_offers, book_of}

abbrev after_trade : OrderBook
after_trade = book_of (add_order bid_of_8 two_offers empty_sink) two_offers

-- What is left over of the bid is the only order.
after_trade_reads : view after_trade ≡ record {
  bids = (record { id = 3; trader_id = 8; quantity = 4; price = 102 }) ∷ [];
  asks = [];
}
unfolding add_order Matching.match_against Matching.match_levels Api.rest_order
    Levels.insert_into_level Levels.find_level Levels.get_or_create_level Levels.emplace_level
    PriceLevel.add_order Levels.set_level PriceLevel.empty_level Matching.match_front
    Matching.match_level Matching.match_order PriceLevel.peek_first PriceLevel.remove_order erase
    Matching.cancel_passive Matching.trade_passive Matching.trade_records PriceLevel.listed
    PriceLevel.reduce_qty PriceLevel.unlist view_levels view_orders insert empty_map
after_trade_reads = refl

abbrev with_bid : OrderBook
with_bid = book_of (add_order (request 2 8 buy 90 3) one_offer empty_sink) one_offer

-- Trader 7 may not cancel the order of trader 8.
foreign_cancel :
    cancel_order 2 7 two_offers empty_sink
    ≡ done (two_offers, push_confirm (confirm reject 2 0 7 1 0 0 unknown_order) empty_sink)
unfolding cancel_order insert
foreign_cancel = refl

-- An order that moves to a price where it could trade rests there: the book is crossed.
abbrev crossed_book : OrderBook
crossed_book = book_of (modify_order 2 8 105 3 with_bid empty_sink) with_bid

crossed_book_reads : view crossed_book ≡ record {
  bids = (record { id = 2; trader_id = 8; quantity = 3; price = 105 }) ∷ [];
  asks = (record { id = 1; trader_id = 7; quantity = 5; price = 100 }) ∷ [];
}
unfolding modify_order add_order Matching.match_against Matching.match_levels Api.rest_order
    Levels.insert_into_level Levels.find_level Levels.get_or_create_level Levels.emplace_level
    PriceLevel.add_order Levels.set_level PriceLevel.empty_level Matching.match_front
    Matching.match_level Matching.match_order PriceLevel.peek_first PriceLevel.remove_order erase
    Matching.cancel_passive Matching.trade_passive Matching.trade_records PriceLevel.listed
    PriceLevel.reduce_qty PriceLevel.unlist view_levels view_orders insert empty_map
    Api.modify_owned Api.reinsert Levels.remove_from_level Levels.erase_level
crossed_book_reads = refl

-- After a smaller quantity at the same price, the best quantity still is the old one.
kept_total : get_best_ask_qty (book_of (modify_order 1 7 100 2 one_offer empty_sink) one_offer) ≡ 5
unfolding modify_order add_order Matching.match_against Matching.match_levels Api.rest_order
    Levels.insert_into_level Levels.find_level Levels.get_or_create_level Levels.emplace_level
    PriceLevel.add_order Levels.set_level PriceLevel.empty_level Matching.match_front
    Matching.match_level Matching.match_order PriceLevel.peek_first PriceLevel.remove_order erase
    Matching.cancel_passive Matching.trade_passive Matching.trade_records PriceLevel.listed
    PriceLevel.reduce_qty PriceLevel.unlist view_levels view_orders insert empty_map
    Api.modify_owned Api.reinsert Levels.remove_from_level Levels.erase_level Api.modify_in_place
    Api.get_best_ask_qty
kept_total = refl

-- Two offers of 5 and 3 at a price, and a bid for 5 that fills the first one: 3 are open, and the best
-- quantity is 8.
filled_total :
    get_best_ask_qty (
      book_of
        (add_order
          (request 3 9 buy 100 5)
          (book_of (add_order (request 2 8 sell 100 3) one_offer empty_sink) one_offer)
          empty_sink)
        one_offer)
    ≡ 8
unfolding modify_order add_order Matching.match_against Matching.match_levels Api.rest_order
    Levels.insert_into_level Levels.find_level Levels.get_or_create_level Levels.emplace_level
    PriceLevel.add_order Levels.set_level PriceLevel.empty_level Matching.match_front
    Matching.match_level Matching.match_order PriceLevel.peek_first PriceLevel.remove_order erase
    Matching.cancel_passive Matching.trade_passive Matching.trade_records PriceLevel.listed
    PriceLevel.reduce_qty PriceLevel.unlist view_levels view_orders insert empty_map
    Api.modify_owned Api.reinsert Levels.remove_from_level Levels.erase_level Api.get_best_ask_qty
filled_total = refl
