-- ===== src/Book/Tests.antt =====
-- The theorems on the order book at concrete orders and books.
use exchnage_simulator.Prelude.{
  true, false, not, ◌==◌, ◌+◌, List, All, ◌≡◌, refl, insert, empty_map, done, arith,
}
use exchnage_simulator.Core.{Side, buy, sell}
use exchnage_simulator.Book.State.{empty_sink, OrderBook, Sink}
use exchnage_simulator.Book.Api.{
  acknowledge, add_order, cancel_order, modify_order, get_best_bid_price, get_best_ask_price,
}
use exchnage_simulator.Book.Valid.{IsValid}
use exchnage_simulator.Book.AddOrder.{add_order-refines}
use exchnage_simulator.Book.CancelOrder.{OnSide, cancel_report, cancel_order-refines}
use exchnage_simulator.Book.ModifyOrder.{Covers, IsPlacedWith, modified, modify_order-refines}
use exchnage_simulator.Book.Modifying.{modify_report}
use exchnage_simulator.Book.Rules.{
  left_over, orders_of, view, crossing, add_rule, owned, cancel_rule,
}
use exchnage_simulator.Book.Volumes.{total, confirmed_qty, told_qty, is_cancel}
use exchnage_simulator.Book.Conservation.{add_order-conserves}
use exchnage_simulator.Book.Fairness.{IsFair, InTurn, add_order-in_turn}
use exchnage_simulator.Book.Best.{best_of, best_prices-best_of}
use exchnage_simulator.Book.Queueing.{QueuesIn, add_order-QueuesIn}
use exchnage_simulator.Book.Uncrossed.{IsUncrossed, add_order-IsUncrossed, cancel_order-IsUncrossed}
use exchnage_simulator.Book.Spec.{cross, Event, report}
use exchnage_simulator.Book.View.{view_levels, view_orders}
use exchnage_simulator.Book.Samples.{
  request, bid_of_8, two_offers, two_offers-IsValid, bid_and_offer, bid_and_offer-IsValid,
  bid_and_offer-IsUncrossed,
}

add_order-refines_example :
    (b' : OrderBook) × (add_order bid_of_8 two_offers empty_sink
      ≡ done (
        b',
        report sell bid_of_8 1
            (crossing bid_of_8 (view two_offers)).events
            (acknowledge bid_of_8 1 empty_sink),
      ))
    × IsValid b'
    × (view b' ≡ add_rule bid_of_8 (view two_offers))
    × (b'.symbol ≡ 1)
unfolding insert empty_map
add_order-refines_example =
    add_order-refines bid_of_8 two_offers empty_sink two_offers-IsValid refl (omega arith)

cancel_order-refines_example :
    (b' : OrderBook) × (d : Side) × (cancel_order 2 8 two_offers empty_sink
      ≡ done (b', cancel_report 2 8 1 d (owned 2 8 (view two_offers)) empty_sink))
    × IsValid b'
    × (view b' ≡ cancel_rule 2 8 (view two_offers))
    × OnSide d (owned 2 8 (view two_offers))
    × (b'.symbol ≡ 1)
cancel_order-refines_example = cancel_order-refines 2 8 two_offers empty_sink two_offers-IsValid

modify_order-refines_example :
    (b' : OrderBook) × (d : Side) × (modify_order 1 7 103 6 two_offers empty_sink
      ≡ done (b', modify_report 1 7 103 6 1 d (owned 1 7 (view two_offers)) empty_sink))
    × IsValid b'
    × (view b' ≡ modified 5 1 103 6 (owned 1 7 (view two_offers)) (view two_offers))
    × OnSide d (owned 1 7 (view two_offers))
    × Covers 5 (owned 1 7 (view two_offers))
    × IsPlacedWith 6 1 b' (owned 1 7 (view two_offers))
    × (b'.symbol ≡ 1)
unfolding insert empty_map
modify_order-refines_example =
    modify_order-refines 1 7 103 6 two_offers empty_sink two_offers-IsValid (omega arith)

add_order-conserves_example :
    (b' : OrderBook) × (s : Sink) × (add_order bid_of_8 two_offers empty_sink ≡ done (b', s))
    × (total (orders_of true (view b')) + told_qty (λ t. t == 8) s.confirms ≡ 0 + 9)
    × (total (orders_of false (view b'))
          + told_qty (λ t. not (t == 8)) s.confirms
          + confirmed_qty is_cancel s.confirms
        ≡ 8)
    × (told_qty (λ t. t == 8) s.confirms ≡ told_qty (λ t. not (t == 8)) s.confirms)
unfolding insert empty_map total view_levels view_orders
add_order-conserves_example =
    add_order-conserves bid_of_8 two_offers two_offers-IsValid refl (omega arith)

add_order-in_turn_example :
    (b' : OrderBook) × (es : List Event) × (add_order bid_of_8 two_offers empty_sink
      ≡ done (b', report sell bid_of_8 1 es (acknowledge bid_of_8 1 empty_sink)))
    × All (IsFair sell bid_of_8) es
    × InTurn (orders_of false (view two_offers)) es (orders_of false (view b'))
unfolding insert empty_map
add_order-in_turn_example =
    add_order-in_turn bid_of_8 two_offers empty_sink two_offers-IsValid refl (omega arith)

best_prices-best_of_example :
    (get_best_bid_price two_offers ≡ best_of buy (orders_of true (view two_offers)))
    × (get_best_ask_price two_offers ≡ best_of sell (orders_of false (view two_offers)))
best_prices-best_of_example = best_prices-best_of two_offers two_offers-IsValid

add_order-IsUncrossed_example :
    (b' : OrderBook) × (s : Sink) × (add_order bid_of_8 bid_and_offer empty_sink ≡ done (b', s))
    × IsValid b'
    × IsUncrossed (view b')
unfolding insert empty_map
add_order-IsUncrossed_example =
    add_order-IsUncrossed bid_of_8 bid_and_offer empty_sink bid_and_offer-IsValid refl (omega arith)
      bid_and_offer-IsUncrossed

cancel_order-IsUncrossed_example :
    (b' : OrderBook) × (s : Sink) × (cancel_order 1 7 bid_and_offer empty_sink ≡ done (b', s))
    × IsValid b'
    × IsUncrossed (view b')
cancel_order-IsUncrossed_example =
    cancel_order-IsUncrossed 1 7 bid_and_offer empty_sink bid_and_offer-IsValid
      bid_and_offer-IsUncrossed

add_order-QueuesIn_example :
    (b' : OrderBook) × (s : Sink) × (add_order (request 3 9 sell 100 4) bid_and_offer empty_sink
      ≡ done (b', s))
    × QueuesIn sell
        (left_over
          (request 3 9 sell 100 4)
          (crossing (request 3 9 sell 100 4) (view bid_and_offer)).remaining)
        (orders_of false (view bid_and_offer))
        (orders_of false (view b'))
unfolding insert empty_map cross view_levels view_orders
add_order-QueuesIn_example =
    add_order-QueuesIn (request 3 9 sell 100 4) bid_and_offer empty_sink bid_and_offer-IsValid refl
      (omega arith) (omega arith)
