-- ===== src/Book/Round.antt =====
-- One round of the inner loop of `matchAgainst`, on each of its three branches.
use exchnage_simulator.Prelude.{
  ℕ, ◌-◌, ◌^◌, ◌≤◌, ◌<◌, ◌≡◌, ◌≢◌, some, List, [], ◌∷◌, min, sub32, insert, insert_self,
  erase-insert, done, arith, append_assoc, ==-refl,
}
use exchnage_simulator.Core.{Side, OrderRequest, BookElement}
use exchnage_simulator.Core.PriceLevel
use exchnage_simulator.Core.PriceLevel.{PriceLevel}
use exchnage_simulator.Book.State.{Sink, drop_order}
use exchnage_simulator.Book.Matching.{Round, match_order, trade_records}
use exchnage_simulator.Book.Spec.{Event, traded, withdrawn, report, confirms_of, md_of}
use exchnage_simulator.Book.View.{resting}

module _ (passive : Side) (incoming : OrderRequest) (symbol p : ℕ) where
  -- The state after the front order has left the level.
  abbrev pub popped : ℕ → BookElement → List ℕ → ℕ → ℕ → Event → Round → Round
  popped a e os gone left ev r = record {
    level = record (r.level) { orders = os; total_qty = sub32 r.level.total_qty gone };
    store = drop_order e.id a r.store;
    remaining = left;
    sink = report passive incoming symbol (ev ∷ []) r.sink;
  }

  abbrev pub withdraw_result : ℕ → BookElement → List ℕ → Round → Round
  withdraw_result a e os r = popped a e os e.quantity r.remaining (withdrawn (resting e p)) r

  abbrev pub partial_result : ℕ → BookElement → Round → Round
  partial_result a e r = record {
    level = record (r.level) { total_qty = sub32 r.level.total_qty r.remaining };
    store = record (r.store) {
      heap = insert a (record e { quantity = e.quantity - r.remaining }) r.store.heap;
    };
    remaining = 0;
    sink = report passive incoming symbol (traded (resting e p) r.remaining ∷ []) r.sink;
  }

  -- The order is filled: its quantity is 0 when the level forgets it.
  abbrev pub fill_result : ℕ → BookElement → List ℕ → Round → Round
  fill_result a e os r =
      popped a e os 0 (r.remaining - e.quantity) (traded (resting e p) e.quantity) r

  trade_records-report :
      (e : BookElement) (t : ℕ) (o : Sink)
      → trade_records passive incoming symbol p e t o
        ≡ report passive incoming symbol (traded (resting e p) t ∷ []) o
  unfolding trade_records confirms_of md_of
  trade_records-report e t o = simp append_assoc

  module _ (a : ℕ) (os : List ℕ) (e : BookElement) (r : Round) (front : r.level.orders ≡ a ∷ os)
      (live : r.store.heap a ≡ some e) where
    pub match_order-withdraw :
        e.trader_id ≡ incoming.trader_id
        → match_order passive incoming symbol p r ≡ done (withdraw_result a e os r)
    unfolding match_order PriceLevel.peek_first PriceLevel.remove_order confirms_of md_of
    match_order-withdraw same = ground (arith, ==-refl a)

    pub match_order-partial :
        e.trader_id ≢ incoming.trader_id
        → r.remaining < e.quantity
        → e.quantity < 2 ^ 32
        → match_order passive incoming symbol p r ≡ done (partial_result a e r)
    unfolding match_order PriceLevel.peek_first PriceLevel.remove_order PriceLevel.reduce_qty
    match_order-partial other more small =
        let least : min r.remaining e.quantity ≡ r.remaining = omega arith in
        let left : sub32 r.remaining r.remaining ≡ 0 = omega arith in
        let kept : sub32 e.quantity r.remaining ≡ e.quantity - r.remaining = omega arith in
        ground (arith, least, left, kept, trade_records-report e r.remaining r.sink)

    pub match_order-fill :
        e.trader_id ≢ incoming.trader_id
        → e.quantity ≤ r.remaining
        → r.remaining < 2 ^ 32
        → match_order passive incoming symbol p r ≡ done (fill_result a e os r)
    unfolding match_order PriceLevel.peek_first PriceLevel.remove_order PriceLevel.reduce_qty
    match_order-fill other enough small =
        let least : min r.remaining e.quantity ≡ e.quantity = omega arith in
        let left : sub32 r.remaining e.quantity ≡ r.remaining - e.quantity = omega arith in
        let kept : sub32 e.quantity e.quantity ≡ 0 = omega arith in
        ground (
          arith,
          least,
          left,
          kept,
          ==-refl a,
          insert_self a (record e { quantity = 0 }) r.store.heap,
          erase-insert a (record e { quantity = 0 }) r.store.heap,
          trade_records-report e e.quantity r.sink,
        )
