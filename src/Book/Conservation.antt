-- ===== src/Book/Conservation.antt =====
-- No quantity is lost or made by `addOrder`.
use exchnage_simulator.Prelude.{
  ◌+◌, ◌≡◌, ◌<◌, ◌^◌, refl, ap, Bool, true, false, Bool-cases, inl, inr, none, List, arith, ◌==◌,
  not, done, ==→eq,
}
use exchnage_simulator.Core.{OrderRequest, is_buy}
use exchnage_simulator.Book.State.{OrderBook, Sink, empty_sink}
use exchnage_simulator.Book.Api.{passive_side, own_side, add_order}
use exchnage_simulator.Book.Spec.{Resting, Crossing}
use exchnage_simulator.Book.Rules.{
  Market, view, orders_of, with_orders, crossing, add_rule, settle-used, settle-left,
  orders_of-with_orders, orders_of-with_orders-not, left_over,
}
use exchnage_simulator.Book.Valid.{IsValid}
use exchnage_simulator.Book.AddOrder.{add_order-refines}
use exchnage_simulator.Book.Volumes.{
  total, traded_qty, withdrawn_qty, confirmed_qty, is_cancel, Balanced, cross-Balanced,
  total-enqueue, told_qty, cross-IsForeign, told_incoming, told_others, confirmed_cancels,
}

module _ (r : OrderRequest) (m : Market) where
  abbrev v : Bool
  v = is_buy r.side

  abbrev c : Crossing
  c = crossing r m

  balanced : Balanced r.quantity (orders_of (not v) m) c
  balanced = cross-Balanced (passive_side r.side) r r.quantity (orders_of (not v) m)

  -- The other side keeps what the crossing leaves.
  pub settled_opposite : orders_of (not v) (add_rule r m) ≡ c.book
  settled_opposite = elim (Bool-cases (c.remaining == 0)) [
    | inl e ↦ rw (settle-used r c m e) (orders_of-with_orders (not v) c.book m)
    | inr e ↦ rw (settle-left r c m e) (across v _)
  ]
    where
      across :
          (w : Bool) (rs : List Resting)
          → orders_of (not w) (with_orders w rs (with_orders (not w) c.book m)) ≡ c.book
      across true rs = refl
      across false rs = refl

  settled_own : total (orders_of v (add_rule r m)) ≡ total (orders_of v m) + c.remaining
  settled_own = elim (Bool-cases (c.remaining == 0)) [
    | inl e ↦
        rw (settle-used r c m e, orders_of-with_orders-not v c.book m, ==→eq _ _ e) (omega arith)
    | inr e ↦
        rw (settle-left r c m e, orders_of-with_orders v _ (with_orders (not v) c.book m))
          (omega (arith, total-enqueue (own_side r.side) (left_over r c.remaining) (orders_of v m)))
  ]

  pub own_balance :
      total (orders_of v (add_rule r m)) + traded_qty c.events ≡ total (orders_of v m) + r.quantity
  own_balance = omega (arith, settled_own, balanced.filled)

  pub opposite_balance :
      total (orders_of (not v) (add_rule r m)) + traded_qty c.events + withdrawn_qty c.events
      ≡ total (orders_of (not v) m)
  opposite_balance = rw settled_opposite balanced.taken

-- A new order with an unused id and a 32-bit quantity, on a valid book: `addOrder` returns. The open
-- quantity on the order's side grows by what the order asks for less the trades that are confirmed to
-- its trader; the open quantity on the other side shrinks by the trades that are confirmed to other
-- traders and by what is cancelled; and what is confirmed to its trader is as much as what is confirmed
-- to the others.
pub add_order-conserves :
    (r : OrderRequest) (b : OrderBook)
    → IsValid b
    → b.order_map r.order_id ≡ none
    → r.quantity < 2 ^ 32
    → (b' : OrderBook) × (s : Sink) × (add_order r b empty_sink ≡ done (b', s))
      × (total (orders_of (is_buy r.side) (view b')) + told_qty (λ t. t == r.trader_id) s.confirms
          ≡ total (orders_of (is_buy r.side) (view b)) + r.quantity)
      × (total (orders_of (not (is_buy r.side)) (view b'))
            + told_qty (λ t. not (t == r.trader_id)) s.confirms
            + confirmed_qty is_cancel s.confirms
          ≡ total (orders_of (not (is_buy r.side)) (view b)))
      × (told_qty (λ t. t == r.trader_id) s.confirms
          ≡ told_qty (λ t. not (t == r.trader_id)) s.confirms)
unfolding confirmed_qty told_qty
add_order-conserves r b h new small =
    let (b', runs, valid, market, same) = add_order-refines r b empty_sink h new small in
    let es = (crossing r (view b)).events in
    let foreign =
      cross-IsForeign (passive_side r.side) r r.quantity
        (orders_of (not (is_buy r.side)) (view b)) in
    let own = told_incoming (passive_side r.side) r b.symbol es foreign in
    let others = told_others (passive_side r.side) r b.symbol es foreign in
    let cancels = confirmed_cancels (passive_side r.side) r b.symbol es in
    (
      b',
      _,
      runs,
      omega (
        arith,
        ap (λ m. total (orders_of (is_buy r.side) m)) market,
        own_balance r (view b),
        own,
      ),
      omega (
        arith,
        ap (λ m. total (orders_of (not (is_buy r.side)) m)) market,
        opposite_balance r (view b),
        others,
        cancels,
      ),
      omega (arith, own, others),
    )
