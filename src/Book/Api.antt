-- ===== src/Book/Api.antt =====
-- The public operations of the order book: `addOrder`, `cancelOrder` and `modifyOrder` of
-- matching/src/order_book.cpp, and the best prices of matching/include/order_book.hpp.
use exchnage_simulator.Prelude.{
  ℕ, suc, none, some, [], ◌∷◌, ◌==◌, ltb, if◌then◌else◌, ◌&&◌, insert, Outcome, done, ◌>>=◌, deref,
}
use exchnage_simulator.Core.{
  Side, buy, sell, is_buy, OrderRequest, BookElement, new_ack, modify_ack, cancel_ack, reject,
  confirm, md_new, md_modify, md_cancel, md_update, unknown_order,
}
use exchnage_simulator.Levels.{Levels, remove_from_level, insert_into_level}
use exchnage_simulator.Book.State.{
  OrderDetails, Store, OrderBook, Sink, push_confirm, push_md, get_book, set_book, drop_order,
}
use exchnage_simulator.Book.Matching.{match_against}

abbrev pub Reply : Type 0
Reply = OrderBook × Sink

-- The side whose book an order is matched against: an order that is not a buy meets the bids.
abbrev pub passive_side : Side → Side
passive_side s = if is_buy s then sell else buy

-- The instance of `insertIntoLevel` that takes an order.
abbrev pub own_side : Side → Side
own_side s = if is_buy s then buy else sell

abbrev pub acknowledge : OrderRequest → ℕ → Sink → Sink
acknowledge r symbol out = push_md (md_update symbol r.order_id r.side r.price r.quantity md_new) (
    push_confirm (confirm new_ack r.order_id r.client_order_id r.trader_id symbol 0 0 unknown_order)
      out)

-- Step 3 of `addOrder`: what is left over rests in the book.
unfoldable pub rest_order : OrderRequest → ℕ → OrderBook → Outcome OrderBook
rest_order r remaining b = do
  let a = b.next_addr
  let e : BookElement = record { id = r.order_id; trader_id = r.trader_id; quantity = remaining }
  let st : Store = record {
    heap = insert a e b.heap;
    next_addr = suc a;
    order_map = insert r.order_id a b.order_map;
    order_details =
        insert r.order_id (record { side = r.side; price = r.price; quantity = remaining })
          b.order_details;
  }
  ls ← insert_into_level (own_side r.side) st.heap a r.price (get_book r.side b)
  done (set_book r.side ls (record b { store = st }))

unfoldable pub add_order : OrderRequest → OrderBook → Sink → Outcome Reply
add_order r b out = do
  s ← match_against (passive_side r.side) r b.symbol (record {
    levels = get_book (passive_side r.side) b;
    store = b.store;
    remaining = r.quantity;
    sink = acknowledge r b.symbol out;
  })
  let b' = set_book (passive_side r.side) s.levels (record b { store = s.store })
  if s.remaining == 0
      then done (b', s.sink)
      else (rest_order r s.remaining b' >>= λ b''. done (b'', s.sink))

abbrev pub refuse : ℕ → ℕ → OrderBook → Sink → Reply
refuse id trader b out =
    (b, push_confirm (confirm reject id 0 trader b.symbol 0 0 unknown_order) out)

-- `cancelOrder` once the element is found and the trader owns it. A null iterator of
-- `orderDetails.find` is dereferenced without a test.
unfoldable pub cancel_owned : ℕ → ℕ → ℕ → BookElement → OrderBook → Sink → Outcome Reply
cancel_owned id trader a e b out = do
  d ← deref (b.order_details id)
  ls ← remove_from_level b.heap a d.price (get_book d.side b)
  let b' = set_book d.side ls (record b { store = drop_order id a b.store })
  done (
    b',
    push_confirm (confirm cancel_ack id 0 trader b.symbol 0 0 unknown_order)
        (push_md (md_update b.symbol id d.side d.price e.quantity md_cancel) out),
  )

-- The lookup that `cancelOrder` and `modifyOrder` begin with.
abbrev pub with_owned : ℕ → ℕ → OrderBook → Sink → (ℕ → BookElement → Outcome Reply) → Outcome Reply
with_owned id trader b out act = elim (b.order_map id) [
  | none ↦ done (refuse id trader b out)
  | some a ↦
      (deref (b.heap a) >>= λ e.
      if e.trader_id == trader then act a e else done (refuse id trader b out))
]

unfoldable pub cancel_order : ℕ → ℕ → OrderBook → Sink → Outcome Reply
cancel_order id trader b out = with_owned id trader b out (λ a e. cancel_owned id trader a e b out)

-- The branch of `modifyOrder` that keeps the time priority: nothing is told to the level.
unfoldable pub modify_in_place : ℕ → ℕ → BookElement → OrderDetails → ℕ → OrderBook → OrderBook
modify_in_place id a e d qty b = record b {
  store = record (b.store) {
    heap = insert a (record e { quantity = qty }) b.heap;
    order_details = insert id (record d { quantity = qty }) b.order_details;
  };
}

-- The branch that takes the order out of its level and puts it into the level of the new price.
unfoldable pub reinsert : ℕ → ℕ → BookElement → OrderDetails → ℕ → ℕ → OrderBook → Outcome OrderBook
reinsert id a e d price qty b = do
  ls ← remove_from_level b.heap a d.price (get_book d.side b)
  let st = record (b.store) {
    heap = insert a (record e { quantity = qty }) b.heap;
    order_details = insert id (record d { price = price; quantity = qty }) b.order_details;
  }
  ls' ← insert_into_level (own_side d.side) st.heap a price ls
  done (set_book d.side ls' (record b { store = st }))

unfoldable pub modify_owned : ℕ → ℕ → ℕ → ℕ → ℕ → BookElement → OrderBook → Sink → Outcome Reply
modify_owned id trader price qty a e b out = do
  d ← deref (b.order_details id)
  b' ←
      (if (d.price == price) && ltb qty d.quantity
        then done (modify_in_place id a e d qty b)
        else reinsert id a e d price qty b)
  done (
    b',
    push_confirm (confirm modify_ack id 0 trader b.symbol 0 0 unknown_order)
        (push_md (md_update b.symbol id d.side price qty md_modify) out),
  )

unfoldable pub modify_order : ℕ → ℕ → ℕ → ℕ → OrderBook → Sink → Outcome Reply
modify_order id trader price qty b out =
    with_owned id trader b out (λ a e. modify_owned id trader price qty a e b out)

abbrev pub best_price : Levels → ℕ
best_price ls = elim ls [ [] ↦ 0 | e ∷ r ↦ e.0 ]

abbrev pub best_qty : Levels → ℕ
best_qty ls = elim ls [ [] ↦ 0 | e ∷ r ↦ e.1.total_qty ]

unfoldable pub get_best_bid_price : OrderBook → ℕ
get_best_bid_price b = best_price b.bids

unfoldable pub get_best_bid_qty : OrderBook → ℕ
get_best_bid_qty b = best_qty b.bids

unfoldable pub get_best_ask_price : OrderBook → ℕ
get_best_ask_price b = best_price b.asks

unfoldable pub get_best_ask_qty : OrderBook → ℕ
get_best_ask_qty b = best_qty b.asks
