-- ===== src/Book/AddOrder.antt =====
-- `addOrder` returns on every valid book, keeps it valid, and does what the rule of the market says.
use exchnage_simulator.Prelude.{
  ℕ, suc, ◌^◌, ◌<◌, ◌≡◌, refl, sym, ap, ◌∙◌, inl, inr, Bool, true, false, none, List, ◌==◌,
  if◌then◌else◌, done, ◌>>=◌, arith, not, Bool-cases,
}
use exchnage_simulator.Core.{Side, buy, sell, other, is_buy, OrderRequest, BookElement}
use exchnage_simulator.Levels.{Levels}
use exchnage_simulator.Levels.Place.{place, appended}
use exchnage_simulator.Book.State.{OrderDetails, Store, OrderBook, Sink}
use exchnage_simulator.Book.Matching.{Sweep}
use exchnage_simulator.Book.Api.{passive_side, own_side, acknowledge, rest_order, add_order}
use exchnage_simulator.Book.Spec.{Resting, Crossing, report, enqueue}
use exchnage_simulator.Book.View.{view_levels}
use exchnage_simulator.Book.Entry.{add_entry}
use exchnage_simulator.Book.Valid.{IsValid, half, with_half}
use exchnage_simulator.Book.Adding.{Joined, joins}
use exchnage_simulator.Book.Sides.{
  get_book-passive, set_book-passive, Sound-passive, Sound-own, IsValid-passive, IsValid-own,
  store-with_half, symbol-with_half, view-with_half, view_of_half,
}
use exchnage_simulator.Book.Matched.{Matched, match_against-Matched}
use exchnage_simulator.Book.Rules.{
  view, add_rule, crossing, orders_of, with_orders, left_over, settle, settle-used, settle-left,
  not-not, orders_of-with_orders-not,
}

-- What is left of an order queues up in its own side.
record Queued (r : OrderRequest) (n : ℕ) (c c' : OrderBook) : Type 0 where
  runs : rest_order r n c ≡ done c'
  valid : IsValid c'
  market :
      view c'
      ≡ with_orders
          (is_buy r.side)
          (enqueue (own_side r.side) (left_over r n) (orders_of (is_buy r.side) (view c)))
          (view c)
  symbol : c'.symbol ≡ c.symbol

own_side-is_buy : (s : Side) → is_buy s ≡ is_buy (own_side s)
own_side-is_buy buy = refl
own_side-is_buy sell = refl
own_side-is_buy (other n) = refl

module _ (r : OrderRequest) (n : ℕ) (c : OrderBook) (h : IsValid c)
    (new : c.store.order_map r.order_id ≡ none) (small : n < 2 ^ 32) where
  abbrev own : Bool
  own = is_buy r.side

  abbrev rest_elem : BookElement
  rest_elem = record { id = r.order_id; trader_id = r.trader_id; quantity = n }

  abbrev rest_details : OrderDetails
  rest_details = record { side = r.side; price = r.price; quantity = n }

  abbrev rest_store : Store
  rest_store = add_entry r.order_id c.next_addr rest_elem rest_details (suc c.next_addr) c.store

  abbrev rest_levels : Levels
  rest_levels = place (own_side r.side) r.price (appended c.next_addr n) (half own c)

  joined :
      Joined
        (own_side r.side)
        (half own c)
        (half (not own) c)
        c.store
        (Sound-own c r.side h)
        r.order_id
        c.next_addr
        rest_elem
        rest_details
        (suc c.next_addr)
        (h.fresh c.next_addr (omega arith))
        new
        refl
        small
        (own_side-is_buy r.side)
        (omega arith)
        (omega arith)
        (omega arith)
  joined =
      joins (own_side r.side) (half own c) (half (not own) c) c.store (Sound-own c r.side h)
        r.order_id c.next_addr rest_elem rest_details (suc c.next_addr)
        (h.fresh c.next_addr (omega arith)) new refl small (own_side-is_buy r.side) (omega arith)
        (omega arith) (omega arith)

  rest_order-Queued : Queued r n c (with_half own rest_levels rest_store c)
  unfolding rest_order
  rest_order-Queued = record {
    runs = rw joined.runs;
    valid = IsValid-own c r.side rest_levels rest_store h joined.sound;
    market =
        view-with_half c own rest_levels rest_store joined.opp_view
        ∙ ap (λ rs. with_orders own rs (view c))
            (joined.own_view ∙ ap (enqueue (own_side r.side) (left_over r n)) (view_of_half c own));
    symbol = symbol-with_half c own rest_levels rest_store;
  }

module _ (r : OrderRequest) (b : OrderBook) (out : Sink) where
  abbrev v : Bool
  v = is_buy r.side

  abbrev start : Sweep
  start = record {
    levels = half (not v) b;
    store = b.store;
    remaining = r.quantity;
    sink = acknowledge r b.symbol out;
  }

  pub record Added (b' : OrderBook) : Type 0 where
    pub runs :
        add_order r b out
        ≡ done (
          b',
          report
              (passive_side r.side)
              r
              b.symbol
              (crossing r (view b)).events
              (acknowledge r b.symbol out),
        )
    pub valid : IsValid b'
    pub market : view b' ≡ add_rule r (view b)
    pub symbol : b'.symbol ≡ b.symbol

  module _ (h : IsValid b) (new : b.store.order_map r.order_id ≡ none)
      (small : r.quantity < 2 ^ 32) where
    -- The state after `matchAgainst`.
    abbrev swept : (s : Sweep) × Matched (passive_side r.side) r b.symbol (half v b) start s
    swept =
        match_against-Matched (passive_side r.side) r b.symbol (half v b) start
          (Sound-passive b r.side h) small

    module _ (s : Sweep) (m : Matched (passive_side r.side) r b.symbol (half v b) start s) where
      abbrev middle : OrderBook
      middle = with_half (not v) s.levels s.store b

      middle-IsValid : IsValid middle
      middle-IsValid = IsValid-passive b r.side s.levels s.store h m.sound

      run_match : add_order r b out ≡ (
          if s.remaining == 0
          then done (middle, s.sink)
          else (rest_order r s.remaining middle >>= λ b''. done (b'', s.sink)))
      unfolding add_order
      run_match = rw (get_book-passive b r.side, m.runs, set_book-passive b r.side s.levels s.store)

      abbrev reads : Crossing
      reads = record {
        book = view_levels s.store.heap s.levels;
        remaining = s.remaining;
        events = m.swept.events;
      }

      crossed : crossing r (view b) ≡ reads
      crossed = rw (← view_of_half b (not v)) m.crossed

      reported :
          s.sink
          ≡ report
              (passive_side r.side)
              r
              b.symbol
              (crossing r (view b)).events
              (acknowledge r b.symbol out)
      reported = rw crossed m.swept.told

      middle_reads : view middle ≡ with_orders (not v) reads.book (view b)
      middle_reads = (view-with_half b (not v) s.levels s.store (rw (not-not v) m.swept.opp_view))

      still_new : middle.store.order_map r.order_id ≡ none
      still_new = rw (store-with_half b (not v) s.levels s.store) (m.swept.unknown r.order_id new)

      left_small : s.remaining < 2 ^ 32
      left_small = omega (arith, m.swept.bound)

      used_up : (s.remaining == 0) ≡ true → Added middle
      used_up e = record {
        runs = rw (run_match, e) (rw reported);
        valid = middle-IsValid;
        market = rw crossed (middle_reads ∙ sym (settle-used r reads (view b) e));
        symbol = symbol-with_half b (not v) s.levels s.store;
      }

      abbrev queue : List Resting → List Resting
      queue = enqueue (own_side r.side) (left_over r s.remaining)

      queued :
          (c : OrderBook) → (s.remaining == 0) ≡ false → Queued r s.remaining middle c → Added c
      queued c e q = record {
        runs = rw (run_match, e, q.runs) (rw reported);
        valid = q.valid;
        market =
            q.market
            ∙ ap (λ m. with_orders v (queue (orders_of v m)) m) middle_reads
            ∙ ap (λ rs. with_orders v (queue rs) (with_orders (not v) reads.book (view b)))
                (orders_of-with_orders-not v reads.book (view b))
            ∙ sym (settle-left r reads (view b) e)
            ∙ ap (λ c. settle r c (view b)) (sym crossed);
        symbol = q.symbol ∙ symbol-with_half b (not v) s.levels s.store;
      }

      pub settles : (b' : OrderBook) × Added b'
      settles = elim (Bool-cases (s.remaining == 0)) [
        | inl e ↦ (_, used_up e)
        | inr e ↦ (
          _,
          queued _ e (rest_order-Queued r s.remaining middle middle-IsValid still_new left_small),
        )
      ]

-- A new order with an unused id and a 32-bit quantity: `addOrder` returns, without a fault and with
-- enough fuel. The new book is valid and reads as the rule of the market says; the confirmations and
-- the market data are the acknowledgement followed by the report of each event of the rule, in order.
pub add_order-refines :
    (r : OrderRequest) (b : OrderBook) (out : Sink)
    → IsValid b
    → b.order_map r.order_id ≡ none
    → r.quantity < 2 ^ 32
    → (b' : OrderBook) × (add_order r b out
        ≡ done (
          b',
          report
              (passive_side r.side)
              r
              b.symbol
              (crossing r (view b)).events
              (acknowledge r b.symbol out),
        ))
      × IsValid b'
      × (view b' ≡ add_rule r (view b))
      × (b'.symbol ≡ b.symbol)
add_order-refines r b out h new small =
    let (s, m) = swept r b out h new small in
    let (b', a) = settles r b out h new small s m in (b', a.runs, a.valid, a.market, a.symbol)
