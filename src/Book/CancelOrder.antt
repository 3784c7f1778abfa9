-- ===== src/Book/CancelOrder.antt =====
-- `cancelOrder` returns on every valid book, keeps it valid, and does what the rule of the market says.
use exchnage_simulator.Prelude.{
  ℕ, ◌≡◌, refl, ap, ◌∙◌, inl, inr, Bool, true, false, subst, Option, none, some, ◌==◌,
  if◌then◌else◌, done, ◌>>=◌, not, Bool-cases,
}
use exchnage_simulator.Core.{
  Side, buy, is_buy, BookElement, cancel_ack, reject, confirm, md_cancel, md_update, unknown_order,
}
use exchnage_simulator.Levels.{Levels, remove_from_level}
use exchnage_simulator.Book.State.{
  OrderBook, Sink, push_confirm, push_md, get_book, set_book, drop_order,
}
use exchnage_simulator.Book.Api.{own_side, refuse, cancel_owned, cancel_order}
use exchnage_simulator.Book.Spec.{Resting, withdraw}
use exchnage_simulator.Book.View.{resting}
use exchnage_simulator.Book.Valid.{IsValid, half, with_half}
use exchnage_simulator.Book.Sides.{
  Sound-own, IsValid-own, view-with_half, view_of_half, symbol-with_half,
}
use exchnage_simulator.Book.Leaving.{Left, leaves, left_levels}
use exchnage_simulator.Book.Found.{
  Found, find_known, owned-unknown, with_owned-unknown, with_owned-known,
}
use exchnage_simulator.Book.Rules.{view, orders_of, with_orders, owned, cancel_rule}

-- What is told of a cancellation; `d` is the side that the order was sent with.
abbrev pub cancel_report : ℕ → ℕ → ℕ → Side → Option (Bool × Resting) → Sink → Sink
cancel_report id trader symbol d found out = elim found [
  | none ↦ push_confirm (confirm reject id 0 trader symbol 0 0 unknown_order) out
  | some x ↦
      push_confirm (confirm cancel_ack id 0 trader symbol 0 0 unknown_order)
        (push_md (md_update symbol id d x.1.price x.1.quantity md_cancel) out)
]

-- The side of an order as far as the book tells sides apart.
abbrev pub OnSide : Side → Option (Bool × Resting) → Type 0
OnSide d found = elim found [ none ↦ Unit {0} | some x ↦ is_buy d ≡ x.0 ]

module _ (b : OrderBook) (h : IsValid b) (id a trader : ℕ) (f : Found b id a trader) where
  abbrev side : Side
  side = f.details.side

  abbrev elem : BookElement
  elem = f.at.linked.elem

  abbrev own : Levels
  own = half (is_buy side) b

  abbrev opp : Levels
  opp = half (not (is_buy side)) b

  abbrev left : Left (own_side side) own opp b.store (Sound-own b side h) a f.at
  left = leaves (own_side side) own opp b.store (Sound-own b side h) a f.at

  abbrev levels_left : Levels
  levels_left = left_levels (own_side side) own opp b.store (Sound-own b side h) a f.at

  abbrev cancelled : ℕ → OrderBook
  cancelled i = with_half (is_buy side) levels_left (drop_order i a b.store) b

  cancelled-IsValid : IsValid (cancelled id)
  cancelled-IsValid =
      subst (λ i. IsValid (cancelled i)) f.named
        (IsValid-own b side levels_left (drop_order elem.id a b.store) h left.sound)

  cancelled_market :
      view (cancelled id)
      ≡ with_orders (is_buy side) (withdraw id (orders_of (is_buy side) (view b))) (view b)
  cancelled_market =
      subst
        (λ i.
          view (cancelled i)
          ≡ with_orders (is_buy side) (withdraw i (orders_of (is_buy side) (view b))) (view b))
        f.named
        (view-with_half b (is_buy side) levels_left (drop_order elem.id a b.store) left.opp_view
          ∙ ap (λ rs. with_orders (is_buy side) rs (view b))
              (left.own_view ∙ ap (withdraw elem.id) (view_of_half b (is_buy side))))

  run_owned :
      (out : Sink)
      → cancel_owned id trader a elem b out
        ≡ done (
          cancelled id,
          cancel_report id trader b.symbol side (some (is_buy side, resting elem f.at.price)) out,
        )
  unfolding cancel_owned
  run_owned out = rw f.detailed (
      subst
        (λ p.
          (remove_from_level b.heap a p (get_book side b) >>= λ ls. done (
            set_book side ls (record b { store = drop_order id a b.store }),
            cancel_report id trader b.symbol side (some (is_buy side, resting elem p)) out,
          ))
          ≡ done (
            cancelled id,
            cancel_report id trader b.symbol side (some (is_buy side, resting elem f.at.price)) out,
          ))
        f.same_price (rw left.runs))

  run_cancel :
      (out : Sink)
      → b.store.order_map id ≡ some a
      → cancel_order id trader b out ≡ (
          if elem.trader_id == trader
          then done (
            cancelled id,
            cancel_report id trader b.symbol side (some (is_buy side, resting elem f.at.price)) out,
          )
          else done (refuse id trader b out))
  unfolding cancel_order
  run_cancel out m =
      with_owned-known id trader a elem b out _ m f.at.linked.live ∙ rw (run_owned out)

  found :
      (elem.trader_id == trader) ≡ true
      → owned id trader (view b) ≡ some (is_buy side, resting elem f.at.price)
  found e = f.owner ∙ rw e

  foreign : (elem.trader_id == trader) ≡ false → owned id trader (view b) ≡ none
  foreign e = f.owner ∙ rw e

-- What a cancellation comes to.
record Cancelled (id trader : ℕ) (b : OrderBook) (out : Sink) (found : Option (Bool × Resting))
    : Type 0 where
  after : OrderBook
  told_side : Side
  runs :
      cancel_order id trader b out
      ≡ done (after, cancel_report id trader b.symbol told_side found out)
  valid : IsValid after
  market : view after ≡ elim found [
    | none ↦ view b
    | some x ↦ with_orders x.0 (withdraw id (orders_of x.0 (view b))) (view b)
  ]
  on_side : OnSide told_side found
  symbol : after.symbol ≡ b.symbol

cancel-unknown :
    (id trader : ℕ) (b : OrderBook) (out : Sink)
    → IsValid b
    → b.store.order_map id ≡ none
    → Cancelled id trader b out none
unfolding cancel_order
cancel-unknown id trader b out h m = record {
  after = b;
  told_side = buy;
  runs = with_owned-unknown id trader b out _ m;
  valid = h;
  market = refl;
  on_side = tt;
  symbol = refl;
}

cancel-known :
    (id trader a : ℕ) (b : OrderBook) (out : Sink)
    → IsValid b
    → b.store.order_map id ≡ some a
    → Cancelled id trader b out (owned id trader (view b))
unfolding cancel_order
cancel-known id trader a b out h m =
    let f = find_known b h id a trader m in
    elim (Bool-cases (f.at.linked.elem.trader_id == trader)) [
      | inl e ↦ rw (found b h id a trader f e) (record {
        after = cancelled b h id a trader f id;
        told_side = f.details.side;
        runs = run_cancel b h id a trader f out m ∙ rw e;
        valid = cancelled-IsValid b h id a trader f;
        market = cancelled_market b h id a trader f;
        on_side = refl;
        symbol = symbol-with_half b (is_buy f.details.side) _ _;
      })
      | inr e ↦ rw (foreign b h id a trader f e) (record {
        after = b;
        told_side = buy;
        runs = run_cancel b h id a trader f out m ∙ rw e;
        valid = h;
        market = refl;
        on_side = tt;
        symbol = refl;
      })
    ]

-- A cancellation on a valid book returns without a fault and keeps the book valid. If the id is a
-- resting order of the trader, that order leaves its side, every other order stays as it was and
-- where it was, the cancellation is acknowledged, and the market data has its price and its open
-- quantity; if it is not, nothing changes and the request is rejected as unknown. The side that is
-- told is that of the order.
pub cancel_order-refines :
    (id trader : ℕ) (b : OrderBook) (out : Sink)
    → IsValid b
    → (b' : OrderBook) × (d : Side) × (cancel_order id trader b out
        ≡ done (b', cancel_report id trader b.symbol d (owned id trader (view b)) out))
      × IsValid b'
      × (view b' ≡ cancel_rule id trader (view b))
      × OnSide d (owned id trader (view b))
      × (b'.symbol ≡ b.symbol)
cancel_order-refines id trader b out h =
    let c = by_id (b.store.order_map id) refl in
    (c.after, c.told_side, c.runs, c.valid, c.market, c.on_side, c.symbol)
  where
    by_id :
        (o : Option ℕ)
        → b.store.order_map id ≡ o
        → Cancelled id trader b out (owned id trader (view b))
    by_id none m = rw (owned-unknown b h id 0 trader m) (cancel-unknown id trader b out h m)
    by_id (some a) m = cancel-known id trader a b out h m
