-- ===== src/Book/Rules.antt =====
-- The rules of the market for each request, on the two lists of resting orders.
use exchnage_simulator.Prelude.{
  ℕ, Bool, true, false, Option, none, some, List, ◌==◌, ◌≡◌, refl, if◌then◌else◌, not,
}
use exchnage_simulator.Core.{buy, sell, OrderRequest, is_buy}
use exchnage_simulator.Book.State.{OrderBook}
use exchnage_simulator.Book.Api.{passive_side, own_side}
use exchnage_simulator.Book.Spec.{Resting, Crossing, cross, enqueue, find_order, withdraw, resize}
use exchnage_simulator.Book.View.{view_levels}

-- Each list best price first, and oldest first at a price.
pub record Market : Type 0 where
  pub bids : List Resting
  pub asks : List Resting

abbrev pub view : OrderBook → Market
view b = record { bids = view_levels b.heap b.bids; asks = view_levels b.heap b.asks }

abbrev pub orders_of : Bool → Market → List Resting
orders_of v m = if v then m.bids else m.asks

abbrev pub with_orders : Bool → List Resting → Market → Market
with_orders v rs m = if v then record m { bids = rs } else record m { asks = rs }

-- What an incoming order takes from the other side.
abbrev pub crossing : OrderRequest → Market → Crossing
crossing r m = cross (passive_side r.side) r r.quantity (orders_of (not (is_buy r.side)) m)

abbrev pub left_over : OrderRequest → ℕ → Resting
left_over r n = record { id = r.order_id; trader_id = r.trader_id; quantity = n; price = r.price }

-- What is left over queues on the order's own side.
abbrev pub settle : OrderRequest → Crossing → Market → Market
settle r c m =
    let traded = with_orders (not (is_buy r.side)) c.book m in
    if c.remaining == 0
    then traded
    else with_orders (is_buy r.side)
        (enqueue (own_side r.side) (left_over r c.remaining) (orders_of (is_buy r.side) m)) traded

-- A new order trades first; what is left over queues.
abbrev pub add_rule : OrderRequest → Market → Market
add_rule r m = settle r (crossing r m) m

-- The resting order with the id, if it is the trader's, with the side where it rests.
abbrev pub if_owner : ℕ → Bool → Resting → Option (Bool × Resting)
if_owner trader v r = if r.trader_id == trader then some (v, r) else none

abbrev pub owned : ℕ → ℕ → Market → Option (Bool × Resting)
owned id trader m = elim (find_order id m.bids) [
  | some r ↦ if_owner trader true r
  | none ↦ elim (find_order id m.asks) [ some r ↦ if_owner trader false r | none ↦ none ]
]

-- A cancellation takes the trader's order out and leaves all others alone.
abbrev pub cancel_rule : ℕ → ℕ → Market → Market
cancel_rule id trader m = elim (owned id trader m) [
  | none ↦ m
  | some (v, r) ↦ with_orders v (withdraw id (orders_of v m)) m
]

-- A modification: `keeps` says whether the order keeps its place, with the new quantity; if not, it
-- queues anew at the new price.
abbrev pub modify_rule : Bool → ℕ → ℕ → ℕ → Bool × Resting → Market → Market
modify_rule keeps id price qty (v, r) m =
    if keeps
    then with_orders v (resize id qty (orders_of v m)) m
    else with_orders v
        (enqueue (if v then buy else sell) (record r { quantity = qty; price = price })
          (withdraw id (orders_of v m)))
        m

pub settle-used :
    (r : OrderRequest) (c : Crossing) (m : Market)
    → (c.remaining == 0) ≡ true
    → settle r c m ≡ with_orders (not (is_buy r.side)) c.book m
settle-used r c m e = rw e

pub settle-left :
    (r : OrderRequest) (c : Crossing) (m : Market)
    → (c.remaining == 0) ≡ false
    → settle r c m
      ≡ with_orders
          (is_buy r.side)
          (enqueue (own_side r.side) (left_over r c.remaining) (orders_of (is_buy r.side) m))
          (with_orders (not (is_buy r.side)) c.book m)
settle-left r c m e = rw e

pub orders_of-with_orders-not :
    (v : Bool) (rs : List Resting) (m : Market)
    → orders_of v (with_orders (not v) rs m) ≡ orders_of v m
orders_of-with_orders-not true rs m = refl
orders_of-with_orders-not false rs m = refl

pub orders_of-with_orders :
    (v : Bool) (rs : List Resting) (m : Market) → orders_of v (with_orders v rs m) ≡ rs
orders_of-with_orders true rs m = refl
orders_of-with_orders false rs m = refl

pub not-not : (v : Bool) → not (not v) ≡ v
not-not true = refl
not-not false = refl
