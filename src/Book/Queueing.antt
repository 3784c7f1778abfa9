-- ===== src/Book/Queueing.antt =====
-- Price and time priority of an order that comes to rest.
use exchnage_simulator.Prelude.{
  ℕ, ◌≡◌, ◌≢◌, ◌<◌, ◌^◌, refl, sym, ap, ◌∙◌, subst, true, false, Bool-cases, inl, inr, none, List,
  [], ◌∷◌, ◌++◌, All, All-map, arith, done, ne→==, not,
}
use exchnage_simulator.Core.{Side, OrderRequest, is_buy}
use exchnage_simulator.Levels.{before}
use exchnage_simulator.Book.State.{OrderBook, Sink}
use exchnage_simulator.Book.Api.{own_side, add_order}
use exchnage_simulator.Book.Spec.{Resting, enqueue}
use exchnage_simulator.Book.Rules.{
  view, orders_of, with_orders, crossing, settle-left, left_over, orders_of-with_orders,
}
use exchnage_simulator.Book.Valid.{IsValid, side_of}
use exchnage_simulator.Book.Sorted.{IsSorted, view-IsSorted}
use exchnage_simulator.Book.AddOrder.{add_order-refines}

-- `ys` is `xs` with `r` put between the orders at its price or a better one and the worse ones.
pub record QueuesIn (s : Side) (r : Resting) (xs ys : List Resting) : Type 0 where
  pub front : List Resting
  pub back : List Resting
  pub split : xs ≡ front ++ back
  pub joined : ys ≡ front ++ (r ∷ back)
  pub not_worse : All (λ x. before s r.price x.price ≡ false) front
  pub worse : All (λ x. before s r.price x.price ≡ true) back

module _ (s : Side) (r : Resting) where
  further : (p q : ℕ) → before s r.price p ≡ true → before s q p ≡ false → before s r.price q ≡ true
  further p q h k = ground arith

  enqueue-QueuesIn : (xs : List Resting) → IsSorted s xs → QueuesIn s r xs (enqueue s r xs)
  unfolding enqueue
  enqueue-QueuesIn [] o = record {
    front = [];
    back = [];
    split = refl;
    joined = refl;
    not_worse = tt;
    worse = tt;
  }
  enqueue-QueuesIn (x ∷ xs) o = elim (Bool-cases (before s r.price x.price)) [
    | inl e ↦ rw e (record {
      front = [];
      back = x ∷ xs;
      split = refl;
      joined = refl;
      not_worse = tt;
      worse = (e, All-map _ _ (λ y k. further x.price y.price e k) xs o.0);
    })
    | inr e ↦
        let rest = enqueue-QueuesIn xs o.1 in
        rw e (record {
          front = x ∷ rest.front;
          back = rest.back;
          split = ap (λ l. x ∷ l) rest.split;
          joined = ap (λ l. x ∷ l) rest.joined;
          not_worse = (e, rest.not_worse);
          worse = rest.worse;
        })
  ]

side_of-own : (s : Side) → side_of (is_buy s) ≡ own_side s
side_of-own s = refl

-- A new order with an unused id and a 32-bit quantity, on a valid book: `addOrder` returns, and if the
-- crossing leaves something over, this much of the order rests on its own side behind all orders at
-- its price or a better one and in front of all orders at a worse price, and those keep their order.
pub add_order-QueuesIn :
    (r : OrderRequest) (b : OrderBook) (out : Sink)
    → IsValid b
    → b.order_map r.order_id ≡ none
    → r.quantity < 2 ^ 32
    → (crossing r (view b)).remaining ≢ 0
    → (b' : OrderBook) × (s : Sink) × (add_order r b out ≡ done (b', s))
      × QueuesIn
          (own_side r.side)
          (left_over r (crossing r (view b)).remaining)
          (orders_of (is_buy r.side) (view b))
          (orders_of (is_buy r.side) (view b'))
add_order-QueuesIn r b out h new small left =
    let (b', runs, valid, market, same) = add_order-refines r b out h new small in
    let v = is_buy r.side in
    let c = crossing r (view b) in
    let own = orders_of v (view b) in
    let after =
      ap (orders_of v) (market ∙ settle-left r c (view b) (ne→== c.remaining 0 left))
      ∙ orders_of-with_orders v _ (with_orders (not v) c.book (view b)) in
    (
      b',
      _,
      runs,
      subst (QueuesIn (own_side r.side) (left_over r c.remaining) own) (sym after)
          (enqueue-QueuesIn (own_side r.side) (left_over r c.remaining) own (view-IsSorted v b h)),
    )
