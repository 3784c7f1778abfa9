-- ===== src/Book/Fairness.antt =====
-- Who trades with whom, at which price, and in which order.
use exchnage_simulator.Prelude.{
  ℕ, ◌-◌, ◌≡◌, ◌≢◌, ◌≤◌, ◌<◌, ◌^◌, ◌∙◌, ap, sym, subst, true, Bool-cases, inl, inr, none, List, [],
  ◌∷◌, All, arith, leb, leb→lt, ◌==◌, not, done,
}
use exchnage_simulator.Core.{Side, OrderRequest, is_buy}
use exchnage_simulator.Book.State.{can_trade, OrderBook, Sink}
use exchnage_simulator.Book.Api.{passive_side, acknowledge, add_order}
use exchnage_simulator.Book.Spec.{Resting, Event, traded, withdrawn, cross, report}
use exchnage_simulator.Book.Rules.{view, orders_of, crossing}
use exchnage_simulator.Book.Valid.{IsValid}
use exchnage_simulator.Book.AddOrder.{add_order-refines}
use exchnage_simulator.Book.Conservation.{settled_opposite}

-- The orders of a book are met from the front, one after the other: each is withdrawn or traded in
-- full, but the last one may be traded in part and stay.
pub data InTurn : List Resting → List Event → List Resting → Type 0 where
  stop : (xs : List Resting) → InTurn xs [] xs
  gone :
      {xs ys : List Resting} {es : List Event} (x : Resting)
      → InTurn xs es ys
      → InTurn (x ∷ xs) (withdrawn x ∷ es) ys
  filled :
      {xs ys : List Resting} {es : List Event} (x : Resting)
      → InTurn xs es ys
      → InTurn (x ∷ xs) (traded x x.quantity ∷ es) ys
  partly :
      {xs : List Resting} (x : Resting) (q : ℕ)
      → q < x.quantity
      → InTurn (x ∷ xs) (traded x q ∷ []) (record x { quantity = x.quantity - q } ∷ xs)

module _ (passive : Side) (incoming : OrderRequest) where
  -- A trade is with another trader, within the limit, for at most what is open; a withdrawn order is
  -- the trader's own, and within the limit.
  abbrev pub IsFair : Event → Type 0
  IsFair (traded x q) =
      (can_trade passive x.price incoming.price ≡ true)
      × (x.trader_id ≢ incoming.trader_id)
      × (q ≤ x.quantity)
  IsFair (withdrawn x) =
      (can_trade passive x.price incoming.price ≡ true) × (x.trader_id ≡ incoming.trader_id)

  pub cross-IsFair : (n : ℕ) (rs : List Resting) → All IsFair (cross passive incoming n rs).events
  unfolding cross
  cross-IsFair n [] = tt
  cross-IsFair n (r ∷ rs) =
      let own = cross-IsFair n rs in
      let less = cross-IsFair (n - r.quantity) rs in ground (arith, own, less)

  pub cross-InTurn :
      (n : ℕ) (rs : List Resting)
      → InTurn rs (cross passive incoming n rs).events (cross passive incoming n rs).book
  unfolding cross
  cross-InTurn n [] = stop []
  cross-InTurn n (r ∷ rs) = elim (Bool-cases (n == 0)) [
    | inl e ↦ rw e (stop (r ∷ rs))
    | inr e ↦ elim (Bool-cases (can_trade passive r.price incoming.price)) [
      | inr k ↦ rw (e, k) (stop (r ∷ rs))
      | inl k ↦ elim (Bool-cases (r.trader_id == incoming.trader_id)) [
        | inl t ↦ rw (e, k, t) (gone r (cross-InTurn n rs))
        | inr t ↦ elim (Bool-cases (leb r.quantity n)) [
          | inl q ↦ rw (e, k, t, q) (filled r (cross-InTurn (n - r.quantity) rs))
          | inr q ↦ rw (e, k, t, q) (partly r n (leb→lt r.quantity n q))
        ]
      ]
    ]
  ]

-- A new order with an unused id and a 32-bit quantity, on a valid book: `addOrder` returns. The
-- orders of the other side are met in the order of the book, from the front; each trade is with another
-- trader, at the resting order's price, which is within the limit, and for at most its open
-- quantity; each order withdrawn is one of the trader's own within the limit; and the records of
-- these events, in that order, follow the acknowledgement.
pub add_order-in_turn :
    (r : OrderRequest) (b : OrderBook) (out : Sink)
    → IsValid b
    → b.order_map r.order_id ≡ none
    → r.quantity < 2 ^ 32
    → (b' : OrderBook) × (es : List Event) × (add_order r b out
        ≡ done (b', report (passive_side r.side) r b.symbol es (acknowledge r b.symbol out)))
      × All (IsFair (passive_side r.side) r) es
      × InTurn
          (orders_of (not (is_buy r.side)) (view b))
          es
          (orders_of (not (is_buy r.side)) (view b'))
add_order-in_turn r b out h new small =
    let (b', runs, valid, market, same) = add_order-refines r b out h new small in
    let opposite = orders_of (not (is_buy r.side)) (view b) in
    let turn = cross-InTurn (passive_side r.side) r r.quantity opposite in
    let after = ap (λ m. orders_of (not (is_buy r.side)) m) market ∙ settled_opposite r (view b) in
    (
      b',
      (crossing r (view b)).events,
      runs,
      cross-IsFair (passive_side r.side) r r.quantity opposite,
      subst (λ rs. InTurn opposite (crossing r (view b)).events rs) (sym after) turn,
    )
