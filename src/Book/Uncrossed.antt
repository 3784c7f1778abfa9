-- ===== src/Book/Uncrossed.antt =====
-- Every bid stays below every ask while orders are added and cancelled.
use exchnage_simulator.Prelude.{
  ℕ, ◌-◌, ◌≡◌, ◌<◌, ◌^◌, refl, sym, subst, Bool, true, false, Bool-cases, inl, inr, ◌⊎◌, none, some,
  Option, List, [], ◌∷◌, All, All-map, arith, not, leb, ◌==◌, ==→eq, ==→ne, done,
}
use exchnage_simulator.Core.{Side, is_buy, OrderRequest}
use exchnage_simulator.Levels.{before}
use exchnage_simulator.Book.State.{OrderBook, Sink, can_trade}
use exchnage_simulator.Book.Api.{passive_side, own_side, add_order, cancel_order}
use exchnage_simulator.Book.Spec.{Resting, Event, Crossing, cross, enqueue, withdraw}
use exchnage_simulator.Book.Rules.{
  Market, view, orders_of, with_orders, crossing, add_rule, settle-used, settle-left, left_over,
  cancel_rule, owned, orders_of-with_orders, orders_of-with_orders-not,
}
use exchnage_simulator.Book.Valid.{IsValid, side_of}
use exchnage_simulator.Book.Sorted.{IsSorted, Priced, view-IsSorted}
use exchnage_simulator.Book.Fairness.{InTurn, stop, gone, filled, partly, cross-InTurn}
use exchnage_simulator.Book.AddOrder.{add_order-refines}
use exchnage_simulator.Book.CancelOrder.{cancel_order-refines}
use exchnage_simulator.Book.Conservation.{settled_opposite}

-- No bid is at or above an ask.
abbrev pub IsUncrossed : Market → Type 0
IsUncrossed m = All (λ x. Priced (λ p. x.price < p) m.asks) m.bids

-- The same, seen from the side `v`.
abbrev Apart : Bool → List Resting → List Resting → Type 0
Apart v own opp =
    All (λ x. Priced (λ p. can_trade (passive_side (side_of v)) p x.price ≡ false) opp) own

All-swap :
    {A B : Type 0} (P : A → B → Type 0) (xs : List A) (ys : List B)
    → All (λ x. All (λ y. P x y) ys) xs
    → All (λ y. All (λ x. P x y) xs) ys
All-swap P xs [] h = tt
All-swap P xs (y ∷ ys) h =
    (All-map _ _ (λ x k. k.0) xs h, All-swap P xs ys (All-map _ _ (λ x k. k.1) xs h))

from_uncrossed :
    (v : Bool) (m : Market) → IsUncrossed m → Apart v (orders_of v m) (orders_of (not v) m)
from_uncrossed true m h = All-map _ _ (λ x. All-map _ _ (λ y k. ground arith) m.asks) m.bids h
from_uncrossed false m h =
    All-swap _ m.bids m.asks (All-map _ _ (λ x. All-map _ _ (λ y k. ground arith) m.asks) m.bids h)

to_uncrossed :
    (v : Bool) (m : Market) → Apart v (orders_of v m) (orders_of (not v) m) → IsUncrossed m
to_uncrossed true m h = All-map _ _ (λ x. All-map _ _ (λ y k. ground arith) m.asks) m.bids h
to_uncrossed false m h =
    All-swap _ m.asks m.bids (All-map _ _ (λ x. All-map _ _ (λ y k. ground arith) m.bids) m.asks h)

InTurn-Priced :
    (P : ℕ → Type 0) {xs ys : List Resting} {es : List Event}
    → InTurn xs es ys
    → Priced P xs
    → Priced P ys
InTurn-Priced P (stop xs) h = h
InTurn-Priced P (gone x t) h = InTurn-Priced P t h.1
InTurn-Priced P (filled x t) h = InTurn-Priced P t h.1
InTurn-Priced P (partly x q k) h = h

pub enqueue-All :
    (P : Resting → Type 0) (s : Side) (r : Resting) (xs : List Resting)
    → P r
    → All P xs
    → All P (enqueue s r xs)
unfolding enqueue
enqueue-All P s r [] p h = (p, tt)
enqueue-All P s r (x ∷ xs) p h = elim (Bool-cases (before s r.price x.price)) [
  | inl e ↦ rw e (p, h)
  | inr e ↦ rw e (h.0, enqueue-All P s r xs p h.1)
]

pub withdraw-All :
    (P : Resting → Type 0) (id : ℕ) (xs : List Resting) → All P xs → All P (withdraw id xs)
unfolding withdraw
withdraw-All P id [] h = tt
withdraw-All P id (x ∷ xs) h = elim (Bool-cases (x.id == id)) [
  | inl e ↦ rw e h.1
  | inr e ↦ rw e (h.0, withdraw-All P id xs h.1)
]

module _ (s : Side) (r : OrderRequest) where
  -- Behind an order that cannot trade, none can.
  blocked :
      (p q : ℕ)
      → can_trade s p r.price ≡ false
      → before s q p ≡ false
      → can_trade s q r.price ≡ false
  blocked p q h k = ground arith

  -- The order is used up, or nothing is left that it can trade with.
  abbrev Blocks : Crossing → Type 0
  Blocks c = (c.remaining ≡ 0) ⊎ Priced (λ p. can_trade s p r.price ≡ false) c.book

  cross-Blocks : (n : ℕ) (rs : List Resting) → IsSorted s rs → Blocks (cross s r n rs)
  unfolding cross
  cross-Blocks n [] o = inr tt
  cross-Blocks n (x ∷ xs) o = elim (Bool-cases (n == 0)) [
    | inl e ↦ rw e (inl (==→eq n 0 e))
    | inr e ↦ elim (Bool-cases (can_trade s x.price r.price)) [
      | inr k ↦ rw (e, k) (inr (k, All-map _ _ (λ y b. blocked x.price y.price k b) xs o.0))
      | inl k ↦ elim (Bool-cases (x.trader_id == r.trader_id)) [
        | inl t ↦ rw (e, k, t) (cross-Blocks n xs o.1)
        | inr t ↦ elim (Bool-cases (leb x.quantity n)) [
          | inl q ↦ rw (e, k, t, q) (cross-Blocks (n - x.quantity) xs o.1)
          | inr q ↦ rw (e, k, t, q) (inl refl)
        ]
      ]
    ]
  ]

module _ (r : OrderRequest) (m : Market) where
  abbrev v : Bool
  v = is_buy r.side

  abbrev c : Crossing
  c = crossing r m

  abbrev IsApart : List Resting → List Resting → Type 0
  IsApart own opp =
      All (λ x. Priced (λ p. can_trade (passive_side r.side) p x.price ≡ false) opp) own

  shrinks : (own : List Resting) → IsApart own (orders_of (not v) m) → IsApart own c.book
  shrinks own h =
      All-map _ _
        (λ x.
          InTurn-Priced (λ p. can_trade (passive_side r.side) p x.price ≡ false)
            (cross-InTurn (passive_side r.side) r r.quantity (orders_of (not v) m)))
        own h

  rule-IsApart :
      IsSorted (passive_side r.side) (orders_of (not v) m)
      → IsApart (orders_of v m) (orders_of (not v) m)
      → IsApart (orders_of v (add_rule r m)) (orders_of (not v) (add_rule r m))
  rule-IsApart o h = rw (settled_opposite r m) (elim (Bool-cases (c.remaining == 0)) [
    | inl e ↦
        rw (settle-used r c m e, orders_of-with_orders-not v c.book m) (shrinks (orders_of v m) h)
    | inr e ↦
        rw (settle-left r c m e, orders_of-with_orders v _ (with_orders (not v) c.book m))
          (enqueue-All _ (own_side r.side) (left_over r c.remaining) (orders_of v m)
            (elim (cross-Blocks (passive_side r.side) r r.quantity (orders_of (not v) m) o) [
              | inl z ↦ absurd (==→ne _ _ e z)
              | inr k ↦ k
            ])
            (shrinks (orders_of v m) h))
  ])

passive-side_of : (s : Side) → passive_side (side_of (is_buy s)) ≡ passive_side s
passive-side_of s = ground arith

side_of-passive : (s : Side) → side_of (not (is_buy s)) ≡ passive_side s
side_of-passive s = ground arith

-- A valid book with no bid at or above an ask: `addOrder` with an unused id and a 32-bit quantity
-- returns a book of which this holds again.
pub add_order-IsUncrossed :
    (r : OrderRequest) (b : OrderBook) (out : Sink)
    → IsValid b
    → b.order_map r.order_id ≡ none
    → r.quantity < 2 ^ 32
    → IsUncrossed (view b)
    → (b' : OrderBook) × (s : Sink) × (add_order r b out ≡ done (b', s))
      × IsValid b'
      × IsUncrossed (view b')
add_order-IsUncrossed r b out h new small u =
    let (b', runs, valid, market, same) = add_order-refines r b out h new small in
    let v = is_buy r.side in
    let sorted =
      subst (λ s. IsSorted s (orders_of (not v) (view b))) (side_of-passive r.side)
        (view-IsSorted (not v) b h) in
    let apart =
      subst
        (λ s.
          All (λ x. Priced (λ p. can_trade s p x.price ≡ false) (orders_of (not v) (view b)))
            (orders_of v (view b)))
        (passive-side_of r.side) (from_uncrossed v (view b) u) in
    let after = rule-IsApart r (view b) sorted apart in
    let m = add_rule r (view b) in
    let back =
      subst
        (λ s.
          All (λ x. Priced (λ p. can_trade s p x.price ≡ false) (orders_of (not v) m))
            (orders_of v m))
        (sym (passive-side_of r.side)) after in
    (b', _, runs, valid, subst IsUncrossed (sym market) (to_uncrossed v m back))

cancel-IsUncrossed :
    (id trader : ℕ) (m : Market) → IsUncrossed m → IsUncrossed (cancel_rule id trader m)
cancel-IsUncrossed id trader m u = by_order (owned id trader m)
  where
    by_order :
        (o : Option (Bool × Resting))
        → IsUncrossed
            (elim o [ none ↦ m | some x ↦ with_orders x.0 (withdraw id (orders_of x.0 m)) m ])
    by_order none = u
    by_order (some (true, r)) = withdraw-All _ id m.bids u
    by_order (some (false, r)) = All-map _ _ (λ x. withdraw-All _ id m.asks) m.bids u

-- A valid book with no bid at or above an ask: `cancelOrder` returns a book of which this holds again.
pub cancel_order-IsUncrossed :
    (id trader : ℕ) (b : OrderBook) (out : Sink)
    → IsValid b
    → IsUncrossed (view b)
    → (b' : OrderBook) × (s : Sink) × (cancel_order id trader b out ≡ done (b', s))
      × IsValid b'
      × IsUncrossed (view b')
cancel_order-IsUncrossed id trader b out h u =
    let (b', d, runs, valid, market, told, same) = cancel_order-refines id trader b out h in
    (b', _, runs, valid, subst IsUncrossed (sym market) (cancel-IsUncrossed id trader (view b) u))
