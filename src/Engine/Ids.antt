-- ===== src/Engine/Ids.antt =====
-- The order ids that a book shows, and what each request does to them.
use exchnage_simulator.Prelude.{
  ℕ, ◌≡◌, ◌<◌, refl, subst, Bool, true, false, Bool-cases, Option-cases, inl, inr, none, some,
  Option, List, [], ◌∷◌, All, All-map, arith, if◌then◌else◌, not, ◌==◌, ◌&&◌, ltb,
}
use exchnage_simulator.Core.{buy, sell, is_buy, OrderRequest}
use exchnage_simulator.Book.{OrderBook, init}
use exchnage_simulator.Book.{passive_side, own_side}
use exchnage_simulator.Book.Spec.{Resting, Event, find_order, resize, withdraw}
use exchnage_simulator.Book.Rules.{
  Market, view, orders_of, with_orders, crossing, add_rule, settle-used, settle-left, left_over,
  cancel_rule, modify_rule, owned, if_owner,
}
use exchnage_simulator.Book.ModifyOrder.{modified}
use exchnage_simulator.Book.View.{view_levels}
use exchnage_simulator.Book.Valid.{IsValid}
use exchnage_simulator.Book.Found.{find_known}
use exchnage_simulator.Book.Fairness.{InTurn, stop, gone, filled, partly, cross-InTurn}
use exchnage_simulator.Book.Uncrossed.{enqueue-All, withdraw-All}

abbrev pub Named : (ℕ → Type 0) → List Resting → Type 0
Named P = All (λ x. P x.id)

-- Every resting order has an id of which `P` holds.
abbrev pub Ids : (ℕ → Type 0) → Market → Type 0
Ids P m = Named P m.bids × Named P m.asks

find_order-below : (n : ℕ) (xs : List Resting) → Named (λ i. i < n) xs → find_order n xs ≡ none
unfolding find_order
find_order-below n [] h = refl
find_order-below n (x ∷ xs) h = ground (arith, h.0, find_order-below n xs h.1)

-- An id above all that the book shows is not known to it.
pub unknown_above :
    (b : OrderBook) (n : ℕ) → IsValid b → Ids (λ i. i < n) (view b) → b.order_map n ≡ none
unknown_above b n h below = elim (Option-cases (b.order_map n)) [
  | inl e ↦ e
  | inr (a, e) ↦ absurd (contradiction a e)
]
  where
    absent : (t : ℕ) → owned n t (view b) ≡ none
    absent t = rw (
      find_order-below n (orders_of true (view b)) below.0,
      find_order-below n (orders_of false (view b)) below.1,
      owned,
    )

    contradiction : (a : ℕ) → b.order_map n ≡ some a → ⊥
    contradiction a e =
        let f = find_known b h n a 0 e in
        let t = f.at.linked.elem.trader_id in
        let g = find_known b h n a t e in
        ground (arith, f.at.linked.live, g.at.linked.live, g.owner, absent t)

module _ (P : ℕ → Type 0) where
  from_Ids : (v : Bool) (m : Market) → Ids P m → Named P (orders_of v m)
  from_Ids true m h = h.0
  from_Ids false m h = h.1

  to_Ids :
      (v : Bool) (m : Market) → Named P (orders_of v m) → Named P (orders_of (not v) m) → Ids P m
  to_Ids true m h k = (h, k)
  to_Ids false m h k = (k, h)

  with_orders-Ids :
      (v : Bool) (rs : List Resting) (m : Market)
      → Named P rs
      → Ids P m
      → Ids P (with_orders v rs m)
  with_orders-Ids true rs m h k = (h, k.1)
  with_orders-Ids false rs m h k = (k.0, h)

  InTurn-Named :
      {xs ys : List Resting} {es : List Event} → InTurn xs es ys → Named P xs → Named P ys
  InTurn-Named (stop xs) h = h
  InTurn-Named (gone x t) h = InTurn-Named t h.1
  InTurn-Named (filled x t) h = InTurn-Named t h.1
  InTurn-Named (partly x q k) h = h

  resize-Named : (id q : ℕ) (xs : List Resting) → Named P xs → Named P (resize id q xs)
  unfolding resize
  resize-Named id q [] h = tt
  resize-Named id q (x ∷ xs) h = elim (Bool-cases (x.id == id)) [
    | inl e ↦ rw e h
    | inr e ↦ rw e (h.0, resize-Named id q xs h.1)
  ]

  -- A new order brings its own id at most.
  pub add_rule-Ids : (r : OrderRequest) (m : Market) → P r.order_id → Ids P m → Ids P (add_rule r m)
  add_rule-Ids r m p h = elim (Bool-cases ((crossing r m).remaining == 0)) [
    | inl e ↦ rw (settle-used r (crossing r m) m e) traded
    | inr e ↦ rw (settle-left r (crossing r m) m e) (
        with_orders-Ids (is_buy r.side) _ _
          (enqueue-All (λ x. P x.id) (own_side r.side) (left_over r (crossing r m).remaining) _ p
            (from_Ids (is_buy r.side) m h))
          traded)
  ]
    where
      traded : Ids P (with_orders (not (is_buy r.side)) (crossing r m).book m)
      traded =
          with_orders-Ids (not (is_buy r.side)) _ m
            (InTurn-Named
              (cross-InTurn (passive_side r.side) r r.quantity (orders_of (not (is_buy r.side)) m))
              (from_Ids (not (is_buy r.side)) m h))
            h

  pub cancel_rule-Ids : (id trader : ℕ) (m : Market) → Ids P m → Ids P (cancel_rule id trader m)
  cancel_rule-Ids id trader m h = by_order (owned id trader m)
    where
      by_order :
          (o : Option (Bool × Resting))
          → Ids P (elim o [ none ↦ m | some x ↦ with_orders x.0 (withdraw id (orders_of x.0 m)) m ])
      by_order none = h
      by_order (some (v, r)) =
          with_orders-Ids v _ m (withdraw-All (λ x. P x.id) id (orders_of v m) (from_Ids v m h)) h

  abbrev OwnedIn : Option (Bool × Resting) → Type 0
  OwnedIn o = elim o [ none ↦ Unit {0} | some x ↦ P x.1.id ]

  find_order-Named :
      (id : ℕ) (xs : List Resting) (r : Resting) → Named P xs → find_order id xs ≡ some r → P r.id
  unfolding find_order
  find_order-Named id [] r h e = cc
  find_order-Named id (x ∷ xs) r h e = elim (Bool-cases (x.id == id)) [
    | inl k ↦ let same : x ≡ r = ground arith in subst (λ (y : Resting). P y.id) same h.0
    | inr k ↦
        let rest : find_order id xs ≡ some r = ground arith in find_order-Named id xs r h.1 rest
  ]

  if_owner-OwnedIn : (trader : ℕ) (v : Bool) (r : Resting) → P r.id → OwnedIn (if_owner trader v r)
  if_owner-OwnedIn trader v r p = elim (Bool-cases (r.trader_id == trader)) [
    | inl e ↦ rw e p
    | inr e ↦ rw e tt
  ]

  owned-OwnedIn : (id trader : ℕ) (m : Market) → Ids P m → OwnedIn (owned id trader m)
  owned-OwnedIn id trader m h = by_bid (find_order id m.bids) refl (find_order id m.asks) refl
    where
      by_bid :
          (o : Option Resting)
          → find_order id m.bids ≡ o
          → (o' : Option Resting) → find_order id m.asks ≡ o'
          → OwnedIn (elim o [
            | some r ↦ if_owner trader true r
            | none ↦ elim o' [ some r ↦ if_owner trader false r | none ↦ none ]
          ])
      by_bid (some r) e o' e' = if_owner-OwnedIn trader true r (find_order-Named id m.bids r h.0 e)
      by_bid none e none e' = tt
      by_bid none e (some r) e' =
          if_owner-OwnedIn trader false r (find_order-Named id m.asks r h.1 e')

  modify_rule-Ids :
      (keeps : Bool) (id price qty : ℕ) (x : Bool × Resting) (m : Market)
      → P x.1.id
      → Ids P m
      → Ids P (modify_rule keeps id price qty x m)
  modify_rule-Ids true id price qty (v, r) m p h =
      with_orders-Ids v _ m (resize-Named id qty (orders_of v m) (from_Ids v m h)) h
  modify_rule-Ids false id price qty (v, r) m p h =
      with_orders-Ids v _ m
        (enqueue-All (λ x. P x.id) (if v then buy else sell)
          (record r { quantity = qty; price = price }) _ p
          (withdraw-All (λ x. P x.id) id (orders_of v m) (from_Ids v m h)))
        h

  pub modified-Ids :
      (placed id trader price qty : ℕ) (m : Market)
      → Ids P m
      → Ids P (modified placed id price qty (owned id trader m) m)
  modified-Ids placed id trader price qty m h =
      by_order (owned id trader m) (owned-OwnedIn id trader m h)
    where
      by_order :
          (o : Option (Bool × Resting)) → OwnedIn o → Ids P (modified placed id price qty o m)
      by_order none p = h
      by_order (some x) p =
          modify_rule-Ids ((x.1.price == price) && ltb qty placed) id price qty x m p h

pub init-Ids : (P : ℕ → Type 0) (s : ℕ) → Ids P (view (init s))
unfolding init view_levels
init-Ids P s = (tt, tt)

pub Ids-map : (P Q : ℕ → Type 0) → ((i : ℕ) → P i → Q i) → (m : Market) → Ids P m → Ids Q m
Ids-map P Q f m h = (All-map _ _ (λ x. f x.id) m.bids h.0, All-map _ _ (λ x. f x.id) m.asks h.1)

pub Ids-all : (P : ℕ → Type 0) → ((i : ℕ) → P i) → (m : Market) → Ids P m
Ids-all P f m = (each m.bids, each m.asks)
  where
    each : (xs : List Resting) → Named P xs
    each [] = tt
    each (x ∷ xs) = (f x.id, each xs)

pub Ids-both :
    (P Q R : ℕ → Type 0) → ((i : ℕ) → P i → Q i → R i) → (m : Market) → Ids P m → Ids Q m → Ids R m
Ids-both P Q R f m h k = (each m.bids h.0 k.0, each m.asks h.1 k.1)
  where
    each : (xs : List Resting) → Named P xs → Named Q xs → Named R xs
    each [] p q = tt
    each (x ∷ xs) p q = (f x.id p.0 q.0, each xs p.1 q.1)
