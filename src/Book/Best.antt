-- ===== src/Book/Best.antt =====
-- The best prices of a book are those of its resting orders.
use exchnage_simulator.Prelude.{
  ℕ, ◌≡◌, ◌≢◌, refl, sym, ap, subst, ◌∙◌, Bool, true, false, List, [], ◌∷◌, ◌++◌, All,
  if◌then◌else◌,
}
use exchnage_simulator.Core.{Side, buy, sell}
use exchnage_simulator.Levels.{Levels, before}
use exchnage_simulator.Levels.Order.{IsOrdered}
use exchnage_simulator.Book.State.{OrderBook, Store}
use exchnage_simulator.Book.Api.{best_price, get_best_bid_price, get_best_ask_price}
use exchnage_simulator.Book.Spec.{Resting}
use exchnage_simulator.Book.Linked.{Linked, LinkedLevels}
use exchnage_simulator.Book.View.{resting, view_orders, view_levels}
use exchnage_simulator.Book.Rules.{view, orders_of}
use exchnage_simulator.Book.Valid.{IsValid}
use exchnage_simulator.Book.Sorted.{IsSorted, view-IsSorted}

-- The best price of some orders, one of which has the price `p`: a better one of another order
-- replaces it.
abbrev pub best_from : Side → ℕ → List Resting → ℕ
best_from s p [] = p
best_from s p (x ∷ xs) = best_from s (if before s x.price p then x.price else p) xs

-- The highest price of bids and the lowest of asks, and 0 without orders.
abbrev pub best_of : Side → List Resting → ℕ
best_of s [] = 0
best_of s (x ∷ xs) = best_from s x.price xs

best_from-front :
    (s : Side) (p : ℕ) (xs : List Resting)
    → All (λ y. before s y.price p ≡ false) xs
    → best_from s p xs ≡ p
best_from-front s p [] h = refl
best_from-front s p (x ∷ xs) h = rw h.0 (best_from-front s p xs h.1)

best_of-front :
    (s : Side) (x : Resting) (xs : List Resting)
    → IsSorted s (x ∷ xs)
    → best_of s (x ∷ xs) ≡ x.price
best_of-front s x xs h = best_from-front s x.price xs h.0

-- A level with an order shows one at its price in front.
view_orders-front :
    (st : Store) (v : Bool) (p : ℕ) (os : List ℕ)
    → os ≢ []
    → All (Linked st v p) os
    → (x : Resting) × (xs : List Resting) × (view_orders st.heap p os ≡ x ∷ xs) × (x.price ≡ p)
unfolding view_orders
view_orders-front st v p [] ne k = absurd (ne refl)
view_orders-front st v p (a ∷ os) ne k =
    let e = k.0.elem in
    (resting e p, view_orders st.heap p os, rw (view_orders, k.0.live) refl, refl)

-- The first level has an order, and it is in front.
best_price-best_of :
    (s : Side) (st : Store) (v : Bool) (ls : Levels)
    → IsOrdered s ls
    → LinkedLevels st v ls
    → IsSorted s (view_levels st.heap ls)
    → best_price ls ≡ best_of s (view_levels st.heap ls)
unfolding view_levels
best_price-best_of s st v [] o k h = refl
best_price-best_of s st v ((p, l) ∷ r) o k h =
    let (x, xs, e, at) = view_orders-front st v p l.orders o.2 k.0 in
    let all : view_levels st.heap ((p, l) ∷ r) ≡ x ∷ (xs ++ view_levels st.heap r) =
      ap (λ os. os ++ view_levels st.heap r) e in
    sym at
    ∙ sym (best_of-front s x (xs ++ view_levels st.heap r) (subst (IsSorted s) all h))
    ∙ ap (best_of s) (sym all)

-- The best bid and the best ask of a valid book are the highest price of its resting bids and the
-- lowest of its resting asks, and 0 on a side without orders.
pub best_prices-best_of :
    (b : OrderBook)
    → IsValid b
    → (get_best_bid_price b ≡ best_of buy (orders_of true (view b)))
      × (get_best_ask_price b ≡ best_of sell (orders_of false (view b)))
unfolding get_best_bid_price get_best_ask_price
best_prices-best_of b h = (
  best_price-best_of buy b.store true b.bids h.bids_ordered h.bids_linked (view-IsSorted true b h),
  best_price-best_of sell b.store false b.asks h.asks_ordered h.asks_linked
      (view-IsSorted false b h),
)
