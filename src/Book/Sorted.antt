-- ===== src/Book/Sorted.antt =====
-- A side of a valid book reads best price first.
use exchnage_simulator.Prelude.{
  ℕ, ◌≡◌, refl, Bool, true, false, Option-cases, inl, inr, none, some, List, [], ◌∷◌, ◌++◌, All,
  All-append, All-map,
}
use exchnage_simulator.Core.{Side, buy, sell}
use exchnage_simulator.Core.PriceLevel.{Heap}
use exchnage_simulator.Levels.{Levels, before}
use exchnage_simulator.Levels.Order.{IsOrdered, before_asymm, before-false-of_eq}
use exchnage_simulator.Book.State.{OrderBook}
use exchnage_simulator.Book.Spec.{Resting}
use exchnage_simulator.Book.View.{resting, view_orders, view_levels}
use exchnage_simulator.Book.Rules.{view, orders_of}
use exchnage_simulator.Book.Valid.{IsValid, side_of}

-- No order stands behind one at a worse price.
abbrev pub IsSorted : Side → List Resting → Type 0
IsSorted s [] = Unit
IsSorted s (x ∷ xs) = All (λ y. before s y.price x.price ≡ false) xs × IsSorted s xs

abbrev pub Priced : (ℕ → Type 0) → List Resting → Type 0
Priced P = All (λ x. P x.price)

pub IsSorted-append :
    (s : Side) (xs ys : List Resting)
    → IsSorted s xs
    → IsSorted s ys
    → All (λ x. Priced (λ p. before s p x.price ≡ false) ys) xs
    → IsSorted s (xs ++ ys)
IsSorted-append s [] ys h k c = k
IsSorted-append s (x ∷ xs) ys h k c =
    (All-append _ xs ys h.0 c.0, IsSorted-append s xs ys h.1 k c.1)

module _ (h : Heap) where
  view_orders-Priced : (P : ℕ → Type 0) (p : ℕ) (os : List ℕ) → P p → Priced P (view_orders h p os)
  unfolding view_orders
  view_orders-Priced P p [] k = tt
  view_orders-Priced P p (a ∷ os) k = elim (Option-cases (h a)) [
    | inl n ↦ rw (view_orders, n) (view_orders-Priced P p os k)
    | inr (e, n) ↦ rw (view_orders, n) (k, view_orders-Priced P p os k)
  ]

  view_levels-Priced :
      (P : ℕ → Type 0) (ls : Levels) → All (λ e. P e.0) ls → Priced P (view_levels h ls)
  unfolding view_levels
  view_levels-Priced P [] k = tt
  view_levels-Priced P ((p, l) ∷ r) k =
      All-append _ (view_orders h p l.orders) (view_levels h r)
        (view_orders-Priced P p l.orders k.0) (view_levels-Priced P r k.1)

  view_orders-IsSorted : (s : Side) (p : ℕ) (os : List ℕ) → IsSorted s (view_orders h p os)
  unfolding view_orders
  view_orders-IsSorted s p [] = tt
  view_orders-IsSorted s p (a ∷ os) =
      elim (h a)
        as (λ o.
          IsSorted s
            (elim o [ none ↦ view_orders h p os | some e ↦ resting e p ∷ view_orders h p os ])) [
              | none ↦ view_orders-IsSorted s p os
              | some e ↦ (
                view_orders-Priced (λ q. before s q p ≡ false) p os (before-false-of_eq s p p refl),
                view_orders-IsSorted s p os,
              )
            ]

  view_levels-IsSorted : (s : Side) (ls : Levels) → IsOrdered s ls → IsSorted s (view_levels h ls)
  unfolding view_levels
  view_levels-IsSorted s [] o = tt
  view_levels-IsSorted s ((p, l) ∷ r) o =
      IsSorted-append s (view_orders h p l.orders) (view_levels h r)
        (view_orders-IsSorted s p l.orders) (view_levels-IsSorted s r o.3)
        (view_orders-Priced (λ q. Priced (λ x. before s x q ≡ false) (view_levels h r)) p l.orders
          (view_levels-Priced (λ x. before s x p ≡ false) r
            (All-map _ _ (λ e. before_asymm s p e.0) r o.0)))

-- On either side of a valid book, no order stands behind one at a worse price.
pub view-IsSorted :
    (v : Bool) (b : OrderBook) → IsValid b → IsSorted (side_of v) (orders_of v (view b))
view-IsSorted true b h = view_levels-IsSorted b.heap buy b.bids h.bids_ordered
view-IsSorted false b h = view_levels-IsSorted b.heap sell b.asks h.asks_ordered
