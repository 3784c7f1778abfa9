-- ===== src/Book/Volumes.antt =====
-- What an incoming order trades, cancels and leaves, in numbers.
use exchnage_simulator.Prelude.{
  ℕ, ◌+◌, ◌-◌, ◌≡◌, ◌≢◌, refl, Bool, true, false, List, [], ◌∷◌, All, arith, if◌then◌else◌, ◌&&◌,
  ◌==◌, not,
}
use exchnage_simulator.Core.{Side, OrderRequest, OrderConfirm, ConfirmType, trade, cancel_ack}
use exchnage_simulator.Book.Spec.{
  Resting, Event, traded, withdrawn, Crossing, cross, enqueue, confirms_of,
}

unfoldable pub total : List Resting → ℕ
total [] = 0
total (x ∷ xs) = x.quantity + total xs

unfoldable pub traded_qty : List Event → ℕ
traded_qty [] = 0
traded_qty (traded r q ∷ es) = q + traded_qty es
traded_qty (withdrawn r ∷ es) = traded_qty es

unfoldable pub withdrawn_qty : List Event → ℕ
withdrawn_qty [] = 0
withdrawn_qty (traded r q ∷ es) = withdrawn_qty es
withdrawn_qty (withdrawn r ∷ es) = r.quantity + withdrawn_qty es

-- The sum of the quantities of the confirmations that a test picks.
unfoldable pub confirmed_qty : (ConfirmType → Bool) → List OrderConfirm → ℕ
confirmed_qty t [] = 0
confirmed_qty t (c ∷ cs) = (if t c.type then c.qty else 0) + confirmed_qty t cs

abbrev pub is_trade : ConfirmType → Bool
is_trade trade = true
is_trade _ = false

abbrev pub is_cancel : ConfirmType → Bool
is_cancel cancel_ack = true
is_cancel _ = false

-- The sum of the quantities of the trades that are confirmed to the traders that a test picks.
unfoldable pub told_qty : (ℕ → Bool) → List OrderConfirm → ℕ
told_qty t [] = 0
told_qty t (c ∷ cs) = (if is_trade c.type && t c.trader_id then c.qty else 0) + told_qty t cs

pub record Balanced (n : ℕ) (rs : List Resting) (c : Crossing) : Type 0 where
  pub filled : traded_qty c.events + c.remaining ≡ n
  pub taken : total c.book + traded_qty c.events + withdrawn_qty c.events ≡ total rs

module _ (passive : Side) (incoming : OrderRequest) where
  pub cross-Balanced : (n : ℕ) (rs : List Resting) → Balanced n rs (cross passive incoming n rs)
  unfolding cross total traded_qty withdrawn_qty
  cross-Balanced n [] = record { filled = omega arith; taken = omega arith }
  cross-Balanced n (r ∷ rs) =
      let own = cross-Balanced n rs in
      let less = cross-Balanced (n - r.quantity) rs in
      ground (arith, own.filled, own.taken, less.filled, less.taken)

-- A trade is not with the incoming order's own trader.
abbrev pub IsForeign : OrderRequest → Event → Type 0
IsForeign incoming (traded r q) = r.trader_id ≢ incoming.trader_id
IsForeign incoming (withdrawn r) = Unit

pub cross-IsForeign :
    (passive : Side) (incoming : OrderRequest) (n : ℕ) (rs : List Resting)
    → All (IsForeign incoming) (cross passive incoming n rs).events
unfolding cross
cross-IsForeign passive incoming n [] = tt
cross-IsForeign passive incoming n (r ∷ rs) =
    let own = cross-IsForeign passive incoming n rs in
    let less = cross-IsForeign passive incoming (n - r.quantity) rs in ground (arith, own, less)

pub total-enqueue :
    (s : Side) (r : Resting) (xs : List Resting) → total (enqueue s r xs) ≡ r.quantity + total xs
unfolding total enqueue
total-enqueue s r [] = refl
total-enqueue s r (x ∷ xs) = ground (arith, total-enqueue s r xs)

module _ (passive : Side) (incoming : OrderRequest) (symbol : ℕ) where
  -- Each trade is confirmed once to the incoming order's trader, and once to the other party.
  pub told_incoming :
      (es : List Event)
      → All (IsForeign incoming) es
      → told_qty (λ t. t == incoming.trader_id) (confirms_of passive incoming symbol es)
        ≡ traded_qty es
  unfolding told_qty confirms_of traded_qty
  told_incoming [] h = refl
  told_incoming (traded r q ∷ es) h = ground (arith, h.0, told_incoming es h.1)
  told_incoming (withdrawn r ∷ es) h = omega (arith, told_incoming es h.1)

  pub told_others :
      (es : List Event)
      → All (IsForeign incoming) es
      → told_qty (λ t. not (t == incoming.trader_id)) (confirms_of passive incoming symbol es)
        ≡ traded_qty es
  unfolding told_qty confirms_of traded_qty
  told_others [] h = refl
  told_others (traded r q ∷ es) h = ground (arith, h.0, told_others es h.1)
  told_others (withdrawn r ∷ es) h = omega (arith, told_others es h.1)

  pub confirmed_cancels :
      (es : List Event)
      → confirmed_qty is_cancel (confirms_of passive incoming symbol es) ≡ withdrawn_qty es
  unfolding confirmed_qty confirms_of withdrawn_qty
  confirmed_cancels [] = refl
  confirmed_cancels (traded r q ∷ es) = omega (arith, confirmed_cancels es)
  confirmed_cancels (withdrawn r ∷ es) = omega (arith, confirmed_cancels es)
