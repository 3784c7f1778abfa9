-- ===== src/Book/View.antt =====
-- A price level, and a side of the book, seen as the list of its resting orders.
use exchnage_simulator.Prelude.{
  ℕ, ◌≡◌, refl, sym, ap₂, ◌≢◌, Bool, none, some, List, [], ◌∷◌, ◌++◌, All, Avoids, arith,
}
use exchnage_simulator.Core.{BookElement}
use exchnage_simulator.Core.PriceLevel.{Heap}
use exchnage_simulator.Levels.{Levels}
use exchnage_simulator.Book.State.{Store}
use exchnage_simulator.Book.Linked.{Linked, LinkedLevels, AvoidsLevels, Avoids-of_place}
use exchnage_simulator.Book.Spec.{Resting}

abbrev pub resting : BookElement → ℕ → Resting
resting e p = record { id = e.id; trader_id = e.trader_id; quantity = e.quantity; price = p }

unfoldable pub view_orders : Heap → ℕ → List ℕ → List Resting
view_orders h p [] = []
view_orders h p (a ∷ os) = elim (h a) [
  | none ↦ view_orders h p os
  | some e ↦ resting e p ∷ view_orders h p os
]

unfoldable pub view_levels : Heap → Levels → List Resting
view_levels h [] = []
view_levels h ((p, l) ∷ r) = view_orders h p l.orders ++ view_levels h r

-- What happens at an address that is not listed does not show.
pub view_orders-frame :
    (h k : Heap) (a p : ℕ) (os : List ℕ)
    → ((b : ℕ) → b ≢ a → k b ≡ h b)
    → Avoids a os
    → view_orders k p os ≡ view_orders h p os
unfolding view_orders
view_orders-frame h k a p [] f v = refl
view_orders-frame h k a p (b ∷ os) f v = ground (arith, f b v.0, view_orders-frame h k a p os f v.1)

pub view_levels-frame :
    (h k : Heap) (a : ℕ) (ls : Levels)
    → ((b : ℕ) → b ≢ a → k b ≡ h b)
    → AvoidsLevels a ls
    → view_levels k ls ≡ view_levels h ls
unfolding view_levels
view_levels-frame h k a [] f v = refl
view_levels-frame h k a ((p, l) ∷ r) f v =
    ap₂ ◌++◌ (view_orders-frame h k a p l.orders f v.0) (view_levels-frame h k a r f v.1)

pub AvoidsLevels-of_side :
    {st : Store} {s s' : Bool} {p a : ℕ} (ls : Levels)
    → (s ≡ s' → ⊥)
    → Linked st s p a
    → LinkedLevels st s' ls
    → AvoidsLevels a ls
AvoidsLevels-of_side [] ne x h = tt
AvoidsLevels-of_side ((q, l) ∷ r) ne x h =
    (Avoids-of_place (λ e _. ne e) x l.orders h.0, AvoidsLevels-of_side r ne x h.1)

-- The keys of a map other than `p`.
abbrev pub Others : ℕ → Levels → Type 0
Others p = All (λ e. e.0 ≢ p)

pub AvoidsLevels-of_price :
    {st : Store} {s : Bool} {p a : ℕ} (s' : Bool) (ls : Levels)
    → Others p ls
    → Linked st s p a
    → LinkedLevels st s' ls
    → AvoidsLevels a ls
AvoidsLevels-of_price s' [] ne x h = tt
AvoidsLevels-of_price s' ((q, l) ∷ r) ne x h =
    (Avoids-of_place (λ _ e. ne.0 (sym e)) x l.orders h.0, AvoidsLevels-of_price s' r ne.1 x h.1)
