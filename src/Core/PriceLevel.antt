-- ===== src/Core/PriceLevel.antt =====
-- core/include/price_level.hpp: a FIFO of pointers to elements. A pointer is an address of the
-- heap of elements.
use exchnage_simulator.Prelude.{
  ℕ, Bool, true, false, Option, none, some, List, [], ◌∷◌, ◌++◌, ◌==◌, if◌then◌else◌, add32, sub32,
  Map, Outcome, done, ◌>>=◌, deref,
}
use exchnage_simulator.Core.Orders.{BookElement}

abbrev pub Heap : Type 0
Heap = Map BookElement

pub record PriceLevel : Type 0 where
  pub price : ℕ
  pub total_qty : ℕ
  pub orders : List ℕ

unfoldable pub empty_level : ℕ → PriceLevel
empty_level p = record { price = p; total_qty = 0; orders = [] }

abbrev pub is_empty : PriceLevel → Bool
is_empty l = elim l.orders [ [] ↦ true | a ∷ r ↦ false ]

-- `addOrder`: reads the quantity through the pointer.
unfoldable pub add_order : Heap → ℕ → PriceLevel → Outcome PriceLevel
add_order h a l = do
  e ← deref (h a)
  done (record l { orders = l.orders ++ (a ∷ []); total_qty = add32 l.total_qty e.quantity })

-- `std::find(mOrders.begin(), mOrders.end(), order) != mOrders.end()`
unfoldable pub listed : ℕ → List ℕ → Bool
listed a [] = false
listed a (b ∷ r) = if b == a then true else listed a r

-- `mOrders.erase(it)` at the first occurrence.
unfoldable pub unlist : ℕ → List ℕ → List ℕ
unlist a [] = []
unlist a (b ∷ r) = if b == a then r else b ∷ unlist a r

unfoldable pub remove_order : Heap → ℕ → PriceLevel → Outcome PriceLevel
unfolding listed unlist
remove_order h a l = elim (listed a l.orders) [
  | false ↦ done l
  | true ↦
      (deref (h a) >>= λ e.
      done (record l { total_qty = sub32 l.total_qty e.quantity; orders = unlist a l.orders }))
]

unfoldable pub reduce_qty : ℕ → PriceLevel → PriceLevel
reduce_qty amt l = record l { total_qty = sub32 l.total_qty amt }

unfoldable pub peek_first : PriceLevel → Option ℕ
peek_first l = elim l.orders [ [] ↦ none | a ∷ r ↦ some a ]
