-- ===== src/Levels.antt =====
-- The price-ordered maps of an order book, `std::map<Price, PriceLevel, Compare>`, and the template
-- helpers `getOrCreateLevel`, `removeFromLevel` and `insertIntoLevel` of
-- matching/src/order_book.cpp. A map is the list of its entries in iteration order.
pub mod Order
pub mod Place
pub mod PlaceOrder
pub mod Remove
use exchnage_simulator.Prelude.{
  ℕ, Bool, true, false, Option, none, some, List, [], ◌∷◌, ◌==◌, ltb, if◌then◌else◌, Outcome, done,
  ◌>>=◌, deref,
}
use exchnage_simulator.Core.{Side, is_buy}
use exchnage_simulator.Core.PriceLevel
use exchnage_simulator.Core.PriceLevel.{PriceLevel, Heap}

abbrev pub Levels : Type 0
Levels = List (ℕ × PriceLevel)

-- `std::greater<Price>` orders the bids and `std::less<Price>` the asks.
abbrev pub before : Side → ℕ → ℕ → Bool
before s p q = if is_buy s then ltb q p else ltb p q

unfoldable pub find_level : ℕ → Levels → Option PriceLevel
find_level p [] = none
find_level p ((q, l) ∷ r) = if q == p then some l else find_level p r

-- `emplace` leaves an entry that is there alone.
unfoldable pub emplace_level : Side → ℕ → PriceLevel → Levels → Levels
emplace_level s p l [] = (p, l) ∷ []
emplace_level s p l ((q, m) ∷ r) =
    if before s p q
    then (p, l) ∷ (q, m) ∷ r
    else if before s q p
    then (q, m) ∷ emplace_level s p l r
    else (q, m) ∷ r

unfoldable pub erase_level : ℕ → Levels → Levels
erase_level p [] = []
erase_level p ((q, l) ∷ r) = if q == p then r else (q, l) ∷ erase_level p r

-- A write through the reference `it->second`.
unfoldable pub set_level : ℕ → PriceLevel → Levels → Levels
set_level p l [] = []
set_level p l ((q, m) ∷ r) = if q == p then (q, l) ∷ r else (q, m) ∷ set_level p l r

-- `getOrCreateLevel`: the map in which the level is sure to be.
unfoldable pub get_or_create_level : Side → ℕ → Levels → Levels
get_or_create_level s p ls = elim (find_level p ls) [
  | none ↦ emplace_level s p (PriceLevel.empty_level p) ls
  | some l ↦ ls
]

unfoldable pub remove_from_level : Heap → ℕ → ℕ → Levels → Outcome Levels
remove_from_level h a p ls = elim (find_level p ls) [
  | none ↦ done ls
  | some l ↦
      (PriceLevel.remove_order h a l >>= λ m.
      done (if PriceLevel.is_empty m then erase_level p ls else set_level p m ls))
]

unfoldable pub insert_into_level : Side → Heap → ℕ → ℕ → Levels → Outcome Levels
insert_into_level s h a p ls = do
  let created = get_or_create_level s p ls
  l ← deref (find_level p created)
  m ← PriceLevel.add_order h a l
  done (set_level p m created)
