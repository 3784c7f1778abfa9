-- ===== src/Levels/Place.antt =====
-- What `insertIntoLevel` does to a side: it appends to the level of the price, or makes that level at
-- its place in the order.
use exchnage_simulator.Prelude.{
  ℕ, ◌≡◌, refl, true, none, some, [], ◌∷◌, ◌++◌, arith, if◌then◌else◌, add32, done, inl, inr,
  Option-cases, Bool-cases,
}
use exchnage_simulator.Core.{Side, BookElement}
use exchnage_simulator.Core.PriceLevel
use exchnage_simulator.Core.PriceLevel.{PriceLevel, Heap, empty_level}
use exchnage_simulator.Levels.{
  Levels, before, find_level, emplace_level, set_level, get_or_create_level, insert_into_level,
}
use exchnage_simulator.Levels.Order.{IsOrdered, Keys, before_total}

-- The level `p`, new if need be, changed by `f`.
unfoldable pub place : Side → ℕ → (PriceLevel → PriceLevel) → Levels → Levels
place s p f [] = (p, f (empty_level p)) ∷ []
place s p f ((q, l) ∷ r) =
    if before s p q
    then (p, f (empty_level p)) ∷ (q, l) ∷ r
    else if before s q p
    then (q, l) ∷ place s p f r
    else (q, f l) ∷ r

-- The three ways in which `place` passes an entry.
pub place_cases {ℓ} :
    (P : Levels → Type ℓ) (s : Side) (p : ℕ) (f : PriceLevel → PriceLevel) (q : ℕ) (l : PriceLevel)
    (r : Levels)
    → (before s p q ≡ true → P ((p, f (empty_level p)) ∷ (q, l) ∷ r))
    → (before s q p ≡ true → P ((q, l) ∷ place s p f r))
    → (p ≡ q → P ((q, f l) ∷ r))
    → P (place s p f ((q, l) ∷ r))
unfolding place
place_cases P s p f q l r better worse same = elim (Bool-cases (before s p q)) [
  | inl b ↦ rw (b) (better b)
  | inr nb ↦ elim (Bool-cases (before s q p)) [
    | inl w ↦ rw (nb, w) (worse w)
    | inr nw ↦ rw (nb, nw) (same (before_total s p q nb nw))
  ]
]

-- `addOrder` of a level, for an element with quantity `n`.
abbrev pub appended : ℕ → ℕ → PriceLevel → PriceLevel
appended a n l = record l { orders = l.orders ++ (a ∷ []); total_qty = add32 l.total_qty n }

find-emplace :
    (s : Side) (p : ℕ) (l : PriceLevel) (ls : Levels)
    → find_level p ls ≡ none
    → find_level p (emplace_level s p l ls) ≡ some l
unfolding find_level emplace_level
find-emplace s p l [] h = ground arith
find-emplace s p l ((q, m) ∷ r) h = ground (arith, find-emplace s p l r)

set-emplace :
    (s : Side) (p : ℕ) (f : PriceLevel → PriceLevel) (ls : Levels)
    → find_level p ls ≡ none
    → set_level p (f (empty_level p)) (emplace_level s p (empty_level p) ls) ≡ place s p f ls
unfolding find_level emplace_level set_level place
set-emplace s p f [] h = ground arith
set-emplace s p f ((q, m) ∷ r) h = ground (arith, set-emplace s p f r)

-- Levels behind a better price hold only worse prices.
pub find-behind :
    (s : Side) (p q : ℕ) (ls : Levels)
    → (before s p q ≡ true)
    → Keys (before s q) true ls
    → find_level p ls ≡ none
unfolding find_level
find-behind s p q [] h k = refl
find-behind s p q ((t, m) ∷ r) h k = ground (arith, find-behind s p q r h k.1)

set-place :
    (s : Side) (p : ℕ) (f : PriceLevel → PriceLevel) (l : PriceLevel) (ls : Levels)
    → IsOrdered s ls
    → find_level p ls ≡ some l
    → set_level p (f l) ls ≡ place s p f ls
unfolding find_level set_level place
set-place s p f l [] o h = cc
set-place s p f l ((q, m) ∷ r) o h = ground (arith, set-place s p f l r o.3, find-behind s p q r)

pub insert_into_level-place :
    (s : Side) (h : Heap) (a p : ℕ) (e : BookElement) (ls : Levels)
    → IsOrdered s ls
    → h a ≡ some e
    → insert_into_level s h a p ls ≡ done (place s p (appended a e.quantity) ls)
unfolding insert_into_level get_or_create_level PriceLevel.add_order
insert_into_level-place s h a p e ls o live = elim (Option-cases (find_level p ls)) [
  | inl absent ↦ ground (
    arith,
    find-emplace s p (empty_level p) ls absent,
    set-emplace s p (appended a e.quantity) ls absent,
  )
  | inr (l, found) ↦ ground (arith, set-place s p (appended a e.quantity) l ls o found)
]
