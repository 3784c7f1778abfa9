-- ===== src/Levels/PlaceOrder.antt =====
-- `insertIntoLevel` keeps the iteration order of a side.
use exchnage_simulator.Prelude.{ℕ, ◌≡◌, ◌≢◌, refl, Bool, true, List, [], ◌∷◌, ◌++◌, arith}
use exchnage_simulator.Core.{Side}
use exchnage_simulator.Core.PriceLevel.{PriceLevel, empty_level}
use exchnage_simulator.Levels.{Levels, before}
use exchnage_simulator.Levels.Order.{IsOrdered, Keys, Keys-map, before_trans}
use exchnage_simulator.Levels.Place.{place, place_cases, appended}

Keys-place :
    (test : ℕ → Bool) (s : Side) (p : ℕ) (f : PriceLevel → PriceLevel) (ls : Levels)
    → Keys test true ls
    → test p ≡ true
    → Keys test true (place s p f ls)
unfolding place
Keys-place test s p f [] k h = (h, tt)
Keys-place test s p f ((q, l) ∷ r) k h = ground (arith, Keys-place test s p f r k.1 h)

orders-appended : (a n : ℕ) (l : PriceLevel) → (appended a n l).orders ≢ []
orders-appended a n l = snoc l.orders
  where
    snoc : (xs : List ℕ) → xs ++ (a ∷ []) ≢ []
    snoc [] e = cc
    snoc (x ∷ xs) e = cc

pub place-IsOrdered :
    (s : Side) (p a n : ℕ) (ls : Levels)
    → IsOrdered s ls
    → IsOrdered s (place s p (appended a n) ls)
unfolding place empty_level
place-IsOrdered s p a n [] o = (tt, refl, orders-appended a n (empty_level p), tt)
place-IsOrdered s p a n ((q, l) ∷ r) o =
    place_cases (IsOrdered s) s p (appended a n) q l r
      (λ better. (
        (
          better,
          Keys-map (before s q) (before s p) true true (λ t. before_trans s p q t better) r o.0,
        ),
        refl,
        orders-appended a n (empty_level p),
        o,
      ))
      (λ worse. (
        Keys-place (before s q) s p (appended a n) r o.0 worse,
        o.1,
        o.2,
        place-IsOrdered s p a n r o.3,
      ))
      (λ same. (o.0, o.1, orders-appended a n l, o.3))
