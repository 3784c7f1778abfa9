-- ===== src/Levels/Remove.antt =====
-- What `removeFromLevel` does to a side: the address leaves the level of the price, and the level
-- leaves if it is empty then.
use exchnage_simulator.Prelude.{
  ℕ, ◌≡◌, ◌≢◌, refl, Bool, true, false, some, List, [], ◌∷◌, ◌==◌, arith, if◌then◌else◌, sub32,
  done, inl, inr, Has, Bool-cases, ==→eq, ==→ne, ==-refl,
}
use exchnage_simulator.Core.{Side, BookElement}
use exchnage_simulator.Core.PriceLevel
use exchnage_simulator.Core.PriceLevel.{PriceLevel, Heap, is_empty, listed, unlist}
use exchnage_simulator.Levels.{
  Levels, before, find_level, erase_level, set_level, remove_from_level,
}
use exchnage_simulator.Levels.Order.{IsOrdered, Keys}

-- `removeOrder` of a level that lists the address, for an element with quantity `n`.
abbrev pub without : ℕ → ℕ → PriceLevel → PriceLevel
without a n l = record l { total_qty = sub32 l.total_qty n; orders = unlist a l.orders }

abbrev pub kept_front : ℕ → PriceLevel → Levels → Levels
kept_front p l r = if is_empty l then r else (p, l) ∷ r

unfoldable pub unplace : ℕ → ℕ → ℕ → Levels → Levels
unplace p a n [] = []
unplace p a n ((q, l) ∷ r) =
    if q == p then kept_front q (without a n l) r else (q, l) ∷ unplace p a n r

listed-true : (a : ℕ) (os : List ℕ) → Has a os → listed a os ≡ true
unfolding listed
listed-true a [] h = absurd h
listed-true a (b ∷ os) (inl e) = rw (e, ==-refl a)
listed-true a (b ∷ os) (inr h) = ground (arith, listed-true a os h)

erase-unplace :
    (p a n : ℕ) (l : PriceLevel) (ls : Levels)
    → find_level p ls ≡ some l
    → is_empty (without a n l) ≡ true
    → erase_level p ls ≡ unplace p a n ls
unfolding find_level erase_level unplace
erase-unplace p a n l [] f e = refl
erase-unplace p a n l ((q, m) ∷ r) f e = ground (arith, erase-unplace p a n l r)

set-unplace :
    (p a n : ℕ) (l : PriceLevel) (ls : Levels)
    → find_level p ls ≡ some l
    → is_empty (without a n l) ≡ false
    → set_level p (without a n l) ls ≡ unplace p a n ls
unfolding find_level set_level unplace
set-unplace p a n l [] f e = refl
set-unplace p a n l ((q, m) ∷ r) f e = ground (arith, set-unplace p a n l r)

pub remove_from_level-unplace :
    (h : Heap) (a p : ℕ) (e : BookElement) (l : PriceLevel) (ls : Levels)
    → find_level p ls ≡ some l
    → Has a l.orders
    → h a ≡ some e
    → remove_from_level h a p ls ≡ done (unplace p a e.quantity ls)
unfolding remove_from_level PriceLevel.remove_order
remove_from_level-unplace h a p e l ls found has live =
    elim (Bool-cases (is_empty (without a e.quantity l))) [
      | inl empty ↦
          ground (arith, listed-true a l.orders has, erase-unplace p a e.quantity l ls found empty)
      | inr full ↦
          ground (arith, listed-true a l.orders has, set-unplace p a e.quantity l ls found full)
    ]

-- The two ways in which `unplace` passes an entry.
pub unplace_cases {ℓ} :
    (P : Levels → Type ℓ) (p a n q : ℕ) (l : PriceLevel) (r : Levels)
    → (q ≡ p → P (kept_front q (without a n l) r))
    → (q ≢ p → P ((q, l) ∷ unplace p a n r))
    → P (unplace p a n ((q, l) ∷ r))
unfolding unplace
unplace_cases P p a n q l r here on = elim (Bool-cases (q == p)) [
  | inl e ↦ rw e (here (==→eq q p e))
  | inr e ↦ rw e (on (==→ne q p e))
]

-- A level that is put back, or is not because it is empty.
pub kept_front_cases {ℓ} :
    (P : Levels → Type ℓ) (p : ℕ) (l : PriceLevel) (r : Levels)
    → (l.orders ≡ [] → P r)
    → (l.orders ≢ [] → P ((p, l) ∷ r))
    → P (kept_front p l r)
kept_front_cases P p l r gone stays = by_orders l.orders refl
  where
    by_orders : (os : List ℕ) → l.orders ≡ os → P (kept_front p l r)
    by_orders [] e = let k : kept_front p l r ≡ r = ground arith in rw k (gone e)
    by_orders (a ∷ os) e =
        let k : kept_front p l r ≡ (p, l) ∷ r = ground arith in rw k (stays (λ c. ground arith))

Keys-unplace :
    (test : ℕ → Bool) (p a n : ℕ) (ls : Levels)
    → Keys test true ls
    → Keys test true (unplace p a n ls)
unfolding unplace
Keys-unplace test p a n [] k = tt
Keys-unplace test p a n ((q, l) ∷ r) k = ground (arith, Keys-unplace test p a n r k.1)

pub unplace-IsOrdered :
    (s : Side) (p a n : ℕ) (ls : Levels) → IsOrdered s ls → IsOrdered s (unplace p a n ls)
unfolding unplace
unplace-IsOrdered s p a n [] o = tt
unplace-IsOrdered s p a n ((q, l) ∷ r) o =
    unplace_cases (IsOrdered s) p a n q l r
      (λ here.
        kept_front_cases (IsOrdered s) q (without a n l) r (λ gone. o.3)
          (λ stays. (o.0, o.1, stays, o.3)))
      (λ on. (Keys-unplace (before s q) p a n r o.0, o.1, o.2, unplace-IsOrdered s p a n r o.3))
