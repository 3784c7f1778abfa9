-- ===== src/Book/Sound.antt =====
-- The state between two rounds of the outer loop of `matchAgainst`, and how it splits into the front
-- level and the rest.
use exchnage_simulator.Prelude.{
  ℕ, ◌≤◌, ◌≡◌, refl, ◌⊎◌, inl, inr, true, none, List, [], ◌∷◌, ◌++◌, Has, Has-append,
  Has-append_left, Has-append_right, Distinct, arith, not,
}
use exchnage_simulator.Core.{Side, is_buy}
use exchnage_simulator.Core.PriceLevel.{PriceLevel, Heap}
use exchnage_simulator.Levels.{Levels, before}
use exchnage_simulator.Levels.Order.{IsOrdered, Keys}
use exchnage_simulator.Book.State.{Store}
use exchnage_simulator.Book.Matching.{put_front}
use exchnage_simulator.Book.Linked.{LinkedLevels, addresses, Backed}
use exchnage_simulator.Book.View.{view_orders, view_levels}
use exchnage_simulator.Book.Held.{Held, Listed}

abbrev pub DistinctLevels : Levels → Type 0
DistinctLevels [] = Unit
DistinctLevels ((p, l) ∷ r) = Distinct l.orders × DistinctLevels r

-- The side `side` has the levels `own`, the other side has `opp`.
pub record Sound (side : Side) (opp : Levels) (st : Store) (own : Levels) : Type 0 where
  pub ordered : IsOrdered side own
  pub distinct : DistinctLevels own
  pub linked : LinkedLevels st (is_buy side) own
  pub opposite : LinkedLevels st (not (is_buy side)) opp
  pub backed : Backed st (λ b. Has b (addresses own) ⊎ Has b (addresses opp))
  pub fresh : (b : ℕ) → st.next_addr ≤ b → st.heap b ≡ none

pub Backed-map : (st : Store) (L M : ℕ → Type 0) → ((b : ℕ) → L b → M b) → Backed st L → Backed st M
Backed-map st L M f h id b e = let (x, live, same, at) = h id b e in (x, live, same, f b at)

module _ (side : Side) (opp : Levels) (st : Store) (p : ℕ) (l : PriceLevel) (rest : Levels) where
  pub Sound-Held : Sound side opp st ((p, l) ∷ rest) → Held (is_buy side) p rest opp st l.orders
  Sound-Held h = record {
    here = h.linked.0;
    distinct = h.distinct.0;
    behind = h.linked.1;
    opposite = h.opposite;
    backed = Backed-map st _ (Listed l.orders rest opp) (λ b k. split b k) h.backed;
    fresh = h.fresh;
  }
    where
      split :
          (b : ℕ)
          → Has b (l.orders ++ addresses rest) ⊎ Has b (addresses opp)
          → Listed l.orders rest opp b
      split b (inl k) = elim (Has-append b l.orders (addresses rest) k) [
        | inl x ↦ inl x
        | inr x ↦ inr (inl x)
      ]
      split b (inr k) = inr (inr k)

  join :
      (b : ℕ)
      → Listed l.orders rest opp b
      → Has b (l.orders ++ addresses rest) ⊎ Has b (addresses opp)
  join b (inl x) = inl (Has-append_left b l.orders (addresses rest) x)
  join b (inr (inl x)) = inl (Has-append_right b l.orders (addresses rest) x)
  join b (inr (inr x)) = inr x

  put_front_empty : l.orders ≡ [] → put_front p l rest ≡ rest
  put_front_empty e = ground arith

  put_front_full : (a : ℕ) (os : List ℕ) → l.orders ≡ a ∷ os → put_front p l rest ≡ (p, l) ∷ rest
  put_front_full a os e = ground arith

  -- The front level goes back into the map, or out of it.
  module _ (keys : Keys (before side p) true rest) (price : l.price ≡ p)
      (ordered : IsOrdered side rest) (distinct : DistinctLevels rest)
      (h : Held (is_buy side) p rest opp st l.orders) where
    by_orders : (os : List ℕ) → l.orders ≡ os → Sound side opp st (put_front p l rest)
    by_orders [] e = rw (put_front_empty e) (record {
      ordered = ordered;
      distinct = distinct;
      linked = h.behind;
      opposite = h.opposite;
      backed = Backed-map st (Listed l.orders rest opp) _ (λ b k. drop_front b k) h.backed;
      fresh = h.fresh;
    })
      where
        drop_front :
            (b : ℕ) → Listed l.orders rest opp b → Has b (addresses rest) ⊎ Has b (addresses opp)
        drop_front b (inl x) = absurd (rw e at x)
        drop_front b (inr x) = x
    by_orders (a ∷ os) e = rw (put_front_full a os e) (record {
      ordered = (keys, price, λ c. ground arith, ordered);
      distinct = (h.distinct, distinct);
      linked = (h.here, h.behind);
      opposite = h.opposite;
      backed = Backed-map st (Listed l.orders rest opp) _ join h.backed;
      fresh = h.fresh;
    })

    pub Held-Sound : Sound side opp st (put_front p l rest)
    Held-Sound = by_orders l.orders refl

  -- How the rest of the book reads with the front level put back.
  pub view-put_front :
      (h : Heap)
      → view_levels h (put_front p l rest) ≡ view_orders h p l.orders ++ view_levels h rest
  unfolding view_levels view_orders
  view-put_front h = by_case l.orders refl
    where
      by_case :
          (os : List ℕ)
          → l.orders ≡ os
          → view_levels h (put_front p l rest) ≡ view_orders h p l.orders ++ view_levels h rest
      by_case [] e = rw (put_front_empty e, e)
      by_case (a ∷ os) e = rw (put_front_full a os e)
