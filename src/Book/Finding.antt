-- ===== src/Book/Finding.antt =====
-- `orderMap.find` and `orderDetails.find` against the resting orders of the two sides.
use exchnage_simulator.Prelude.{
  ℕ, ◌≡◌, ◌≢◌, refl, sym, ◌∙◌, inl, inr, Bool, none, some, List, [], ◌∷◌, ◌++◌, ◌==◌, All, Avoids,
  Has, Has-tail, arith, Bool-cases, ==→eq, ==→ne,
}
use exchnage_simulator.Core.{BookElement}
use exchnage_simulator.Core.PriceLevel.{PriceLevel}
use exchnage_simulator.Levels.{Levels, find_level}
use exchnage_simulator.Book.State.{Store}
use exchnage_simulator.Book.Linked.{Linked, Avoids-of_place, LinkedLevels, AvoidsLevels}
use exchnage_simulator.Book.Spec.{Resting, find_order}
use exchnage_simulator.Book.View.{resting, view_orders, view_levels}
use exchnage_simulator.Book.Located.{Located}

find-append :
    (id : ℕ) (xs ys : List Resting)
    → find_order id xs ≡ none
    → find_order id (xs ++ ys) ≡ find_order id ys
unfolding find_order
find-append id [] ys h = refl
find-append id (x ∷ xs) ys h = ground (arith, find-append id xs ys)

module _ (st : Store) (id : ℕ) where
  find-unknown_orders :
      (v : Bool) (q : ℕ) (os : List ℕ)
      → st.order_map id ≡ none
      → All (Linked st v q) os
      → find_order id (view_orders st.heap q os) ≡ none
  unfolding find_order view_orders
  find-unknown_orders v q [] m h = refl
  find-unknown_orders v q (b ∷ os) m h =
      let ne : h.0.elem.id ≢ id = λ e. ground (arith, h.0.mapped) in
      ground (arith, h.0.live, find-unknown_orders v q os m h.1)

  -- An id that `orderMap` does not know rests nowhere.
  pub find-unknown :
      (v : Bool) (ls : Levels)
      → st.order_map id ≡ none
      → LinkedLevels st v ls
      → find_order id (view_levels st.heap ls) ≡ none
  unfolding find_order view_levels
  find-unknown v [] m h = refl
  find-unknown v ((q, l) ∷ r) m h =
      find-append id (view_orders st.heap q l.orders) _ (find-unknown_orders v q l.orders m h.0)
      ∙ find-unknown v r m h.1

  find-elsewhere_orders :
      (v : Bool) (a q : ℕ) (os : List ℕ)
      → st.order_map id ≡ some a
      → Avoids a os
      → All (Linked st v q) os
      → find_order id (view_orders st.heap q os) ≡ none
  unfolding find_order view_orders
  find-elsewhere_orders v a q [] m c h = refl
  find-elsewhere_orders v a q (b ∷ os) m c h =
      let ne : h.0.elem.id ≢ id = λ e. ground (arith, h.0.mapped, c.0) in
      ground (arith, h.0.live, find-elsewhere_orders v a q os m c.1 h.1)

  -- Nor does an id rest on a side that does not list its address.
  pub find-elsewhere :
      (v : Bool) (a : ℕ) (ls : Levels)
      → st.order_map id ≡ some a
      → AvoidsLevels a ls
      → LinkedLevels st v ls
      → find_order id (view_levels st.heap ls) ≡ none
  unfolding find_order view_levels
  find-elsewhere v a [] m c h = refl
  find-elsewhere v a ((q, l) ∷ r) m c h =
      find-append id (view_orders st.heap q l.orders) _
        (find-elsewhere_orders v a q l.orders m c.0 h.0)
      ∙ find-elsewhere v a r m c.1 h.1

  find-here_orders :
      (v : Bool) (a q : ℕ) (e : BookElement) (os : List ℕ) (tail : List Resting)
      → st.order_map id ≡ some a
      → st.heap a ≡ some e
      → e.id ≡ id
      → Has a os
      → All (Linked st v q) os
      → find_order id (view_orders st.heap q os ++ tail) ≡ some (resting e q)
  unfolding find_order view_orders
  find-here_orders v a q e [] tail m live same k h = absurd k
  find-here_orders v a q e (b ∷ os) tail m live same k h = elim (Bool-cases (b == a)) [
    | inl hit ↦ let own : st.heap b ≡ some e = rw (==→eq b a hit) live in ground arith
    | inr miss ↦
        let ne : h.0.elem.id ≢ id = λ c. ground (arith, h.0.mapped) in
        ground (
          arith,
          h.0.live,
          find-here_orders v a q e os tail m live same (Has-tail a b os (==→ne b a miss) k) h.1,
        )
  ]

  find-here :
      (v : Bool) (a p : ℕ) (l : PriceLevel) (ls : Levels) (x : Linked st v p a)
      → x.elem.id ≡ id
      → find_level p ls ≡ some l
      → Has a l.orders
      → LinkedLevels st v ls
      → find_order id (view_levels st.heap ls) ≡ some (resting x.elem p)
  unfolding find_order view_levels find_level
  find-here v a p l [] x same f k h = cc
  find-here v a p l ((q, m) ∷ r) x same f k h = elim (Bool-cases (q == p)) [
    | inl hit ↦
        let at : q ≡ p = ==→eq q p hit in
        let found : m ≡ l = ground arith in
        rw (← at) (
          find-here_orders v a q x.elem m.orders (view_levels st.heap r) (rw same at x.mapped)
            x.live same (rw found k) h.0)
    | inr miss ↦
        let on : q ≢ p = ==→ne q p miss in
        let found : find_level p r ≡ some l = rw miss at f in
        find-append id (view_orders st.heap q m.orders) _ (
          find-elsewhere_orders v a q m.orders (rw same at x.mapped)
            (Avoids-of_place (λ _ c. on (sym c)) x m.orders h.0) h.0)
        ∙ find-here v a p l r x same found k h.1
  ]

  pub find-Located :
      (v : Bool) (a : ℕ) (ls : Levels) (at : Located st v a ls)
      → at.linked.elem.id ≡ id
      → LinkedLevels st v ls
      → find_order id (view_levels st.heap ls) ≡ some (resting at.linked.elem at.price)
  find-Located v a ls at same h =
      find-here v a at.price at.level ls at.linked same at.found at.has h
