-- ===== src/Book/Enqueue.antt =====
-- `insertIntoLevel` is `enqueue` on the resting orders of the side.
use exchnage_simulator.Prelude.{
  ℕ, ◌≡◌, ◌≢◌, refl, sym, Bool, true, false, some, List, [], ◌∷◌, ◌++◌, All, arith, append_assoc,
}
use exchnage_simulator.Core.{Side, is_buy, BookElement}
use exchnage_simulator.Core.PriceLevel.{Heap, empty_level}
use exchnage_simulator.Levels.{Levels, before}
use exchnage_simulator.Levels.Order.{IsOrdered, Keys, before_asymm, before-false-of_eq}
use exchnage_simulator.Levels.Place.{place, place_cases, appended}
use exchnage_simulator.Book.State.{Store}
use exchnage_simulator.Book.Linked.{Linked, LinkedLevels}
use exchnage_simulator.Book.Spec.{Resting, enqueue}
use exchnage_simulator.Book.View.{resting, view_orders, view_levels}

-- Orders at a price that is not worse are passed.
enqueue-pass :
    (s : Side) (x : Resting) (h : Heap) (q : ℕ) (os : List ℕ) (tail : List Resting)
    → before s x.price q ≡ false
    → enqueue s x (view_orders h q os ++ tail) ≡ view_orders h q os ++ enqueue s x tail
unfolding enqueue view_orders
enqueue-pass s x h q [] tail e = refl
enqueue-pass s x h q (a ∷ os) tail e = ground (arith, enqueue-pass s x h q os tail e)

-- Orders at a worse price are not.
enqueue-stop :
    (s : Side) (x : Resting) (st : Store) (v : Bool) (q : ℕ) (os : List ℕ) (tail : List Resting)
    → os ≢ []
    → All (Linked st v q) os
    → before s x.price q ≡ true
    → enqueue s x (view_orders st.heap q os ++ tail) ≡ x ∷ (view_orders st.heap q os ++ tail)
unfolding enqueue view_orders
enqueue-stop s x st v q [] tail ne h e = absurd (ne refl)
enqueue-stop s x st v q (a ∷ os) tail ne h e = ground (arith, h.0.live)

enqueue-front :
    (s : Side) (x : Resting) (st : Store) (v : Bool) (ls : Levels)
    → IsOrdered s ls
    → LinkedLevels st v ls
    → Keys (before s x.price) true ls
    → enqueue s x (view_levels st.heap ls) ≡ x ∷ view_levels st.heap ls
unfolding enqueue view_levels
enqueue-front s x st v [] o h k = refl
enqueue-front s x st v ((q, l) ∷ r) o h k =
    enqueue-stop s x st v q l.orders (view_levels st.heap r) o.2 h.0 k.0

view_orders-append :
    (h : Heap) (p : ℕ) (xs ys : List ℕ)
    → view_orders h p (xs ++ ys) ≡ view_orders h p xs ++ view_orders h p ys
unfolding view_orders
view_orders-append h p [] ys = refl
view_orders-append h p (a ∷ xs) ys = ground (arith, view_orders-append h p xs ys)

view-alone :
    (h : Heap) (p a : ℕ) (e : BookElement)
    → h a ≡ some e
    → view_orders h p (a ∷ []) ≡ resting e p ∷ []
unfolding view_orders
view-alone h p a e live = ground arith

module _ (s : Side) (p a n : ℕ) (st : Store) (e : BookElement) (live : st.heap a ≡ some e) where
  abbrev Placed : List Resting → Levels → Type 0
  Placed old ls = view_levels st.heap ls ≡ enqueue s (resting e p) old

  pub view-place :
      (ls : Levels)
      → IsOrdered s ls
      → LinkedLevels st (is_buy s) ls
      → Placed (view_levels st.heap ls) (place s p (appended a n) ls)
  unfolding view_levels place empty_level enqueue
  view-place [] o h = ground (arith, view-alone st.heap p a e live)
  view-place ((q, l) ∷ r) o h =
      place_cases (Placed (view_levels st.heap ((q, l) ∷ r))) s p (appended a n) q l r
        (λ better. rw (view-alone st.heap p a e live) (
          sym (
            enqueue-stop s (resting e p) st (is_buy s) q l.orders (view_levels st.heap r) o.2 h.0
              better)))
        (λ worse. rw (
          enqueue-pass s (resting e p) st.heap q l.orders (view_levels st.heap r)
              (before_asymm s q p worse),
          view-place r o.3 h.1,
        ))
        (λ same.
          let keys : Keys (before s p) true r = rw same o.0 in
          rw
            (
              enqueue-pass s (resting e p) st.heap q l.orders (view_levels st.heap r)
                  (before-false-of_eq s p q same),
              enqueue-front s (resting e p) st (is_buy s) r o.3 h.1 keys,
              view_orders-append st.heap q l.orders (a ∷ []),
              view-alone st.heap q a e live,
              same,
            )
            (append_assoc (view_orders st.heap q l.orders) (resting e q ∷ [])
              (view_levels st.heap r)))
