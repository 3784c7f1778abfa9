-- ===== src/Book/Resizing.antt =====
-- A modification in place: the quantity of one element and of its details changes.
use exchnage_simulator.Prelude.{
  ℕ, ◌<◌, ◌^◌, ◌≡◌, ◌≢◌, refl, sym, ap, ap₂, ◌∙◌, inl, inr, Bool, some, List, [], ◌∷◌, ◌++◌, ◌==◌,
  if◌then◌else◌, insert, insert_self, insert_ne, All, All-map, Avoids, Has, Has-tail, Distinct,
  arith, Bool-cases, ==→eq, ==→ne, ==-refl,
}
use exchnage_simulator.Core.{Side, BookElement}
use exchnage_simulator.Core.PriceLevel.{PriceLevel, Heap}
use exchnage_simulator.Levels.{Levels, find_level}
use exchnage_simulator.Levels.Order.{IsOrdered, Keys-others}
use exchnage_simulator.Book.State.{OrderDetails, Store}
use exchnage_simulator.Book.Linked.{Linked, LinkedLevels, Backed, Avoids-of_place}
use exchnage_simulator.Book.Spec.{Resting, resize}
use exchnage_simulator.Book.View.{
  view_orders, view_levels, view_orders-frame, view_levels-frame, AvoidsLevels-of_price,
}
use exchnage_simulator.Book.Sound.{DistinctLevels}

abbrev pub resized : BookElement → ℕ → BookElement
resized e n = record e { quantity = n }

abbrev pub resized_store : ℕ → ℕ → BookElement → OrderDetails → ℕ → Store → Store
resized_store id a e d n st = record st {
  heap = insert a (resized e n) st.heap;
  order_details = insert id (record d { quantity = n }) st.order_details;
}

module _ {st : Store} {s : Bool} {p a : ℕ} (x : Linked st s p a) (d : OrderDetails) (n : ℕ)
    (known : st.order_details x.elem.id ≡ some d) (small : n < 2 ^ 32) where
  abbrev st' : Store
  st' = resized_store x.elem.id a x.elem d n st

  resized-Linked : (v : Bool) (q b : ℕ) → Linked st v q b → Linked st' v q b
  unfolding insert
  resized-Linked v q b y = elim (Bool-cases (a == b)) [
    | inl this ↦
        let same : st.heap a ≡ some y.elem = ground (arith, y.live) in
        let same_elem : x.elem ≡ y.elem = ground (arith, x.live) in
        record {
          elem = resized x.elem n;
          details = record d { quantity = n };
          live = ground arith;
          small = small;
          mapped = ground (arith, x.mapped);
          detailed = ground (arith, ==-refl x.elem.id);
          sided = ground (arith, y.detailed, y.sided);
          priced = ground (arith, y.detailed, y.priced);
          sized = omega arith;
        }
    | inr that ↦
        let ne : x.elem.id ≢ y.elem.id = λ e. ground (arith, x.mapped, y.mapped) in
        record {
          elem = y.elem;
          details = y.details;
          live = ground (arith, y.live);
          small = y.small;
          mapped = y.mapped;
          detailed = ground (arith, y.detailed);
          sided = y.sided;
          priced = y.priced;
          sized = y.sized;
        }
  ]

  pub resized-LinkedLevels : (v : Bool) (ls : Levels) → LinkedLevels st v ls → LinkedLevels st' v ls
  resized-LinkedLevels v [] h = tt
  resized-LinkedLevels v ((q, l) ∷ r) h = (
    All-map (Linked st v q) (Linked st' v q) (resized-Linked v q) l.orders h.0,
    resized-LinkedLevels v r h.1,
  )

  pub resized-Backed : (L : ℕ → Type 0) → Backed st L → Backed st' L
  unfolding insert
  resized-Backed L back id b m =
      let (e, live, same, at) = back id b m in
      (
        if a == b then resized x.elem n else e,
        ground (arith, live),
        ground (arith, live, x.live),
        at,
      )

-- On the resting orders it is `resize`.
module _ (st : Store) (v : Bool) (a n : ℕ) (e : BookElement) (live : st.heap a ≡ some e)
    (mapped : st.order_map e.id ≡ some a) where
  abbrev k : Heap
  k = insert a (resized e n) st.heap

  same_else : (b : ℕ) → b ≢ a → k b ≡ st.heap b
  same_else b ne = insert_ne a b _ st.heap (λ c. ne (sym c))

  resize-pass :
      (q : ℕ) (os : List ℕ) (tail : List Resting)
      → Avoids a os
      → All (Linked st v q) os
      → resize e.id n (view_orders st.heap q os ++ tail)
        ≡ view_orders st.heap q os ++ resize e.id n tail
  unfolding resize view_orders
  resize-pass q [] tail c h = refl
  resize-pass q (b ∷ os) tail c h =
      let ne : h.0.elem.id ≢ e.id = λ j. ground (arith, h.0.mapped, c.0) in
      ground (arith, h.0.live, resize-pass q os tail c.1 h.1)

  resize-hit :
      (q : ℕ) (os : List ℕ) (tail : List Resting)
      → Has a os
      → Distinct os
      → All (Linked st v q) os
      → resize e.id n (view_orders st.heap q os ++ tail) ≡ view_orders k q os ++ tail
  unfolding resize view_orders
  resize-hit q [] tail at d h = absurd at
  resize-hit q (b ∷ os) tail at d h = elim (Bool-cases (b == a)) [
    | inl hit ↦
        let same : b ≡ a = ==→eq b a hit in
        let old : st.heap b ≡ some e = rw same live in
        let new : k b ≡ some (resized e n) = rw same (insert_self a (resized e n) st.heap) in
        ground (arith, old, new, view_orders-frame st.heap k a q os same_else (rw same at d.0))
    | inr miss ↦
        let ne : h.0.elem.id ≢ e.id = λ j. ground (arith, h.0.mapped) in
        ground (
          arith,
          h.0.live,
          same_else b (==→ne b a miss),
          resize-hit q os tail (Has-tail a b os (==→ne b a miss) at) d.1 h.1,
        )
  ]

  pub view-resized :
      (s : Side) (p : ℕ) (l : PriceLevel) (ls : Levels)
      → Linked st v p a
      → IsOrdered s ls
      → DistinctLevels ls
      → LinkedLevels st v ls
      → find_level p ls ≡ some l
      → Has a l.orders
      → view_levels k ls ≡ resize e.id n (view_levels st.heap ls)
  unfolding view_levels find_level
  view-resized s p l [] x o d h f at = cc
  view-resized s p l ((q, m) ∷ r) x o d h f at = elim (Bool-cases (q == p)) [
    | inl hit ↦
        let same : q ≡ p = ==→eq q p hit in
        let found : m ≡ l = ground arith in
        ap (◌++◌ (view_orders k q m.orders)) (
          view_levels-frame st.heap k a r same_else
            (AvoidsLevels-of_price v r (Keys-others s p r (rw same at o.0)) x h.1))
        ∙ sym (resize-hit q m.orders (view_levels st.heap r) (rw found at) d.0 h.0)
    | inr miss ↦
        let on : q ≢ p = ==→ne q p miss in
        let found : find_level p r ≡ some l = rw miss at f in
        let clear : Avoids a m.orders = Avoids-of_place (λ _ c. on (sym c)) x m.orders h.0 in
        ap₂ ◌++◌ (view_orders-frame st.heap k a q m.orders same_else clear)
          (view-resized s p l r x o.3 d.1 h.1 found at)
        ∙ sym (resize-pass q m.orders (view_levels st.heap r) clear h.0)
  ]
