-- ===== src/Book/Leaving.antt =====
-- An entry leaves its side: the first half of `cancelOrder` and of a modification that moves an order.
use exchnage_simulator.Prelude.{
  ℕ, ◌≡◌, ◌≢◌, refl, sym, ap, ◌∙◌, ◌⊎◌, inl, inr, Bool, some, List, [], ◌∷◌, ◌++◌, ◌==◌, erase_ne,
  erase-eq-none, All, Avoids, Has, Has-tail, done, arith, not, Bool-cases, ==→eq, ==→ne, ne→==,
}
use exchnage_simulator.Core.{Side, is_buy, BookElement}
use exchnage_simulator.Core.PriceLevel.{PriceLevel, Heap, unlist}
use exchnage_simulator.Levels.{Levels, find_level, remove_from_level}
use exchnage_simulator.Levels.Order.{IsOrdered, Keys-others}
use exchnage_simulator.Levels.Remove.{
  without, kept_front, unplace, unplace_cases, kept_front_cases, remove_from_level-unplace,
  unplace-IsOrdered,
}
use exchnage_simulator.Book.State.{Store, drop_order}
use exchnage_simulator.Book.Linked.{
  Linked, LinkedLevels, AvoidsLevels, addresses, Avoids-of_place, drop-LinkedLevels, drop-Backed,
}
use exchnage_simulator.Book.Spec.{Resting, withdraw}
use exchnage_simulator.Book.View.{
  view_orders, view_levels, view_levels-frame, AvoidsLevels-of_side, AvoidsLevels-of_price,
}
use exchnage_simulator.Book.Sound.{Sound, DistinctLevels}
use exchnage_simulator.Book.Located.{Located}
use exchnage_simulator.Book.Unlisting.{
  unlist-Avoids, unplace-DistinctLevels, unplace-LinkedLevels, unplace-Has,
}

unplace-Avoids :
    (s : Side) (st : Store) (v : Bool) (p a n : ℕ) (x : Linked st v p a) (ls : Levels)
    → IsOrdered s ls
    → DistinctLevels ls
    → LinkedLevels st v ls
    → AvoidsLevels a (unplace p a n ls)
unfolding unplace
unplace-Avoids s st v p a n x [] o d h = tt
unplace-Avoids s st v p a n x ((q, l) ∷ r) o d h =
    unplace_cases (AvoidsLevels a) p a n q l r
      (λ here.
        let behind : AvoidsLevels a r =
          AvoidsLevels-of_price v r (Keys-others s p r (rw here at o.0)) x h.1 in
        kept_front_cases (AvoidsLevels a) q (without a n l) r (λ gone. behind)
          (λ stays. (unlist-Avoids a l.orders d.0, behind)))
      (λ on. (
        Avoids-of_place (λ _ e. on (sym e)) x l.orders h.0,
        unplace-Avoids s st v p a n x r o.3 d.1 h.1,
      ))

view_kept_front :
    (h : Heap) (p : ℕ) (l : PriceLevel) (r : Levels)
    → view_levels h (kept_front p l r) ≡ view_orders h p l.orders ++ view_levels h r
unfolding view_levels view_orders
view_kept_front h p l r =
    kept_front_cases (λ ls. view_levels h ls ≡ view_orders h p l.orders ++ view_levels h r) p l r
      (λ gone. rw gone) (λ stays. refl)

-- The order id is met at its own address only.
module _ (st : Store) (v : Bool) (a : ℕ) (e : BookElement) (live : st.heap a ≡ some e)
    (mapped : st.order_map e.id ≡ some a) where
  other_id : (q b : ℕ) (y : Linked st v q b) → b ≢ a → y.elem.id ≢ e.id
  other_id q b y ne k = ground (arith, y.mapped)

  withdraw-pass :
      (q : ℕ) (os : List ℕ) (tail : List Resting)
      → Avoids a os
      → All (Linked st v q) os
      → withdraw e.id (view_orders st.heap q os ++ tail)
        ≡ view_orders st.heap q os ++ withdraw e.id tail
  unfolding withdraw view_orders
  withdraw-pass q [] tail c h = refl
  withdraw-pass q (b ∷ os) tail c h =
      ground (arith, h.0.live, other_id q b h.0 c.0, withdraw-pass q os tail c.1 h.1)

  withdraw-hit :
      (q : ℕ) (os : List ℕ) (tail : List Resting)
      → Has a os
      → All (Linked st v q) os
      → withdraw e.id (view_orders st.heap q os ++ tail)
        ≡ view_orders st.heap q (unlist a os) ++ tail
  unfolding withdraw view_orders unlist
  withdraw-hit q [] tail k h = absurd k
  withdraw-hit q (b ∷ os) tail k h = elim (Bool-cases (b == a)) [
    | inl hit ↦
        let same : b ≡ a = ==→eq b a hit in
        let own : st.heap b ≡ some e = rw same live in ground arith
    | inr miss ↦
        let ne : b ≢ a = ==→ne b a miss in
        ground
          (arith, h.0.live, other_id q b h.0 ne, withdraw-hit q os tail (Has-tail a b os ne k) h.1)
  ]

  view-unplace :
      (s : Side) (p : ℕ) (l : PriceLevel) (ls : Levels)
      → Linked st v p a
      → IsOrdered s ls
      → LinkedLevels st v ls
      → find_level p ls ≡ some l
      → Has a l.orders
      → view_levels st.heap (unplace p a e.quantity ls) ≡ withdraw e.id (view_levels st.heap ls)
  unfolding view_levels unplace find_level
  view-unplace s p l [] x o h f k = cc
  view-unplace s p l ((q, m) ∷ r) x o h f k =
      unplace_cases
        (λ ls. view_levels st.heap ls ≡ withdraw e.id (view_levels st.heap ((q, m) ∷ r))) p a
        e.quantity q m r
        (λ here.
          let same : m ≡ l = ground (arith, here) in
          let has : Has a m.orders = rw same k in
          view_kept_front st.heap q (without a e.quantity m) r
          ∙ sym (withdraw-hit q m.orders (view_levels st.heap r) has h.0))
        (λ on.
          let found : find_level p r ≡ some l = rw (ne→== q p on) at f in
          ap (◌++◌ (view_orders st.heap q m.orders)) (view-unplace s p l r x o.3 h.1 found k)
          ∙ sym (
              withdraw-pass q m.orders (view_levels st.heap r)
                (Avoids-of_place (λ _ c. on (sym c)) x m.orders h.0) h.0))

module _ (s : Side) (own opp : Levels) (st : Store) (h : Sound s opp st own) (a : ℕ)
    (at : Located st (is_buy s) a own) where
  abbrev pub gone : BookElement
  gone = at.linked.elem

  abbrev pub left_store : Store
  left_store = drop_order gone.id a st

  abbrev pub left_levels : Levels
  left_levels = unplace at.price a gone.quantity own

  -- What the removal does to the side, the other side, the store and the views.
  pub record Left : Type 0 where
    pub runs : remove_from_level st.heap a at.price own ≡ done left_levels
    pub sound : Sound s opp left_store left_levels
    pub own_view :
        view_levels left_store.heap left_levels ≡ withdraw gone.id (view_levels st.heap own)
    pub opp_view : view_levels left_store.heap opp ≡ view_levels st.heap opp

  opp_avoids : AvoidsLevels a opp
  opp_avoids = AvoidsLevels-of_side opp (λ e. ground arith) at.linked h.opposite

  own_avoids : AvoidsLevels a left_levels
  own_avoids =
      unplace-Avoids s st (is_buy s) at.price a gone.quantity at.linked own h.ordered h.distinct
        h.linked

  still :
      (ls : Levels) → AvoidsLevels a ls → view_levels left_store.heap ls ≡ view_levels st.heap ls
  still ls v =
      view_levels-frame st.heap left_store.heap a ls
        (λ b ne. erase_ne a b st.heap (λ k. ne (sym k))) v

  pub leaves : Left
  leaves = record {
    runs =
        remove_from_level-unplace st.heap a at.price gone at.level own at.found at.has
          at.linked.live;
    sound = record {
      ordered = unplace-IsOrdered s at.price a gone.quantity own h.ordered;
      distinct = unplace-DistinctLevels at.price a gone.quantity own h.distinct;
      linked =
          drop-LinkedLevels at.linked (is_buy s) left_levels own_avoids
            (unplace-LinkedLevels at.price a gone.quantity st (is_buy s) own h.linked);
      opposite = drop-LinkedLevels at.linked (not (is_buy s)) opp opp_avoids h.opposite;
      backed =
          drop-Backed at.linked (λ b. Has b (addresses own) ⊎ Has b (addresses opp))
            (λ b. Has b (addresses left_levels) ⊎ Has b (addresses opp)) (λ b ne k. keep b ne k)
            h.backed;
      fresh = λ b le. erase-eq-none a b st.heap (h.fresh b le);
    };
    own_view =
        still left_levels own_avoids
        ∙ view-unplace st (is_buy s) a gone at.linked.live at.linked.mapped s at.price at.level own
            at.linked h.ordered h.linked at.found at.has;
    opp_view = still opp opp_avoids;
  }
    where
      keep :
          (b : ℕ)
          → b ≢ a
          → Has b (addresses own) ⊎ Has b (addresses opp)
          → Has b (addresses left_levels) ⊎ Has b (addresses opp)
      keep b ne (inl k) = inl (unplace-Has at.price a gone.quantity own b ne k)
      keep b ne (inr k) = inr k
