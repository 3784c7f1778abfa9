-- ===== src/Book/Adding.antt =====
-- Step 3 of `addOrder`, and the second half of a modification: an entry joins a side.
use exchnage_simulator.Prelude.{
  ℕ, ◌^◌, ◌≤◌, ◌<◌, ◌≡◌, refl, sym, ap, ◌∙◌, ◌⊎◌, inl, inr, none, some, insert_ne, insert_self, Has,
  done, arith, not,
}
use exchnage_simulator.Core.{Side, is_buy, BookElement}
use exchnage_simulator.Levels.{Levels, insert_into_level}
use exchnage_simulator.Levels.Place.{place, appended, insert_into_level-place}
use exchnage_simulator.Levels.PlaceOrder.{place-IsOrdered}
use exchnage_simulator.Book.State.{OrderDetails, Store}
use exchnage_simulator.Book.Linked.{LinkedLevels, AvoidsLevels, addresses}
use exchnage_simulator.Book.Spec.{enqueue}
use exchnage_simulator.Book.View.{resting, view_levels, view_levels-frame}
use exchnage_simulator.Book.Sound.{Sound}
use exchnage_simulator.Book.Entry.{
  add_entry, entry-LinkedLevels, entry-new, entry-Backed, AvoidsLevels-of_free, place-LinkedLevels,
  place-DistinctLevels, place-Has, place-Has_self,
}
use exchnage_simulator.Book.Enqueue.{view-place}

module _ (s : Side) (own opp : Levels) (st : Store) (h : Sound s opp st own) (id a : ℕ)
    (e : BookElement) (d : OrderDetails) (n : ℕ) (free : st.heap a ≡ none)
    (new : st.order_map id ≡ none) (named : e.id ≡ id) (small : e.quantity < 2 ^ 32)
    (sided : is_buy d.side ≡ is_buy s) (sized : e.quantity ≤ d.quantity) (below : a < n)
    (grows : st.next_addr ≤ n) where
  abbrev st' : Store
  st' = add_entry id a e d n st

  abbrev own' : Levels
  own' = place s d.price (appended a e.quantity) own

  -- What the entry does to the side, the other side, the store and the views.
  pub record Joined : Type 0 where
    pub runs : insert_into_level s st'.heap a d.price own ≡ done own'
    pub sound : Sound s opp st' own'
    pub own_view :
        view_levels st'.heap own' ≡ enqueue s (resting e d.price) (view_levels st.heap own)
    pub opp_view : view_levels st'.heap opp ≡ view_levels st.heap opp

  live : st'.heap a ≡ some e
  live = insert_self a e st.heap

  still : (ls : Levels) → AvoidsLevels a ls → view_levels st'.heap ls ≡ view_levels st.heap ls
  still ls v =
      view_levels-frame st.heap st'.heap a ls (λ b ne. insert_ne a b e st.heap (λ k. ne (sym k))) v

  still_free : (b : ℕ) → n ≤ b → st'.heap b ≡ none
  still_free b le = insert_ne a b e st.heap (λ k. ground arith) ∙ h.fresh b (omega arith)

  own_avoids : AvoidsLevels a own
  own_avoids = AvoidsLevels-of_free st a free (is_buy s) own h.linked

  own_linked : LinkedLevels st' (is_buy s) own
  own_linked = entry-LinkedLevels st id a e d n free new (is_buy s) own h.linked

  pub joins : Joined
  joins = record {
    runs = insert_into_level-place s st'.heap a d.price e own h.ordered live;
    sound = record {
      ordered = place-IsOrdered s d.price a e.quantity own h.ordered;
      distinct = place-DistinctLevels s d.price a e.quantity own own_avoids h.distinct;
      linked =
          place-LinkedLevels s d.price a e.quantity own
            (entry-new st id a e d n free new (is_buy s) d.price named small sided refl sized)
            own_linked;
      opposite = entry-LinkedLevels st id a e d n free new (not (is_buy s)) opp h.opposite;
      backed =
          entry-Backed st id a e d n free new (λ b. Has b (addresses own) ⊎ Has b (addresses opp))
            (λ b. Has b (addresses own') ⊎ Has b (addresses opp)) named (λ b k. keep b k)
            (inl (place-Has_self s d.price a e.quantity own)) h.backed;
      fresh = still_free;
    };
    own_view =
        view-place s d.price a e.quantity st' e live own h.ordered own_linked
        ∙ ap (enqueue s (resting e d.price)) (still own own_avoids);
    opp_view = still opp (AvoidsLevels-of_free st a free (not (is_buy s)) opp h.opposite);
  }
    where
      keep :
          (b : ℕ)
          → Has b (addresses own) ⊎ Has b (addresses opp)
          → Has b (addresses own') ⊎ Has b (addresses opp)
      keep b (inl k) = inl (place-Has s d.price a e.quantity own b k)
      keep b (inr k) = inr k
