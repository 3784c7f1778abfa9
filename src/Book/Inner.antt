-- ===== src/Book/Inner.antt =====
-- The inner loop of `matchAgainst`: each round is one step of the matching rule, and the loop ends.
use exchnage_simulator.Prelude.{
  ℕ, ◌-◌, ◌^◌, ◌≤◌, ◌<◌, ◌≡◌, refl, sym, ◌≢◌, inl, inr, Bool, true, List, [], ◌∷◌, ◌++◌, ◌==◌, leb,
  if◌then◌else◌, insert_ne, insert_self, erase, erase_ne, done, arith, length, Bool-cases, ==→eq,
  ==→ne, leb→le, leb→lt,
}
use exchnage_simulator.Core.{Side, is_buy, OrderRequest, BookElement}
use exchnage_simulator.Levels.{Levels}
use exchnage_simulator.Book.State.{Store, can_trade}
use exchnage_simulator.Book.Matching.{Round, match_order}
use exchnage_simulator.Book.Spec.{Event, traded, withdrawn, cross, prepend, report, Resting}
use exchnage_simulator.Book.View.{resting, view_orders, view_orders-frame, Others}
use exchnage_simulator.Book.Held.{
  Held, Same, pop-Held, pop-Same, requantify-Held, requantify-Same, requantify,
}
use exchnage_simulator.Book.Round.{
  withdraw_result, fill_result, partial_result, match_order-withdraw, match_order-partial,
  match_order-fill,
}

module _ (passive : Side) (incoming : OrderRequest) (symbol p : ℕ) (rest opp : Levels)
    (others : Others p rest) (tradeable : can_trade passive p incoming.price ≡ true) where
  abbrev s : Bool
  s = is_buy passive

  -- Rounds that turn `r` into `r'` do what the matching rule does, event by event.
  pub record Ran (r r' : Round) : Type 0 where
    pub events : List Event
    pub crossed :
        (tail : List Resting)
        → cross passive incoming r.remaining (view_orders r.store.heap p r.level.orders ++ tail)
          ≡ prepend events (
              cross passive incoming r'.remaining
                (view_orders r'.store.heap p r'.level.orders ++ tail))
    pub told : r'.sink ≡ report passive incoming symbol events r.sink
    pub price : r'.level.price ≡ r.level.price
    pub same : Same s p rest opp r.store r'.store

  view_front :
      {st : Store} {a : ℕ} {os : List ℕ} (h : Held s p rest opp st (a ∷ os))
      → view_orders st.heap p (a ∷ os) ≡ resting h.here.0.elem p ∷ view_orders st.heap p os
  unfolding view_orders
  view_front h = ground (arith, h.here.0.live)

  view_popped :
      {st : Store} {a : ℕ} {os : List ℕ} (h : Held s p rest opp st (a ∷ os))
      → view_orders (erase a st.heap) p os ≡ view_orders st.heap p os
  view_popped {st} {a} {os} h =
      view_orders-frame st.heap (erase a st.heap) a p os (λ b ne. erase_ne a b _ (λ e. ne (sym e)))
        h.distinct.0

  view_requantified :
      {st : Store} {a : ℕ} {os : List ℕ} (h : Held s p rest opp st (a ∷ os)) (q : ℕ)
      → view_orders (requantify a h.here.0.elem q st).heap p (a ∷ os)
        ≡ resting (record (h.here.0.elem) { quantity = q }) p ∷ view_orders st.heap p os
  unfolding view_orders
  view_requantified {st} {a} {os} h q = ground (
    arith,
    insert_self a (record (h.here.0.elem) { quantity = q }) st.heap,
    view_orders-frame st.heap (requantify a h.here.0.elem q st).heap a p os
        (λ b ne. insert_ne a b _ _ (λ e. ne (sym e))) h.distinct.0,
  )

  -- How much work is left to the loop.
  abbrev pub weight : Round → ℕ
  weight r = if r.remaining == 0 then 0 else length r.level.orders

  -- One round: it does not fault, and it is one step of the matching rule.
  pub record Advance (r r' : Round) : Type 0 where
    pub runs : match_order passive incoming symbol p r ≡ done r'
    pub held : Held s p rest opp r'.store r'.level.orders
    pub ran : Ran r r'
    pub lighter : weight r' < weight r
    pub bound : r'.remaining ≤ r.remaining

  module _ {a : ℕ} {os : List ℕ} (r : Round) (front : r.level.orders ≡ a ∷ os)
      (h : Held s p rest opp r.store (a ∷ os)) (open_qty : 0 < r.remaining)
      (small : r.remaining < 2 ^ 32) where
    abbrev e : BookElement
    e = h.here.0.elem

    Advance-withdraw :
        e.trader_id ≡ incoming.trader_id
        → Advance r (withdraw_result passive incoming symbol p a e os r)
    unfolding cross
    Advance-withdraw same = record {
      runs = match_order-withdraw passive incoming symbol p a os e r front h.here.0.live same;
      held = pop-Held s p rest opp others h;
      ran = record {
        events = withdrawn (resting e p) ∷ [];
        crossed = λ tail. rw front (ground (arith, view_front h, view_popped h));
        told = refl;
        price = refl;
        same = pop-Same s p rest opp others h;
      };
      lighter = rw front (ground arith);
      bound = omega arith;
    }

    Advance-fill :
        e.trader_id ≢ incoming.trader_id
        → e.quantity ≤ r.remaining
        → Advance r (fill_result passive incoming symbol p a e os r)
    unfolding cross
    Advance-fill other enough = record {
      runs =
          match_order-fill passive incoming symbol p a os e r front h.here.0.live other enough
            small;
      held = pop-Held s p rest opp others h;
      ran = record {
        events = traded (resting e p) e.quantity ∷ [];
        crossed = λ tail. rw front (ground (arith, view_front h, view_popped h));
        told = refl;
        price = refl;
        same = pop-Same s p rest opp others h;
      };
      lighter = rw front (ground arith);
      bound = omega arith;
    }

    Advance-partial :
        e.trader_id ≢ incoming.trader_id
        → r.remaining < e.quantity
        → Advance r (partial_result passive incoming symbol p a e r)
    unfolding cross
    Advance-partial other more = record {
      runs =
          match_order-partial passive incoming symbol p a os e r front h.here.0.live other more
            h.here.0.small;
      held =
          rw front (requantify-Held s p rest opp others h (e.quantity - r.remaining) (omega arith));
      ran = record {
        events = traded (resting e p) r.remaining ∷ [];
        crossed = λ tail.
            rw front (ground (arith, view_front h, view_requantified h (e.quantity - r.remaining)));
        told = refl;
        price = refl;
        same = requantify-Same s p rest opp others h (e.quantity - r.remaining);
      };
      lighter = rw front (ground arith);
      bound = omega arith;
    }

    pub advance : (r' : Round) × Advance r r'
    advance = elim (Bool-cases (e.trader_id == incoming.trader_id)) [
      | inl same ↦ (_, Advance-withdraw (==→eq _ _ same))
      | inr other ↦ elim (Bool-cases (leb e.quantity r.remaining)) [
        | inl enough ↦ (_, Advance-fill (==→ne _ _ other) (leb→le _ _ enough))
        | inr more ↦ (_, Advance-partial (==→ne _ _ other) (leb→lt _ _ more))
      ]
    ]
