-- ===== src/Book/Keeping.antt =====
-- A modification that keeps the place of the order.
use exchnage_simulator.Prelude.{
  ℕ, ltb, ltb→lt, ltb→le, ◌≤◌, ◌<◌, ◌^◌, ◌⊎◌, Has, insert, insert_ne, ◌≡◌, ◌≢◌, refl, sym, ap, ◌∙◌,
  inl, inr, subst, some, arith, not, Bool-cases,
}
use exchnage_simulator.Core.{Side, is_buy, BookElement}
use exchnage_simulator.Levels.{Levels}
use exchnage_simulator.Book.State.{OrderBook}
use exchnage_simulator.Book.Api.{own_side, modify_in_place}
use exchnage_simulator.Book.Spec.{resize}
use exchnage_simulator.Book.View.{view_levels, view_levels-frame, AvoidsLevels-of_side}
use exchnage_simulator.Book.Valid.{IsValid, half, with_half}
use exchnage_simulator.Book.Sides.{
  with_half_self, Sound-own, IsValid-own, view-with_half, view_of_half,
}
use exchnage_simulator.Book.Linked.{addresses, AvoidsLevels}
use exchnage_simulator.Book.Sound.{Sound}
use exchnage_simulator.Book.Resizing.{
  resized, resized_store, resized-LinkedLevels, resized-Backed, view-resized,
}
use exchnage_simulator.Book.Found.{Found}
use exchnage_simulator.Book.Rules.{view, orders_of, with_orders}

module _ (b : OrderBook) (h : IsValid b) (id a trader price qty : ℕ) (small : qty < 2 ^ 32)
    (f : Found b id a trader) where
  abbrev pub side : Side
  side = f.details.side

  abbrev pub elem : BookElement
  elem = f.at.linked.elem

  abbrev pub own : Levels
  own = half (is_buy side) b

  abbrev pub opp : Levels
  opp = half (not (is_buy side)) b

  abbrev pub own_sound : Sound (own_side side) opp b.store own
  own_sound = Sound-own b side h

  -- In place.
  abbrev pub kept : ℕ → OrderBook
  kept i = with_half (is_buy side) own (resized_store i a elem f.details qty b.store) b

  known : b.store.order_details elem.id ≡ some f.details
  known = rw f.named f.detailed

  -- A live address has been handed out.
  handed_out : (c : ℕ) → b.store.next_addr ≤ c → a ≢ c
  handed_out c le e = ground (arith, f.at.linked.live, h.fresh c le)

  pub below : a < b.store.next_addr
  below = elim (Bool-cases (ltb a b.store.next_addr)) [
    | inl y ↦ ltb→lt _ _ y
    | inr n ↦ absurd (handed_out a (ltb→le _ _ n) refl)
  ]

  kept_sound : Sound (own_side side) opp (resized_store elem.id a elem f.details qty b.store) own
  kept_sound = record {
    ordered = own_sound.ordered;
    distinct = own_sound.distinct;
    linked = resized-LinkedLevels f.at.linked f.details qty known small _ own own_sound.linked;
    opposite = resized-LinkedLevels f.at.linked f.details qty known small _ opp own_sound.opposite;
    backed =
        resized-Backed f.at.linked f.details qty known small
          (λ c. Has c (addresses own) ⊎ Has c (addresses opp)) own_sound.backed;
    fresh = λ c le. insert_ne a c _ b.store.heap (handed_out c le) ∙ h.fresh c le;
  }

  pub kept-IsValid : IsValid (kept id)
  kept-IsValid = subst (λ i. IsValid (kept i)) f.named (IsValid-own b side own _ h kept_sound)

  opp_avoids : AvoidsLevels a opp
  opp_avoids = AvoidsLevels-of_side opp (λ e. ground arith) f.at.linked own_sound.opposite

  pub opp_same :
      (e : BookElement) → view_levels (insert a e b.store.heap) opp ≡ view_levels b.store.heap opp
  opp_same e =
      view_levels-frame b.store.heap (insert a e b.store.heap) a opp
        (λ c ne. insert_ne a c e b.store.heap (λ k. ne (sym k))) opp_avoids

  pub kept_market :
      view (kept id)
      ≡ with_orders (is_buy side) (resize id qty (orders_of (is_buy side) (view b))) (view b)
  kept_market =
      subst
        (λ i.
          view (kept i)
          ≡ with_orders (is_buy side) (resize i qty (orders_of (is_buy side) (view b))) (view b))
        f.named
        (view-with_half b (is_buy side) own _ (opp_same (resized elem qty))
          ∙ ap (λ rs. with_orders (is_buy side) rs (view b))
              (view-resized b.store _ a qty elem f.at.linked.live f.at.linked.mapped (own_side side)
                  f.at.price f.at.level own f.at.linked own_sound.ordered own_sound.distinct
                  own_sound.linked f.at.found f.at.has
                ∙ ap (resize elem.id qty) (view_of_half b (is_buy side))))

  pub run_kept : modify_in_place id a elem f.details qty b ≡ kept id
  unfolding modify_in_place
  run_kept = sym (with_half_self b (is_buy side) _)
