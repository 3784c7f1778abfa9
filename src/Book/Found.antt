-- ===== src/Book/Found.antt =====
-- A known order id of a valid book: its element, its details and the place where it is listed.
use exchnage_simulator.Prelude.{
  ℕ, ◌≤◌, ◌≡◌, refl, sym, ap, ◌∙◌, ◌⊎◌, inl, inr, Bool, true, false, none, some, arith, Has,
  Outcome, done, ◌==◌, if◌then◌else◌,
}
use exchnage_simulator.Core.{Side, buy, sell, other, is_buy, BookElement}
use exchnage_simulator.Book.State.{Store, OrderBook, OrderDetails, Sink}
use exchnage_simulator.Book.Api.{own_side, Reply, with_owned, refuse}
use exchnage_simulator.Book.Linked.{addresses}
use exchnage_simulator.Book.View.{resting, AvoidsLevels-of_side}
use exchnage_simulator.Book.Valid.{IsValid, half}
use exchnage_simulator.Book.Located.{Located, locate}
use exchnage_simulator.Book.Finding.{find-unknown, find-elsewhere, find-Located}
use exchnage_simulator.Book.Rules.{view, owned, if_owner}

pub own_side-is_buy : (s : Side) → is_buy s ≡ is_buy (own_side s)
own_side-is_buy buy = refl
own_side-is_buy sell = refl
own_side-is_buy (other n) = refl

pub record Found (b : OrderBook) (id a trader : ℕ) : Type 0 where
  pub details : OrderDetails
  pub detailed : b.store.order_details id ≡ some details
  pub at : Located b.store (is_buy (own_side details.side)) a (half (is_buy details.side) b)
  pub named : at.linked.elem.id ≡ id
  pub same_price : at.price ≡ details.price
  pub sized : at.linked.elem.quantity ≤ details.quantity
  pub owner :
      owned id trader (view b)
      ≡ if_owner trader (is_buy details.side) (resting at.linked.elem at.price)

-- The place, read at another name of its side.
record Recast {st : Store} {a : ℕ} (b : OrderBook) (v : Bool) (x : Located st v a (half v b))
    (s : Side) : Type 0 where
  at : Located st (is_buy (own_side s)) a (half (is_buy s) b)
  same_elem : at.linked.elem ≡ x.linked.elem
  same_price : at.price ≡ x.price

recast :
    {st : Store} {a : ℕ} (b : OrderBook) (v : Bool) (x : Located st v a (half v b)) (s : Side)
    → v ≡ is_buy s
    → Recast b v x s
recast b true x buy e = record { at = x; same_elem = refl; same_price = refl }
recast b false x sell e = record { at = x; same_elem = refl; same_price = refl }
recast b false x (other n) e = record { at = x; same_elem = refl; same_price = refl }
recast b true x sell e = absurd (cc)
recast b true x (other n) e = absurd (cc)
recast b false x buy e = absurd (cc)

module _ (b : OrderBook) (h : IsValid b) (id a trader : ℕ) where
  -- An id of the bids, and one of the asks, read off the two lists.
  owned_bid :
      (at : Located b.store true a b.bids)
      → at.linked.elem.id ≡ id
      → owned id trader (view b) ≡ if_owner trader true (resting at.linked.elem at.price)
  owned_bid at same = rw (find-Located b.store id true a b.bids at same h.bids_linked, owned)

  owned_ask :
      (at : Located b.store false a b.asks)
      → at.linked.elem.id ≡ id
      → owned id trader (view b) ≡ if_owner trader false (resting at.linked.elem at.price)
  owned_ask at same = rw (
    find-elsewhere b.store id true a b.bids (rw same at at.linked.mapped)
        (AvoidsLevels-of_side b.bids (λ e. cc) at.linked h.bids_linked) h.bids_linked,
    find-Located b.store id false a b.asks at same h.asks_linked,
    owned,
  )

  -- An id that is not known.
  pub owned-unknown : b.store.order_map id ≡ none → owned id trader (view b) ≡ none
  owned-unknown m = rw (
    find-unknown b.store id true b.bids m h.bids_linked,
    find-unknown b.store id false b.asks m h.asks_linked,
    owned,
  )

  found_at :
      (v : Bool) (at : Located b.store v a (half v b))
      → at.linked.elem.id ≡ id
      → owned id trader (view b) ≡ if_owner trader v (resting at.linked.elem at.price)
      → Found b id a trader
  found_at v at same reads =
      let r = recast b v at at.linked.details.side (sym at.linked.sided) in
      record {
        details = at.linked.details;
        detailed = rw (← same) at.linked.detailed;
        at = r.at;
        named = ap (λ (e : BookElement). e.id) r.same_elem ∙ same;
        same_price = r.same_price ∙ sym at.linked.priced;
        sized = rw r.same_elem at.linked.sized;
        owner = rw (at.linked.sided, r.same_elem, r.same_price) reads;
      }

  pub find_known : b.store.order_map id ≡ some a → Found b id a trader
  find_known m = by_side (h.backed id a m)
    where
      by_side :
          (e : BookElement) × (b.store.heap a ≡ some e)
            × (e.id ≡ id)
            × (Has a (addresses b.bids) ⊎ Has a (addresses b.asks))
          → Found b id a trader
      by_side (e, live, same, inl k) =
          let at = locate buy b.store true a b.bids h.bids_ordered h.bids_linked k in
          let named : at.linked.elem.id ≡ id = ground (arith, at.linked.live) in
          found_at true at named (owned_bid at named)
      by_side (e, live, same, inr k) =
          let at = locate sell b.store false a b.asks h.asks_ordered h.asks_linked k in
          let named : at.linked.elem.id ≡ id = ground (arith, at.linked.live) in
          found_at false at named (owned_ask at named)

-- The lookup that `cancelOrder` and `modifyOrder` begin with, on its branches.
pub with_owned-unknown :
    (id trader : ℕ) (b : OrderBook) (out : Sink) (act : ℕ → BookElement → Outcome Reply)
    → b.store.order_map id ≡ none
    → with_owned id trader b out act ≡ done (refuse id trader b out)
with_owned-unknown id trader b out act m = rw (m, with_owned)

pub with_owned-known :
    (id trader a : ℕ) (e : BookElement) (b : OrderBook) (out : Sink)
    (act : ℕ → BookElement → Outcome Reply)
    → b.store.order_map id ≡ some a
    → b.store.heap a ≡ some e
    → with_owned id trader b out act
      ≡ (if e.trader_id == trader then act a e else done (refuse id trader b out))
with_owned-known id trader a e b out act m live = rw (m, with_owned) (rw live)
