-- ===== src/Book/Valid.antt =====
-- When an order book is in order, seen from either side.
use exchnage_simulator.Prelude.{
  ℕ, ◌≤◌, ◌≡◌, refl, Bool, true, false, none, Has, ◌⊎◌, inl, inr, not, if◌then◌else◌,
}
use exchnage_simulator.Core.{Side, buy, sell}
use exchnage_simulator.Levels.{Levels}
use exchnage_simulator.Levels.Order.{IsOrdered}
use exchnage_simulator.Book.State.{Store, OrderBook, init}
use exchnage_simulator.Book.Linked.{LinkedLevels, Backed, addresses}
use exchnage_simulator.Book.Sound.{DistinctLevels, Sound, Backed-map}

-- Both sides are ordered; every address that a level lists is live, and the two maps lead from its
-- order id to it and to its place; every entry of the map is listed; no address is listed twice;
-- addresses not yet handed out are free.
pub record IsValid (b : OrderBook) : Type 0 where
  pub bids_ordered : IsOrdered buy b.bids
  pub asks_ordered : IsOrdered sell b.asks
  pub bids_distinct : DistinctLevels b.bids
  pub asks_distinct : DistinctLevels b.asks
  pub bids_linked : LinkedLevels b.store true b.bids
  pub asks_linked : LinkedLevels b.store false b.asks
  pub backed : Backed b.store (λ a. Has a (addresses b.bids) ⊎ Has a (addresses b.asks))
  pub fresh : (a : ℕ) → b.store.next_addr ≤ a → b.store.heap a ≡ none

abbrev swap : {A B : Type 0} → A ⊎ B → B ⊎ A
swap (inl x) = inr x
swap (inr x) = inl x

-- One of the two template arguments, and the other.
abbrev pub side_of : Bool → Side
side_of v = if v then buy else sell

-- What a valid book is from one side, together with what the other side is by itself.
pub record Halves (v : Bool) (own opp : Levels) (st : Store) : Type 0 where
  pub sound : Sound (side_of v) opp st own
  pub opp_ordered : IsOrdered (side_of (not v)) opp
  pub opp_distinct : DistinctLevels opp

abbrev pub half : Bool → OrderBook → Levels
half v b = if v then b.bids else b.asks

pub IsValid-Halves :
    (v : Bool) (b : OrderBook) → IsValid b → Halves v (half v b) (half (not v) b) b.store
IsValid-Halves true b h = record {
  sound = record {
    ordered = h.bids_ordered;
    distinct = h.bids_distinct;
    linked = h.bids_linked;
    opposite = h.asks_linked;
    backed = h.backed;
    fresh = h.fresh;
  };
  opp_ordered = h.asks_ordered;
  opp_distinct = h.asks_distinct;
}
IsValid-Halves false b h = record {
  sound = record {
    ordered = h.asks_ordered;
    distinct = h.asks_distinct;
    linked = h.asks_linked;
    opposite = h.bids_linked;
    backed = Backed-map b.store _ _ (λ a k. swap k) h.backed;
    fresh = h.fresh;
  };
  opp_ordered = h.bids_ordered;
  opp_distinct = h.bids_distinct;
}

-- The book with new levels on one side and a new store.
abbrev pub with_half : Bool → Levels → Store → OrderBook → OrderBook
with_half v ls st b =
    if v then record b { bids = ls; store = st } else record b { asks = ls; store = st }

pub Halves-IsValid :
    (v : Bool) (b : OrderBook) (ls : Levels) (st : Store)
    → Halves v ls (half (not v) b) st
    → IsValid (with_half v ls st b)
Halves-IsValid true b ls st h = record {
  bids_ordered = h.sound.ordered;
  asks_ordered = h.opp_ordered;
  bids_distinct = h.sound.distinct;
  asks_distinct = h.opp_distinct;
  bids_linked = h.sound.linked;
  asks_linked = h.sound.opposite;
  backed = h.sound.backed;
  fresh = h.sound.fresh;
}
Halves-IsValid false b ls st h = record {
  bids_ordered = h.opp_ordered;
  asks_ordered = h.sound.ordered;
  bids_distinct = h.opp_distinct;
  asks_distinct = h.sound.distinct;
  bids_linked = h.sound.opposite;
  asks_linked = h.sound.linked;
  backed = Backed-map st _ _ (λ a k. swap k) h.sound.backed;
  fresh = h.sound.fresh;
}

-- A new order book is valid, for every symbol.
pub init-IsValid : (sym : ℕ) → IsValid (init sym)
unfolding init
init-IsValid sym = record {
  bids_ordered = tt;
  asks_ordered = tt;
  bids_distinct = tt;
  asks_distinct = tt;
  bids_linked = tt;
  asks_linked = tt;
  backed = λ id a e. cc;
  fresh = λ a h. refl;
}
