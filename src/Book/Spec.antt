-- ===== src/Book/Spec.antt =====
-- What the order book promises, with no pointers: a side is the list of its resting orders in
-- priority order, and an incoming order consumes a front part of the opposite side.
use exchnage_simulator.Prelude.{
  ℕ, ◌-◌, Option, none, some, List, [], ◌∷◌, ◌++◌, ◌==◌, leb, if◌then◌else◌, ◌≡◌, refl, append-nil,
  append_assoc,
}
use exchnage_simulator.Core.{
  Side, OrderRequest, OrderConfirm, cancel_ack, trade, confirm, MdUpdate, md_cancel, md_trade,
  md_update, unknown_order, self_trade,
}
use exchnage_simulator.Levels.{before}
use exchnage_simulator.Book.State.{Sink, can_trade}

pub record Resting : Type 0 where
  pub id : ℕ
  pub trader_id : ℕ
  pub quantity : ℕ
  pub price : ℕ

-- `traded r q`: `q` units of `r` are traded at the price of `r`. `withdrawn r`: `r` is cancelled
-- because its trader is the one of the incoming order.
pub data Event : Type 0 where
  traded : Resting → ℕ → Event
  withdrawn : Resting → Event

pub record Crossing : Type 0 where
  pub book : List Resting
  pub remaining : ℕ
  pub events : List Event

abbrev pub prepend : List Event → Crossing → Crossing
prepend es c = record c { events = es ++ c.events }

abbrev pub untouched : List Resting → ℕ → Crossing
untouched rs n = record { book = rs; remaining = n; events = [] }

-- Time priority: a new order stands behind all orders at its price or a better one.
unfoldable pub enqueue : Side → Resting → List Resting → List Resting
enqueue s r [] = r ∷ []
enqueue s r (x ∷ xs) = if before s r.price x.price then r ∷ x ∷ xs else x ∷ enqueue s r xs

unfoldable pub find_order : ℕ → List Resting → Option Resting
find_order id [] = none
find_order id (x ∷ xs) = if x.id == id then some x else find_order id xs

-- A cancelled order leaves, and the others keep their order.
unfoldable pub withdraw : ℕ → List Resting → List Resting
withdraw id [] = []
withdraw id (x ∷ xs) = if x.id == id then xs else x ∷ withdraw id xs

-- A smaller quantity keeps the place.
unfoldable pub resize : ℕ → ℕ → List Resting → List Resting
resize id q [] = []
resize id q (x ∷ xs) = if x.id == id then record x { quantity = q } ∷ xs else x ∷ resize id q xs

module _ (passive : Side) (incoming : OrderRequest) where
  -- The matching rule.
  unfoldable pub cross : ℕ → List Resting → Crossing
  cross n [] = untouched [] n
  cross n (r ∷ rs) =
      if n == 0
      then untouched (r ∷ rs) n
      else if can_trade passive r.price incoming.price
      then (if r.trader_id == incoming.trader_id
          then prepend (withdrawn r ∷ []) (cross n rs)
          else if leb r.quantity n
          then prepend (traded r r.quantity ∷ []) (cross (n - r.quantity) rs)
          else record {
            book = record r { quantity = r.quantity - n } ∷ rs;
            remaining = 0;
            events = traded r n ∷ [];
          })
      else untouched (r ∷ rs) n

  module _ (symbol : ℕ) where
    -- The confirmations and the market data that report an event.
    abbrev pub event_confirms : Event → List OrderConfirm
    event_confirms (traded r q) =
        confirm trade r.id 0 r.trader_id symbol r.price q unknown_order
        ∷ confirm trade incoming.order_id incoming.client_order_id incoming.trader_id symbol r.price
            q unknown_order
        ∷ []
    event_confirms (withdrawn r) =
        confirm cancel_ack r.id 0 r.trader_id symbol 0 r.quantity self_trade ∷ []

    abbrev pub event_md : Event → List MdUpdate
    event_md (traded r q) =
        md_update symbol r.id passive r.price q md_trade
        ∷ md_update symbol incoming.order_id incoming.side incoming.price q md_trade
        ∷ []
    event_md (withdrawn r) = md_update symbol r.id passive r.price r.quantity md_cancel ∷ []

    unfoldable pub confirms_of : List Event → List OrderConfirm
    confirms_of [] = []
    confirms_of (e ∷ es) = event_confirms e ++ confirms_of es

    unfoldable pub md_of : List Event → List MdUpdate
    md_of [] = []
    md_of (e ∷ es) = event_md e ++ md_of es

    abbrev pub report : List Event → Sink → Sink
    report es o = record { confirms = o.confirms ++ confirms_of es; md = o.md ++ md_of es }

    pub confirms_of-append :
        (es fs : List Event) → confirms_of (es ++ fs) ≡ confirms_of es ++ confirms_of fs
    unfolding confirms_of
    confirms_of-append [] fs = refl
    confirms_of-append (e ∷ es) fs = simp (confirms_of-append es fs, append_assoc)

    pub md_of-append : (es fs : List Event) → md_of (es ++ fs) ≡ md_of es ++ md_of fs
    unfolding md_of
    md_of-append [] fs = refl
    md_of-append (e ∷ es) fs = simp (md_of-append es fs, append_assoc)

    pub report-append :
        (es fs : List Event) (o : Sink) → report fs (report es o) ≡ report (es ++ fs) o
    report-append es fs o = simp (confirms_of-append, md_of-append, append_assoc)

    pub report-nil : (o : Sink) → report [] o ≡ o
    unfolding confirms_of md_of
    report-nil o = simp append-nil
