-- ===== src/Book/ModifyOrder.antt =====
-- `modifyOrder` returns on every valid book, keeps it valid, and does what the rule of the market says.
use exchnage_simulator.Prelude.{
  ℕ, ltb, ◌≤◌, ◌<◌, ◌^◌, ◌≡◌, refl, ap, sym, subst, insert_self, ◌∙◌, inl, inr, Bool, Option, none,
  some, ◌==◌, if◌then◌else◌, ◌&&◌, done, Bool-cases,
}
use exchnage_simulator.Core.{Side, buy, is_buy}
use exchnage_simulator.Levels.{Levels}
use exchnage_simulator.Book.State.{OrderBook, OrderDetails, Store, Sink}
use exchnage_simulator.Book.Api.{refuse, modify_order}
use exchnage_simulator.Book.Spec.{Resting}
use exchnage_simulator.Book.View.{resting}
use exchnage_simulator.Book.Valid.{IsValid, with_half}
use exchnage_simulator.Book.Sides.{symbol-with_half, store-with_half}
use exchnage_simulator.Book.Found.{
  Found, find_known, owned-unknown, with_owned-unknown, with_owned-known,
}
use exchnage_simulator.Book.Rules.{Market, view, owned, modify_rule}
use exchnage_simulator.Book.CancelOrder.{OnSide}
use exchnage_simulator.Book.Keeping.{kept-IsValid, kept_market}
use exchnage_simulator.Book.Modifying.{
  modify_report, keeps, outcome, moved-IsValid, moved_market, run_owned,
}

-- What the code compares a new quantity with is at least what is open.
abbrev pub Covers : ℕ → Option (Bool × Resting) → Type 0
Covers n found = elim found [ none ↦ Unit {0} | some x ↦ x.1.quantity ≤ n ]

-- The rule at the order that is found, if any.
abbrev pub modified : ℕ → ℕ → ℕ → ℕ → Option (Bool × Resting) → Market → Market
modified placed id price qty found m = elim found [
  | none ↦ m
  | some x ↦ modify_rule ((x.1.price == price) && ltb qty placed) id price qty x m
]

-- The quantity of `orderDetails`: the one that the order was last placed or modified with.
abbrev pub placed_with : ℕ → OrderBook → ℕ
placed_with id b = elim (b.store.order_details id) [ none ↦ 0 | some d ↦ d.quantity ]

-- An order that is found was last placed with `n`.
abbrev pub IsPlacedWith : ℕ → ℕ → OrderBook → Option (Bool × Resting) → Type 0
IsPlacedWith n id b found = elim found [ none ↦ Unit {0} | some x ↦ placed_with id b ≡ n ]

placed_with-half :
    (id : ℕ) (b : OrderBook) (v : Bool) (ls : Levels) (st : Store) (d : OrderDetails)
    → st.order_details id ≡ some d
    → placed_with id (with_half v ls st b) ≡ d.quantity
placed_with-half id b v ls st d e =
    ap (λ (k : Store). elim (k.order_details id) [ none ↦ 0 | some d ↦ d.quantity ])
      (store-with_half b v ls st)
    ∙ ap (λ o. elim o [ none ↦ 0 | some d ↦ d.quantity ]) e

record Modified (id trader price qty : ℕ) (b : OrderBook) (out : Sink)
    (found : Option (Bool × Resting)) : Type 0 where
  after : OrderBook
  told_side : Side
  runs :
      modify_order id trader price qty b out
      ≡ done (after, modify_report id trader price qty b.symbol told_side found out)
  valid : IsValid after
  market : view after ≡ modified (placed_with id b) id price qty found (view b)
  on_side : OnSide told_side found
  covers : Covers (placed_with id b) found
  placed : IsPlacedWith qty id after found
  symbol : after.symbol ≡ b.symbol

module _ (id trader price qty : ℕ) (b : OrderBook) (out : Sink) (h : IsValid b)
    (small : qty < 2 ^ 32) where
  -- Nothing happens but the rejection.
  refused :
      modify_order id trader price qty b out ≡ done (refuse id trader b out)
      → Modified id trader price qty b out none
  refused e = record {
    after = b;
    told_side = buy;
    runs = e;
    valid = h;
    market = refl;
    on_side = tt;
    covers = tt;
    placed = tt;
    symbol = refl;
  }

  modify-unknown : b.store.order_map id ≡ none → Modified id trader price qty b out none
  unfolding modify_order
  modify-unknown m = refused (with_owned-unknown id trader b out _ m)

  module _ (a : ℕ) (m : b.store.order_map id ≡ some a) where
    f : Found b id a trader
    f = find_known b h id a trader m

    abbrev mine : Bool
    mine = f.at.linked.elem.trader_id == trader

    abbrev result : OrderBook
    result = outcome b h id a trader price qty small f

    abbrev test : Bool
    test = keeps b h id a trader price qty small f

    run_known : modify_order id trader price qty b out ≡ (
        if mine
        then done (
          result,
          modify_report id trader price qty b.symbol f.details.side
              (some (is_buy f.details.side, resting f.at.linked.elem f.at.price))
              out,
        )
        else done (refuse id trader b out))
    unfolding modify_order
    run_known =
        with_owned-known id trader a f.at.linked.elem b out _ m f.at.linked.live
        ∙ rw (run_owned b h id a trader price qty small f out)

    result-IsValid : IsValid result
    result-IsValid = elim (Bool-cases test) [
      | inl e ↦ rw e (kept-IsValid b h id a trader price qty small f)
      | inr e ↦ rw e (moved-IsValid b h id a trader price qty small f)
    ]

    result_market :
        view result
        ≡ modify_rule test id price qty
            (is_buy f.details.side, resting f.at.linked.elem f.at.price)
            (view b)
    result_market = elim (Bool-cases test) [
      | inl e ↦ rw e (kept_market b h id a trader price qty small f)
      | inr e ↦ rw e (moved_market b h id a trader price qty small f)
    ]

    result_symbol : result.symbol ≡ b.symbol
    result_symbol = elim (Bool-cases test) [
      | inl e ↦ rw e (symbol-with_half b (is_buy f.details.side) _ _)
      | inr e ↦ rw e (symbol-with_half b (is_buy f.details.side) _ _)
    ]

    placed_at : placed_with id b ≡ f.details.quantity
    placed_at = ap (λ o. elim o [ none ↦ 0 | some d ↦ d.quantity ]) f.detailed

    result_placed : placed_with id result ≡ qty
    result_placed = elim (Bool-cases test) [
      | inl e ↦ rw e (
          placed_with-half id b (is_buy f.details.side) _ _ _
            (insert_self id _ b.store.order_details))
      | inr e ↦ rw e (
          placed_with-half id b (is_buy f.details.side) _ _ _
            (insert_self id _ b.store.order_details))
    ]

    modify-known : Modified id trader price qty b out (owned id trader (view b))
    modify-known = elim (Bool-cases mine) [
      | inl e ↦
          rw (f.owner, e)
            (record {
              after = result;
              told_side = f.details.side;
              runs = run_known ∙ rw e;
              valid = result-IsValid;
              market =
                  result_market
                  ∙ ap
                      (λ n.
                        modify_rule ((f.at.price == price) && ltb qty n) id price qty
                          (is_buy f.details.side, resting f.at.linked.elem f.at.price) (view b))
                      (sym placed_at);
              on_side = refl;
              covers = subst (λ n. f.at.linked.elem.quantity ≤ n) (sym placed_at) f.sized;
              placed = result_placed;
              symbol = result_symbol;
            })
      | inr e ↦ rw (f.owner, e) (refused (run_known ∙ rw e))
    ]

-- A modification to a 32-bit quantity on a valid book returns without a fault and keeps the book
-- valid. If the id is a resting order of the trader, the modification is acknowledged and the order
-- takes the new price and quantity: it keeps its place if the price is the same and the quantity is
-- less than the one in `orderDetails`, which is at least the open one, and it queues anew behind all
-- orders at the new price otherwise, without trading; `orderDetails` then has the new quantity. If it is not, nothing changes and
-- the request is rejected as unknown.
pub modify_order-refines :
    (id trader price qty : ℕ) (b : OrderBook) (out : Sink)
    → IsValid b
    → qty < 2 ^ 32
    → (b' : OrderBook) × (d : Side) × (modify_order id trader price qty b out
        ≡ done (b', modify_report id trader price qty b.symbol d (owned id trader (view b)) out))
      × IsValid b'
      × (view b' ≡ modified (placed_with id b) id price qty (owned id trader (view b)) (view b))
      × OnSide d (owned id trader (view b))
      × Covers (placed_with id b) (owned id trader (view b))
      × IsPlacedWith qty id b' (owned id trader (view b))
      × (b'.symbol ≡ b.symbol)
modify_order-refines id trader price qty b out h small =
    let c = by_id (b.store.order_map id) refl in
    (c.after, c.told_side, c.runs, c.valid, c.market, c.on_side, c.covers, c.placed, c.symbol)
  where
    by_id :
        (o : Option ℕ)
        → b.store.order_map id ≡ o
        → Modified id trader price qty b out (owned id trader (view b))
    by_id none m =
        rw (owned-unknown b h id 0 trader m) (modify-unknown id trader price qty b out h small m)
    by_id (some a) m = modify-known id trader price qty b out h small a m
