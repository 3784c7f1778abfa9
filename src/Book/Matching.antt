-- ===== src/Book/Matching.antt =====
-- `matchAgainst` of matching/src/order_book.cpp. A loop takes fuel; `Book.Matched` shows that the
-- fuel given here is enough.
use exchnage_simulator.Prelude.{
  ℕ, zero, suc, true, false, [], ◌∷◌, ◌==◌, ltb, if◌then◌else◌, ◌&&◌, min, sub32, insert, Outcome,
  done, out_of_fuel, ◌>>=◌, deref, length, not,
}
use exchnage_simulator.Core.{
  Side, OrderRequest, BookElement, cancel_ack, trade, confirm, md_cancel, md_trade, md_update,
  unknown_order, self_trade,
}
use exchnage_simulator.Core.PriceLevel
use exchnage_simulator.Core.PriceLevel.{PriceLevel, is_empty}
use exchnage_simulator.Levels.{Levels}
use exchnage_simulator.Book.State.{Store, Sink, push_confirm, push_md, drop_order, can_trade}

-- What the inner loop of `matchAgainst` works on. Its level is the front entry of the map, which
-- nothing else reads meanwhile.
pub record Round : Type 0 where
  pub level : PriceLevel
  pub store : Store
  pub remaining : ℕ
  pub sink : Sink

module _ (passive : Side) (incoming : OrderRequest) (symbol : ℕ) where
  -- Self-trade prevention: the resting order is cancelled.
  unfoldable pub cancel_passive : ℕ → ℕ → BookElement → Round → Outcome Round
  cancel_passive level_price a e r = do
    let out =
        push_confirm (confirm cancel_ack e.id 0 e.trader_id symbol 0 e.quantity self_trade) r.sink
    let out' = push_md (md_update symbol e.id passive level_price e.quantity md_cancel) out
    l ← PriceLevel.remove_order r.store.heap a r.level
    done (record r { level = l; store = drop_order e.id a r.store; sink = out' })

  -- The four records of one trade, in the order in which they are appended.
  unfoldable pub trade_records : ℕ → BookElement → ℕ → Sink → Sink
  trade_records level_price e t out =
      push_md (md_update symbol incoming.order_id incoming.side incoming.price t md_trade) (
        push_md (md_update symbol e.id passive level_price t md_trade) (
          push_confirm
            (confirm trade incoming.order_id incoming.client_order_id incoming.trader_id symbol
              level_price t unknown_order)
            (push_confirm (confirm trade e.id 0 e.trader_id symbol level_price t unknown_order)
              out)))

  unfoldable pub trade_passive : ℕ → ℕ → BookElement → Round → Outcome Round
  trade_passive level_price a e r = do
    let t = min r.remaining e.quantity
    let e' = record e { quantity = sub32 e.quantity t }
    let st = record (r.store) { heap = insert a e' r.store.heap }
    let out = trade_records level_price e t r.sink
    let rest = sub32 r.remaining t
    if e'.quantity == 0
        then (PriceLevel.remove_order st.heap a r.level >>= λ l.
            done (record { level = l; store = drop_order e.id a st; remaining = rest; sink = out }))
        else done (record {
          level = PriceLevel.reduce_qty t r.level;
          store = st;
          remaining = rest;
          sink = out;
        })

  -- One round of the inner loop.
  unfoldable pub match_order : ℕ → Round → Outcome Round
  unfolding cancel_passive trade_passive
  match_order level_price r = do
    a ← deref (PriceLevel.peek_first r.level)
    e ← deref (r.store.heap a)
    if e.trader_id == incoming.trader_id
        then cancel_passive level_price a e r
        else trade_passive level_price a e r

  -- `while (remainingQty > 0 && !level.isEmpty())`
  unfoldable pub match_level : ℕ → ℕ → Round → Outcome Round
  match_level zero level_price r = out_of_fuel
  match_level (suc n) level_price r = elim (ltb 0 r.remaining && not (is_empty r.level)) [
    | false ↦ done r
    | true ↦ (match_order level_price r >>= λ r'. match_level n level_price r')
  ]

-- What the outer loop of `matchAgainst` works on.
pub record Sweep : Type 0 where
  pub levels : Levels
  pub store : Store
  pub remaining : ℕ
  pub sink : Sink

-- The level after the inner loop: erased from the map if it is empty.
abbrev pub put_front : ℕ → PriceLevel → Levels → Levels
put_front p l rest = if is_empty l then rest else (p, l) ∷ rest

module _ (passive : Side) (incoming : OrderRequest) (symbol : ℕ) where
  -- The body of the outer loop once its level can trade.
  unfoldable pub match_front : ℕ → PriceLevel → Levels → Sweep → Outcome Sweep
  match_front p l rest s = do
    r ←
        match_level passive incoming symbol (suc (length l.orders)) p
          (record { level = l; store = s.store; remaining = s.remaining; sink = s.sink })
    done (record {
      levels = put_front p r.level rest;
      store = r.store;
      remaining = r.remaining;
      sink = r.sink;
    })

  -- `while (remainingQty > 0 && !levels.empty())`
  unfoldable pub match_levels : ℕ → Sweep → Outcome Sweep
  match_levels zero s = out_of_fuel
  match_levels (suc n) s = elim (ltb 0 s.remaining) [
    | false ↦ done s
    | true ↦ elim s.levels [
      | [] ↦ done s
      | e ∷ rest ↦ elim (can_trade passive e.0 incoming.price) [
        | false ↦ done s
        | true ↦ (match_front e.0 e.1 rest s >>= λ s'. match_levels n s')
      ]
    ]
  ]

  unfoldable pub match_against : Sweep → Outcome Sweep
  match_against s = match_levels (suc (length s.levels)) s
