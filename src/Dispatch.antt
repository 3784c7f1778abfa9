-- ===== src/Dispatch.antt =====
-- src/thread_matching.cpp: what the matching thread does with one raw message. The clock, the sessions
-- and their descriptors are what the thread finds at that moment; `send` is an entry of a list.
pub mod Private
pub mod Volume
pub mod Total
pub mod Parsed
pub mod Requests
pub mod Tests
use exchnage_simulator.Prelude.{
  suc, ℕ, Option, none, some, List, [], ◌∷◌, ◌++◌, map, ltb, if◌then◌else◌, Outcome, done, ◌>>=◌,
  add32,
}
use exchnage_simulator.Core.{
  OrderRequest, new_order, cancel, modify, OrderConfirm, new_ack, modify_ack, cancel_ack, trade,
  reject, MdUpdate,
}
use exchnage_simulator.Book.{Sink, empty_sink}
use exchnage_simulator.Engine.{
  MatchingEngine, new_engine, initialize, on_order, on_cancel, on_modify, best_bid_price,
  best_bid_qty, best_ask_price, best_ask_qty,
}
use exchnage_simulator.Market.{InstrumentState, MarketState, update, get, new_market}
use exchnage_simulator.Sessions.{SessionManager, get_fd}
use exchnage_simulator.Wire.{
  MsgType, new_order_request, modify_order_request, cancel_order_request, header_size,
  new_order_request_size, modify_order_request_size, cancel_order_request_size, read_header,
  read_new_order_request, read_modify_order_request, read_cancel_order_request,
  to_order_request_new, to_order_request_cancel, to_order_request_modify, to_new_order_confirm_msg,
  to_modify_order_confirm_msg, to_cancel_order_confirm_msg, to_trade_confirm_msg, to_reject_msg,
  to_market_update_msg,
}
use exchnage_simulator.Framing.{RawMessage}

-- The switch over the type of the header; `none` where the thread goes on to the next message.
unfoldable pub parse_body : ℕ → RawMessage → MsgType → Option OrderRequest
parse_body now raw new_order_request =
    if ltb raw.length new_order_request_size
    then none
    else some (to_order_request_new now (read_new_order_request raw.bytes) raw.trader_id)
parse_body now raw cancel_order_request =
    if ltb raw.length cancel_order_request_size
    then none
    else some (to_order_request_cancel now (read_cancel_order_request raw.bytes) raw.trader_id)
parse_body now raw modify_order_request =
    if ltb raw.length modify_order_request_size
    then none
    else some (to_order_request_modify now (read_modify_order_request raw.bytes) raw.trader_id)
parse_body now raw _ = none

unfoldable pub parse_request : ℕ → RawMessage → Option OrderRequest
parse_request now raw =
    if ltb raw.length header_size then none else parse_body now raw (read_header raw.bytes).0.type

unfoldable pub call_engine : OrderRequest → MatchingEngine → Sink → Outcome (MatchingEngine × Sink)
call_engine req e out = elim req.request_type [
  | new_order ↦ on_order req e out
  | cancel ↦ on_cancel req.order_id req.symbol_id req.trader_id e out
  | modify ↦ on_modify req.order_id req.symbol_id req.trader_id req.price req.quantity e out
]

unfoldable pub confirm_msg : OrderConfirm → List ℕ
confirm_msg c = elim c.type [
  | new_ack ↦ to_new_order_confirm_msg c
  | modify_ack ↦ to_modify_order_confirm_msg c
  | cancel_ack ↦ to_cancel_order_confirm_msg c
  | trade ↦ to_trade_confirm_msg c
  | reject ↦ to_reject_msg c
]

-- A descriptor and the bytes that are sent to it.
abbrev pub Sent : Type 0
Sent = ℕ × List ℕ

-- The private confirmations; a trader without a descriptor gets none. Other threads change the sessions
-- meanwhile: `m k` are those that the call of `getFd` for confirmation `k` finds.
unfoldable pub deliver : (ℕ → SessionManager) → List OrderConfirm → List Sent
deliver m [] = []
deliver m (c ∷ cs) =
    let rest = deliver (λ k. m (suc k)) cs in
    elim (get_fd c.trader_id (m 0)) [ none ↦ rest | some fd ↦ (fd, confirm_msg c) ∷ rest ]

-- `fds k` is what `getAllFds` returns for update `k`.
unfoldable pub multicast : (ℕ → List ℕ) → List MdUpdate → List Sent
multicast fds [] = []
multicast fds (u ∷ us) =
    map (λ fd. (fd, to_market_update_msg u)) (fds 0) ++ multicast (λ k. fds (suc k)) us

-- "First apply trade updates."
unfoldable pub apply_trades : List OrderConfirm → InstrumentState → InstrumentState
apply_trades [] s = s
apply_trades (c ∷ cs) s = apply_trades cs (elim c.type [
  | trade ↦ record s {
    last_trade_price = c.price;
    last_trade_qty = c.qty;
    total_traded_volume = add32 s.total_traded_volume c.qty;
  }
  | _ ↦ s
])

-- "Then apply best bid ask."
unfoldable pub apply_best : ℕ → MatchingEngine → InstrumentState → InstrumentState
apply_best symbol e s = record s {
  best_bid = best_bid_price e symbol;
  bid_volume = best_bid_qty e symbol;
  best_ask = best_ask_price e symbol;
  ask_volume = best_ask_qty e symbol;
}

unfoldable pub publish : ℕ → MatchingEngine → List OrderConfirm → MarketState → MarketState
publish symbol e cs m = update symbol (apply_best symbol e (apply_trades cs (get symbol m))) m

pub record MatchingThread : Type 0 where
  pub engine : MatchingEngine
  pub market : MarketState

-- `engine.initialize({0, 1, 2, 3, 4})`
unfoldable pub start_thread : MatchingThread
start_thread = record {
  engine = initialize (0 ∷ 1 ∷ 2 ∷ 3 ∷ 4 ∷ []) new_engine;
  market = new_market;
}

-- What the thread finds with a message: the clock, the sessions at each confirmation, and what
-- `getAllFds` returns at each update.
pub record Input : Type 0 where
  pub raw : RawMessage
  pub now : ℕ
  pub sessions : ℕ → SessionManager
  pub all_fds : ℕ → List ℕ

-- The body of the loop, for a message that was popped.
unfoldable pub on_raw : Input → MatchingThread → Outcome (MatchingThread × List Sent)
on_raw i t = elim (parse_request i.now i.raw) [
  | none ↦ done (t, [])
  | some req ↦
      (call_engine req t.engine empty_sink >>= λ r. done (
        record { engine = r.0; market = publish req.symbol_id r.0 r.1.confirms t.market },
        deliver i.sessions r.1.confirms ++ multicast i.all_fds r.1.md,
      ))
]

unfoldable pub run_thread : List Input → MatchingThread → Outcome (MatchingThread × List Sent)
run_thread [] t = done (t, [])
run_thread (i ∷ is) t = on_raw i t >>= λ r. run_thread is r.0 >>= λ s. done (s.0, r.1 ++ s.1)
