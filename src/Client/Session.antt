-- ===== src/Client/Session.antt =====
-- client/src/main.cpp: the state that the two threads share, `sendMsg` and `recvMsg`.
use exchnage_simulator.Prelude.{
  codes, ℕ, zero, suc, ◌-◌, Bool, true, false, ◌==◌, if◌then◌else◌, List, [], ◌∷◌, ◌++◌, length,
  Map, Outcome, done, out_of_fuel, ◌>>=◌,
}
use exchnage_simulator.Core.{is_buy}
use exchnage_simulator.Net.{Received, received, end_of_stream, recv_error, Sent, sent, send_error}
use exchnage_simulator.Wire.{
  MsgHeader, NewOrderConfirmMsg, ModifyOrderConfirmMsg, CancelOrderConfirmMsg, TradeConfirmMsg,
  RejectMsg, MarketUpdateMsg,
}
use exchnage_simulator.Dashboard.{symbol_name}

-- What `printMarketUpdate` prints.
pub record MarketLine : Type 0 where
  pub symbol : List ℕ
  pub side : List ℕ
  pub order_id : ℕ
  pub price : ℕ
  pub qty : ℕ
  pub why : List ℕ

unfoldable pub update_text : ℕ → List ℕ
update_text t =
    if t == 1
    then codes "NEW"
    else if t == 2
    then codes "MODIFY"
    else if t == 3
    then codes "CANCEL"
    else if t == 4
    then codes "TRADE"
    else codes "UNKNOWN"

-- `printMarketUpdate`; its table of symbols is that of the dashboard.
unfoldable pub market_line : MarketUpdateMsg → MarketLine
market_line msg = record {
  symbol = symbol_name msg.symbol_id;
  side = if is_buy msg.side then codes "BID" else codes "ASK";
  order_id = msg.order_id;
  price = msg.price;
  qty = msg.qty;
  why = update_text msg.update_type;
}

pub data Printed : Type 0 where
  shows_new : NewOrderConfirmMsg → Printed
  shows_modify : ModifyOrderConfirmMsg → Printed
  shows_cancel : CancelOrderConfirmMsg → Printed
  shows_trade : TradeConfirmMsg → Printed
  shows_reject : RejectMsg → Printed
  shows_market : MarketLine → Printed
  shows_unknown : MsgHeader → Printed
  server_disconnected : Printed
  invalid_new invalid_modify invalid_cancel : Printed
  unknown_internal_id : ℕ → Printed
  unknown_action : List ℕ → Printed

pub record Client : Type 0 where
  pub running : Bool
  pub internal_to_exchange : Map ℕ
  pub printed : List Printed
  -- what was handed to `send`, and what the calls to come return
  pub outbox : List (List ℕ)
  pub sends : List Sent

abbrev pub prints : Printed → Client → Client
prints p c = record c { printed = c.printed ++ (p ∷ []) }

unfoldable pub all_sent : List ℕ → Sent → Bool
all_sent bs (sent n) = n == length bs
all_sent bs send_error = false

-- `sendMsg`
unfoldable pub send_msg : List ℕ → Client → Outcome (Bool × Client)
send_msg bs c = elim c.sends [
  | [] ↦ out_of_fuel
  | r ∷ rs ↦ done (all_sent bs r, record c { outbox = c.outbox ++ (bs ∷ []); sends = rs })
]

-- `if (!sendMsg(sock, order)) { gRunning = false; break; }`
unfoldable pub send_or_stop : List ℕ → Client → Outcome Client
send_or_stop bs c =
    send_msg bs c >>= λ r. done (if r.0 then r.1 else record r.1 { running = false })

-- The loop of `recvMsg`: whether all bytes came, those that came, and the results that are left.
unfoldable pub recv_bytes : ℕ → List Received → Outcome (Bool × List ℕ × List Received)
recv_bytes zero rs = done (true, [], rs)
recv_bytes (suc n) [] = out_of_fuel
recv_bytes (suc n) (received bs ∷ rs) =
    recv_bytes (suc n - length bs) rs >>= λ (ok, more, rest). done (ok, bs ++ more, rest)
recv_bytes (suc n) (end_of_stream ∷ rs) = done (false, [], rs)
recv_bytes (suc n) (recv_error e ∷ rs) = done (false, [], rs)
