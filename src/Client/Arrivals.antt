-- ===== src/Client/Arrivals.antt =====
-- client/src/main.cpp: the receive thread, `recvThreadFunc`.
use exchnage_simulator.Prelude.{
  ℕ, ◌+◌, ◌-◌, ◌%◌, ◌^◌, Bool, true, false, ◌&&◌, not, ltb, leb, if◌then◌else◌, List, [], ◌∷◌, ◌++◌,
  length, drop, insert, Outcome, done, out_of_fuel, ◌>>=◌,
}
use exchnage_simulator.Net.{Received}
use exchnage_simulator.Wire.{
  MsgType, new_order_confirm, modify_order_confirm, cancel_order_confirm, trade_confirm, reject_msg,
  market_update, MsgHeader, header_size, read_header, read_new_order_confirm,
  read_modify_order_confirm, read_cancel_order_confirm, read_trade_confirm, read_reject,
  read_market_update,
}
use exchnage_simulator.Client.Session.{
  Client, prints, recv_bytes, shows_new, shows_modify, shows_cancel, shows_trade, shows_reject,
  shows_market, market_line, shows_unknown, server_disconnected,
}

abbrev pub body_capacity : ℕ
body_capacity = 256

-- `header.length - sizeof(MsgHeader)`, a `std::size_t`.
unfoldable pub body_size : MsgHeader → ℕ
body_size h = (h.length + 2 ^ 64 - header_size) % 2 ^ 64

-- What is in `body` behind the call, which begins with what `stack` has there.
unfoldable pub recv_body :
    ℕ → List ℕ → List Received → Client → Outcome (List ℕ × Client × List Received)
recv_body size stack rs c =
    if ltb 0 size && leb size body_capacity
    then (recv_bytes size rs >>= λ (ok, bs, rest).
        done (bs ++ drop (length bs) stack, (if ok then c else record c { running = false }), rest))
    else done (stack, c, rs)

-- `switch (header.type)`
unfoldable pub on_message : MsgHeader → MsgType → List ℕ → Client → Client
on_message h new_order_confirm body c =
    let msg = read_new_order_confirm h body in
    record c {
      printed = c.printed ++ (shows_new msg ∷ []);
      internal_to_exchange = insert msg.client_order_id msg.order_id c.internal_to_exchange;
    }
on_message h modify_order_confirm body c =
    prints (shows_modify (read_modify_order_confirm h body)) c
on_message h cancel_order_confirm body c =
    prints (shows_cancel (read_cancel_order_confirm h body)) c
on_message h trade_confirm body c = prints (shows_trade (read_trade_confirm h body)) c
on_message h reject_msg body c = prints (shows_reject (read_reject h body)) c
on_message h market_update body c =
    prints (shows_market (market_line (read_market_update h body))) c
on_message h _ body c = prints (shows_unknown h) c

-- One round of `recvThreadFunc`.
unfoldable pub recv_round : List ℕ → List Received → Client → Outcome (Client × List Received)
recv_round stack rs c =
    (recv_bytes header_size rs >>= λ (ok, bs, rest).
    if ok
    then (let h = (read_header bs).0 in
        recv_body (body_size h) stack rest c >>= λ (body, c', rest').
        done (on_message h h.type body c', rest'))
    else done (record (prints server_disconnected c) { running = false }, rest))

-- What the receive thread finds in a round: whether another thread has stopped the client, and what
-- is in the memory of `body`.
pub record RecvRound : Type 0 where
  pub stopped : Bool
  pub stack : List ℕ

-- `while (gRunning)` of `recvThreadFunc`
unfoldable pub recv_thread :
    List RecvRound → List Received → Client → Outcome (Client × List Received)
recv_thread [] rs c = out_of_fuel
recv_thread (r ∷ rounds) rs c = elim (c.running && not r.stopped) [
  | true ↦ (recv_round r.stack rs c >>= λ (c', rest). recv_thread rounds rest c')
  | false ↦ done (record c { running = false }, rs)
]
