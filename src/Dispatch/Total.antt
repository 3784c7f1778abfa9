-- ===== src/Dispatch/Total.antt =====
-- The matching thread survives every sequence of messages.
use exchnage_simulator.Prelude.{
  ℕ, suc, ◌+◌, ◌≡◌, ◌<◌, ◌≤◌, ◌^◌, refl, Option, none, some, inl, inr, List, [], ◌∷◌, ◌++◌, All,
  length, ltb, Bool, Bool-cases, true, false, arith, Outcome, done, ◌>>=◌, if◌then◌else◌,
}
use exchnage_simulator.Core.{RequestType, OrderRequest, new_order, cancel, modify}
use exchnage_simulator.Book.{Sink, empty_sink}
use exchnage_simulator.Engine.{MatchingEngine, new_engine, on_order, on_cancel, on_modify}
use exchnage_simulator.Engine.Valid.{
  IsEngine, initialize-IsEngine, initialize-counter, new_engine-IsEngine,
}
use exchnage_simulator.Engine.Steps.{Served, on_order-Served, on_cancel-Served, on_modify-Served}
use exchnage_simulator.Wire.{
  MsgType, read_header, new_order_request, modify_order_request, cancel_order_request,
  read_new_order_request, read_modify_order_request, to_order_request_new, to_order_request_cancel,
  to_order_request_modify,
}
use exchnage_simulator.Wire.Bytes.{AreBytes, read_bytes-bound}
use exchnage_simulator.Framing.{RawMessage}
use exchnage_simulator.Dispatch.{
  MatchingThread, Input, Sent, parse_body, parse_request, call_engine, on_raw, run_thread,
  start_thread, publish, deliver, multicast,
}

header_bytes-AreBytes : (bs : List ℕ) → AreBytes bs → AreBytes (read_header bs).1
unfolding read_header
header_bytes-AreBytes bs h = (read_bytes-bound 1 _ (read_bytes-bound 2 bs h).1).1

-- Quantities that come from four bytes fit 32 bits.
new-qty : (bs : List ℕ) → AreBytes bs → (read_new_order_request bs).qty < 2 ^ 32
unfolding read_new_order_request
new-qty bs h =
    let c = read_bytes-bound 8 _ (header_bytes-AreBytes bs h) in
    let s = read_bytes-bound 4 _ c.1 in
    let d = read_bytes-bound 1 _ s.1 in
    let p = read_bytes-bound 4 _ d.1 in (read_bytes-bound 4 _ p.1).0

modify-qty : (bs : List ℕ) → AreBytes bs → (read_modify_order_request bs).qty < 2 ^ 32
unfolding read_modify_order_request
modify-qty bs h =
    let c = read_bytes-bound 8 _ (header_bytes-AreBytes bs h) in
    let s = read_bytes-bound 4 _ c.1 in
    let p = read_bytes-bound 4 _ s.1 in (read_bytes-bound 4 _ p.1).0

-- Every request that a message is parsed into has a 32-bit quantity.
abbrev Small : Option OrderRequest → Type 0
Small o = elim o [ none ↦ Unit {0} | some r ↦ r.quantity < 2 ^ 32 ]

guarded : (t : Bool) (r : OrderRequest) → r.quantity < 2 ^ 32 → Small (if t then none else some r)
guarded true r k = tt
guarded false r k = k

body-Small :
    (now : ℕ) (raw : RawMessage) (t : MsgType) → AreBytes raw.bytes → Small (parse_body now raw t)
unfolding parse_body to_order_request_new to_order_request_cancel to_order_request_modify
body-Small now raw new_order_request h = guarded _ _ (new-qty raw.bytes h)
body-Small now raw cancel_order_request h = guarded _ _ (omega arith)
body-Small now raw modify_order_request h = guarded _ _ (modify-qty raw.bytes h)
body-Small now raw _ h = tt

parse-Small : (now : ℕ) (raw : RawMessage) → AreBytes raw.bytes → Small (parse_request now raw)
unfolding parse_request
parse-Small now raw h = elim (Bool-cases (ltb raw.length 3)) [
  | inl e ↦ rw (parse_request, e) tt
  | inr e ↦ rw (parse_request, e) (body-Small now raw (read_header raw.bytes).0.type h)
]

module _ (e : MatchingEngine) (h : IsEngine e) (out : Sink) where
  call_engine-Served :
      (r : OrderRequest)
      → r.quantity < 2 ^ 32
      → suc e.next_order_id < 2 ^ 64
      → Served 1 e (call_engine r e out)
  unfolding call_engine
  call_engine-Served r small room = by_type r.request_type
    where
      one : {run : Outcome (MatchingEngine × Sink)} → Served 0 e run → Served 1 e run
      one k = record {
        engine = k.engine;
        sink = k.sink;
        runs = k.runs;
        valid = k.valid;
        counter = omega (arith, k.counter);
      }

      by_type :
          (t : RequestType)
          → Served 1 e (elim t [
            | new_order ↦ on_order r e out
            | cancel ↦ on_cancel r.order_id r.symbol_id r.trader_id e out
            | modify ↦ on_modify r.order_id r.symbol_id r.trader_id r.price r.quantity e out
          ])
      by_type new_order = on_order-Served e h out r small room
      by_type cancel = one (on_cancel-Served e h out r.order_id r.symbol_id r.trader_id)
      by_type modify =
          one (on_modify-Served e h out r.order_id r.symbol_id r.trader_id r.price r.quantity small)

-- A run returns, leaves the engine in order, and issues at most `n` ids.
record Survived (n : ℕ) (t : MatchingThread) (run : Outcome (MatchingThread × List Sent))
    : Type 0 where
  thread : MatchingThread
  sent : List Sent
  runs : run ≡ done (thread, sent)
  valid : IsEngine thread.engine
  counter : thread.engine.next_order_id ≤ n + t.engine.next_order_id

on_raw-Survived :
    (i : Input) (t : MatchingThread)
    → IsEngine t.engine
    → AreBytes i.raw.bytes
    → suc t.engine.next_order_id < 2 ^ 64
    → Survived 1 t (on_raw i t)
unfolding on_raw
on_raw-Survived i t h bytes room =
    by_request (parse_request i.now i.raw) (parse-Small i.now i.raw bytes)
  where
    by_request :
        (o : Option OrderRequest)
        → Small o
        → Survived 1 t (elim o [
          | none ↦ done (t, [])
          | some req ↦
              (call_engine req t.engine empty_sink >>= λ r. done (
                record { engine = r.0; market = publish req.symbol_id r.0 r.1.confirms t.market },
                deliver i.sessions r.1.confirms ++ multicast i.all_fds r.1.md,
              ))
        ])
    by_request none small = record {
      thread = t;
      sent = [];
      runs = refl;
      valid = h;
      counter = omega arith;
    }
    by_request (some req) small =
        let k = call_engine-Served t.engine h empty_sink req small room in
        record {
          thread = record {
            engine = k.engine;
            market = publish req.symbol_id k.engine k.sink.confirms t.market;
          };
          sent = deliver i.sessions k.sink.confirms ++ multicast i.all_fds k.sink.md;
          runs = rw k.runs refl;
          valid = k.valid;
          counter = k.counter;
        }

run_thread-Survived :
    (is : List Input) (t : MatchingThread)
    → IsEngine t.engine
    → All (λ i. AreBytes i.raw.bytes) is
    → length is + t.engine.next_order_id < 2 ^ 64
    → Survived (length is) t (run_thread is t)
unfolding run_thread
run_thread-Survived [] t h bytes room = record {
  thread = t;
  sent = [];
  runs = refl;
  valid = h;
  counter = omega arith;
}
run_thread-Survived (i ∷ is) t h bytes room =
    let k = on_raw-Survived i t h bytes.0 (omega arith) in
    let rest = run_thread-Survived is k.thread k.valid bytes.1 (omega (arith, k.counter)) in
    record {
      thread = rest.thread;
      sent = k.sent ++ rest.sent;
      runs = rw k.runs (rw rest.runs refl);
      valid = rest.valid;
      counter = omega (arith, k.counter, rest.counter);
    }

-- The thread gets any sequence of raw messages of any bytes, of any lengths and types, fewer than
-- 2 ^ 64 - 1, with any sessions and clocks in between: it handles every one without a fault, and its
-- engine is in order at the end.
pub run_thread-IsEngine :
    (is : List Input)
    → All (λ i. AreBytes i.raw.bytes) is
    → length is + 1 < 2 ^ 64
    → (t : MatchingThread) × (sent : List Sent) × (run_thread is start_thread ≡ done (t, sent))
      × IsEngine t.engine
unfolding start_thread new_engine
run_thread-IsEngine is bytes room =
    let k =
      run_thread-Survived is start_thread
        (initialize-IsEngine (0 ∷ 1 ∷ 2 ∷ 3 ∷ 4 ∷ []) new_engine new_engine-IsEngine) bytes
        (omega (arith, initialize-counter (0 ∷ 1 ∷ 2 ∷ 3 ∷ 4 ∷ []) new_engine)) in
    (k.thread, k.sent, k.runs, k.valid)
