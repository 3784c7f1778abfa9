-- ===== src/Engine/Run.antt =====
-- The matching engine under any sequence of calls.
use exchnage_simulator.Prelude.{
  ℕ, suc, ◌+◌, ◌^◌, ◌≡◌, ◌<◌, refl, List, [], ◌∷◌, arith, Outcome, done, ◌>>=◌, length, All,
}
use exchnage_simulator.Core.{OrderRequest}
use exchnage_simulator.Book.{Sink}
use exchnage_simulator.Engine.{
  MatchingEngine, new_engine, initialize, on_order, on_cancel, on_modify,
}
use exchnage_simulator.Engine.Valid.{
  IsEngine, initialize-IsEngine, initialize-counter, new_engine-IsEngine,
}
use exchnage_simulator.Engine.Steps.{Served, on_order-Served, on_cancel-Served, on_modify-Served}

-- A call of one of the three handlers, with its arguments.
pub data Call : Type 0 where
  order : OrderRequest → Call
  cancel_call : ℕ → ℕ → ℕ → Call
  modify_call : ℕ → ℕ → ℕ → ℕ → ℕ → Call

unfoldable pub serve : Call → MatchingEngine → Sink → Outcome (MatchingEngine × Sink)
serve (order r) e out = on_order r e out
serve (cancel_call id s t) e out = on_cancel id s t e out
serve (modify_call id s t p q) e out = on_modify id s t p q e out

unfoldable pub serve_all : List Call → MatchingEngine → Sink → Outcome (MatchingEngine × Sink)
serve_all [] e out = done (e, out)
serve_all (c ∷ cs) e out = serve c e out >>= λ r. serve_all cs r.0 r.1

-- Quantities are 32-bit words.
abbrev pub Fits : Call → Type 0
Fits (order r) = r.quantity < 2 ^ 32
Fits (cancel_call id s t) = Unit
Fits (modify_call id s t p q) = q < 2 ^ 32

unfoldable pub initialized : List ℕ → MatchingEngine
initialized ss = initialize ss new_engine

serve-Served :
    (c : Call) (e : MatchingEngine) (out : Sink)
    → IsEngine e
    → Fits c
    → suc e.next_order_id < 2 ^ 64
    → Served 1 e (serve c e out)
unfolding serve
serve-Served (order r) e out h fits room = on_order-Served e h out r fits room
serve-Served (cancel_call id s t) e out h fits room =
    let k = on_cancel-Served e h out id s t in
    record {
      engine = k.engine;
      sink = k.sink;
      runs = k.runs;
      valid = k.valid;
      counter = omega (arith, k.counter);
    }
serve-Served (modify_call id s t p q) e out h fits room =
    let k = on_modify-Served e h out id s t p q fits in
    record {
      engine = k.engine;
      sink = k.sink;
      runs = k.runs;
      valid = k.valid;
      counter = omega (arith, k.counter);
    }

pub serve_all-Served :
    (cs : List Call) (e : MatchingEngine) (out : Sink)
    → IsEngine e
    → All Fits cs
    → length cs + e.next_order_id < 2 ^ 64
    → Served (length cs) e (serve_all cs e out)
unfolding serve_all
serve_all-Served [] e out h fits room = record {
  engine = e;
  sink = out;
  runs = refl;
  valid = h;
  counter = omega arith;
}
serve_all-Served (c ∷ cs) e out h fits room =
    let k = serve-Served c e out h fits.0 (omega arith) in
    let rest = serve_all-Served cs k.engine k.sink k.valid fits.1 (omega (arith, k.counter)) in
    record {
      engine = rest.engine;
      sink = rest.sink;
      runs = rw k.runs rest.runs;
      valid = rest.valid;
      counter = omega (arith, k.counter, rest.counter);
    }

-- Any sequence of orders, cancellations and modifications with 32-bit quantities, fewer than
-- 2 ^ 64 - 1 of them, on an engine that was initialised with any symbols: every call returns without
-- a fault; afterwards every book is valid and carries its symbol, every resting order has an id that
-- was issued, and no id rests in two books.
pub serve_all-IsEngine :
    (ss : List ℕ) (cs : List Call) (out : Sink)
    → All Fits cs
    → length cs + 1 < 2 ^ 64
    → (e : MatchingEngine) × (s : Sink) × (serve_all cs (initialized ss) out ≡ done (e, s))
      × IsEngine e
unfolding initialized new_engine
serve_all-IsEngine ss cs out fits room =
    let k =
      serve_all-Served cs (initialized ss) out
        (initialize-IsEngine ss new_engine new_engine-IsEngine) fits
        (omega (arith, initialize-counter ss new_engine)) in
    (k.engine, k.sink, k.runs, k.valid)
