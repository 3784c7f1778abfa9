-- ===== src/Engine/Steps.antt =====
-- Each handler of the matching engine returns and keeps the engine in order.
use exchnage_simulator.Prelude.{
  ℕ, suc, ◌+◌, ◌^◌, ◌≡◌, ◌≤◌, ◌<◌, refl, sym, subst, ap, ◌∙◌, none, some, Option-cases, arith, inl,
  inr, Outcome, done, add64,
}
use exchnage_simulator.Core.{OrderRequest}
use exchnage_simulator.Book.{OrderBook, Sink, add_order, cancel_order, modify_order, Reply}
use exchnage_simulator.Book.Rules.{view}
use exchnage_simulator.Book.Valid.{IsValid}
use exchnage_simulator.Book.AddOrder.{add_order-refines}
use exchnage_simulator.Book.CancelOrder.{cancel_order-refines}
use exchnage_simulator.Book.ModifyOrder.{placed_with, modify_order-refines}
use exchnage_simulator.Engine.{MatchingEngine, on_book, on_order, on_cancel, on_modify}
use exchnage_simulator.Engine.Ids.{Ids, unknown_above, add_rule-Ids, cancel_rule-Ids, modified-Ids}
use exchnage_simulator.Engine.Valid.{IsEngine, with_book}
use exchnage_simulator.Engine.Growth.{keeps-IsEngine, issues-IsEngine, skips-IsEngine}

module _ (s : ℕ) (act : OrderBook → Sink → Outcome Reply) (e : MatchingEngine) (out : Sink) where
  on_book-missing : e.books s ≡ none → on_book s act e out ≡ done (e, out)
  on_book-missing m = rw (on_book, m) refl

  on_book-present :
      (b b' : OrderBook) (out' : Sink)
      → e.books s ≡ some b
      → act b out ≡ done (b', out')
      → on_book s act e out ≡ done (with_book s b' e.next_order_id e, out')
  on_book-present b b' out' m runs = rw (on_book, m) (rw runs refl)

counts : (n : ℕ) → suc n < 2 ^ 64 → add64 n 1 ≡ suc n
counts n room = omega arith

-- A call returns, leaves the engine in order, and issues at most `n` ids.
pub record Served (n : ℕ) (e : MatchingEngine) (run : Outcome (MatchingEngine × Sink))
    : Type 0 where
  pub engine : MatchingEngine
  pub sink : Sink
  pub runs : run ≡ done (engine, sink)
  pub valid : IsEngine engine
  pub counter : engine.next_order_id ≤ n + e.next_order_id

-- A request that returns, keeps the book valid and shows no new id.
record Kept (act : OrderBook → Sink → Outcome Reply) (b : OrderBook) (out : Sink) : Type 1 where
  after : OrderBook
  told : Sink
  runs : act b out ≡ done (after, told)
  valid : IsValid after
  same : after.symbol ≡ b.symbol
  shows : (P : ℕ → Type 0) → Ids P (view b) → Ids P (view after)

module _ (e : MatchingEngine) (h : IsEngine e) (out : Sink) where
  counted :
      (r : OrderRequest)
      → suc e.next_order_id < 2 ^ 64
      → on_order r e out
        ≡ on_book r.symbol_id
            (add_order (record r { order_id = e.next_order_id }))
            (record e { next_order_id = suc e.next_order_id })
            out
  unfolding on_order
  counted r room =
      ap
        (λ n.
          on_book r.symbol_id (add_order (record r { order_id = e.next_order_id }))
            (record e { next_order_id = n }) out)
        (counts e.next_order_id room)

  pub on_order-Served :
      (r : OrderRequest)
      → r.quantity < 2 ^ 32
      → suc e.next_order_id < 2 ^ 64
      → Served 1 e (on_order r e out)
  unfolding on_order
  on_order-Served r small room = elim (Option-cases (e.books r.symbol_id)) [
    | inl m ↦ record {
      engine = record e { next_order_id = suc e.next_order_id };
      sink = out;
      runs =
          counted r room
          ∙ (on_book-missing r.symbol_id (add_order (record r { order_id = e.next_order_id }))
              (record e { next_order_id = suc e.next_order_id }) out m);
      valid = skips-IsEngine e h;
      counter = omega arith;
    }
    | inr (b, m) ↦
        let book = h.book r.symbol_id b m in
        let r' = record r { order_id = e.next_order_id } in
        let (b', runs, valid, market, same) =
          add_order-refines r' b out book.valid
            (unknown_above b e.next_order_id book.valid book.issued) small in
        record {
          engine = with_book r.symbol_id b' (suc e.next_order_id) e;
          sink = _;
          runs =
              counted r room
              ∙ (on_book-present r.symbol_id (add_order (record r { order_id = e.next_order_id }))
                  (record e { next_order_id = suc e.next_order_id }) out b b' _ m runs);
          valid =
              issues-IsEngine e h r.symbol_id b m b' valid same
                (λ P p k. subst (Ids P) (sym market) (add_rule-Ids P r' (view b) p k));
          counter = omega arith;
        }
  ]

  -- A handler that issues no id and has this effect on the book of its symbol.
  served :
      (s : ℕ) (act : OrderBook → Sink → Outcome Reply)
      → ((b : OrderBook) → IsValid b → Kept act b out)
      → Served 0 e (on_book s act e out)
  served s act keeps = elim (Option-cases (e.books s)) [
    | inl m ↦ record {
      engine = e;
      sink = out;
      runs = on_book-missing s act e out m;
      valid = h;
      counter = omega arith;
    }
    | inr (b, m) ↦
        let k = keeps b (h.book s b m).valid in
        record {
          engine = with_book s k.after e.next_order_id e;
          sink = k.told;
          runs = on_book-present s act e out b k.after k.told m k.runs;
          valid = keeps-IsEngine e h s b m k.after k.valid k.same k.shows;
          counter = omega arith;
        }
  ]

  pub on_cancel-Served : (id s trader : ℕ) → Served 0 e (on_cancel id s trader e out)
  unfolding on_cancel
  on_cancel-Served id s trader = served s (cancel_order id trader) (λ b v.
      let (b', d, runs, valid, market, told, same) = cancel_order-refines id trader b out v in
      record {
        after = b';
        told = _;
        runs = runs;
        valid = valid;
        same = same;
        shows = λ P k. subst (Ids P) (sym market) (cancel_rule-Ids P id trader (view b) k);
      })

  pub on_modify-Served :
      (id s trader price qty : ℕ)
      → qty < 2 ^ 32
      → Served 0 e (on_modify id s trader price qty e out)
  unfolding on_modify
  on_modify-Served id s trader price qty small = served s (modify_order id trader price qty) (λ b v.
      let (b', d, runs, valid, market, told, covers, as_placed, same) =
        modify_order-refines id trader price qty b out v small in
      record {
        after = b';
        told = _;
        runs = runs;
        valid = valid;
        same = same;
        shows = λ P k.
            subst (Ids P) (sym market)
              (modified-Ids P (placed_with id b) id trader price qty (view b) k);
      })
