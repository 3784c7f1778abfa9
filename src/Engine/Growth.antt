-- ===== src/Engine/Growth.antt =====
-- A book of the engine changes, and the engine stays in order.
use exchnage_simulator.Prelude.{ℕ, suc, ◌≡◌, ◌≢◌, ◌≤◌, sym, ◌∙◌, some, arith}
use exchnage_simulator.Book.{OrderBook}
use exchnage_simulator.Book.Rules.{view}
use exchnage_simulator.Book.Valid.{IsValid}
use exchnage_simulator.Engine.{MatchingEngine}
use exchnage_simulator.Engine.Ids.{Ids, Ids-map, Ids-both}
use exchnage_simulator.Engine.Valid.{IsEngine, IsBook, Grows, with_book, with_book-IsEngine}

module _ (e : MatchingEngine) (h : IsEngine e) (s : ℕ) (b : OrderBook)
    (at : e.books s ≡ some b) where
  -- What a request shows of ids is what the book showed, and the next id at most.
  step-Grows :
      (n : ℕ) (b' : OrderBook)
      → e.next_order_id ≤ n
      → IsBook n s b'
      → ((P : ℕ → Type 0) → P e.next_order_id → Ids P (view b) → Ids P (view b'))
      → Grows e s n b'
  step-Grows n b' le book shows = record {
    later = le;
    book = book;
    ahead = λ t ne c k.
        shows _ (Ids-map _ _ (λ j i. omega arith) (view c) (h.book t c k).issued)
          (h.apart s t ne b c at k);
    behind = λ t ne c k.
        Ids-both _ _ _ (λ i lt i_apart. shows (λ j. i ≢ j) (omega arith) i_apart) (view c)
          (h.book t c k).issued (h.apart t s (λ x. ne (sym x)) c b k at);
  }

  pub keeps-IsEngine :
      (b' : OrderBook)
      → IsValid b'
      → b'.symbol ≡ b.symbol
      → ((P : ℕ → Type 0) → Ids P (view b) → Ids P (view b'))
      → IsEngine (with_book s b' e.next_order_id e)
  keeps-IsEngine b' valid same shows = with_book-IsEngine e s e.next_order_id b' h (
      step-Grows e.next_order_id b' (omega arith)
        (record {
          valid = valid;
          same = same ∙ (h.book s b at).same;
          issued = shows _ (h.book s b at).issued;
        })
        (λ P p. shows P))

  pub issues-IsEngine :
      (b' : OrderBook)
      → IsValid b'
      → b'.symbol ≡ b.symbol
      → ((P : ℕ → Type 0) → P e.next_order_id → Ids P (view b) → Ids P (view b'))
      → IsEngine (with_book s b' (suc e.next_order_id) e)
  issues-IsEngine b' valid same shows = with_book-IsEngine e s (suc e.next_order_id) b' h (
      step-Grows (suc e.next_order_id) b' (omega arith)
        (record {
          valid = valid;
          same = same ∙ (h.book s b at).same;
          issued =
              shows _ (omega arith)
                (Ids-map _ _ (λ i k. omega arith) (view b) (h.book s b at).issued);
        })
        shows)

-- An id that is issued to no book.
pub skips-IsEngine :
    (e : MatchingEngine) → IsEngine e → IsEngine (record e { next_order_id = suc e.next_order_id })
skips-IsEngine e h = record {
  book = λ s b m. record {
    valid = (h.book s b m).valid;
    same = (h.book s b m).same;
    issued = Ids-map _ _ (λ i k. omega arith) (view b) (h.book s b m).issued;
  };
  apart = h.apart;
}
