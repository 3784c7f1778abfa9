-- ===== src/Engine/Valid.antt =====
-- When the matching engine is in order.
use exchnage_simulator.Prelude.{
  ℕ, ◌≡◌, ◌≢◌, ◌≤◌, ◌<◌, refl, sym, some, List, [], ◌∷◌, arith, inl, inr, insert, insert-cases,
  subst, ◌∙◌, empty_map,
}
use exchnage_simulator.Book.{OrderBook, init}
use exchnage_simulator.Book.Rules.{view}
use exchnage_simulator.Book.Valid.{IsValid, init-IsValid}
use exchnage_simulator.Engine.{MatchingEngine, new_engine, initialize}
use exchnage_simulator.Engine.Ids.{Ids, init-Ids, Ids-map, Ids-all}

-- The book of a symbol: it is valid, carries its symbol, and shows only ids that were issued.
pub record IsBook (next symbol : ℕ) (b : OrderBook) : Type 0 where
  pub valid : IsValid b
  pub same : b.symbol ≡ symbol
  pub issued : Ids (λ i. i < next) (view b)

-- No order id rests in both books.
abbrev pub Apart : OrderBook → OrderBook → Type 0
Apart b c = Ids (λ i. Ids (λ j. i ≢ j) (view c)) (view b)

pub record IsEngine (e : MatchingEngine) : Type 0 where
  pub book : (s : ℕ) (b : OrderBook) → e.books s ≡ some b → IsBook e.next_order_id s b
  pub apart :
      (s t : ℕ) → s ≢ t → (b c : OrderBook) → e.books s ≡ some b → e.books t ≡ some c → Apart b c

abbrev pub with_book : ℕ → OrderBook → ℕ → MatchingEngine → MatchingEngine
with_book s b n e = record { books = insert s b e.books; next_order_id = n }

-- A book changes, and it shows at most the new id `next` besides the ids that it showed.
pub record Grows (e : MatchingEngine) (s n : ℕ) (b' : OrderBook) : Type 0 where
  pub later : e.next_order_id ≤ n
  pub book : IsBook n s b'
  pub ahead : (t : ℕ) → s ≢ t → (c : OrderBook) → e.books t ≡ some c → Apart b' c
  pub behind : (t : ℕ) → s ≢ t → (c : OrderBook) → e.books t ≡ some c → Apart c b'

IsBook-later : (m n s : ℕ) (b : OrderBook) → m ≤ n → IsBook m s b → IsBook n s b
IsBook-later m n s b le h = record {
  valid = h.valid;
  same = h.same;
  issued = Ids-map _ _ (λ i k. omega arith) (view b) h.issued;
}

pub with_book-IsEngine :
    (e : MatchingEngine) (s n : ℕ) (b' : OrderBook)
    → IsEngine e
    → Grows e s n b'
    → IsEngine (with_book s b' n e)
with_book-IsEngine e s n b' h g = record { book = books; apart = parts }
  where
    books : (t : ℕ) (c : OrderBook) → insert s b' e.books t ≡ some c → IsBook n t c
    books t c m = elim (insert-cases s t b' c e.books m) [
      | inl (k, at) ↦ rw (← k, ← at) g.book
      | inr (k, at) ↦ IsBook-later e.next_order_id n t c g.later (h.book t c at)
    ]

    parts :
        (t u : ℕ)
        → t ≢ u
        → (c d : OrderBook) → insert s b' e.books t ≡ some c
        → insert s b' e.books u ≡ some d
        → Apart c d
    parts t u ne c d m k = elim (insert-cases s t b' c e.books m) [
      | inl (x, at) ↦ elim (insert-cases s u b' d e.books k) [
        | inl (y, at') ↦ absurd (ne (sym x ∙ y))
        | inr (y, at') ↦ subst (λ z. Apart z d) at (g.ahead u y d at')
      ]
      | inr (x, at) ↦ elim (insert-cases s u b' d e.books k) [
        | inl (y, at') ↦ subst (λ z. Apart c z) at' (g.behind t x c at)
        | inr (y, at') ↦ h.apart t u ne c d at at'
      ]
    ]

init-symbol : (s : ℕ) → (init s).symbol ≡ s
unfolding init
init-symbol s = refl

-- A new book is empty.
init-Grows : (e : MatchingEngine) (s : ℕ) → Grows e s e.next_order_id (init s)
init-Grows e s = record {
  later = omega arith;
  book = record { valid = init-IsValid s; same = init-symbol s; issued = init-Ids _ s };
  ahead = λ t ne c m. init-Ids _ s;
  behind = λ t ne c m. Ids-all _ (λ i. init-Ids _ s) (view c);
}

-- An engine with an empty book for each symbol is in order.
pub initialize-IsEngine :
    (ss : List ℕ) (e : MatchingEngine) → IsEngine e → IsEngine (initialize ss e)
unfolding initialize
initialize-IsEngine [] e h = h
initialize-IsEngine (s ∷ ss) e h =
    initialize-IsEngine ss (with_book s (init s) e.next_order_id e)
      (with_book-IsEngine e s e.next_order_id (init s) h (init-Grows e s))

pub new_engine-IsEngine : IsEngine new_engine
unfolding new_engine empty_map
new_engine-IsEngine = record { book = λ s b m. cc; apart = λ s t ne b c m k. cc }

pub initialize-counter :
    (ss : List ℕ) (e : MatchingEngine) → (initialize ss e).next_order_id ≡ e.next_order_id
unfolding initialize
initialize-counter [] e = refl
initialize-counter (s ∷ ss) e = initialize-counter ss (with_book s (init s) e.next_order_id e)
