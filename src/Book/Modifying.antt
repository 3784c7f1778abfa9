-- ===== src/Book/Modifying.antt =====
-- The two branches of `modifyOrder` on an order that is found: what they make of the book.
use exchnage_simulator.Prelude.{
  ℕ, ltb, erase_self, insert-erase, insert-erase_same, ◌<◌, ◌^◌, insert, ◌≡◌, refl, sym, ap, ◌∙◌,
  inl, inr, Bool, subst, Option, none, some, ◌==◌, if◌then◌else◌, ◌&&◌, done, arith, not,
  Bool-cases,
}
use exchnage_simulator.Core.{
  Side, is_buy, BookElement, modify_ack, reject, confirm, md_modify, md_update, unknown_order,
}
use exchnage_simulator.Levels.{Levels, remove_from_level, insert_into_level}
use exchnage_simulator.Levels.Place.{place, appended}
use exchnage_simulator.Book.State.{
  OrderDetails, Store, OrderBook, Sink, push_confirm, push_md, drop_order,
}
use exchnage_simulator.Book.Api.{own_side, modify_in_place, reinsert, modify_owned}
use exchnage_simulator.Book.Spec.{Resting, withdraw, enqueue}
use exchnage_simulator.Book.View.{resting, view_levels}
use exchnage_simulator.Book.Entry.{add_entry}
use exchnage_simulator.Book.Valid.{IsValid, half, with_half}
use exchnage_simulator.Book.Sides.{Sound-own, IsValid-own, view-with_half, view_of_half}
use exchnage_simulator.Book.Sound.{Sound}
use exchnage_simulator.Book.Resizing.{resized}
use exchnage_simulator.Book.Adding.{Joined, joins}
use exchnage_simulator.Book.Leaving.{Left, leaves, left_levels}
use exchnage_simulator.Book.Found.{own_side-is_buy, Found}
use exchnage_simulator.Book.Rules.{view, orders_of, with_orders}
use exchnage_simulator.Book.Keeping.{below, opp_same, kept, run_kept}

-- What is told of a modification.
abbrev pub modify_report : ℕ → ℕ → ℕ → ℕ → ℕ → Side → Option (Bool × Resting) → Sink → Sink
modify_report id trader price qty symbol d found out = elim found [
  | none ↦ push_confirm (confirm reject id 0 trader symbol 0 0 unknown_order) out
  | some x ↦
      push_confirm (confirm modify_ack id 0 trader symbol 0 0 unknown_order)
        (push_md (md_update symbol id d price qty md_modify) out)
]

module _ (b : OrderBook) (h : IsValid b) (id a trader price qty : ℕ) (small : qty < 2 ^ 32)
    (f : Found b id a trader) where
  abbrev side : Side
  side = f.details.side

  abbrev elem : BookElement
  elem = f.at.linked.elem

  abbrev own : Levels
  own = half (is_buy side) b

  abbrev opp : Levels
  opp = half (not (is_buy side)) b

  abbrev own_sound : Sound (own_side side) opp b.store own
  own_sound = Sound-own b side h

  -- Taken out and put in at the new price.
  abbrev pub left : Left (own_side side) own opp b.store own_sound a f.at
  left = leaves (own_side side) own opp b.store own_sound a f.at

  abbrev pub levels_left : Levels
  levels_left = left_levels (own_side side) own opp b.store own_sound a f.at

  abbrev pub store_left : Store
  store_left = drop_order elem.id a b.store

  abbrev pub moved : OrderDetails
  moved = record (f.details) { price = price; quantity = qty }

  rejoined :
      Joined
        (own_side side)
        levels_left
        opp
        store_left
        left.sound
        elem.id
        a
        (resized elem qty)
        moved
        b.store.next_addr
        (erase_self a b.store.heap)
        (erase_self elem.id b.store.order_map)
        refl
        small
        (own_side-is_buy side)
        (omega arith)
        (below b h id a trader price qty small f)
        (omega arith)
  rejoined =
      joins (own_side side) levels_left opp store_left left.sound elem.id a (resized elem qty) moved
        b.store.next_addr (erase_self a b.store.heap) (erase_self elem.id b.store.order_map) refl
        small (own_side-is_buy side) (omega arith) (below b h id a trader price qty small f)
        (omega arith)

  -- The store that the code makes is that of an entry that left and came back.
  abbrev pub store_moved : ℕ → Store
  store_moved i = record (b.store) {
    heap = insert a (resized elem qty) b.store.heap;
    order_details = insert i moved b.store.order_details;
  }

  same_store :
      add_entry elem.id a (resized elem qty) moved b.store.next_addr store_left
      ≡ store_moved elem.id
  same_store = λ i. record {
    heap = insert-erase a (resized elem qty) b.store.heap i;
    next_addr = b.store.next_addr;
    order_map = insert-erase_same elem.id a b.store.order_map f.at.linked.mapped i;
    order_details = insert-erase elem.id moved b.store.order_details i;
  }

  abbrev pub levels_moved : Levels
  levels_moved = place (own_side side) price (appended a qty) levels_left

  abbrev pub moved_book : ℕ → OrderBook
  moved_book i = with_half (is_buy side) levels_moved (store_moved i) b

  pub moved-IsValid : IsValid (moved_book id)
  moved-IsValid =
      subst (λ i. IsValid (moved_book i)) f.named
        (IsValid-own b side levels_moved _ h
          (subst (λ st. Sound (own_side side) opp st levels_moved) same_store rejoined.sound))

  abbrev pub requeued : Resting
  requeued = record (resting elem f.at.price) { quantity = qty; price = price }

  moved_view :
      view_levels (store_moved elem.id).heap levels_moved
      ≡ enqueue (own_side side) requeued (withdraw elem.id (orders_of (is_buy side) (view b)))
  moved_view =
      subst
        (λ st.
          view_levels st.heap levels_moved
          ≡ enqueue (own_side side) requeued (withdraw elem.id (orders_of (is_buy side) (view b))))
        same_store
        (rejoined.own_view
          ∙ ap (enqueue (own_side side) requeued)
              (left.own_view ∙ ap (withdraw elem.id) (view_of_half b (is_buy side))))

  pub moved_market :
      view (moved_book id)
      ≡ with_orders
          (is_buy side)
          (enqueue (own_side side) requeued (withdraw id (orders_of (is_buy side) (view b))))
          (view b)
  moved_market =
      subst
        (λ i.
          view (moved_book i)
          ≡ with_orders (is_buy side)
              (enqueue (own_side side) requeued (withdraw i (orders_of (is_buy side) (view b))))
              (view b))
        f.named
        (view-with_half b (is_buy side) levels_moved _
            (opp_same b h id a trader price qty small f (resized elem qty))
          ∙ ap (λ rs. with_orders (is_buy side) rs (view b)) moved_view)

  take_out : remove_from_level b.store.heap a f.details.price own ≡ done levels_left
  take_out =
      subst (λ p. remove_from_level b.store.heap a p own ≡ done levels_left) f.same_price left.runs

  put_in :
      insert_into_level (own_side side) (store_moved id).heap a price levels_left
      ≡ done levels_moved
  put_in =
      subst (λ k. insert_into_level (own_side side) k a price levels_left ≡ done levels_moved)
        (insert-erase a (resized elem qty) b.store.heap) rejoined.runs

  run_moved : reinsert id a elem f.details price qty b ≡ done (moved_book id)
  unfolding reinsert
  run_moved = rw (take_out, put_in)

  -- The test that decides between the two.
  abbrev pub keeps : Bool
  keeps = (f.at.price == price) && ltb qty f.details.quantity

  abbrev pub outcome : OrderBook
  outcome = if keeps then kept b h id a trader price qty small f id else moved_book id

  abbrev pub tested : Bool
  tested = (f.details.price == price) && ltb qty f.details.quantity

  tests_alike : tested ≡ keeps
  tests_alike = ap (λ p. (p == price) && ltb qty f.details.quantity) (sym f.same_price)

  modify_branch :
      (if tested
        then done (modify_in_place id a elem f.details qty b)
        else reinsert id a elem f.details price qty b)
      ≡ done outcome
  modify_branch = elim (Bool-cases tested) [
    | inl e ↦ rw (e, ← tests_alike, e) (ap done (run_kept b h id a trader price qty small f))
    | inr e ↦ rw (e, ← tests_alike, e) run_moved
  ]

  pub run_owned :
      (out : Sink)
      → modify_owned id trader price qty a elem b out
        ≡ done (
          outcome,
          modify_report id trader price qty b.symbol side
              (some (is_buy side, resting elem f.at.price))
              out,
        )
  unfolding modify_owned
  run_owned out = rw (f.detailed, modify_branch)
