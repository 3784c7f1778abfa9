-- ===== src/Book/Sides.antt =====
-- A valid book from the side that an order meets and from the side that it joins.
use exchnage_simulator.Prelude.{◌≡◌, refl, Bool, true, false, not}
use exchnage_simulator.Core.{Side, buy, sell, other, is_buy}
use exchnage_simulator.Levels.{Levels}
use exchnage_simulator.Book.State.{Store, OrderBook, get_book, set_book}
use exchnage_simulator.Book.Api.{passive_side, own_side}
use exchnage_simulator.Book.Sound.{Sound}
use exchnage_simulator.Book.Valid.{IsValid, half, with_half, IsValid-Halves, Halves-IsValid}
use exchnage_simulator.Book.View.{view_levels}
use exchnage_simulator.Book.Rules.{view, with_orders, orders_of}

module _ (b : OrderBook) where
  pub get_book-passive : (s : Side) → get_book (passive_side s) b ≡ half (not (is_buy s)) b
  get_book-passive buy = refl
  get_book-passive sell = refl
  get_book-passive (other n) = refl

  pub set_book-passive :
      (s : Side) (ls : Levels) (st : Store)
      → set_book (passive_side s) ls (record b { store = st }) ≡ with_half (not (is_buy s)) ls st b
  set_book-passive buy ls st = refl
  set_book-passive sell ls st = refl
  set_book-passive (other n) ls st = refl

  pub Sound-passive :
      (s : Side)
      → IsValid b
      → Sound (passive_side s) (half (is_buy s) b) b.store (half (not (is_buy s)) b)
  Sound-passive buy h = (IsValid-Halves false b h).sound
  Sound-passive sell h = (IsValid-Halves true b h).sound
  Sound-passive (other n) h = (IsValid-Halves true b h).sound

  pub Sound-own :
      (s : Side)
      → IsValid b
      → Sound (own_side s) (half (not (is_buy s)) b) b.store (half (is_buy s) b)
  Sound-own buy h = (IsValid-Halves true b h).sound
  Sound-own sell h = (IsValid-Halves false b h).sound
  Sound-own (other n) h = (IsValid-Halves false b h).sound

  -- New levels and a new store on the passive side.
  pub IsValid-passive :
      (s : Side) (ls : Levels) (st : Store)
      → IsValid b
      → Sound (passive_side s) (half (is_buy s) b) st ls
      → IsValid (with_half (not (is_buy s)) ls st b)
  IsValid-passive buy ls st h k =
      Halves-IsValid false b ls st
        (record { sound = k; opp_ordered = h.bids_ordered; opp_distinct = h.bids_distinct })
  IsValid-passive sell ls st h k =
      Halves-IsValid true b ls st
        (record { sound = k; opp_ordered = h.asks_ordered; opp_distinct = h.asks_distinct })
  IsValid-passive (other n) ls st h k =
      Halves-IsValid true b ls st
        (record { sound = k; opp_ordered = h.asks_ordered; opp_distinct = h.asks_distinct })

  -- The same on the side that an order joins.
  pub IsValid-own :
      (s : Side) (ls : Levels) (st : Store)
      → IsValid b
      → Sound (own_side s) (half (not (is_buy s)) b) st ls
      → IsValid (with_half (is_buy s) ls st b)
  IsValid-own buy ls st h k =
      Halves-IsValid true b ls st
        (record { sound = k; opp_ordered = h.asks_ordered; opp_distinct = h.asks_distinct })
  IsValid-own sell ls st h k =
      Halves-IsValid false b ls st
        (record { sound = k; opp_ordered = h.bids_ordered; opp_distinct = h.bids_distinct })
  IsValid-own (other n) ls st h k =
      Halves-IsValid false b ls st
        (record { sound = k; opp_ordered = h.bids_ordered; opp_distinct = h.bids_distinct })

  pub half-with_half : (v : Bool) (ls : Levels) (st : Store) → half v (with_half v ls st b) ≡ ls
  half-with_half true ls st = refl
  half-with_half false ls st = refl

  pub half-with_half-not :
      (v : Bool) (ls : Levels) (st : Store) → half v (with_half (not v) ls st b) ≡ half v b
  half-with_half-not true ls st = refl
  half-with_half-not false ls st = refl

  pub half-not-with_half :
      (v : Bool) (ls : Levels) (st : Store) → half (not v) (with_half v ls st b) ≡ half (not v) b
  half-not-with_half true ls st = refl
  half-not-with_half false ls st = refl

  pub store-with_half : (v : Bool) (ls : Levels) (st : Store) → (with_half v ls st b).store ≡ st
  store-with_half true ls st = refl
  store-with_half false ls st = refl

  pub symbol-with_half :
      (v : Bool) (ls : Levels) (st : Store) → (with_half v ls st b).symbol ≡ b.symbol
  symbol-with_half true ls st = refl
  symbol-with_half false ls st = refl

  -- The view changes on one side, if the other one reads the same in the new store.
  pub view-with_half :
      (v : Bool) (ls : Levels) (st : Store)
      → view_levels st.heap (half (not v) b) ≡ view_levels b.heap (half (not v) b)
      → view (with_half v ls st b) ≡ with_orders v (view_levels st.heap ls) (view b)
  view-with_half true ls st e = λ i. record { bids = view_levels st.heap ls; asks = e i }
  view-with_half false ls st e = λ i. record { bids = e i; asks = view_levels st.heap ls }

  pub view_of_half : (v : Bool) → view_levels b.heap (half v b) ≡ orders_of v (view b)
  view_of_half true = refl
  view_of_half false = refl

  pub with_half_self :
      (v : Bool) (st : Store) → with_half v (half v b) st b ≡ record b { store = st }
  with_half_self true st = refl
  with_half_self false st = refl
