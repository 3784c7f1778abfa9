-- ===== src/Client/Tests.antt =====
-- The client at concrete lines.
use exchnage_simulator.Prelude.{
  codes, ℕ, ◌≡◌, ◌<◌, ◌^◌, refl, inl, inr, [], ◌∷◌, ◌++◌, empty_map, insert, done, ◌==◌,
  if◌then◌else◌, arith,
}
use exchnage_simulator.Core.{sell, buy}
use exchnage_simulator.Net.{sent}
use exchnage_simulator.Wire.{
  new_order_request, modify_order_request, cancel_order_request, new_order_request_bytes,
  modify_order_request_bytes, cancel_order_request_bytes,
}
use exchnage_simulator.Client.{
  Client, prints, unknown_internal_id, send_or_stop, exchange_id, on_line, new_client,
}
use exchnage_simulator.Client.Text.{same_text, is_space}
use exchnage_simulator.Client.Numbers.{IsNumber}
use exchnage_simulator.Client.Lines.{behind, IsGap, IsWord}
use exchnage_simulator.Client.Requests.{
  new_line, modify_line, cancel_line, on_line-new, on_line-modify, on_line-cancel,
}

-- Order 1 of the user is order 7 of the exchange.
abbrev one_order : Client
one_order = record (new_client (sent 24 ∷ sent 23 ∷ [])) {
  internal_to_exchange = insert 1 7 empty_map;
}

comma-IsGap : IsGap (codes ", ")
unfolding is_space
comma-IsGap = record { some_byte = omega arith; bytes = (inr refl, (inl refl, tt)) }

space-IsGap : IsGap (codes " ")
unfolding is_space
space-IsGap = record { some_byte = omega arith; bytes = (inl refl, tt) }

one-IsWord : IsWord (codes "1")
unfolding is_space
one-IsWord = record { some_byte = omega arith; no_space = (refl, tt); no_comma = (refl, tt) }

hundred-IsWord : IsWord (codes "100")
unfolding is_space
hundred-IsWord = record {
  some_byte = omega arith;
  no_space = (refl, (refl, (refl, tt)));
  no_comma = (refl, (refl, (refl, tt)));
}

buy-IsWord : IsWord (codes "BUY")
unfolding is_space
buy-IsWord = record {
  some_byte = omega arith;
  no_space = (refl, (refl, (refl, tt)));
  no_comma = (refl, (refl, (refl, tt)));
}

one-IsNumber : (w : ℕ) → 1 < 2 ^ w → IsNumber w (codes "1")
one-IsNumber w lt = record {
  digits = (omega arith, tt);
  some_digit = omega arith;
  fits = omega (arith, lt);
}

hundred-IsNumber : IsNumber 32 (codes "100")
hundred-IsNumber = record {
  digits = (omega arith, (omega arith, (omega arith, tt)));
  some_digit = omega arith;
  fits = omega arith;
}

-- "N, 1 1 BUY 100 1"
on_line-new_example :
    on_line
      (codes "N"
        ++ behind (
            new_line
              (codes ", ")
              (codes "1")
              (codes " ")
              (codes "1")
              (codes " ")
              (codes "BUY")
              (codes " ")
              (codes "100")
              (codes " ")
              (codes "1")))
      one_order
    ≡ send_or_stop
        (new_order_request_bytes (record {
          header = record { length = 24; type = new_order_request };
          client_order_id = 1;
          symbol_id = 1;
          side = buy;
          price = 100;
          qty = 1;
        }))
        one_order
unfolding same_text
on_line-new_example =
    on_line-new (codes ", ") (codes "1") (codes " ") (codes "1") (codes " ") (codes "BUY")
      (codes " ") (codes "100") (codes " ") (codes "1")
      (
        comma-IsGap,
        one-IsWord,
        (
          space-IsGap,
          one-IsWord,
          (space-IsGap, buy-IsWord, (space-IsGap, hundred-IsWord, (space-IsGap, one-IsWord, tt))),
        ),
      )
      (one-IsNumber 64 (omega arith)) (one-IsNumber 32 (omega arith)) hundred-IsNumber
      (one-IsNumber 32 (omega arith)) one_order

-- "M, 1 1 100 1"
on_line-modify_example :
    on_line
      (codes "M"
        ++ behind (
            modify_line
              (codes ", ")
              (codes "1")
              (codes " ")
              (codes "1")
              (codes " ")
              (codes "100")
              (codes " ")
              (codes "1")))
      one_order
    ≡ (if exchange_id 1 one_order == 0
        then done (prints (unknown_internal_id 1) one_order)
        else send_or_stop
            (modify_order_request_bytes (record {
              header = record { length = 23; type = modify_order_request };
              order_id = exchange_id 1 one_order;
              symbol_id = 1;
              price = 100;
              qty = 1;
            }))
            one_order)
on_line-modify_example =
    on_line-modify (codes ", ") (codes "1") (codes " ") (codes "1") (codes " ") (codes "100")
      (codes " ") (codes "1")
      (
        comma-IsGap,
        one-IsWord,
        (space-IsGap, one-IsWord, (space-IsGap, hundred-IsWord, (space-IsGap, one-IsWord, tt))),
      )
      (one-IsNumber 64 (omega arith)) (one-IsNumber 32 (omega arith)) hundred-IsNumber
      (one-IsNumber 32 (omega arith)) one_order

-- "C, 1 1"
on_line-cancel_example :
    on_line
      (codes "C" ++ behind (cancel_line (codes ", ") (codes "1") (codes " ") (codes "1")))
      one_order
    ≡ (if exchange_id 1 one_order == 0
        then done (prints (unknown_internal_id 1) one_order)
        else send_or_stop
            (cancel_order_request_bytes (record {
              header = record { length = 15; type = cancel_order_request };
              order_id = exchange_id 1 one_order;
              symbol_id = 1;
            }))
            one_order)
on_line-cancel_example =
    on_line-cancel (codes ", ") (codes "1") (codes " ") (codes "1")
      (comma-IsGap, one-IsWord, (space-IsGap, one-IsWord, tt)) (one-IsNumber 64 (omega arith))
      (one-IsNumber 32 (omega arith)) one_order

order_seven : exchange_id 1 one_order ≡ 7
unfolding exchange_id new_client insert empty_map
order_seven = refl

-- A word that is not BUY in capitals sells.
small_letters : (if same_text (codes "buy") (codes "BUY") then buy else sell) ≡ sell
unfolding same_text
small_letters = refl
