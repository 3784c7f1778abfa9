-- ===== src/Client/Console.antt =====
-- client/src/main.cpp: the input loop of `main`.
use exchnage_simulator.Prelude.{
  codes, ℕ, Bool, true, false, ◌&&◌, ◌||◌, not, ◌==◌, if◌then◌else◌, Option, none, some, List, [],
  ◌∷◌, map, Outcome, done, out_of_fuel, ◌>>=◌,
}
use exchnage_simulator.Core.{buy, sell}
use exchnage_simulator.Wire.{
  MsgHeader, new_order_request, modify_order_request, cancel_order_request, NewOrderRequestMsg,
  ModifyOrderRequestMsg, CancelOrderRequestMsg, new_order_request_size, modify_order_request_size,
  cancel_order_request_size, new_order_request_bytes, modify_order_request_bytes,
  cancel_order_request_bytes,
}
use exchnage_simulator.Client.Text.{same_text, read_word}
use exchnage_simulator.Client.Fields.{
  NewFields, ModifyFields, CancelFields, read_new_fields, read_modify_fields, read_cancel_fields,
}
use exchnage_simulator.Client.Arrivals.{on_message}
use exchnage_simulator.Client.Session.{
  Client, prints, send_or_stop, invalid_new, invalid_modify, invalid_cancel, unknown_internal_id,
  unknown_action,
}

-- `for (char& c : line) { if (c == ',') c = ' '; }`
unfoldable pub clean_commas : List ℕ → List ℕ
clean_commas = map (λ c. if c == b',' then 32 else c)

unfoldable pub new_order_of : NewFields → NewOrderRequestMsg
new_order_of f = record {
  header = record { length = new_order_request_size; type = new_order_request };
  client_order_id = f.internal_id;
  symbol_id = f.symbol_id;
  side = if same_text f.side_text (codes "BUY") then buy else sell;
  price = f.price;
  qty = f.qty;
}

unfoldable pub modify_order_of : ℕ → ModifyFields → ModifyOrderRequestMsg
modify_order_of exchange_id f = record {
  header = record { length = modify_order_request_size; type = modify_order_request };
  order_id = exchange_id;
  symbol_id = f.symbol_id;
  price = f.price;
  qty = f.qty;
}

unfoldable pub cancel_order_of : ℕ → CancelFields → CancelOrderRequestMsg
cancel_order_of exchange_id f = record {
  header = record { length = cancel_order_request_size; type = cancel_order_request };
  order_id = exchange_id;
  symbol_id = f.symbol_id;
}

-- The lookup in `internalToExchange`, 0 if the id is not there.
unfoldable pub exchange_id : ℕ → Client → ℕ
exchange_id id c = elim (c.internal_to_exchange id) [ none ↦ 0 | some e ↦ e ]

unfoldable pub on_new : List ℕ → Client → Outcome Client
on_new s c = elim (read_new_fields s) [
  | none ↦ done (prints invalid_new c)
  | some (f, rest) ↦ send_or_stop (new_order_request_bytes (new_order_of f)) c
]

-- Of the exchange's id, which is 0 if there is none.
unfoldable pub send_for : ℕ → ℕ → List ℕ → Client → Outcome Client
send_for internal exchange bs c =
    if exchange == 0 then done (prints (unknown_internal_id internal) c) else send_or_stop bs c

unfoldable pub on_modify : List ℕ → Client → Outcome Client
on_modify s c = elim (read_modify_fields s) [
  | none ↦ done (prints invalid_modify c)
  | some (f, rest) ↦
      let id = exchange_id f.internal_id c in
      send_for f.internal_id id (modify_order_request_bytes (modify_order_of id f)) c
]

unfoldable pub on_cancel : List ℕ → Client → Outcome Client
on_cancel s c = elim (read_cancel_fields s) [
  | none ↦ done (prints invalid_cancel c)
  | some (f, rest) ↦
      let id = exchange_id f.internal_id c in
      send_for f.internal_id id (cancel_order_request_bytes (cancel_order_of id f)) c
]

unfoldable pub on_action : List ℕ → List ℕ → Client → Outcome Client
on_action action s c =
    if same_text action (codes "N")
    then on_new s c
    else if same_text action (codes "M")
    then on_modify s c
    else if same_text action (codes "C")
    then on_cancel s c
    else done (prints (unknown_action action) c)

-- `ss >> action`; the word is empty if there is none.
unfoldable pub on_request : List ℕ → Client → Outcome Client
on_request s c = elim (read_word s) [
  | none ↦ on_action [] s c
  | some (action, rest) ↦ on_action action rest c
]

unfoldable pub is_quit : List ℕ → Bool
is_quit line =
    same_text line (codes "quit") || same_text line (codes "q") || same_text line (codes "exit")

-- `line.empty() || line[0] == '#'`
unfoldable pub is_comment : List ℕ → Bool
is_comment [] = true
is_comment (c ∷ cs) = c == b'#'

unfoldable pub on_line : List ℕ → Client → Outcome Client
on_line line c =
    if is_comment line
    then done c
    else if is_quit line
    then done (record c { running = false })
    else on_request (clean_commas line) c

-- What the receive thread does with the messages that come meanwhile.
unfoldable pub hear_all : List (MsgHeader × List ℕ) → Client → Client
hear_all [] c = c
hear_all ((h, body) ∷ ms) c = hear_all ms (on_message h h.type body c)

-- What the input loop finds in a round: the messages that the receive thread has handled since the
-- last line, whether another thread has stopped the client, and the line that `getline` gives, if any.
pub record Prompt : Type 0 where
  pub heard : List (MsgHeader × List ℕ)
  pub stopped : Bool
  pub line : Option (List ℕ)

-- `while (gRunning)` of `main`
unfoldable pub run_input : List Prompt → Client → Outcome Client
run_input [] c = out_of_fuel
run_input (p ∷ ps) c =
    let c1 = hear_all p.heard c in
    elim (c1.running && not p.stopped) [
      | true ↦ elim p.line [ none ↦ done c1 | some line ↦ (on_line line c1 >>= run_input ps) ]
      | false ↦ done (record c1 { running = false })
    ]
