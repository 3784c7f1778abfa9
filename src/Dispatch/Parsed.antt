-- ===== src/Dispatch/Parsed.antt =====
-- A client's request, as the queue carries it, and what the matching thread parses it to.
use exchnage_simulator.Prelude.{
  ℕ, ◌-◌, ◌≡◌, ◌<◌, ◌^◌, refl, sym, ap, ◌∙◌, subst, false, some, List, [], ◌∷◌, ◌++◌, append_assoc,
  length, take, replicate, ltb, arith,
}
use exchnage_simulator.Core.{OrderRequest}
use exchnage_simulator.Wire.{
  MsgHeader, byte_of_side, new_order_request, modify_order_request, cancel_order_request,
  type_of_byte, NewOrderRequestMsg, ModifyOrderRequestMsg, CancelOrderRequestMsg, header_bytes,
  read_header, new_order_request_bytes, modify_order_request_bytes, cancel_order_request_bytes,
  to_order_request_new, to_order_request_modify, to_order_request_cancel,
}
use exchnage_simulator.Wire.Bytes.{to_bytes}
use exchnage_simulator.Wire.Roundtrip.{IsHeader, IsSideByte, read_header-bytes}
use exchnage_simulator.Wire.Padded.{
  read_new_order_request-append, read_modify_order_request-append, read_cancel_order_request-append,
}
use exchnage_simulator.Framing.{RawMessage, raw_message, max_raw_msg_size}
use exchnage_simulator.Dispatch.{parse_body, parse_request}

-- A request of a client.
pub data ClientRequest : Type 0 where
  asks_new : NewOrderRequestMsg → ClientRequest
  asks_modify : ModifyOrderRequestMsg → ClientRequest
  asks_cancel : CancelOrderRequestMsg → ClientRequest

abbrev pub request_bytes : ClientRequest → List ℕ
request_bytes (asks_new m) = new_order_request_bytes m
request_bytes (asks_modify m) = modify_order_request_bytes m
request_bytes (asks_cancel m) = cancel_order_request_bytes m

-- What the matching thread makes of it for the trader of the session.
abbrev pub request_of : ℕ → ℕ → ClientRequest → OrderRequest
request_of now trader (asks_new m) = to_order_request_new now m trader
request_of now trader (asks_modify m) = to_order_request_modify now m trader
request_of now trader (asks_cancel m) = to_order_request_cancel now m trader

-- The header is that of the message, and the fields fit their types.
abbrev pub FitsRequest : ClientRequest → Type 0
FitsRequest (asks_new m) =
    (m.header ≡ record { length = 24; type = new_order_request })
    × (m.client_order_id < 2 ^ 64)
    × (m.symbol_id < 2 ^ 32)
    × IsSideByte m.side
    × (m.price < 2 ^ 32)
    × (m.qty < 2 ^ 32)
FitsRequest (asks_modify m) =
    (m.header ≡ record { length = 23; type = modify_order_request })
    × (m.order_id < 2 ^ 64)
    × (m.symbol_id < 2 ^ 32)
    × (m.price < 2 ^ 32)
    × (m.qty < 2 ^ 32)
FitsRequest (asks_cancel m) =
    (m.header ≡ record { length = 15; type = cancel_order_request })
    × (m.order_id < 2 ^ 64)
    × (m.symbol_id < 2 ^ 32)

-- A header is read whatever stands behind it.
read_header_front :
    (h : MsgHeader) (body rest : List ℕ)
    → IsHeader h
    → (read_header ((header_bytes h ++ body) ++ rest)).0 ≡ h
read_header_front h body rest is =
    ap (λ x. (read_header x).0) (append_assoc (header_bytes h) body rest)
    ∙ ap (λ (r : MsgHeader × List ℕ). r.0) (read_header-bytes h (body ++ rest) is)

new-IsHeader : IsHeader (record { length = 24; type = new_order_request })
unfolding type_of_byte
new-IsHeader = (omega arith, omega arith, refl)

modify-IsHeader : IsHeader (record { length = 23; type = modify_order_request })
unfolding type_of_byte
modify-IsHeader = (omega arith, omega arith, refl)

cancel-IsHeader : IsHeader (record { length = 15; type = cancel_order_request })
unfolding type_of_byte
cancel-IsHeader = (omega arith, omega arith, refl)

take_all : (xs : List ℕ) → take (length xs) xs ≡ xs
unfolding take
take_all [] = refl
take_all (x ∷ xs) = ap (λ l. x ∷ l) (take_all xs)

-- A whole message in the array of the queue, with zeros behind it.
abbrev padded : ℕ → ℕ → List ℕ → RawMessage
padded trader l bs = record {
  trader_id = trader;
  length = l;
  bytes = bs ++ replicate (max_raw_msg_size - l) 0;
}

raw_message-padded :
    (trader l : ℕ) (bs : List ℕ)
    → length bs ≡ l
    → raw_message trader (length bs) bs ≡ padded trader l bs
unfolding raw_message
raw_message-padded trader l bs e =
    ap
      (λ x. record {
        trader_id = trader;
        length = length bs;
        bytes = x ++ replicate (max_raw_msg_size - length bs) 0;
      })
      (take_all bs)
    ∙ ap (λ n. padded trader n bs) e

parse_request-typed :
    (now : ℕ) (raw : RawMessage) (h : MsgHeader)
    → ltb raw.length 3 ≡ false
    → (read_header raw.bytes).0 ≡ h
    → parse_request now raw ≡ parse_body now raw h.type
unfolding parse_request
parse_request-typed now raw h long at =
    rw (parse_request, long) (ap (λ (k : MsgHeader). parse_body now raw k.type) at)

-- A request, as the queue carries it, is parsed.
pub parse_request-bytes :
    (now trader : ℕ) (r : ClientRequest)
    → FitsRequest r
    → parse_request now (raw_message trader (length (request_bytes r)) (request_bytes r))
      ≡ some (request_of now trader r)
unfolding parse_body new_order_request_bytes modify_order_request_bytes cancel_order_request_bytes
    header_bytes to_bytes
parse_request-bytes now trader (asks_new m) (h, c, s, d, p, q) =
    let bs = new_order_request_bytes m in
    let is : IsHeader m.header = subst IsHeader (sym h) new-IsHeader in
    ap (parse_request now) (raw_message-padded trader 24 bs refl)
    ∙ parse_request-typed now (padded trader 24 bs)
        (record { length = 24; type = new_order_request }) refl
        (read_header_front m.header
            (to_bytes 8 m.client_order_id
              ++ (to_bytes 4 m.symbol_id
                  ++ (to_bytes 1 (byte_of_side m.side)
                      ++ (to_bytes 4 m.price ++ to_bytes 4 m.qty))))
            (replicate 104 0) is
          ∙ h)
    ∙ ap (λ x. some (to_order_request_new now x trader))
        (read_new_order_request-append m (replicate 104 0) is c s d p q)
parse_request-bytes now trader (asks_modify m) (h, o, s, p, q) =
    let bs = modify_order_request_bytes m in
    let is : IsHeader m.header = subst IsHeader (sym h) modify-IsHeader in
    ap (parse_request now) (raw_message-padded trader 23 bs refl)
    ∙ parse_request-typed now (padded trader 23 bs)
        (record { length = 23; type = modify_order_request }) refl
        (read_header_front m.header
            (to_bytes 8 m.order_id
              ++ (to_bytes 4 m.symbol_id ++ (to_bytes 4 m.price ++ to_bytes 4 m.qty)))
            (replicate 105 0) is
          ∙ h)
    ∙ ap (λ x. some (to_order_request_modify now x trader))
        (read_modify_order_request-append m (replicate 105 0) is o s p q)
parse_request-bytes now trader (asks_cancel m) (h, o, s) =
    let bs = cancel_order_request_bytes m in
    let is : IsHeader m.header = subst IsHeader (sym h) cancel-IsHeader in
    ap (parse_request now) (raw_message-padded trader 15 bs refl)
    ∙ parse_request-typed now (padded trader 15 bs)
        (record { length = 15; type = cancel_order_request }) refl
        (read_header_front m.header (to_bytes 8 m.order_id ++ to_bytes 4 m.symbol_id)
            (replicate 113 0) is
          ∙ h)
    ∙ ap (λ x. some (to_order_request_cancel now x trader))
        (read_cancel_order_request-append m (replicate 113 0) is o s)
