-- ===== src/Dispatch/Requests.antt =====
-- From the bytes that a client sends to the requests that the matching thread handles.
use exchnage_simulator.Prelude.{
  ℕ, suc, ◌≡◌, ◌<◌, ◌^◌, refl, ap, ap₂, ◌∙◌, some, List, [], ◌∷◌, ◌++◌, map, append_assoc, All,
  length, done, arith,
}
use exchnage_simulator.Wire.{
  MsgHeader, byte_of_type, header_bytes, new_order_request_bytes, modify_order_request_bytes,
  cancel_order_request_bytes,
}
use exchnage_simulator.Wire.Bytes.{to_bytes, read_bytes, read_bytes-to_bytes}
use exchnage_simulator.Framing.{RawMessage, header_length, frame_all}
use exchnage_simulator.Framing.Messages.{IsMessage, IsPartial, joined, raws, frame_all-messages}
use exchnage_simulator.Dispatch.{parse_request}
use exchnage_simulator.Dispatch.Parsed.{
  ClientRequest, asks_new, asks_modify, asks_cancel, request_bytes, request_of, FitsRequest,
  parse_request-bytes,
}

-- The length in front of a message.
header_length-header :
    (h : MsgHeader) (body : List ℕ)
    → h.length < 2 ^ 16
    → header_length (header_bytes h ++ body) ≡ h.length
unfolding header_length header_bytes
header_length-header h body small =
    ap (λ x. (read_bytes 2 x).0)
      (append_assoc (to_bytes 2 h.length) (to_bytes 1 (byte_of_type h.type)) body)
    ∙ ap (λ (r : ℕ × List ℕ). r.0)
        (read_bytes-to_bytes 2 h.length (to_bytes 1 (byte_of_type h.type) ++ body) small)

-- A request is a message that the framing loop passes on.
request_bytes-IsMessage : (r : ClientRequest) → FitsRequest r → IsMessage (request_bytes r)
unfolding new_order_request_bytes modify_order_request_bytes cancel_order_request_bytes header_bytes
    to_bytes
request_bytes-IsMessage (asks_new m) f =
    let says : m.header.length ≡ 24 = ap (λ (k : MsgHeader). k.length) f.0 in
    record {
      whole = header_length-header m.header _ (omega (arith, says)) ∙ says;
      header = omega arith;
      fits = omega arith;
    }
request_bytes-IsMessage (asks_modify m) f =
    let says : m.header.length ≡ 23 = ap (λ (k : MsgHeader). k.length) f.0 in
    record {
      whole = header_length-header m.header _ (omega (arith, says)) ∙ says;
      header = omega arith;
      fits = omega arith;
    }
request_bytes-IsMessage (asks_cancel m) f =
    let says : m.header.length ≡ 15 = ap (λ (k : MsgHeader). k.length) f.0 in
    record {
      whole = header_length-header m.header _ (omega (arith, says)) ∙ says;
      header = omega arith;
      fits = omega arith;
    }

All-messages : (rs : List ClientRequest) → All FitsRequest rs → All IsMessage (map request_bytes rs)
All-messages [] h = tt
All-messages (r ∷ rs) h = (request_bytes-IsMessage r h.0, All-messages rs h.1)

map-parse_request :
    (now trader : ℕ) (rs : List ClientRequest)
    → All FitsRequest rs
    → map (parse_request now) (raws trader (map request_bytes rs))
      ≡ map (λ r. some (request_of now trader r)) rs
map-parse_request now trader [] h = refl
map-parse_request now trader (r ∷ rs) h =
    ap₂ (λ x l. x ∷ l) (parse_request-bytes now trader r h.0) (map-parse_request now trader rs h.1)

-- If the bytes of a session are requests whose fields fit their types, laid out one behind the other,
-- and a part of a next message, then what the epoll thread pushes is what the matching thread parses
-- to these requests, in order, each with the trader of the session; the part is left over.
pub frame_all-parse_request :
    (now trader n : ℕ) (rs : List ClientRequest) (part : List ℕ)
    → All FitsRequest rs
    → IsPartial part
    → length rs < n
    → (pushed : List RawMessage) × (frame_all n trader (joined (map request_bytes rs) part)
        ≡ done (pushed, part))
      × (map (parse_request now) pushed ≡ map (λ r. some (request_of now trader r)) rs)
frame_all-parse_request now trader n rs part fits p lt = (
  raws trader (map request_bytes rs),
  frame_all-messages trader n (map request_bytes rs) part (All-messages rs fits) p
      (rw (length-map request_bytes rs) lt),
  map-parse_request now trader rs fits,
)
  where
    length-map :
        (f : ClientRequest → List ℕ) (rs : List ClientRequest) → length (map f rs) ≡ length rs
    length-map f [] = refl
    length-map f (r ∷ rs) = ap suc (length-map f rs)
