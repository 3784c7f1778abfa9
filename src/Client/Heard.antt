-- ===== src/Client/Heard.antt =====
-- What the receive thread handles between two lines sends nothing.
use exchnage_simulator.Prelude.{
  append-nil, insert-cases, ◌+◌, inr, ℕ, ◌≡◌, sym, ap, ◌∙◌, inl, List, [], ◌∷◌, ◌++◌, map,
  map-append, append_assoc, All, arith,
}
use exchnage_simulator.Wire.{MsgHeader, MsgType, new_order_confirm, read_new_order_confirm}
use exchnage_simulator.Wire.Bytes.{AreBytes, read_bytes, read_bytes-bound}
use exchnage_simulator.Dispatch.Parsed.{ClientRequest, request_bytes, FitsRequest}
use exchnage_simulator.Client.Arrivals.{on_message}
use exchnage_simulator.Client.Session.{Client}
use exchnage_simulator.Client.Console.{hear_all}
use exchnage_simulator.Client.Sends.{Requested}

-- What some calls requested, and then others.
pub Requested-trans :
    {j k : ℕ} (n : ℕ) (a b c : Client)
    → j + k ≡ n
    → Requested j a b
    → Requested k b c
    → Requested n a c
Requested-trans n a b c e p q = record {
  requests = p.requests ++ q.requests;
  fit = All-append p.requests q.requests p.fit q.fit;
  outbox =
      q.outbox
      ∙ ap (λ l. l ++ map request_bytes q.requests) p.outbox
      ∙ append_assoc a.outbox (map request_bytes p.requests) (map request_bytes q.requests)
      ∙ ap (λ l. a.outbox ++ l) (sym (map-append request_bytes p.requests q.requests));
  small = λ h. q.small (p.small h);
  calls = omega (arith, e, p.calls, q.calls);
}
  where
    All-append :
        (xs ys : List ClientRequest)
        → All FitsRequest xs
        → All FitsRequest ys
        → All FitsRequest (xs ++ ys)
    All-append [] ys h k = k
    All-append (x ∷ xs) ys h k = (h.0, All-append xs ys h.1 k)

-- A message of the exchange is not a request, and confirms 64-bit ids.
on_message-Requested :
    (h : MsgHeader) (t : MsgType) (body : List ℕ) (c : Client)
    → AreBytes body
    → Requested 0 c (on_message h t body c)
unfolding on_message read_new_order_confirm
on_message-Requested h new_order_confirm body c bytes = record {
  requests = [];
  fit = tt;
  outbox = sym (append-nil c.outbox);
  small = λ fits id e at. elim (insert-cases _ id _ e c.internal_to_exchange at) [
    | inl (k, same) ↦
        let rest = read_bytes-bound 8 body bytes in
        rw (← same) (omega (arith, (read_bytes-bound 8 (read_bytes 8 body).1 rest.1).0))
    | inr (k, old) ↦ fits id e old
  ];
  calls = omega arith;
}
on_message-Requested h t body c bytes = record {
  requests = [];
  fit = tt;
  outbox = sym (append-nil c.outbox);
  small = λ fits. fits;
  calls = omega arith;
}

pub hear_all-Requested :
    (ms : List (MsgHeader × List ℕ)) (c : Client)
    → All (λ (m : MsgHeader × List ℕ). AreBytes m.1) ms
    → Requested 0 c (hear_all ms c)
unfolding hear_all
hear_all-Requested [] c h = record {
  requests = [];
  fit = tt;
  outbox = sym (append-nil c.outbox);
  small = λ h. h;
  calls = omega arith;
}
hear_all-Requested ((h, body) ∷ ms) c bytes =
    let c1 = on_message h h.type body c in
    Requested-trans 0 c c1 (hear_all ms c1) (omega arith)
      (on_message-Requested h h.type body c bytes.0) (hear_all-Requested ms c1 bytes.1)
