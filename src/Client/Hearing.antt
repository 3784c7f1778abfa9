-- ===== src/Client/Hearing.antt =====
-- The receive thread on all that the exchange sends, however its bytes arrive.
use exchnage_simulator.Prelude.{
  ℕ, ◌+◌, ◌≡◌, ◌≤◌, ◌<◌, refl, sym, ap, ◌∙◌, true, false, ◌&&◌, List, [], ◌∷◌, ◌++◌, map, All,
  length, take, drop, take-length, drop-length, done, ◌>>=◌, arith,
}
use exchnage_simulator.Core.{
  OrderConfirm, MdUpdate, new_ack, modify_ack, cancel_ack, trade, reject, ConfirmType,
}
use exchnage_simulator.Net.{Received, received}
use exchnage_simulator.Framing.Messages.{joined}
use exchnage_simulator.Wire.{
  MsgHeader, market_update, header_bytes, type_of_byte, to_market_update_msg,
}
use exchnage_simulator.Wire.Bytes.{to_bytes}
use exchnage_simulator.Wire.Roundtrip.{IsHeader}
use exchnage_simulator.Dispatch.{confirm_msg}
use exchnage_simulator.Client.Session.{Client}
use exchnage_simulator.Client.Arrivals.{on_message, recv_round, RecvRound, recv_thread}
use exchnage_simulator.Client.Chunks.{recv_round-Pieces}
use exchnage_simulator.Client.Confirms.{
  header_of, head_of, body_of, told, FitsWire, confirm_msg-body, on_message-told,
}
use exchnage_simulator.Client.Updates.{
  update_body, told_update, UpdateFitsWire, on_message-told_update,
}

-- A message of the exchange: a private confirmation or a market update.
pub data FromExchange : Type 0 where
  confirmation : OrderConfirm → FromExchange
  market : MdUpdate → FromExchange

abbrev pub wire_bytes : FromExchange → List ℕ
wire_bytes (confirmation k) = confirm_msg k
wire_bytes (market u) = to_market_update_msg u

abbrev pub FitsMessage : FromExchange → Type 0
FitsMessage (confirmation k) = FitsWire k
FitsMessage (market u) = UpdateFitsWire u

abbrev pub hears : FromExchange → Client → Client
hears (confirmation k) c = told k c
hears (market u) c = told_update u c

-- A message as `recv` gives it: pieces of the header, and pieces of the rest.
pub record Arrival (bs : List ℕ) : Type 0 where
  pub head_chunks : List (List ℕ)
  pub body_chunks : List (List ℕ)
  pub some_head : All (λ c. 0 < length c) head_chunks
  pub some_body : All (λ c. 0 < length c) body_chunks
  pub head_size : length (joined head_chunks []) ≡ 3
  pub whole : joined head_chunks [] ++ joined body_chunks [] ≡ bs

same_parts :
    (xs ys xs' ys' : List ℕ)
    → xs ++ ys ≡ xs' ++ ys'
    → length xs ≡ length xs'
    → (xs ≡ xs') × (ys ≡ ys')
same_parts xs ys xs' ys' e same = (
  sym (take-length xs ys)
      ∙ ap (λ n. take n (xs ++ ys)) same
      ∙ ap (take (length xs')) e
      ∙ take-length xs' ys',
  sym (drop-length xs ys)
      ∙ ap (λ n. drop n (xs ++ ys)) same
      ∙ ap (drop (length xs')) e
      ∙ drop-length xs' ys',
)

length-header_bytes : (h : MsgHeader) → length (header_bytes h) ≡ 3
unfolding header_bytes to_bytes
length-header_bytes h = refl

-- A round on an arrival of a header and a body.
recv_round-Arrival :
    (h : MsgHeader) (body bs stack : List ℕ) (rest : List Received) (c : Client) (a : Arrival bs)
    → bs ≡ header_bytes h ++ body
    → IsHeader h
    → h.length ≡ 3 + length body
    → 0 < length body
    → length body ≤ 256
    → recv_round stack (map received a.head_chunks ++ (map received a.body_chunks ++ rest)) c
      ≡ done (on_message h h.type (body ++ drop (length body) stack) c, rest)
recv_round-Arrival h body bs stack rest c a e is len pos le =
    let (head_part, body_part) =
      same_parts (joined a.head_chunks []) (joined a.body_chunks []) (header_bytes h) body
        (a.whole ∙ e) (a.head_size ∙ sym (length-header_bytes h)) in
    recv_round-Pieces h body stack rest c
      (record { chunks = a.head_chunks; some_bytes = a.some_head; whole = head_part })
      (record { chunks = a.body_chunks; some_bytes = a.some_body; whole = body_part }) is len pos le

head_of-IsHeader : (t : ConfirmType) → IsHeader (head_of t)
unfolding type_of_byte
head_of-IsHeader new_ack = (omega arith, omega arith, refl)
head_of-IsHeader modify_ack = (omega arith, omega arith, refl)
head_of-IsHeader cancel_ack = (omega arith, omega arith, refl)
head_of-IsHeader trade = (omega arith, omega arith, refl)
head_of-IsHeader reject = (omega arith, omega arith, refl)

length-body_of :
    (k : OrderConfirm) (t : ConfirmType)
    → ((head_of t).length ≡ 3 + length (body_of k t))
      × (0 < length (body_of k t))
      × (length (body_of k t) ≤ 256)
unfolding to_bytes
length-body_of k new_ack = omega arith
length-body_of k modify_ack = omega arith
length-body_of k cancel_ack = omega arith
length-body_of k trade = omega arith
length-body_of k reject = omega arith

length-update_body :
    (u : MdUpdate)
    → (25 ≡ 3 + length (update_body u))
      × (0 < length (update_body u))
      × (length (update_body u) ≤ 256)
unfolding to_bytes
length-update_body u = omega arith

to_market_update_msg-body :
    (u : MdUpdate)
    → to_market_update_msg u ≡ header_bytes (header_of 25 market_update) ++ update_body u
unfolding to_market_update_msg
to_market_update_msg-body u = refl

-- One message that arrives.
recv_round-hears :
    (m : FromExchange) (stack : List ℕ) (rest : List Received) (c : Client)
    (a : Arrival (wire_bytes m))
    → FitsMessage m
    → recv_round stack (map received a.head_chunks ++ (map received a.body_chunks ++ rest)) c
      ≡ done (hears m c, rest)
unfolding type_of_byte
recv_round-hears (confirmation k) stack rest c a f =
    let (len, pos, le) = length-body_of k k.type in
    recv_round-Arrival (head_of k.type) (body_of k k.type) (confirm_msg k) stack rest c a
      (confirm_msg-body k k.type refl) (head_of-IsHeader k.type) len pos le
    ∙ ap (λ x. done (x, rest))
        (on_message-told k k.type (drop (length (body_of k k.type)) stack) c f refl)
recv_round-hears (market u) stack rest c a f =
    let (len, pos, le) = length-update_body u in
    recv_round-Arrival (header_of 25 market_update) (update_body u) (to_market_update_msg u) stack
      rest c a (to_market_update_msg-body u) (omega arith, omega arith, refl) len pos le
    ∙ ap (λ x. done (x, rest)) (on_message-told_update u (drop (length (update_body u)) stack) c f)

hears-running : (m : FromExchange) (c : Client) → (hears m c).running ≡ c.running
unfolding told told_update
hears-running (confirmation k) c = by_type k.type refl
  where
    by_type : (t : ConfirmType) → k.type ≡ t → (told k c).running ≡ c.running
    by_type new_ack e = rw (told, e) refl
    by_type modify_ack e = rw (told, e) refl
    by_type cancel_ack e = rw (told, e) refl
    by_type trade e = rw (told, e) refl
    by_type reject e = rw (told, e) refl
hears-running (market u) c = refl

abbrev pub Arrivals : List FromExchange → Type 0
Arrivals [] = Unit
Arrivals (m ∷ ms) = Arrival (wire_bytes m) × Arrivals ms

abbrev pub inbox_of : (ms : List FromExchange) → Arrivals ms → List Received → List Received
inbox_of [] arrive rest = rest
inbox_of (m ∷ ms) (a, arrive) rest =
    map received a.head_chunks ++ (map received a.body_chunks ++ inbox_of ms arrive rest)

abbrev pub hears_all : List FromExchange → Client → Client
hears_all [] c = c
hears_all (m ∷ ms) c = hears_all ms (hears m c)

recv_thread-step :
    (s : List ℕ) (rounds : List RecvRound) (rs : List Received) (c : Client)
    → c.running ≡ true
    → recv_thread (record { stopped = false; stack = s } ∷ rounds) rs c
      ≡ (recv_round s rs c >>= λ (c', left). recv_thread rounds left c')
unfolding recv_thread
recv_thread-step s rounds rs c on =
    ap
      (λ b. elim (b && true) [
        | true ↦ (recv_round s rs c >>= λ (c', left). recv_thread rounds left c')
        | false ↦ done (record c { running = false }, rs)
      ])
      on

-- For messages of the exchange whose fields fit their types, however their headers and the rest are
-- divided into pieces: a receive thread that runs and is not stopped has, after one round for each
-- message, printed what each says, in their order, and noted the order id of each new order under the
-- client's id, whatever was in the memory of its buffer.
pub recv_thread-hears :
    (ms : List FromExchange) (arrive : Arrivals ms) (stacks : List (List ℕ)) (more : List RecvRound)
    (rest : List Received) (c : Client)
    → All FitsMessage ms
    → length stacks ≡ length ms
    → c.running ≡ true
    → recv_thread
        (map (λ s. record { stopped = false; stack = s }) stacks ++ more)
        (inbox_of ms arrive rest)
        c
      ≡ recv_thread more rest (hears_all ms c)
unfolding recv_thread
recv_thread-hears [] arrive [] more rest c f e on = refl
recv_thread-hears [] arrive (s ∷ ss) more rest c f e on = absurd (omega arith)
recv_thread-hears (m ∷ ms) arrive [] more rest c f e on = absurd (omega arith)
recv_thread-hears (m ∷ ms) (a, arrive) (s ∷ ss) more rest c f e on =
    recv_thread-step s (map (λ s. record { stopped = false; stack = s }) ss ++ more) _ c on
    ∙ ap
        (λ o. o >>= λ (c', left).
          recv_thread (map (λ s. record { stopped = false; stack = s }) ss ++ more) left c')
        (recv_round-hears m s (inbox_of ms arrive rest) c a f.0)
    ∙ recv_thread-hears ms arrive ss more rest (hears m c) f.1 (omega arith)
        (hears-running m c ∙ on)
