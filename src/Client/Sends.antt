-- ===== src/Client/Sends.antt =====
-- What the client hands to `send`, and what the exchange makes of it.
use exchnage_simulator.Prelude.{
  ℕ, ◌+◌, ◌≡◌, ◌≤◌, ◌<◌, ◌^◌, refl, sym, ap, ◌∙◌, Bool, true, false, Bool-cases, inl, inr, ◌==◌,
  if◌then◌else◌, Option, none, some, List, [], ◌∷◌, ◌++◌, map, append-nil, All, length, Outcome,
  done, arith,
}
use exchnage_simulator.Core.{buy, sell}
use exchnage_simulator.Wire.Roundtrip.{IsSideByte}
use exchnage_simulator.Net.{Sent}
use exchnage_simulator.Dispatch.Parsed.{
  ClientRequest, asks_new, asks_modify, asks_cancel, request_bytes, FitsRequest,
}
use exchnage_simulator.Client.Fields.{
  NewFields, ModifyFields, CancelFields, read_new_fields, read_modify_fields, read_cancel_fields,
}
use exchnage_simulator.Client.Session.{
  Client, prints, all_sent, send_msg, send_or_stop, invalid_new, invalid_modify, invalid_cancel,
  unknown_internal_id,
}
use exchnage_simulator.Client.Console.{
  new_order_of, modify_order_of, cancel_order_of, exchange_id, on_new, send_for, on_modify,
  on_cancel,
}
use exchnage_simulator.Client.Extracts.{
  Reads, FitsNew, FitsModify, FitsCancel, read_new_fields-Reads, read_modify_fields-Reads,
  read_cancel_fields-Reads,
}

-- The ids that the exchange confirmed are of 64 bits.
abbrev pub FitsIds : Client → Type 0
FitsIds c = (id e : ℕ) → c.internal_to_exchange id ≡ some e → e < 2 ^ 64

-- From `c` to `c'` the client handed only requests to `send`, in at most `k` calls.
pub record Requested (k : ℕ) (c c' : Client) : Type 0 where
  pub requests : List ClientRequest
  pub fit : All FitsRequest requests
  pub outbox : c'.outbox ≡ c.outbox ++ map request_bytes requests
  pub small : FitsIds c → FitsIds c'
  pub calls : length c.sends ≤ length c'.sends + k

-- The call returns, having requested.
abbrev pub Requests : ℕ → Client → Outcome Client → Type 0
Requests k c o = (c' : Client) × (o ≡ done c') × Requested k c c'

pub silent :
    (k : ℕ) (c c' : Client)
    → c'.outbox ≡ c.outbox
    → c'.internal_to_exchange ≡ c.internal_to_exchange
    → c'.sends ≡ c.sends
    → Requests k c (done c')
silent k c c' o i s = (
  c',
  refl,
  record {
    requests = [];
    fit = tt;
    outbox = o ∙ sym (append-nil c.outbox);
    small = λ h id e at. h id e (ap (λ f. f id) (sym i) ∙ at);
    calls = rw s (omega arith);
  },
)

-- A call that is another one has requested what that one has.
pub Requests-same :
    {k : ℕ} {c : Client} (o o' : Outcome Client) → o ≡ o' → Requests k c o' → Requests k c o
Requests-same o o' e (c', runs, r) = (c', e ∙ runs, r)

-- The client after one call of `send`.
abbrev sent_one : List ℕ → List Sent → Bool → Client → Client
sent_one bs ss ok c = record c {
  outbox = c.outbox ++ (bs ∷ []);
  sends = ss;
  running = if ok then c.running else false;
}

send_or_stop-cons :
    (bs : List ℕ) (s : Sent) (ss : List Sent) (c : Client)
    → c.sends ≡ s ∷ ss
    → send_or_stop bs c ≡ done (sent_one bs ss (all_sent bs s) c)
unfolding send_or_stop send_msg
send_or_stop-cons bs s ss c e = rw (send_or_stop, send_msg, e) (by_flag (all_sent bs s))
  where
    by_flag :
        (b : Bool)
        → ◌≡◌ {A = Outcome Client}
            (done (
              if b
              then record c { outbox = c.outbox ++ (bs ∷ []); sends = ss }
              else record c { outbox = c.outbox ++ (bs ∷ []); sends = ss; running = false }))
            (done (sent_one bs ss b c))
    by_flag true = refl
    by_flag false = refl

send_or_stop-Requests :
    (r : ClientRequest) (c : Client)
    → FitsRequest r
    → 0 < length c.sends
    → Requests 1 c (send_or_stop (request_bytes r) c)
send_or_stop-Requests r c fit lt = by_sends c.sends refl
  where
    by_sends : (ss : List Sent) → c.sends ≡ ss → Requests 1 c (send_or_stop (request_bytes r) c)
    by_sends [] e = absurd (omega (arith, lt, ap length e))
    by_sends (s ∷ ss) e = (
      sent_one (request_bytes r) ss (all_sent (request_bytes r) s) c,
      send_or_stop-cons (request_bytes r) s ss c e,
      record {
        requests = r ∷ [];
        fit = (fit, tt);
        outbox = refl;
        small = λ h. h;
        calls = rw e (omega arith);
      },
    )

module _ (c : Client) (small : FitsIds c) (lt : 0 < length c.sends) where
  exchange_id-bound : (id : ℕ) → exchange_id id c < 2 ^ 64
  unfolding exchange_id
  exchange_id-bound id = by_entry (c.internal_to_exchange id) refl
    where
      by_entry :
          (o : Option ℕ)
          → c.internal_to_exchange id ≡ o
          → (elim o [ none ↦ 0 | some e ↦ e ]) < 2 ^ 64
      by_entry none e = omega arith
      by_entry (some x) e = small id x e

  send_for-Requests :
      (id e : ℕ) (r : ClientRequest)
      → FitsRequest r
      → Requests 1 c (send_for id e (request_bytes r) c)
  unfolding send_for
  send_for-Requests id e r fit = elim (Bool-cases (e == 0)) [
    | inl none_yet ↦
        Requests-same _ _ (rw (send_for, none_yet) refl)
          (silent 1 c (prints (unknown_internal_id id) c) refl refl refl)
    | inr more ↦ Requests-same _ _ (rw (send_for, more) refl) (send_or_stop-Requests r c fit lt)
  ]

  pub on_new-Requests : (s : List ℕ) → Requests 1 c (on_new s c)
  unfolding on_new new_order_of
  on_new-Requests s = by_fields (read_new_fields s) (read_new_fields-Reads s)
    where
      word_side : (b : Bool) → IsSideByte (if b then buy else sell)
      word_side true = tt
      word_side false = tt

      by_fields :
          (o : Option (NewFields × List ℕ))
          → Reads FitsNew o
          → Requests 1 c (elim o [
            | none ↦ done (prints invalid_new c)
            | some (f, rest) ↦ send_or_stop (request_bytes (asks_new (new_order_of f))) c
          ])
      by_fields none h = silent 1 c (prints invalid_new c) refl refl refl
      by_fields (some (f, rest)) h =
          send_or_stop-Requests (asks_new (new_order_of f)) c
            (refl, h.0, h.1, word_side _, h.2, h.3) lt

  pub on_modify-Requests : (s : List ℕ) → Requests 1 c (on_modify s c)
  unfolding on_modify modify_order_of
  on_modify-Requests s = by_fields (read_modify_fields s) (read_modify_fields-Reads s)
    where
      by_fields :
          (o : Option (ModifyFields × List ℕ))
          → Reads FitsModify o
          → Requests 1 c (elim o [
            | none ↦ done (prints invalid_modify c)
            | some (f, rest) ↦
                let id = exchange_id f.internal_id c in
                send_for f.internal_id id (request_bytes (asks_modify (modify_order_of id f))) c
          ])
      by_fields none h = silent 1 c (prints invalid_modify c) refl refl refl
      by_fields (some (f, rest)) h =
          let id = exchange_id f.internal_id c in
          send_for-Requests f.internal_id id (asks_modify (modify_order_of id f))
            (refl, exchange_id-bound f.internal_id, h.0, h.1, h.2)

  pub on_cancel-Requests : (s : List ℕ) → Requests 1 c (on_cancel s c)
  unfolding on_cancel cancel_order_of
  on_cancel-Requests s = by_fields (read_cancel_fields s) (read_cancel_fields-Reads s)
    where
      by_fields :
          (o : Option (CancelFields × List ℕ))
          → Reads FitsCancel o
          → Requests 1 c (elim o [
            | none ↦ done (prints invalid_cancel c)
            | some (f, rest) ↦
                let id = exchange_id f.internal_id c in
                send_for f.internal_id id (request_bytes (asks_cancel (cancel_order_of id f))) c
          ])
      by_fields none h = silent 1 c (prints invalid_cancel c) refl refl refl
      by_fields (some (f, rest)) h =
          let id = exchange_id f.internal_id c in
          send_for-Requests f.internal_id id (asks_cancel (cancel_order_of id f))
            (refl, exchange_id-bound f.internal_id, h)
