-- ===== src/Client/Typed.antt =====
-- From the lines that a user types to the requests that the matching thread handles.
use exchnage_simulator.Prelude.{
  codes, ℕ, suc, ◌≡◌, ◌≤◌, ◌<◌, refl, ap, ◌∙◌, Bool, true, false, inl, ◌&&◌, not, if◌then◌else◌,
  Option, none, some, List, [], ◌∷◌, ◌++◌, map, All, length, Outcome, done, ◌>>=◌, arith,
}
use exchnage_simulator.Wire.{MsgHeader}
use exchnage_simulator.Wire.Bytes.{AreBytes}
use exchnage_simulator.Framing.{RawMessage, frame_all}
use exchnage_simulator.Framing.Messages.{joined}
use exchnage_simulator.Dispatch.{parse_request}
use exchnage_simulator.Dispatch.Parsed.{ClientRequest, request_bytes, request_of}
use exchnage_simulator.Dispatch.Requests.{frame_all-parse_request}
use exchnage_simulator.Client.Text.{same_text, read_word}
use exchnage_simulator.Client.Session.{Client, prints, unknown_action}
use exchnage_simulator.Client.Console.{
  clean_commas, on_action, on_request, is_quit, is_comment, on_line, hear_all, Prompt, run_input,
}
use exchnage_simulator.Client.Sends.{
  FitsIds, Requested, Requests, silent, on_new-Requests, on_modify-Requests, on_cancel-Requests,
}
use exchnage_simulator.Client.Heard.{Requested-trans, hear_all-Requested}

module _ (c : Client) (small : FitsIds c) (lt : 0 < length c.sends) where
  Requests-if :
      (b : Bool) (o o' : Outcome Client)
      → Requests 1 c o
      → Requests 1 c o'
      → Requests 1 c (if b then o else o')
  Requests-if true o o' h h' = h
  Requests-if false o o' h h' = h'

  on_action-Requests : (action s : List ℕ) → Requests 1 c (on_action action s c)
  unfolding on_action
  on_action-Requests action s =
      Requests-if (same_text action (codes "N")) _ _ (on_new-Requests c small lt s) (
        Requests-if (same_text action (codes "M")) _ _ (on_modify-Requests c small lt s) (
          Requests-if (same_text action (codes "C")) _ _ (on_cancel-Requests c small lt s)
            (silent 1 c (prints (unknown_action action) c) refl refl refl)))

  on_request-Requests : (s : List ℕ) → Requests 1 c (on_request s c)
  unfolding on_request
  on_request-Requests s = by_word (read_word s)
    where
      by_word :
          (o : Option (List ℕ × List ℕ))
          → Requests 1 c
              (elim o [ none ↦ on_action [] s c | some (action, rest) ↦ on_action action rest c ])
      by_word none = on_action-Requests [] s
      by_word (some (action, rest)) = on_action-Requests action rest

  on_line-Requests : (line : List ℕ) → Requests 1 c (on_line line c)
  unfolding on_line
  on_line-Requests line = Requests-if (is_comment line) _ _ (silent 1 c c refl refl refl) (
      Requests-if (is_quit line) _ _ (silent 1 c (record c { running = false }) refl refl refl)
        (on_request-Requests (clean_commas line)))

-- The end of the input.
abbrev pub end_of_input : Prompt
end_of_input = record { heard = []; stopped = false; line = none }

module _ {k : ℕ} {c c1 : Client} (p : Requested 0 c c1) where
  Requests-behind : (o : Outcome Client) → Requests k c1 o → Requests k c o
  Requests-behind o (c', runs, q) = (c', runs, Requested-trans k c c1 c' (omega arith) p q)

-- What a round does once the messages are handled.
run_line-Requests :
    (k : ℕ) (ps : List Prompt) (c c1 : Client) (goes : Bool) (line : Option (List ℕ))
    → Requested 0 c c1
    → FitsIds c
    → 0 < length c.sends
    → ((c2 : Client) → Requested 1 c c2 → Requests k c2 (run_input ps c2))
    → Requests (suc k) c (elim goes [
      | true ↦ elim line [ none ↦ done c1 | some l ↦ (on_line l c1 >>= run_input ps) ]
      | false ↦ done (record c1 { running = false })
    ])
run_line-Requests k ps c c1 true none heard small lt more =
    Requests-behind heard (done c1) (silent (suc k) c1 c1 refl refl refl)
run_line-Requests k ps c c1 true (some l) heard small lt more =
    after_line (on_line l c1)
      (on_line-Requests c1 (heard.small small) (omega (arith, heard.calls, lt)) l)
  where
    after_line : (o : Outcome Client) → Requests 1 c1 o → Requests (suc k) c (o >>= run_input ps)
    after_line o (c2, runs, r) =
        let up = Requested-trans 1 c c1 c2 (omega arith) heard r in
        let (c', runs', r') = more c2 up in
        (
          c',
          ap (λ o. o >>= run_input ps) runs ∙ runs',
          Requested-trans (suc k) c c2 c' (omega arith) up r',
        )
run_line-Requests k ps c c1 false line heard small lt more =
    Requests-behind heard (done (record c1 { running = false }))
      (silent (suc k) c1 (record c1 { running = false }) refl refl refl)

-- One round of the input loop.
run_input-round :
    (k : ℕ) (p : Prompt) (ps : List Prompt) (c : Client)
    → FitsIds c
    → All (λ (m : MsgHeader × List ℕ). AreBytes m.1) p.heard
    → 0 < length c.sends
    → ((c2 : Client) → Requested 1 c c2 → Requests k c2 (run_input ps c2))
    → Requests (suc k) c (run_input (p ∷ ps) c)
unfolding run_input
run_input-round k p ps c small bytes lt more =
    run_line-Requests k ps c (hear_all p.heard c) ((hear_all p.heard c).running && not p.stopped)
      p.line (hear_all-Requested p.heard c bytes) small lt more

-- The last round, at the end of the input.
run_input-end : (c : Client) → Requests 0 c (run_input (end_of_input ∷ []) c)
unfolding run_input hear_all
run_input-end c = by_running (c.running && true)
  where
    by_running :
        (b : Bool)
        → Requests 0 c (elim b [ true ↦ done c | false ↦ done (record c { running = false }) ])
    by_running true = silent 0 c c refl refl refl
    by_running false = silent 0 c (record c { running = false }) refl refl refl

-- What the receive thread handles are bytes.
abbrev pub HearsBytes : Prompt → Type 0
HearsBytes p = All (λ (m : MsgHeader × List ℕ). AreBytes m.1) p.heard

run_input-Requests :
    (ps : List Prompt) (c : Client)
    → FitsIds c
    → All HearsBytes ps
    → length ps ≤ length c.sends
    → Requests (length ps) c (run_input (ps ++ (end_of_input ∷ [])) c)
run_input-Requests [] c small bytes le = run_input-end c
run_input-Requests (p ∷ ps) c small bytes le =
    run_input-round (length ps) p (ps ++ (end_of_input ∷ [])) c small bytes.0 (omega (arith, le))
      (λ c1 r. run_input-Requests ps c1 (r.small small) bytes.1 (omega (arith, le, r.calls)))

-- Whatever a user types up to the end of the input, and whatever messages the receive thread handles
-- between the lines, each before the next line is looked at: if the ids that the exchange confirmed
-- before are of 64 bits and there is a result of `send` for each line, the input loop returns, and what
-- it handed to `send` are, in order, the bytes of requests. If all these bytes reach the exchange, the
-- epoll thread cuts them into one message for each request with nothing left over, and the matching
-- thread parses the messages to these requests of the trader.
pub run_input-parse_request :
    (now trader : ℕ) (ps : List Prompt) (c : Client)
    → FitsIds c
    → All HearsBytes ps
    → length ps ≤ length c.sends
    → (c' : Client) × (rs : List ClientRequest) × (pushed : List RawMessage) × (run_input
          (ps ++ (end_of_input ∷ []))
          c
        ≡ done c')
      × (c'.outbox ≡ c.outbox ++ map request_bytes rs)
      × (frame_all (suc (length rs)) trader (joined (map request_bytes rs) []) ≡ done (pushed, []))
      × (map (parse_request now) pushed ≡ map (λ r. some (request_of now trader r)) rs)
run_input-parse_request now trader ps c small bytes le =
    let (c', runs, r) = run_input-Requests ps c small bytes le in
    let (pushed, cut, parsed) =
      frame_all-parse_request now trader (suc (length r.requests)) r.requests [] r.fit (inl refl)
        (omega arith) in
    (c', r.requests, pushed, runs, r.outbox, cut, parsed)
