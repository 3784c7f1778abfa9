-- ===== src/Epoll/Receiving.antt =====
-- One call of the data callback.
use exchnage_simulator.Prelude.{
  ℕ, suc, ◌≡◌, refl, sym, ap, ◌∙◌, true, false, Option, none, some, List, [], ◌∷◌, ◌++◌, map,
  append-nil, append_assoc, length, insert_self, insert-insert, insert_same, done, fault, ◌>>=◌,
  erase, erase_self,
}
use exchnage_simulator.Sessions.{ClientSession, SessionManager, get_session, remove}
use exchnage_simulator.Framing.{Framed, frame_all}
use exchnage_simulator.Framing.Messages.{joined}
use exchnage_simulator.Net.{ErrNo, Received, received, end_of_stream, recv_error}
use exchnage_simulator.Epoll.{
  EpollThread, put_session, is_failure, drop_client, append_received, receive_all, frame_session,
  on_data,
}

-- The thread with other bytes in the buffer of a session.
abbrev pub with_buffer : ℕ → ClientSession → List ℕ → EpollThread → EpollThread
with_buffer fd s buf t = record t {
  sessions = put_session fd (record s { recv_buffer = buf }) t.sessions;
}

module _ (fd : ℕ) (s : ClientSession) where
  append_received_lem :
      (buf bs : List ℕ) (m : SessionManager)
      → append_received fd bs (put_session fd (record s { recv_buffer = buf }) m)
        ≡ done (put_session fd (record s { recv_buffer = buf ++ bs }) m)
  unfolding append_received get_session
  append_received_lem buf bs m =
      rw
        (
          append_received,
          get_session,
          insert_self fd (record s { recv_buffer = buf }) m.sessions,
          insert-insert fd (record s { recv_buffer = buf ++ bs }) (record s { recv_buffer = buf })
              m.sessions,
        )
        refl

  -- What was received is in the buffer, in order.
  receive_all-received :
      (chunks : List (List ℕ)) (buf : List ℕ) (rest : List Received) (t : EpollThread)
      → receive_all fd (map received chunks ++ rest) (with_buffer fd s buf t)
        ≡ receive_all fd rest (with_buffer fd s (buf ++ joined chunks []) t)
  unfolding receive_all joined
  receive_all-received [] buf rest t =
      ap (λ b. receive_all fd rest (with_buffer fd s b t)) (sym (append-nil buf))
  receive_all-received (c ∷ cs) buf rest t =
      ap (λ o. o >>= λ m. receive_all fd (map received cs ++ rest) (record t { sessions = m }))
        (append_received_lem buf c t.sessions)
      ∙ receive_all-received cs (buf ++ c) rest t
      ∙ ap (λ b. receive_all fd rest (with_buffer fd s b t)) (append_assoc buf c (joined cs []))

module _ (fd : ℕ) (s : ClientSession) (t : EpollThread)
    (live : get_session fd t.sessions ≡ some s) where
  same_buffer : with_buffer fd s s.recv_buffer t ≡ t
  unfolding get_session
  same_buffer =
      ap (λ m. record t { sessions = record t.sessions { sessions = m } })
        (insert_same fd s t.sessions.sessions live)

  on_data-receive :
      (chunks : List (List ℕ)) (rest : List Received)
      → t.inbox ≡ map received chunks ++ rest
      → on_data fd t ≡ (
          receive_all fd rest (with_buffer fd s (s.recv_buffer ++ joined chunks []) t)
          >>= frame_session fd)
  unfolding on_data
  on_data-receive chunks rest e =
      rw (on_data, live)
        (ap (λ i. receive_all fd i t >>= frame_session fd) e
          ∙ ap (λ x. receive_all fd (map received chunks ++ rest) x >>= frame_session fd)
              (sym same_buffer)
          ∙ ap (λ o. o >>= frame_session fd)
              (receive_all-received fd s chunks s.recv_buffer rest t))

get_session-remove : (fd : ℕ) (m : SessionManager) → get_session fd (remove fd m) ≡ none
unfolding get_session remove
get_session-remove fd m = by_session (m.sessions fd) refl
  where
    by_session :
        (o : Option ClientSession)
        → m.sessions fd ≡ o
        → get_session fd (elim o [
          | none ↦ m
          | some s ↦ record {
            sessions = erase fd m.sessions;
            trader_to_fd = erase s.trader_id m.trader_to_fd;
          }
        ])
          ≡ none
    by_session none e = e
    by_session (some s) e = erase_self fd m.sessions

frame_session-none :
    (fd : ℕ) (t : EpollThread) → get_session fd t.sessions ≡ none → frame_session fd t ≡ fault
unfolding frame_session
frame_session-none fd t e = rw (frame_session, e) refl

-- After `drop_client` the session pointer dangles.
frame_session-drop_client : (fd : ℕ) (t : EpollThread) → frame_session fd (drop_client fd t) ≡ fault
unfolding drop_client
frame_session-drop_client fd t =
    frame_session-none fd (drop_client fd t) (get_session-remove fd t.sessions)

frame_session-live :
    (fd : ℕ) (s : ClientSession) (t : EpollThread) (r : Framed)
    → get_session fd t.sessions ≡ some s
    → frame_all (suc (length s.recv_buffer)) s.trader_id s.recv_buffer ≡ done r
    → frame_session fd t
      ≡ done (record t {
        sessions = put_session fd (record s { recv_buffer = r.1 }) t.sessions;
        pushed = t.pushed ++ r.0;
      })
unfolding frame_session
frame_session-live fd s t r live runs = rw (frame_session, live, runs) refl

-- The result of `recv` with which the callback drops the client.
abbrev pub IsEnd : Received → Type 0
IsEnd (received bs) = ⊥
IsEnd end_of_stream = Unit
IsEnd (recv_error e) = is_failure e ≡ true

receive_all-again :
    (fd : ℕ) (e : ErrNo) (rest : List Received) (t : EpollThread)
    → is_failure e ≡ false
    → receive_all fd (recv_error e ∷ rest) t ≡ done (record t { inbox = rest })
unfolding receive_all
receive_all-again fd e rest t h = rw h refl

receive_all-end :
    (fd : ℕ) (last : Received) (rest : List Received) (t : EpollThread)
    → IsEnd last
    → receive_all fd (last ∷ rest) t ≡ done (drop_client fd (record t { inbox = rest }))
unfolding receive_all
receive_all-end fd (received bs) rest t h = absurd h
receive_all-end fd end_of_stream rest t h = refl
receive_all-end fd (recv_error e) rest t h = rw h refl

module _ (fd : ℕ) (s : ClientSession) (t : EpollThread) (live : get_session fd t.sessions ≡ some s)
    (chunks : List (List ℕ)) (rest : List Received) where
  -- If there is a session and the bytes that come are followed by "try again", then the callback
  -- leaves what the framing of the old buffer and the new bytes leaves: its messages pushed behind
  -- those before, its rest in the buffer, and the results of `recv` that come later not used.
  pub on_data-frames :
      (e : ErrNo) (r : Framed)
      → t.inbox ≡ map received chunks ++ (recv_error e ∷ rest)
      → is_failure e ≡ false
      → (let all = s.recv_buffer ++ joined chunks [] in
          frame_all (suc (length all)) s.trader_id all ≡ done r)
      → on_data fd t
        ≡ done (record t {
          sessions = put_session fd (record s { recv_buffer = r.1 }) t.sessions;
          pushed = t.pushed ++ r.0;
          inbox = rest;
        })
  unfolding get_session
  on_data-frames e r inbox again runs =
      let all = s.recv_buffer ++ joined chunks [] in
      let filled : ClientSession = record s { recv_buffer = all } in
      on_data-receive fd s t live chunks (recv_error e ∷ rest) inbox
      ∙ ap (λ o. o >>= frame_session fd)
          (receive_all-again fd e rest (with_buffer fd s all t) again)
      ∙ frame_session-live fd filled (record (with_buffer fd s all t) { inbox = rest }) r
          (insert_self fd filled t.sessions.sessions) runs
      ∙ ap
          (λ m. done (record t {
            sessions = record t.sessions { sessions = m };
            pushed = t.pushed ++ r.0;
            inbox = rest;
          }))
          (insert-insert fd (record s { recv_buffer = r.1 }) filled t.sessions.sessions)

  -- If there is a session, and the bytes that come are followed by the end of the stream or by an
  -- error other than "try again", then the callback uses the session after it removed it.
  pub on_data-end :
      (last : Received)
      → t.inbox ≡ map received chunks ++ (last ∷ rest)
      → IsEnd last
      → on_data fd t ≡ fault
  on_data-end last inbox h =
      let all = s.recv_buffer ++ joined chunks [] in
      on_data-receive fd s t live chunks (last ∷ rest) inbox
      ∙ ap (λ o. o >>= frame_session fd) (receive_all-end fd last rest (with_buffer fd s all t) h)
      ∙ frame_session-drop_client fd (record (with_buffer fd s all t) { inbox = rest })
