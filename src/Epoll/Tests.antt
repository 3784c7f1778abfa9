-- ===== src/Epoll/Tests.antt =====
-- The epoll thread at concrete sessions and bytes.
use exchnage_simulator.Prelude.{
  ℕ, ◌≡◌, refl, inr, true, false, none, some, List, [], ◌∷◌, ◌++◌, map, arith, done, fault,
  out_of_fuel, take, drop, replicate, insert, erase, empty_map, inl, insert-cases, Bool-cases,
  subst, if◌then◌else◌, ◌==◌,
}
use exchnage_simulator.Sessions.{
  ClientSession, SessionManager, new_sessions, add, get_session, remove,
}
use exchnage_simulator.Framing.{raw_message, frame_all, header_length}
use exchnage_simulator.Framing.Messages.{joined, IsMessage, IsPartial}
use exchnage_simulator.Wire.Bytes.{read_bytes}
use exchnage_simulator.Net.{Received, received, end_of_stream, recv_error, eagain}
use exchnage_simulator.Epoll.{
  close_fd, Event, Round, EpollThread, put_session, receive_all, append_received, frame_session,
  is_failure, on_data, on_disconnect, dispatch_all, dispatch_event, call_back, run,
  run_epoll_thread,
}
use exchnage_simulator.Sessions.Inverse.{IsPaired, new_sessions-IsPaired, add-IsPaired}
use exchnage_simulator.Epoll.Streams.{Batch, readable_event, inbox_of, bytes_for, Carries}
use exchnage_simulator.Epoll.Turns.{Served}
use exchnage_simulator.Epoll.Delivery.{dispatch_all-streams}
use exchnage_simulator.Epoll.Events.{served_event}
use exchnage_simulator.Accept.{on_accept}
use exchnage_simulator.Epoll.Receiving.{on_data-end}

-- Trader 9 on descriptor 5, trader 8 on descriptor 6.
abbrev two_sessions : SessionManager
two_sessions = add 6 8 (add 5 9 new_sessions)

abbrev login : List ℕ
login = 7 ∷ 0 ∷ 4 ∷ 9 ∷ 0 ∷ 0 ∷ 0 ∷ []

abbrev thread : List Received → EpollThread
thread inbox = record { sessions = two_sessions; pushed = []; calls = []; inbox = inbox }

abbrev session_9 : ClientSession
session_9 = record { fd = 5; trader_id = 9; recv_buffer = [] }

on_data-end_example : on_data 5 (thread (received login ∷ end_of_stream ∷ [])) ≡ fault
unfolding get_session add insert new_sessions empty_map
on_data-end_example =
    on_data-end 5 session_9 (thread (received login ∷ end_of_stream ∷ [])) refl (login ∷ []) []
      end_of_stream refl tt

two_sessions-IsPaired : IsPaired two_sessions
unfolding new_sessions empty_map add insert
two_sessions-IsPaired =
    add-IsPaired 6 8 (add 5 9 new_sessions)
      (add-IsPaired 5 9 new_sessions new_sessions-IsPaired refl refl) refl refl

-- Trader 9 logs in again in two pieces, and between them trader 8 does.
abbrev login_8 : List ℕ
login_8 = 7 ∷ 0 ∷ 4 ∷ 8 ∷ 0 ∷ 0 ∷ 0 ∷ []

abbrev batches : List Batch
batches =
    record { fd = 5; chunks = (7 ∷ 0 ∷ 4 ∷ []) ∷ [] }
    ∷ record { fd = 6; chunks = login_8 ∷ (24 ∷ []) ∷ [] }
    ∷ record { fd = 5; chunks = (9 ∷ 0 ∷ 0 ∷ []) ∷ (0 ∷ []) ∷ [] }
    ∷ []

abbrev messages_on : ℕ → List (List ℕ)
messages_on fd = if fd == 5 then login ∷ [] else if fd == 6 then login_8 ∷ [] else []

abbrev part_on : ℕ → List ℕ
part_on fd = if fd == 6 then 24 ∷ [] else []

login-IsMessage : IsMessage login
unfolding header_length read_bytes
login-IsMessage = record { whole = refl; header = omega arith; fits = omega arith }

login_8-IsMessage : IsMessage login_8
unfolding header_length read_bytes
login_8-IsMessage = record { whole = refl; header = omega arith; fits = omega arith }

abbrev session_8 : ClientSession
session_8 = record { fd = 6; trader_id = 8; recv_buffer = [] }

batches-Carries : Carries (thread (inbox_of batches [])) batches messages_on part_on
unfolding get_session add insert new_sessions empty_map joined
batches-Carries = record {
  messages = λ fd. elim (Bool-cases (fd == 5)) [
    | inl a ↦ rw a (login-IsMessage, tt)
    | inr a ↦ elim (Bool-cases (fd == 6)) [
      | inl b ↦ rw (a, b) (login_8-IsMessage, tt)
      | inr b ↦ rw (a, b) tt
    ]
  ];
  parts = λ fd. elim (Bool-cases (fd == 6)) [ inl b ↦ rw b (inl refl) | inr b ↦ rw b (inl refl) ];
  streams = λ fd s live. elim (insert-cases 6 fd session_8 s (insert 5 session_9 empty_map) live) [
    | inl (a, x) ↦ subst (λ k. Streamed k s) a (subst (Streamed 6) x (inl refl, refl))
    | inr (a, live) ↦ elim (insert-cases 5 fd session_9 s empty_map live) [
      | inl (a, x) ↦ subst (λ k. Streamed k s) a (subst (Streamed 5) x (inl refl, refl))
      | inr (a, live) ↦ cc
    ]
  ];
}
  where
    Streamed : ℕ → ClientSession → Type 0
    Streamed fd s =
        IsPartial s.recv_buffer
        × (s.recv_buffer ++ bytes_for fd batches ≡ joined (messages_on fd) (part_on fd))

dispatch_all-streams_example :
    (t' : EpollThread) × (dispatch_all
        (some on_data)
        (some on_disconnect)
        (map readable_event batches)
        (thread (inbox_of batches []))
      ≡ done t')
    × Served (thread (inbox_of batches [])) t' [] messages_on part_on
unfolding get_session add insert new_sessions empty_map
dispatch_all-streams_example =
    dispatch_all-streams batches (thread (inbox_of batches [])) [] messages_on part_on
      two_sessions-IsPaired
      (
        (session_9, refl),
        ((record { fd = 6; trader_id = 8; recv_buffer = [] }, refl), ((session_9, refl), tt)),
      )
      refl batches-Carries

abbrev bytes_for_9 : Event
bytes_for_9 = record { fd = 5; hup = false; err = false; readable = true }

abbrev hang_up_of_8 : Event
hang_up_of_8 = record { fd = 6; hup = true; err = false; readable = true }

-- One round with an event on each descriptor: bytes for trader 9, and trader 8 hung up.
abbrev rounds : List (Round EpollThread)
rounds =
    record { meanwhile = λ t. t; running = true; events = bytes_for_9 ∷ hang_up_of_8 ∷ [] }
    ∷ record { meanwhile = λ t. t; running = false; events = [] }
    ∷ []

abbrev after_rounds : EpollThread
after_rounds = record {
  sessions = remove 6 (
      put_session 5 session_9
        (put_session 5 (record session_9 { recv_buffer = login }) two_sessions));
  pushed = raw_message 9 7 login ∷ [];
  calls = close_fd 6 ∷ [];
  inbox = [];
}

rounds_run :
    run_epoll_thread rounds (thread (received login ∷ recv_error eagain ∷ [])) ≡ done after_rounds
unfolding run_epoll_thread run dispatch_all dispatch_event call_back on_data on_disconnect
    receive_all append_received frame_session get_session add insert new_sessions empty_map
    frame_all header_length read_bytes take drop raw_message is_failure remove erase replicate
rounds_run = refl

-- Trader 7 logs in on descriptor 8, bytes come for trader 9, and trader 8 hangs up.
abbrev login_of_7 : List ℕ
login_of_7 = 7 ∷ 0 ∷ 4 ∷ 7 ∷ 0 ∷ 0 ∷ 0 ∷ []

abbrev logged_in : EpollThread
logged_in = thread (received login ∷ recv_error eagain ∷ [])

abbrev with_7 : EpollThread
with_7 = record logged_in { sessions = (on_accept 8 login_of_7 two_sessions).0 }

abbrev event_of : Event → EpollThread → EpollThread
event_of ev t = elim (served_event ev t) [ done u ↦ u | fault ↦ t | out_of_fuel ↦ t ]

-- The HUP of descriptor 6 leaves no session there.
hung_up : get_session 6 after_rounds.sessions ≡ none
unfolding get_session remove add insert erase new_sessions
hung_up = refl
