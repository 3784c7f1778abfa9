-- ===== src/Epoll.antt =====
-- src/thread_epoll.cpp: the two callbacks of the epoll thread, and net/src/epoll_mgr.cpp: the event
-- loop that calls them. What epoll_wait and recv return is data that the loop is given, in the order of
-- the calls; a list that ends early is a call that has not returned. The calls epoll_ctl and close, and
-- the pushes to the queue, are entries of lists. The sessions are those of SessionManager, and a
-- session pointer is good as long as there is a session under its descriptor.
pub mod Receiving
pub mod Streams
pub mod Turns
pub mod Delivery
pub mod Events
pub mod Shared
pub mod Tests
use exchnage_simulator.Prelude.{
  ℕ, suc, Bool, true, false, ◌||◌, not, ltb, if◌then◌else◌, Option, none, some, List, [], ◌∷◌, ◌++◌,
  length, insert, Outcome, done, fault, out_of_fuel, ◌>>=◌, deref,
}
use exchnage_simulator.Sessions.{ClientSession, SessionManager, get_session, remove}
use exchnage_simulator.Net.{
  ErrNo, eagain, ewouldblock, other_errno, Received, received, end_of_stream, recv_error,
}
use exchnage_simulator.Framing.{RawMessage, frame_all}

pub data SysCall : Type 0 where
  epoll_del : ℕ → SysCall
  close_fd : ℕ → SysCall

pub record EpollThread : Type 0 where
  pub sessions : SessionManager
  pub pushed : List RawMessage
  pub calls : List SysCall
  -- what the calls of `recv` to come return
  pub inbox : List Received

abbrev pub put_session : ℕ → ClientSession → SessionManager → SessionManager
put_session fd s m = record m { sessions = insert fd s m.sessions }

-- `errno != EAGAIN && errno != EWOULDBLOCK`
unfoldable pub is_failure : ErrNo → Bool
is_failure eagain = false
is_failure ewouldblock = false
is_failure (other_errno n) = true

-- `epoll.remove(fd); sessions.remove(fd); ::close(fd);`
unfoldable pub drop_client : ℕ → EpollThread → EpollThread
drop_client fd t = record t {
  sessions = remove fd t.sessions;
  calls = t.calls ++ (epoll_del fd ∷ close_fd fd ∷ []);
}

-- `session->recvBuffer.insert(session->recvBuffer.end(), buf, buf + n)`
unfoldable pub append_received : ℕ → List ℕ → SessionManager → Outcome SessionManager
append_received fd bs m =
    (deref (get_session fd m) >>= λ s.
    done (put_session fd (record s { recv_buffer = s.recv_buffer ++ bs }) m))

-- The loop over `recv`. Its list is the thread's inbox.
unfoldable pub receive_all : ℕ → List Received → EpollThread → Outcome EpollThread
receive_all fd [] t = out_of_fuel
receive_all fd (received bs ∷ rest) t =
    (append_received fd bs t.sessions >>= λ m. receive_all fd rest (record t { sessions = m }))
receive_all fd (end_of_stream ∷ rest) t = done (drop_client fd (record t { inbox = rest }))
receive_all fd (recv_error e ∷ rest) t =
    done (
      if is_failure e
      then drop_client fd (record t { inbox = rest })
      else record t { inbox = rest })

-- The loop that frames what is in the buffer of the session. It gets a round for each byte.
unfoldable pub frame_session : ℕ → EpollThread → Outcome EpollThread
frame_session fd t =
    (deref (get_session fd t.sessions) >>= λ s.
    frame_all (suc (length s.recv_buffer)) s.trader_id s.recv_buffer >>= λ r. done (record t {
      sessions = put_session fd (record s { recv_buffer = r.1 }) t.sessions;
      pushed = t.pushed ++ r.0;
    }))

unfoldable pub on_data : ℕ → EpollThread → Outcome EpollThread
on_data fd t = elim (get_session fd t.sessions) [
  | none ↦ done t
  | some s ↦ (receive_all fd t.inbox t >>= frame_session fd)
]

unfoldable pub on_disconnect : ℕ → EpollThread → Outcome EpollThread
on_disconnect fd t =
    done (record t { sessions = remove fd t.sessions; calls = t.calls ++ (close_fd fd ∷ []) })

-- net/src/epoll_mgr.cpp. The bits of `ev` that the code tests.
pub record Event : Type 0 where
  pub fd : ℕ
  pub hup : Bool
  pub err : Bool
  pub readable : Bool

-- What other threads did to the shared state since the last round, the value of `running` when the
-- loop reads it, and the events that `epoll_wait` then gives, which are none if it fails.
pub record Round (S : Type 0) : Type 0 where
  pub meanwhile : S → S
  pub running : Bool
  pub events : List Event

-- A `std::function` may be empty.
abbrev pub EpollCallback : Type 0 → Type 0
EpollCallback S = Option (ℕ → S → Outcome S)

module _ {S : Type 0} where
  unfoldable pub call_back : EpollCallback S → ℕ → S → Outcome S
  call_back none fd s = done s
  call_back (some f) fd s = f fd s

  module _ (on_data on_disconnect : EpollCallback S) where
    unfoldable pub dispatch_event : Event → S → Outcome S
    dispatch_event ev s =
        if ev.hup || ev.err
        then call_back on_disconnect ev.fd s
        else if ev.readable
        then call_back on_data ev.fd s
        else done s

    unfoldable pub dispatch_all : List Event → S → Outcome S
    dispatch_all [] s = done s
    dispatch_all (ev ∷ evs) s = dispatch_event ev s >>= dispatch_all evs

    unfoldable pub run : List (Round S) → S → Outcome S
    run [] s = out_of_fuel
    run (r ∷ rs) s =
        let s1 = r.meanwhile s in
        elim r.running [ true ↦ (dispatch_all r.events s1 >>= run rs) | false ↦ done s1 ]

-- `runEpollThread`
unfoldable pub run_epoll_thread : List (Round EpollThread) → EpollThread → Outcome EpollThread
run_epoll_thread = run (some on_data) (some on_disconnect)
