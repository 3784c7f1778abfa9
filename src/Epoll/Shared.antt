-- ===== src/Epoll/Shared.antt =====
-- The sessions as the epoll thread and the accept thread share them.
use exchnage_simulator.Prelude.{ℕ, ◌≡◌, none, List, done}
use exchnage_simulator.Sessions.{get_session, get_fd}
use exchnage_simulator.Net.{Received}
use exchnage_simulator.Accept.{read_login_request, on_accept}
use exchnage_simulator.Epoll.{EpollThread, Event}
use exchnage_simulator.Epoll.Events.{served_event}

-- The states that come up from `t`, in any order of: a connection on a descriptor without a session,
-- with any bytes, whose trader has no descriptor yet; new results of `recv`; and an event that the
-- epoll thread serves to its end.
pub data Reached (t : EpollThread) : EpollThread → Type 0 where
  begins : Reached t t
  accepts :
      {u : EpollThread} (fd : ℕ) (bs : List ℕ)
      → Reached t u
      → get_session fd u.sessions ≡ none
      → get_fd (read_login_request bs).trader_id u.sessions ≡ none
      → Reached t (record u { sessions = (on_accept fd bs u.sessions).0 })
  receives :
      {u : EpollThread} (rs : List Received) → Reached t u → Reached t (record u { inbox = rs })
  serves : {u v : EpollThread} (ev : Event) → Reached t u → served_event ev u ≡ done v → Reached t v
