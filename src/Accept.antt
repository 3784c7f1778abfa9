-- ===== src/Accept.antt =====
-- src/thread_accept.cpp: the login of a new connection, and the login messages of
-- net/include/protocol.hpp. What `recvRaw` read is a list of at most 7 bytes; a send is an entry of a
-- list. The registration with epoll is a system call.
pub mod Login
pub mod Server
pub mod Tests
use exchnage_simulator.Prelude.{ℕ, Bool, List, [], ◌∷◌, ◌++◌, ◌==◌, length, if◌then◌else◌}
use exchnage_simulator.Sessions.{SessionManager, add}
use exchnage_simulator.Wire.{
  MsgType, MsgHeader, login_request, login_response, header_bytes, read_header,
}
use exchnage_simulator.Wire.Bytes.{to_bytes, read_bytes}

pub record LoginRequestMsg : Type 0 where
  pub header : MsgHeader
  pub trader_id : ℕ

abbrev pub login_request_size : ℕ
login_request_size = 7

unfoldable pub login_request_bytes : LoginRequestMsg → List ℕ
login_request_bytes m = header_bytes m.header ++ to_bytes 4 m.trader_id

unfoldable pub read_login_request : List ℕ → LoginRequestMsg
read_login_request bs =
    let h = read_header bs in record { header = h.0; trader_id = (read_bytes 4 h.1).0 }

-- `resp` with `accepted` true.
unfoldable pub login_response_bytes : List ℕ
login_response_bytes = header_bytes (record { length = 4; type = login_response }) ++ to_bytes 1 1

-- What the callback does with the sessions, and what it sends.
abbrev pub Accepted : Type 0
Accepted = SessionManager × List (ℕ × List ℕ)

unfoldable pub log_in : MsgType → ℕ → ℕ → SessionManager → Accepted
log_in login_request fd trader m = (add fd trader m, (fd, login_response_bytes) ∷ [])
log_in _ fd trader m = (m, [])

unfoldable pub on_accept : ℕ → List ℕ → SessionManager → Accepted
on_accept fd bs m =
    if length bs == login_request_size
    then (let login = read_login_request bs in log_in login.header.type fd login.trader_id m)
    else (m, [])
