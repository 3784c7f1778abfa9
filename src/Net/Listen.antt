-- ===== src/Net/Listen.antt =====
-- net/src/tcp_server.cpp and net/include/tcp_server.hpp: the listening socket and the accept loop. The
-- results of `socket`, `bind`, `listen` and `accept` are arguments; the handler, which runs in a thread
-- of its own, gets a descriptor and is an entry of a list.
use exchnage_simulator.Prelude.{
  ℕ, Bool, true, false, not, Option, none, some, List, [], ◌∷◌, ◌++◌, if◌then◌else◌, Outcome, done,
  out_of_fuel, ◌>>=◌,
}
use exchnage_simulator.Net.{TcpSocket, empty_socket, socket_of}

pub record TcpServer : Type 0 where
  pub listen_socket : TcpSocket
  pub running : Bool
  -- the descriptors that `close` was called with
  pub closed : List ℕ

unfoldable pub new_server : TcpServer
new_server = record { listen_socket = empty_socket; running = false; closed = [] }

-- `TcpSocket::close` of the listening socket
unfoldable pub close_listening : TcpServer → TcpServer
close_listening s = elim s.listen_socket.fd [
  | none ↦ s
  | some fd ↦ record s { listen_socket = empty_socket; closed = s.closed ++ (fd ∷ []) }
]

-- How `setup` ends: it returns, or throws.
pub data SetUp : Type 0 where
  listening no_socket no_bind no_listen : SetUp

unfoldable pub setup : Option ℕ → Bool → Bool → TcpServer → SetUp × TcpServer
setup none binds listens s = (no_socket, s)
setup (some fd) binds listens s =
    let t = record (close_listening s) { listen_socket = socket_of fd } in
    if not binds then (no_bind, t) else if not listens then (no_listen, t) else (listening, t)

-- A round: what `running` is when the loop tests it, what `accept` gives, and what `running` is after a
-- failed `accept`.
pub record AcceptRound : Type 0 where
  pub running : Bool
  pub accepted : Option ℕ
  pub still_running : Bool

-- `while (running)`: the descriptors that a handler was started for, in order.
unfoldable pub accept_loop : List AcceptRound → Outcome (List ℕ)
accept_loop [] = out_of_fuel
accept_loop (r ∷ rounds) = elim r.running [
  | true ↦ elim r.accepted [
    | none ↦ (if r.still_running then accept_loop rounds else done [])
    | some fd ↦ (accept_loop rounds >>= λ fds. done (fd ∷ fds))
  ]
  | false ↦ done []
]

unfoldable pub start :
    Option ℕ → Bool → Bool → List AcceptRound → TcpServer → Outcome (SetUp × TcpServer × List ℕ)
start fd binds listens rounds s =
    let (how, t) = setup fd binds listens s in
    elim how [
      | listening ↦
          (accept_loop rounds >>= λ fds. done (listening, record t { running = true }, fds))
      | no_socket ↦ done (no_socket, t, [])
      | no_bind ↦ done (no_bind, t, [])
      | no_listen ↦ done (no_listen, t, [])
    ]

-- `stop`, which the destructor calls too.
unfoldable pub stop : TcpServer → TcpServer
stop s = close_listening (record s { running = false })
