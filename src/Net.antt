-- ===== src/Net.antt =====
-- net/src/tcp_socket.cpp and net/include/tcp_socket.hpp: the owner of a descriptor, and what the
-- socket calls return. `mFd` is `none` where the code has -1. A program's socket objects are numbered,
-- and which descriptors are open is the state of the system, where closing one that is not open is a
-- fault. What `send` and `recv` return is an argument.
pub mod Owners
pub mod Ownership
pub mod Connect
pub mod Listen
pub mod Tests
use exchnage_simulator.Prelude.{
  ℕ, Bool, true, false, ◌==◌, if◌then◌else◌, Option, none, some, List, Map, Outcome, done, fault,
  ◌>>=◌,
}

-- `errno` after a failed `recv`.
pub data ErrNo : Type 0 where
  eagain ewouldblock : ErrNo
  other_errno : ℕ → ErrNo

-- What `recv` returns: a count and that many bytes, 0, or -1.
pub data Received : Type 0 where
  received : List ℕ → Received
  end_of_stream : Received
  recv_error : ErrNo → Received

-- What `send` returns: a count, or -1.
pub data Sent : Type 0 where
  sent : ℕ → Sent
  send_error : Sent

pub record TcpSocket : Type 0 where
  pub fd : Option ℕ

unfoldable pub empty_socket : TcpSocket
empty_socket = record { fd = none }

unfoldable pub socket_of : ℕ → TcpSocket
socket_of fd = record { fd = some fd }

unfoldable pub is_valid : TcpSocket → Bool
is_valid s = elim s.fd [ none ↦ false | some fd ↦ true ]

-- `-1` without a call if the socket is empty.
unfoldable pub send_raw : Sent → TcpSocket → Sent
send_raw r s = elim s.fd [ none ↦ send_error | some fd ↦ r ]

-- `errno` is then what an earlier call left.
unfoldable pub recv_raw : ErrNo → Received → TcpSocket → Received
recv_raw before r s = elim s.fd [ none ↦ recv_error before | some fd ↦ r ]

-- The socket objects of the program, and the descriptors that are open.
pub record Sockets : Type 0 where
  pub objects : ℕ → TcpSocket
  pub is_open : ℕ → Bool

unfoldable pub store_object : ℕ → TcpSocket → (ℕ → TcpSocket) → ℕ → TcpSocket
store_object i x m j = if i == j then x else m j

unfoldable pub mark : ℕ → Bool → (ℕ → Bool) → ℕ → Bool
mark fd b open_now d = if fd == d then b else open_now d

-- `::close(fd)`
unfoldable pub close_fd : ℕ → Sockets → Outcome Sockets
close_fd fd s =
    if s.is_open fd then done (record s { is_open = mark fd false s.is_open }) else fault

-- A system call opens `fd`, and `TcpSocket(fd)` makes object `i` its owner.
unfoldable pub open_object : ℕ → ℕ → Sockets → Sockets
open_object i fd s = record {
  objects = store_object i (socket_of fd) s.objects;
  is_open = mark fd true s.is_open;
}

-- `close`, which the destructor calls too.
unfoldable pub close_object : ℕ → Sockets → Outcome Sockets
close_object i s = elim (s.objects i).fd [
  | none ↦ done s
  | some fd ↦
      (close_fd fd s >>= λ t. done (record t { objects = store_object i empty_socket t.objects }))
]

-- `mFd = other.mFd; other.mFd = -1`
unfoldable pub take_over : ℕ → ℕ → Sockets → Sockets
take_over i j s = record s {
  objects = store_object j empty_socket (store_object i (s.objects j) s.objects);
}

-- The move assignment.
unfoldable pub assign_object : ℕ → ℕ → Sockets → Outcome Sockets
assign_object i j s = if i == j then done s else close_object i s >>= λ t. done (take_over i j t)

unfoldable pub release_object : ℕ → Sockets → Option ℕ × Sockets
release_object i s =
    ((s.objects i).fd, record s { objects = store_object i empty_socket s.objects })
